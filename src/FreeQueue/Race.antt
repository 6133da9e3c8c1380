-- ===== src/FreeQueue/Race.antt =====
-- include/base/FreeQueue.h: a call of Push and a call of Pop that take turns.
use echo_server_cpp.Prelude.{
  ℕ, zero, suc, ◌≡◌, refl, ◌∙◌, Bool, true, false, none, some, List, [], ◌∷◌, map, replicate, arith,
  ◌==◌,
}
use echo_server_cpp.Prelude.Assoc.{lookup, update, erase, lookup-update, lookup-erase}
use echo_server_cpp.FreeQueue.{
  FreeQueue, Push, reading, linking, advancing, pushed, Pop, looking, following, taking, checking,
  spinning, freeing, popped, swap_next, swap_tail, begin_push, push_step, first_node, checked,
  pop_step, pop_steps, interleave,
}
use echo_server_cpp.FreeQueue.Chain.{apart, node, Chain, Distinct, last_of}
use echo_server_cpp.FreeQueue.Steps.{
  link_step, pop_next, stays_popped, look_step, follow_step, take_step, check_step, free_step,
}
use echo_server_cpp.FreeQueue.Fifo.{Holds, Chain-Away, tail_step}

-- Schedules of a call of Push and a call of Pop.
abbrev pub lost_turns : ℕ → List Bool
lost_turns k = true ∷ false ∷ false ∷ false ∷ false ∷ true ∷ true ∷ replicate k false

abbrev pub deleted_turns : List Bool
deleted_turns = true ∷ false ∷ false ∷ false ∷ false ∷ false ∷ false ∷ true ∷ []

module _ {ℓ} {A : Type ℓ} where
  -- A queue with one element `x`, at the address `p`, while the node `n` waits to be hung behind it.
  record One (q : FreeQueue A) (x y : A) (n p : ℕ) (junk : A) : Type ℓ where
    at_head : lookup q.head q.nodes ≡ some (node junk (some p))
    at_first : lookup p q.nodes ≡ some (node x none)
    at_new : lookup n q.nodes ≡ some (node y none)
    first_apart : (p == q.head) ≡ false
    new_apart : (p == n) ≡ false
    head_apart : (q.head == n) ≡ false
    tail : q.tail ≡ p

  -- After begin_push on a queue with one element.
  begin_push-One :
      (q : FreeQueue A) (x y : A) (n : ℕ)
      → Holds q (x ∷ [])
      → lookup n q.nodes ≡ none
      → (p : ℕ) × (junk : A) × One (begin_push n y q).1 x y n p junk
  unfolding begin_push
  begin_push-One q x y n h fresh = from h.cells h.chain h.distinct h.tail h.values
    where
      from :
          (cells : List (ℕ × A))
          → Chain q.nodes (some q.head) ((q.head, h.junk) ∷ cells)
          → Distinct ((q.head, h.junk) ∷ cells)
          → q.tail ≡ last_of q.head cells
          → map (λ (c : ℕ × A). c.1) cells ≡ x ∷ []
          → (p : ℕ) × (junk : A) × One (begin_push n y q).1 x y n p junk
      from [] c d t e = cc
      from ((p, z) ∷ (r, w) ∷ cells) c d t e = cc
      from ((p, z) ∷ []) c d t e =
          let away = Chain-Away q.nodes (some q.head) ((q.head, h.junk) ∷ (p, z) ∷ []) n fresh c in
          let (_, (link, f, (l, (next, g, (m, _))))) = c in
          let same : (n == n) ≡ true = ground arith in
          let value : z ≡ x = cc e in
          (
            p,
            h.junk,
            record {
              at_head =
                  lookup-update n q.head (node y none) q.nodes
                  ∙ rw (apart q.head n away.0) (rw l at f);
              at_first =
                  lookup-update n p (node y none) q.nodes
                  ∙ rw (apart p n away.1.0, ← value) (rw m at g);
              at_new = lookup-update n n (node y none) q.nodes ∙ rw same refl;
              first_apart = d.0.0;
              new_apart = away.1.0;
              head_apart = away.0;
              tail = t;
            },
          )

  push_turn :
      (turns : List Bool) (a a' : Push) (b : Pop A) (q u : FreeQueue A)
      → push_step (a, q) ≡ some (a', u)
      → interleave (true ∷ turns) ((a, b), q) ≡ interleave turns ((a', b), u)
  unfolding interleave
  push_turn turns a a' b q u e = rw (interleave, e) refl

  pop_turn :
      (turns : List Bool) (a : Push) (b b' : Pop A) (q u : FreeQueue A)
      → pop_step (b, q) ≡ some (b', u)
      → interleave (false ∷ turns) ((a, b), q) ≡ interleave turns ((a, b'), u)
  unfolding interleave
  pop_turn turns a b b' q u e = rw (interleave, e) refl

  -- Push reads the tail, and then Pop takes the node there out and finds the queue empty.
  race_front :
      (turns : List Bool) (q : FreeQueue A) (x y : A) (n p : ℕ) (junk : A)
      → One q x y n p junk
      → interleave (true ∷ false ∷ false ∷ false ∷ false ∷ turns) ((reading n, looking), q)
        ≡ interleave turns
            ((linking n p, spinning p), record q { nodes = update q.head (node junk none) q.nodes })
  unfolding push_step first_node checked
  race_front turns q x y n p junk o =
      let u = record q { nodes = update q.head (node junk none) q.nodes } in
      let same : (q.head == q.head) ≡ true = ground arith in
      let l = linking n p in
      push_turn (false ∷ false ∷ false ∷ false ∷ turns) (reading n) l looking q q (rw o.tail refl)
      ∙ pop_turn (false ∷ false ∷ false ∷ turns) l looking (following p) q q
          (look_step junk (some p) q o.at_head)
      ∙ pop_turn (false ∷ false ∷ turns) l (following p) (taking p none) q q
          (follow_step p x none q o.at_first)
      ∙ pop_turn (false ∷ turns) l (taking p none) (checking p) q u
          (take_step p junk none q o.at_head)
      ∙ pop_turn turns l (checking p) (spinning p) u u (
          check_step p junk none u
            (lookup-update q.head q.head (node junk none) q.nodes ∙ rw same refl))

  spins :
      (k p : ℕ) (u : FreeQueue A)
      → (u.tail == p) ≡ false
      → interleave (replicate k false) ((pushed, spinning p), u) ≡ some ((pushed, spinning p), u)
  unfolding interleave pop_step swap_tail
  spins zero p u e = refl
  spins (suc k) p u e =
      pop_turn (replicate k false) pushed (spinning p) (spinning p) u u
        (rw (pop_step, swap_tail, e) refl)
      ∙ spins k p u e

  -- On a queue with one element, where the new node stands at an address of its own, a call of Push
  -- and one of Pop can take turns so that the call of Push ends, but its element is lost: the call of
  -- Pop is still in the loop that moves the tail back, after any number of further steps of it, and
  -- another call of Pop, uninterrupted, returns 0 and changes nothing.
  pub push_lost :
      (k n : ℕ) (x y : A) (q : FreeQueue A)
      → Holds q (x ∷ [])
      → lookup n q.nodes ≡ none
      → (p : ℕ) × (u : FreeQueue A) × (interleave
            (lost_turns k)
            (((begin_push n y q).0, looking), (begin_push n y q).1)
          ≡ some ((pushed, spinning p), u))
        × (pop_steps (suc k) (looking, u) ≡ some (popped none, u))
  unfolding begin_push push_step swap_tail first_node
  push_lost k n x y q h fresh =
      let (p, junk, o) = begin_push-One q x y n h fresh in
      let q₁ = (begin_push n y q).1 in
      let u = record q₁ { nodes = update q.head (node junk none) q₁.nodes } in
      let v = record u { nodes = update p (node x (some n)) u.nodes } in
      let w = record v { tail = n } in
      let same : (q.head == q.head) ≡ true = ground arith in
      let here : (q.tail == p) ≡ true = (let t = o.tail in ground arith) in
      let at_p : lookup p u.nodes ≡ some (node x none) =
        lookup-update q.head p (node junk none) q₁.nodes
        ∙ rw (apart p q.head o.first_apart) o.at_first in
      let at_head : lookup q.head w.nodes ≡ some (node junk none) =
        lookup-update p q.head (node x (some n)) u.nodes
        ∙ rw o.first_apart (lookup-update q.head q.head (node junk none) q₁.nodes ∙ rw same refl) in
      (
        p,
        w,
        race_front (true ∷ true ∷ replicate k false) q₁ x y n p junk o
            ∙ push_turn (true ∷ replicate k false) (linking n p) (advancing n p) (spinning p) u v
                (link_step n p x u at_p)
            ∙ push_turn (replicate k false) (advancing n p) pushed (spinning p) v w (rw here refl)
            ∙ spins k p w (apart p n o.new_apart),
        pop_next k (looking, w) (popped none, w) (look_step junk none w at_head)
            ∙ stays_popped k none w,
      )

  -- On a queue with one element, a call of Push and one of Pop can take turns so that Push uses the
  -- node that Pop has deleted, where the new node stands at an address of its own.
  pub push_deleted :
      (n : ℕ) (x y : A) (q : FreeQueue A)
      → Holds q (x ∷ [])
      → lookup n q.nodes ≡ none
      → interleave deleted_turns (((begin_push n y q).0, looking), (begin_push n y q).1) ≡ none
  unfolding begin_push push_step swap_next interleave
  push_deleted n x y q h fresh =
      let (p, junk, o) = begin_push-One q x y n h fresh in
      let q₁ = (begin_push n y q).1 in
      let u = record q₁ { nodes = update q.head (node junk none) q₁.nodes } in
      let v = record u { tail = q.head } in
      let w = record v { nodes = erase p v.nodes } in
      let same : (p == p) ≡ true = ground arith in
      let at_p : lookup p u.nodes ≡ some (node x none) =
        lookup-update q.head p (node junk none) q₁.nodes
        ∙ rw (apart p q.head o.first_apart) o.at_first in
      let gone : lookup p w.nodes ≡ none = lookup-erase p p u.nodes ∙ rw same refl in
      race_front (false ∷ false ∷ true ∷ []) q₁ x y n p junk o
      ∙ pop_turn (false ∷ true ∷ []) (linking n p) (spinning p) (freeing p) u v
          (tail_step p u o.tail)
      ∙ pop_turn (true ∷ []) (linking n p) (freeing p) (popped (some x)) v w
          (free_step p x none v at_p)
      ∙ rw (interleave, push_step, swap_next, gone) refl

-- ===== src/FreeQueue/Fifo.antt =====
-- include/base/FreeQueue.h: the queue in the hands of one thread, against a plain list.
use echo_server_cpp.Prelude.{
  ℕ, suc, ◌≡◌, refl, sym, ap, subst, ◌∙◌, true, false, Bool-cases, inl, inr, Option, none, some,
  List, [], ◌∷◌, ◌++◌, map, arith, ◌==◌,
}
use echo_server_cpp.Prelude.Assoc.{lookup, update, erase, lookup-update, lookup-erase}
use echo_server_cpp.FreeQueue.{
  Node, FreeQueue, pushed, looking, spinning, freeing, popped, make, swap_tail, begin_push,
  first_node, checked, pop_step, push_steps, pop_steps,
}
use echo_server_cpp.FreeQueue.Steps.{
  push_run, stays_pushed, pop_next, stays_popped, look_step, free_step, taken, pop_head,
}
use echo_server_cpp.FreeQueue.Chain.{
  apart, node, Chain, Away, Distinct, last_of, Chain-update, Chain-erase, Chain-append,
}

-- The queue holds these values: from the node that is no element on, the links lead through distinct
-- nodes with the values, and the tail is the last of them.
pub record Holds {ℓ} {A : Type ℓ} (q : FreeQueue A) (xs : List A) : Type ℓ where
  pub junk : A
  pub cells : List (ℕ × A)
  pub chain : Chain q.nodes (some q.head) ((q.head, junk) ∷ cells)
  pub distinct : Distinct ((q.head, junk) ∷ cells)
  pub tail : q.tail ≡ last_of q.head cells
  pub values : map (λ (c : ℕ × A). c.1) cells ≡ xs

module _ {ℓ} {A : Type ℓ} where
  pub make-Holds : (p : ℕ) (junk : A) → Holds (make p junk) []
  unfolding make lookup
  make-Holds p junk =
      let same : (p == p) ≡ true = ground arith in
      record {
        junk = junk;
        cells = [];
        chain = (refl, (none, rw same refl, (refl, tt)));
        distinct = (tt, tt);
        tail = refl;
        values = refl;
      }

  -- An address where no node stands is away from all nodes of a chain.
  pub Chain-Away :
      (nodes : List (ℕ × Node A)) (link : Option ℕ) (cells : List (ℕ × A)) (n : ℕ)
      → lookup n nodes ≡ none
      → Chain nodes link cells
      → Away n cells
  Chain-Away nodes link [] n h c = tt
  Chain-Away nodes link ((a, x) ∷ cells) n h (e, (next, f, c)) = elim (Bool-cases (a == n)) [
    | inl b ↦ let z : a ≡ n = ground arith in cc (f, ap (λ (k : ℕ). lookup k nodes) z, h)
    | inr b ↦ (b, Chain-Away nodes next cells n h c)
  ]

  Away-snoc :
      (p : ℕ) (cells : List (ℕ × A)) (n : ℕ) (x : A)
      → Away p cells
      → (n == p) ≡ false
      → Away p (cells ++ (n, x) ∷ [])
  Away-snoc p [] n x h e = (e, tt)
  Away-snoc p ((a, y) ∷ cells) n x h e = (h.0, Away-snoc p cells n x h.1 e)

  Distinct-snoc :
      (cells : List (ℕ × A)) (n : ℕ) (x : A)
      → Distinct cells
      → Away n cells
      → Distinct (cells ++ (n, x) ∷ [])
  Distinct-snoc [] n x d h = (tt, tt)
  Distinct-snoc ((a, y) ∷ cells) n x d h =
      (Away-snoc a cells n x d.0 (apart a n h.0), Distinct-snoc cells n x d.1 h.1)

  last-snoc : (h : ℕ) (cells : List (ℕ × A)) (n : ℕ) (x : A) → last_of h (cells ++ (n, x) ∷ []) ≡ n
  last-snoc h [] n x = refl
  last-snoc h ((a, y) ∷ cells) n x = last-snoc a cells n x

  values-snoc :
      (cells : List (ℕ × A)) (n : ℕ) (x : A)
      → map (λ (c : ℕ × A). c.1) (cells ++ (n, x) ∷ []) ≡ map (λ (c : ℕ × A). c.1) cells ++ x ∷ []
  values-snoc [] n x = refl
  values-snoc ((a, y) ∷ cells) n x = ap (◌∷◌ y) (values-snoc cells n x)

  -- A call of Push that nobody interrupts ends after three steps, and its element is the last one.
  pub push-Holds :
      (k n : ℕ) (x : A) (xs : List A) (q : FreeQueue A)
      → lookup n q.nodes ≡ none
      → Holds q xs
      → (u : FreeQueue A) × (push_steps (suc (suc (suc k))) (begin_push n x q) ≡ some (pushed, u))
        × Holds u (xs ++ x ∷ [])
  push-Holds k n x xs q h r =
      let cells = (q.head, r.junk) ∷ r.cells in
      let away = Chain-Away q.nodes (some q.head) cells n h r.chain in
      let nodes = update n (node x none) q.nodes in
      let same : (n == n) ≡ true = ground arith in
      let (w, f, c) =
        Chain-append nodes (some q.head) q.head r.junk r.cells n x
          (Chain-update q.nodes (some q.head) cells n (node x none) away r.chain) r.distinct away
          (lookup-update n n (node x none) q.nodes ∙ rw same refl) in
      (
        record q { nodes = update q.tail (node w (some n)) nodes; tail = n },
        push_run k n x w q (rw r.tail f) ∙ stays_pushed k _,
        record {
          junk = r.junk;
          cells = r.cells ++ (n, x) ∷ [];
          chain =
              subst
                (λ (p : ℕ).
                  Chain (update p (node w (some n)) nodes) (some q.head) (cells ++ (n, x) ∷ []))
                (sym r.tail) c;
          distinct = Distinct-snoc cells n x r.distinct away;
          tail = sym (last-snoc q.head r.cells n x);
          values = values-snoc r.cells n x ∙ ap (λ (t : List A). t ++ x ∷ []) r.values;
        },
      )

  -- What is left when the node at `p` is out and deleted.
  left_Holds :
      (p : ℕ) (junk x : A) (next : Option ℕ) (cells : List (ℕ × A)) (q : FreeQueue A) (tail : ℕ)
      → Chain q.nodes next cells
      → Distinct ((q.head, junk) ∷ (p, x) ∷ cells)
      → tail ≡ last_of q.head cells
      → Holds
          (record q { nodes = erase p (update q.head (node junk next) q.nodes); tail = tail })
          (map (λ (c : ℕ × A). c.1) cells)
  left_Holds p junk x next cells q tail c d t =
      let same : (q.head == q.head) ≡ true = ground arith in
      let u = update q.head (node junk next) q.nodes in
      record {
        junk = junk;
        cells = cells;
        chain = (
          refl,
          (
            next,
            lookup-erase p q.head u
                ∙ rw d.0.0 (lookup-update q.head q.head (node junk next) q.nodes ∙ rw same refl),
            Chain-erase u next cells p d.1.0
                (Chain-update q.nodes next cells q.head (node junk next) d.0.1 c),
          ),
        );
        distinct = (d.0.1, d.1.1);
        tail = t;
        values = refl;
      }

  pub tail_step :
      (p : ℕ) (q : FreeQueue A)
      → q.tail ≡ p
      → pop_step (spinning p, q) ≡ some (freeing p, record q { tail = q.head })
  unfolding pop_step swap_tail
  tail_step p q e =
      let same : (q.tail == p) ≡ true = ground arith in rw (pop_step, swap_tail, same) refl

  -- The first node comes out.
  pop-cells :
      (k p : ℕ) (junk x : A) (cells : List (ℕ × A)) (q : FreeQueue A)
      → Chain q.nodes (some q.head) ((q.head, junk) ∷ (p, x) ∷ cells)
      → Distinct ((q.head, junk) ∷ (p, x) ∷ cells)
      → q.tail ≡ last_of p cells
      → (u : FreeQueue A) × (pop_steps (suc (suc (suc (suc (suc (suc k)))))) (looking, q)
          ≡ some (popped (some x), u))
        × Holds u (map (λ (c : ℕ × A). c.1) cells)
  unfolding checked taken
  pop-cells k p junk x [] q (_, (link, e, (l, (next, f, c)))) d t =
      let f' : lookup p q.nodes ≡ some (node x none) = rw c.0 at f in
      let u = taken p junk none q in
      let v = record u { tail = q.head } in
      let at : lookup p u.nodes ≡ some (node x none) =
        lookup-update q.head p (node junk none) q.nodes ∙ rw (apart p q.head d.0.0) f' in
      (
        record v { nodes = erase p v.nodes },
        pop_head (suc (suc k)) p junk x none q (rw l at e) f'
            ∙ pop_next (suc k) (spinning p, u) (freeing p, v) (tail_step p u t)
            ∙ pop_next k (freeing p, v) _ (free_step p x none v at)
            ∙ stays_popped k (some x) _,
        left_Holds p junk x none [] q q.head (refl, tt) d refl,
      )
  pop-cells k p junk x ((r, y) ∷ cells) q (_, (link, e, (l, (next, f, (n, c))))) d t =
      let f' : lookup p q.nodes ≡ some (node x (some r)) = rw n at f in
      let u = taken p junk (some r) q in
      let at : lookup p u.nodes ≡ some (node x (some r)) =
        lookup-update q.head p (node junk (some r)) q.nodes ∙ rw (apart p q.head d.0.0) f' in
      (
        record u { nodes = erase p u.nodes },
        pop_head (suc (suc k)) p junk x (some r) q (rw l at e) f'
            ∙ pop_next (suc k) (freeing p, u) _ (free_step p x (some r) u at)
            ∙ stays_popped (suc k) (some x) _,
        left_Holds p junk x (some r) ((r, y) ∷ cells) q q.tail (refl, c) d t,
      )

  -- A call of Pop that nobody interrupts ends after six steps, with the first element, or with 0 and
  -- nothing changed where there is none.
  pub pop-Holds :
      (k : ℕ) (x : A) (xs : List A) (q : FreeQueue A)
      → Holds q (x ∷ xs)
      → (u : FreeQueue A) × (pop_steps (suc (suc (suc (suc (suc (suc k)))))) (looking, q)
          ≡ some (popped (some x), u))
        × Holds u xs
  pop-Holds k x xs q h = from h.cells h.chain h.distinct h.tail h.values
    where
      from :
          (cells : List (ℕ × A))
          → Chain q.nodes (some q.head) ((q.head, h.junk) ∷ cells)
          → Distinct ((q.head, h.junk) ∷ cells)
          → q.tail ≡ last_of q.head cells
          → map (λ (c : ℕ × A). c.1) cells ≡ x ∷ xs
          → (u : FreeQueue A) × (pop_steps (suc (suc (suc (suc (suc (suc k)))))) (looking, q)
              ≡ some (popped (some x), u))
            × Holds u xs
      from [] c d t e = cc
      from ((p, y) ∷ cells) c d t e =
          let (u, f, r) = pop-cells k p h.junk y cells q c d t in
          let same : y ≡ x = cc e in
          let rest : map (λ (b : ℕ × A). b.1) cells ≡ xs = cc e in
          (u, rw same at f, subst (Holds u) rest r)

  pub pop-empty :
      (k : ℕ) (q : FreeQueue A)
      → Holds q []
      → pop_steps (suc k) (looking, q) ≡ some (popped none, q)
  unfolding first_node
  pop-empty k q h = from h.cells h.chain h.values
    where
      from :
          (cells : List (ℕ × A))
          → Chain q.nodes (some q.head) ((q.head, h.junk) ∷ cells)
          → map (λ (c : ℕ × A). c.1) cells ≡ []
          → pop_steps (suc k) (looking, q) ≡ some (popped none, q)
      from [] (_, (link, f, c)) e =
          pop_next k (looking, q) (popped none, q) (look_step h.junk none q (rw c.0 at f))
          ∙ stays_popped k none q
      from ((p, y) ∷ cells) c e = cc

-- ===== src/FreeQueue/Steps.antt =====
-- include/base/FreeQueue.h: the steps of Push and Pop where no other thread takes one.
use echo_server_cpp.Prelude.{ℕ, zero, suc, ◌≡◌, refl, ◌∙◌, true, Option, none, some, arith, ◌==◌}
use echo_server_cpp.Prelude.Assoc.{lookup, update, erase, lookup-update}
use echo_server_cpp.FreeQueue.{
  FreeQueue, Push, reading, linking, advancing, pushed, Pop, looking, following, taking, checking,
  freeing, popped, same_link, next_of, swap_next, swap_tail, begin_push, push_step, first_node,
  checked, pop_step, push_steps, pop_steps,
}
use echo_server_cpp.FreeQueue.Chain.{node}

module _ {ℓ} {A : Type ℓ} where
  pub link_step :
      (n p : ℕ) (w : A) (q : FreeQueue A)
      → lookup p q.nodes ≡ some (node w none)
      → push_step (linking n p, q)
        ≡ some (advancing n p, record q { nodes = update p (node w (some n)) q.nodes })
  unfolding push_step swap_next same_link
  link_step n p w q e = rw (push_step, swap_next, e) refl

  pub push_next :
      (k : ℕ) (s u : Push × FreeQueue A)
      → push_step s ≡ some u
      → push_steps (suc k) s ≡ push_steps k u
  unfolding push_steps
  push_next k s u e = rw (push_steps, e) refl

  pub push_run :
      (k n : ℕ) (x w : A) (q : FreeQueue A)
      → lookup q.tail (update n (node x none) q.nodes) ≡ some (node w none)
      → push_steps (suc (suc (suc k))) (begin_push n x q)
        ≡ push_steps k (
          pushed,
          record q {
            nodes = update q.tail (node w (some n)) (update n (node x none) q.nodes);
            tail = n;
          },
        )
  unfolding begin_push push_step swap_tail
  push_run k n x w q e =
      let same : (q.tail == q.tail) ≡ true = ground arith in
      let u = record q { nodes = update n (node x none) q.nodes } in
      let v = record u { nodes = update q.tail (node w (some n)) u.nodes } in
      push_next (suc (suc k)) (reading n, u) (linking n q.tail, u) refl
      ∙ push_next (suc k) (linking n q.tail, u) (advancing n q.tail, v) (link_step n q.tail w u e)
      ∙ push_next k (advancing n q.tail, v) (pushed, record v { tail = n }) (rw same refl)

  pub stays_pushed : (k : ℕ) (q : FreeQueue A) → push_steps k (pushed, q) ≡ some (pushed, q)
  unfolding push_steps push_step
  stays_pushed zero q = refl
  stays_pushed (suc k) q = stays_pushed k q

  pub pop_next :
      (k : ℕ) (s u : Pop A × FreeQueue A)
      → pop_step s ≡ some u
      → pop_steps (suc k) s ≡ pop_steps k u
  unfolding pop_steps
  pop_next k s u e = rw (pop_steps, e) refl

  pub stays_popped :
      (k : ℕ) (y : Option A) (q : FreeQueue A) → pop_steps k (popped y, q) ≡ some (popped y, q)
  unfolding pop_steps pop_step
  stays_popped zero y q = refl
  stays_popped (suc k) y q = stays_popped k y q

  pub look_step :
      (junk : A) (link : Option ℕ) (q : FreeQueue A)
      → lookup q.head q.nodes ≡ some (node junk link)
      → pop_step (looking, q) ≡ some (first_node link, q)
  unfolding pop_step next_of
  look_step junk link q e = rw (pop_step, next_of, e) refl

  pub follow_step :
      (p : ℕ) (x : A) (link : Option ℕ) (q : FreeQueue A)
      → lookup p q.nodes ≡ some (node x link)
      → pop_step (following p, q) ≡ some (taking p link, q)
  unfolding pop_step next_of
  follow_step p x link q e = rw (pop_step, next_of, e) refl

  pub take_step :
      (p : ℕ) (junk : A) (link : Option ℕ) (q : FreeQueue A)
      → lookup q.head q.nodes ≡ some (node junk (some p))
      → pop_step (taking p link, q)
        ≡ some (checking p, record q { nodes = update q.head (node junk link) q.nodes })
  unfolding pop_step swap_next same_link
  take_step p junk link q e =
      let same : (p == p) ≡ true = ground arith in rw (pop_step, swap_next, e, same) refl

  pub check_step :
      (p : ℕ) (junk : A) (link : Option ℕ) (q : FreeQueue A)
      → lookup q.head q.nodes ≡ some (node junk link)
      → pop_step (checking p, q) ≡ some (checked p link, q)
  unfolding pop_step next_of
  check_step p junk link q e = rw (pop_step, next_of, e) refl

  pub free_step :
      (p : ℕ) (x : A) (link : Option ℕ) (q : FreeQueue A)
      → lookup p q.nodes ≡ some (node x link)
      → pop_step (freeing p, q) ≡ some (popped (some x), record q { nodes = erase p q.nodes })
  unfolding pop_step
  free_step p x link q e = rw (pop_step, e) refl

  -- The queue after the first node, at `p`, was taken out and before it is deleted.
  unfoldable pub taken : ℕ → A → Option ℕ → FreeQueue A → FreeQueue A
  taken p junk link q = record q { nodes = update q.head (node junk link) q.nodes }

  pub pop_head :
      (k p : ℕ) (junk x : A) (link : Option ℕ) (q : FreeQueue A)
      → lookup q.head q.nodes ≡ some (node junk (some p))
      → lookup p q.nodes ≡ some (node x link)
      → pop_steps (suc (suc (suc (suc k)))) (looking, q)
        ≡ pop_steps k (checked p link, taken p junk link q)
  unfolding taken first_node
  pop_head k p junk x link q e f =
      let same : (q.head == q.head) ≡ true = ground arith in
      let u = taken p junk link q in
      pop_next (suc (suc (suc k))) (looking, q) (following p, q) (look_step junk (some p) q e)
      ∙ pop_next (suc (suc k)) (following p, q) (taking p link, q) (follow_step p x link q f)
      ∙ pop_next (suc k) (taking p link, q) (checking p, u) (take_step p junk link q e)
      ∙ pop_next k (checking p, u) (checked p link, u)
          (check_step p junk link u
            (lookup-update q.head q.head (node junk link) q.nodes ∙ rw same refl))

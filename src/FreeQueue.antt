-- ===== src/FreeQueue.antt =====
-- include/base/FreeQueue.h: the queue without locks. Nodes stand at addresses; `none` as a link is the
-- null pointer, and `none` as a result is the use of a node that was deleted. Push and Pop are
-- sequences of atomic steps, so that two threads may take turns between any two of them; a step is
-- one access to a pointer that the threads share.
pub mod Chain
pub mod Steps
pub mod Fifo
pub mod Replay
pub mod Race
use echo_server_cpp.Prelude.{
  ℕ, zero, suc, Bool, true, false, Option, none, some, List, [], ◌∷◌, ◌==◌, if◌then◌else◌,
}
use echo_server_cpp.Prelude.Assoc.{lookup, update, erase}

pub record Node {ℓ} (A : Type ℓ) : Type ℓ where
  pub value : A
  pub next : Option ℕ

pub record FreeQueue {ℓ} (A : Type ℓ) : Type ℓ where
  pub nodes : List (ℕ × Node A)
  pub head : ℕ
  pub tail : ℕ

-- Where a call of Push with the new node `n` is: before it reads the tail, before it hangs the node
-- behind `p`, before it moves the tail from `p`, and at its end.
pub data Push : Type 0 where
  reading : ℕ → Push
  linking : ℕ → ℕ → Push
  advancing : ℕ → ℕ → Push
  pushed : Push

-- Where a call of Pop is: before it reads the first node `p`, before it reads the node behind `p`,
-- before it takes `p` out, before it looks whether the queue is empty, in the loop that moves the
-- tail back, before it deletes `p`, and at its end, with `none` where it returns 0.
pub data Pop {ℓ} (A : Type ℓ) : Type ℓ where
  looking : Pop A
  following : ℕ → Pop A
  taking : ℕ → Option ℕ → Pop A
  checking : ℕ → Pop A
  spinning : ℕ → Pop A
  freeing : ℕ → Pop A
  popped : Option A → Pop A

unfoldable pub same_link : Option ℕ → Option ℕ → Bool
same_link none none = true
same_link none (some q) = false
same_link (some p) none = false
same_link (some p) (some q) = p == q

module _ {ℓ} {A : Type ℓ} where
  -- The constructor; `junk` is what stands in the node that is no element.
  unfoldable pub make : ℕ → A → FreeQueue A
  make p junk = record {
    nodes = (p, record { value = junk; next = none }) ∷ [];
    head = p;
    tail = p;
  }

  -- `p->next`.
  unfoldable pub next_of : ℕ → FreeQueue A → Option (Option ℕ)
  next_of p q = elim (lookup p q.nodes) [ none ↦ none | some node ↦ some node.next ]

  -- Compare and swap of `p->next`.
  unfoldable pub swap_next : ℕ → Option ℕ → Option ℕ → FreeQueue A → Option (Bool × FreeQueue A)
  unfolding same_link
  swap_next p old new q = elim (lookup p q.nodes) [
    | none ↦ none
    | some node ↦ some (
        if same_link node.next old
        then (true, record q { nodes = update p (record node { next = new }) q.nodes })
        else (false, q))
  ]

  -- Compare and swap of `_pTail`.
  unfoldable pub swap_tail : ℕ → ℕ → FreeQueue A → Bool × FreeQueue A
  swap_tail old new q = if q.tail == old then (true, record q { tail = new }) else (false, q)

  -- The new node of Push, which no other thread sees yet; `n` is its address.
  unfoldable pub begin_push : ℕ → A → FreeQueue A → Push × FreeQueue A
  begin_push n x q =
      (reading n, record q { nodes = update n (record { value = x; next = none }) q.nodes })

  unfoldable pub push_step : Push × FreeQueue A → Option (Push × FreeQueue A)
  unfolding swap_next swap_tail
  push_step (reading n, q) = some (linking n q.tail, q)
  push_step (linking n p, q) = elim (swap_next p none (some n) q) [
    | none ↦ none
    | some (swapped, u) ↦ some ((if swapped then advancing n p else reading n), u)
  ]
  push_step (advancing n p, q) = some (pushed, (swap_tail p n q).1)
  push_step (pushed, q) = some (pushed, q)

  -- The loop ends where there is no first node.
  unfoldable pub first_node : Option ℕ → Pop A
  first_node none = popped none
  first_node (some p) = following p

  unfoldable pub checked : ℕ → Option ℕ → Pop A
  checked p none = spinning p
  checked p (some r) = freeing p

  unfoldable pub pop_step : Pop A × FreeQueue A → Option (Pop A × FreeQueue A)
  unfolding next_of swap_next swap_tail first_node checked
  pop_step (looking, q) = elim (next_of q.head q) [
    | none ↦ none
    | some link ↦ some (first_node link, q)
  ]
  pop_step (following p, q) = elim (next_of p q) [
    | none ↦ none
    | some link ↦ some (taking p link, q)
  ]
  pop_step (taking p link, q) = elim (swap_next q.head (some p) link q) [
    | none ↦ none
    | some (swapped, u) ↦ some ((if swapped then checking p else looking), u)
  ]
  pop_step (checking p, q) = elim (next_of q.head q) [
    | none ↦ none
    | some link ↦ some (checked p link, q)
  ]
  pop_step (spinning p, q) =
      let (swapped, u) = swap_tail p q.head q in
      some ((if swapped then freeing p else spinning p), u)
  pop_step (freeing p, q) = elim (lookup p q.nodes) [
    | none ↦ none
    | some node ↦ some (popped (some node.value), record q { nodes = erase p q.nodes })
  ]
  pop_step (popped x, q) = some (popped x, q)

  -- `k` steps of one call, when no other thread takes a step between them.
  unfoldable pub push_steps : ℕ → Push × FreeQueue A → Option (Push × FreeQueue A)
  push_steps zero s = some s
  push_steps (suc k) s = elim (push_step s) [ none ↦ none | some u ↦ push_steps k u ]

  unfoldable pub pop_steps : ℕ → Pop A × FreeQueue A → Option (Pop A × FreeQueue A)
  pop_steps zero s = some s
  pop_steps (suc k) s = elim (pop_step s) [ none ↦ none | some u ↦ pop_steps k u ]

  -- A call of Push and one of Pop by two threads; `true` in the schedule is a step of Push.
  unfoldable pub interleave :
      List Bool → (Push × Pop A) × FreeQueue A → Option ((Push × Pop A) × FreeQueue A)
  interleave [] s = some s
  interleave (true ∷ turns) ((a, b), q) = elim (push_step (a, q)) [
    | none ↦ none
    | some (a', u) ↦ interleave turns ((a', b), u)
  ]
  interleave (false ∷ turns) ((a, b), q) = elim (pop_step (b, q)) [
    | none ↦ none
    | some (b', u) ↦ interleave turns ((a, b'), u)
  ]

-- ===== src/FreeQueue/Replay.antt =====
-- include/base/FreeQueue.h: any calls of one thread, against a plain list.
use echo_server_cpp.Prelude.{ℕ, ◌≡◌, refl, Option, none, some, List, [], ◌∷◌, ◌++◌}
use echo_server_cpp.Prelude.Assoc.{lookup}
use echo_server_cpp.FreeQueue.{
  Node, FreeQueue, Push, pushed, Pop, looking, popped, begin_push, push_steps, pop_steps,
}
use echo_server_cpp.FreeQueue.Fifo.{Holds, push-Holds, pop-Holds, pop-empty}

pub data Call {ℓ} (A : Type ℓ) : Type ℓ where
  enqueue : A → Call A
  dequeue : Call A

module _ {ℓ} {A : Type ℓ} where
  -- What the calls return on a plain list, and the list after them.
  abbrev pub replay : List (Call A) → List A → List (Option A) × List A
  replay [] xs = ([], xs)
  replay (enqueue x ∷ calls) xs = replay calls (xs ++ x ∷ [])
  replay (dequeue ∷ calls) [] = (let (ys, zs) = replay calls [] in (none ∷ ys, zs))
  replay (dequeue ∷ calls) (x ∷ xs) = (let (ys, zs) = replay calls xs in (some x ∷ ys, zs))

  finished_push : Option (Push × FreeQueue A) → Option (FreeQueue A)
  finished_push (some (pushed, u)) = some u
  finished_push _ = none

  finished_pop : Option (Pop A × FreeQueue A) → Option (Option A × FreeQueue A)
  finished_pop (some (popped y, u)) = some (y, u)
  finished_pop _ = none

  -- The calls on the queue, one after the other; `none` is a call that does not end within six steps
  -- or uses a deleted node. The address of a new node is `alloc` of the nodes that are there.
  unfoldable pub run :
      (List (ℕ × Node A) → ℕ) → List (Call A) → FreeQueue A → Option (List (Option A) × FreeQueue A)
  unfolding finished_push finished_pop
  run alloc [] q = some ([], q)
  run alloc (enqueue x ∷ calls) q =
      elim (finished_push (push_steps 6 (begin_push (alloc q.nodes) x q))) [
        | none ↦ none
        | some u ↦ run alloc calls u
      ]
  run alloc (dequeue ∷ calls) q = elim (finished_pop (pop_steps 6 (looking, q))) [
    | none ↦ none
    | some (y, u) ↦ elim (run alloc calls u) [ none ↦ none | some (ys, v) ↦ some (y ∷ ys, v) ]
  ]

  -- In the hands of one thread the queue is a plain list: where new nodes dequeue addresses at which no
  -- node stands, every call ends within six steps and uses no deleted node, the calls of Pop return
  -- what they return on the list, and the queue holds the list that is left.
  pub run-replay :
      (alloc : List (ℕ × Node A) → ℕ) (calls : List (Call A)) (xs : List A) (q : FreeQueue A)
      → ((nodes : List (ℕ × Node A)) → lookup (alloc nodes) nodes ≡ none)
      → Holds q xs
      → (u : FreeQueue A) × (run alloc calls q ≡ some ((replay calls xs).0, u))
        × Holds u (replay calls xs).1
  unfolding run finished_push finished_pop
  run-replay alloc [] xs q fresh h = (q, refl, h)
  run-replay alloc (enqueue x ∷ calls) xs q fresh h =
      let (u, e, r) = push-Holds 3 (alloc q.nodes) x xs q (fresh q.nodes) h in
      let (v, f, l) = run-replay alloc calls (xs ++ x ∷ []) u fresh r in (v, rw (run, e) f, l)
  run-replay alloc (dequeue ∷ calls) [] q fresh h =
      let (v, f, l) = run-replay alloc calls [] q fresh h in
      (v, rw (run, pop-empty 5 q h, f) refl, l)
  run-replay alloc (dequeue ∷ calls) (x ∷ xs) q fresh h =
      let (u, e, r) = pop-Holds 0 x xs q h in
      let (v, f, l) = run-replay alloc calls xs u fresh r in (v, rw (run, e, f) refl, l)

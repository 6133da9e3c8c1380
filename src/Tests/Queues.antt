-- ===== src/Tests/Queues.antt =====
-- The queue without locks at concrete inputs.
use echo_server_cpp.Prelude.{
  ℕ, suc, ◌+◌, ◌≡◌, ◌≤◌, refl, false, none, some, List, [], ◌∷◌, arith, ◌==◌,
}
use echo_server_cpp.Prelude.Assoc.{lookup}
use echo_server_cpp.FreeQueue.{
  Node, FreeQueue, pushed, looking, popped, spinning, begin_push, make, pop_steps, interleave,
}
use echo_server_cpp.FreeQueue.Fifo.{Holds, make-Holds}
use echo_server_cpp.FreeQueue.Replay.{Call, enqueue, dequeue, run, run-replay}
use echo_server_cpp.FreeQueue.Race.{lost_turns, deleted_turns, push_lost, push_deleted}

-- An address above all that are there.
abbrev above : List (ℕ × Node ℕ) → ℕ
above [] = 0
above ((k, v) ∷ nodes) = suc (k + above nodes)

above-fresh : (nodes : List (ℕ × Node ℕ)) (j : ℕ) → above nodes ≤ j → lookup j nodes ≡ none
unfolding lookup
above-fresh [] j h = refl
above-fresh ((k, v) ∷ nodes) j h =
    let b : (k == j) ≡ false = ground arith in rw b (above-fresh nodes j (omega arith))

abbrev calls : List (Call ℕ)
calls = enqueue 3 ∷ enqueue 4 ∷ dequeue ∷ enqueue 5 ∷ dequeue ∷ dequeue ∷ dequeue ∷ enqueue 6 ∷ []

run-replay_example :
    (u : FreeQueue ℕ) × (run above calls (make 10 0)
      ≡ some (some 3 ∷ some 4 ∷ some 5 ∷ none ∷ [], u))
    × Holds u (6 ∷ [])
run-replay_example =
    run-replay above calls [] (make 10 0) (λ nodes. above-fresh nodes (above nodes) (omega arith))
      (make-Holds 10 0)

-- One element, 3, at the address 20.
abbrev one : FreeQueue ℕ
one = record {
  nodes = (10, record { value = 0; next = some 20 }) ∷ (20, record { value = 3; next = none }) ∷ [];
  head = 10;
  tail = 20;
}

one-Holds : Holds one (3 ∷ [])
unfolding lookup
one-Holds = record {
  junk = 0;
  cells = (20, 3) ∷ [];
  chain = (refl, (some 20, refl, (refl, (none, refl, (refl, tt)))));
  distinct = ((refl, tt), (tt, tt));
  tail = refl;
  values = refl;
}

push_lost_example :
    (p : ℕ) × (u : FreeQueue ℕ) × (interleave
        (lost_turns 5)
        (((begin_push 30 7 one).0, looking), (begin_push 30 7 one).1)
      ≡ some ((pushed, spinning p), u))
    × (pop_steps 6 (looking, u) ≡ some (popped none, u))
unfolding lookup
push_lost_example = push_lost 5 30 3 7 one one-Holds refl

push_deleted_example :
    interleave deleted_turns (((begin_push 30 7 one).0, looking), (begin_push 30 7 one).1) ≡ none
unfolding lookup
push_deleted_example = push_deleted 30 3 7 one one-Holds refl

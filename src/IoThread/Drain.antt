-- ===== src/IoThread/Drain.antt =====
-- libsocket/ServerSocketIOThread.cpp: calls of pairCallback until the queue is empty.
use native.Mathlib.Nat.{zero-mul}
use echo_server_cpp.Prelude.{
  concat, nothing_left, left_bound, ℕ, zero, suc, ◌-◌, ◌*◌, ◌≤◌, ◌≡◌, refl, sym, ap, ◌∙◌, subst,
  Option, none, some, List, [], ◌∷◌, ◌++◌, append-nil, append_assoc, length, take, drop,
  length-drop,
}
use echo_server_cpp.Prelude.Int.{ℤ}
use echo_server_cpp.Prelude.Bytes.{All, All-drop}
use echo_server_cpp.Prelude.Assoc.{lookup}
use echo_server_cpp.ServerIo.{ServerIo}
use echo_server_cpp.IoThread.{Job, Thread, pair_callback}
use echo_server_cpp.IoThread.Progress.{Targets, All-Targets, pair_callback-Stays}
use echo_server_cpp.IoThread.Buffer.{ServerWire, plain_wire, sent_of, Sends}
use echo_server_cpp.SocketBase.{max_buffer_size}
use echo_server_cpp.Wire.{Flushed}
use echo_server_cpp.IoThread.Open.{bytes_to, all_bytes_to}
use echo_server_cpp.IoThread.Order.{AllKeep, pair_callback-Flushed}

-- `k` calls of pairCallback.
unfoldable pub run : ℕ → (ℕ → Option ℕ) → ℤ → Thread → Option Thread
run zero start written t = some t
run (suc k) start written t = elim (pair_callback start written t) [
  | none ↦ none
  | some u ↦ run k start written u
]

AllKeep-take :
    (limit : ℕ) (start : ℕ → Option ℕ) (p n : ℕ) (jobs : List Job)
    → AllKeep limit start p jobs
    → AllKeep limit start p (take n jobs)
AllKeep-take limit start p zero jobs h = tt
AllKeep-take limit start p (suc n) [] h = h
AllKeep-take limit start p (suc n) (job ∷ jobs) h = (h.0, AllKeep-take limit start p n jobs h.1)

AllKeep-drop :
    (limit : ℕ) (start : ℕ → Option ℕ) (p n : ℕ) (jobs : List Job)
    → AllKeep limit start p jobs
    → AllKeep limit start p (drop n jobs)
AllKeep-drop limit start p zero jobs h = h
AllKeep-drop limit start p (suc n) [] h = h
AllKeep-drop limit start p (suc n) (job ∷ jobs) h = AllKeep-drop limit start p n jobs h.1

all_bytes_to-split :
    (p n : ℕ) (jobs : List Job)
    → all_bytes_to p (take n jobs) ++ all_bytes_to p (drop n jobs) ≡ all_bytes_to p jobs
all_bytes_to-split p zero jobs = refl
all_bytes_to-split p (suc n) [] = refl
all_bytes_to-split p (suc n) (job ∷ jobs) =
    append_assoc (bytes_to p job) (all_bytes_to p (take n jobs)) (all_bytes_to p (drop n jobs))
    ∙ ap (λ (u : List ℕ). bytes_to p job ++ u) (all_bytes_to-split p n jobs)

module _ (written : ℤ) (w : ServerWire written) where
  -- `k` calls on a connection whose buffer was empty.
  pub run-Flushed :
      (start : ℕ → Option ℕ) (p k : ℕ) (s : ServerIo) (t : Thread)
      → length t.queue ≤ k * suc t.pair_deal_count
      → All (Targets t) t.queue
      → AllKeep w.limit start p t.queue
      → lookup p t.sockets ≡ some s
      → w.Ready s
      → s.send_buf ≡ []
      → (t' : Thread) × (run k start written t ≡ some t')
        × (t'.queue ≡ [])
        × Flushed w p (w.out s ++ all_bytes_to p t.queue) t'.sockets
  unfolding run
  run-Flushed start p zero s t less h k e v z =
      let none_left : t.queue ≡ [] =
        nothing_left t.queue (rw (zero-mul (suc t.pair_deal_count)) at less) in
      (t, refl, none_left, (s, e, rw none_left (sym (append-nil (w.out s))), z, v))
  run-Flushed start p (suc n) s t less h k e v z =
      let c = suc t.pair_deal_count in
      let (u, f, r) = pair_callback-Stays start written t h in
      let (s₁, e₁, b₁, z₁, v₁) =
        pair_callback-Flushed written w start p s t u e v z
          (AllKeep-take w.limit start p c t.queue k) f in
      let targets : All (Targets u) u.queue =
        rw r.queue (All-Targets t u (drop c t.queue) r.alive (All-drop (Targets t) c t.queue h)) in
      let keep : AllKeep w.limit start p u.queue =
        rw r.queue (AllKeep-drop w.limit start p c t.queue k) in
      let left : length u.queue ≡ length t.queue - c = ap length r.queue ∙ length-drop c t.queue in
      let less' : length u.queue ≤ n * suc u.pair_deal_count =
        (let d : length t.queue - c ≤ n * c = left_bound n c (length t.queue) less in
          rw (r.count, left) d) in
      let bytes : w.out s₁ ++ all_bytes_to p u.queue ≡ w.out s ++ all_bytes_to p t.queue =
        ap (λ (x : List ℕ). x ++ all_bytes_to p u.queue) b₁
        ∙ append_assoc (w.out s) (all_bytes_to p (take c t.queue)) (all_bytes_to p u.queue)
        ∙ ap (λ (x : List ℕ). w.out s ++ x)
            (ap (λ (q : List Job). all_bytes_to p (take c t.queue) ++ all_bytes_to p q) r.queue
              ∙ all_bytes_to-split p c t.queue) in
      let (t', g, q, l) = run-Flushed start p n s₁ u less' targets keep e₁ v₁ z₁ in
      (t', rw (run, f) g, q, subst (λ (x : List ℕ). Flushed w p x t'.sockets) bytes l)

-- Jobs that send only on objects that are alive, and delete none, are all done after any number of
-- calls of pairCallback that, times `_nPairDealCount + 1`, is at least the length of the queue: no
-- call uses a deleted object, the queue is empty, and a plain, connected connection whose buffer
-- was empty has sent exactly the bytes that the queue had for it, in order, and keeps none,
-- provided that no job gives its address away and that each packet is smaller than a buffer.
pub run-drains :
    (start : ℕ → Option ℕ) (written : ℤ) (p k : ℕ) (s : ServerIo) (t : Thread)
    → length t.queue ≤ k * suc t.pair_deal_count
    → All (Targets t) t.queue
    → AllKeep max_buffer_size start p t.queue
    → lookup p t.sockets ≡ some s
    → Sends s
    → s.send_buf ≡ []
    → (t' : Thread) × (s' : ServerIo) × (run k start written t ≡ some t')
      × (t'.queue ≡ [])
      × (lookup p t'.sockets ≡ some s')
      × (concat s'.sent ≡ concat s.sent ++ all_bytes_to p t.queue)
      × (s'.send_buf ≡ [])
run-drains start written p k s t less h keep e v z =
    let (t', g, q, (s', e', b, z', v')) =
      run-Flushed written (plain_wire written) start p k s t less h keep e v z in
    (t', s', g, q, e', sent_of s' s (all_bytes_to p t.queue) z' z b, z')

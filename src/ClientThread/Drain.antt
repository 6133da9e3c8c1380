-- ===== src/ClientThread/Drain.antt =====
-- libsocket/ClientSocketIOThread.cpp: calls of pairCallback until the queue is empty.
use native.Mathlib.Nat.{zero-mul}
use mathlib.Core.Option.{some-injective}
use echo_server_cpp.Prelude.{
  ◌⊎◌, nothing_left, left_bound, concat, ℕ, zero, suc, ◌-◌, ◌*◌, ◌≤◌, ◌≡◌, refl, sym, ap, subst,
  ◌∙◌, inl, inr, true, false, Bool-cases, Option, none, some, List, [], ◌∷◌, ◌++◌, append-nil,
  append_assoc, arith, length, take, drop, length-drop, ◌==◌,
}
use echo_server_cpp.Prelude.Bytes.{All, All-drop}
use echo_server_cpp.Prelude.Assoc.{lookup, update}
use echo_server_cpp.ClientIo.Connection.{Connection, Attempt, had_send_buf_data}
use echo_server_cpp.ServerIo.SendBuffer.{empty_or_not}
use echo_server_cpp.Wire.{
  Open, Open-weaken, Open-other, Open-send, Open-rest, Flushed, Open-Flushed,
}
use echo_server_cpp.Wire.Live.{Live, LiveStill, update-LiveStill, All-LiveStill}
use echo_server_cpp.ClientThread.{Job, Thread, flush_one, flush, has_more, wake, pair_callback}
use echo_server_cpp.ClientThread.Buffer.{consumed, client_wire, Sends}
use echo_server_cpp.ClientThread.Order.{
  bytes_to, all_bytes_to, Keeps, Keeps-LiveStill, at_queue, deal_loop-Serves,
}

-- What the flush leaves as it was.
record Stays (t u : Thread) : Type 0 where
  live : LiveStill t.sockets u.sockets
  queue : u.queue ≡ t.queue
  count : u.pair_deal_count ≡ t.pair_deal_count

idle_or_busy :
    (s : Connection)
    → (had_send_buf_data s ≡ true) ⊎ ((had_send_buf_data s ≡ false) × (s.send_buf ≡ []))
unfolding had_send_buf_data
idle_or_busy s = elim (empty_or_not s.send_buf) [
  | inl e ↦ inr (rw e refl, e)
  | inr h ↦ inl (ground arith)
]

same_socket :
    (p q : ℕ) {out need : List ℕ} (k : List (ℕ × Connection)) (s : Connection)
    → q ≡ p
    → lookup q k ≡ some s
    → (o : Open client_wire p out need k) → o.socket ≡ s
same_socket p q k s z e o =
    some-injective _ _ (sym o.alive ∙ ap (λ (x : ℕ). lookup x k) (sym z) ∙ e)

consumed-Open :
    (p q : ℕ) {out : List ℕ} (need : List ℕ) (k : List (ℕ × Connection)) (s : Connection)
    → lookup q k ≡ some s
    → Open client_wire p out (q ∷ need) k
    → Open client_wire p out need (update q (consumed s) k)
consumed-Open p q need k s e o = elim (Bool-cases (q == p)) [
  | inl a ↦
      let z : q ≡ p = ground arith in
      let same = same_socket p q k s z e o in rw (← same, z) (Open-send client_wire p need o)
  | inr a ↦ Open-other client_wire p q (consumed s) need a (λ l. l) (Open-rest client_wire p q a o)
]

idle-Open :
    (p q : ℕ) {out : List ℕ} (need : List ℕ) (k : List (ℕ × Connection)) (s : Connection)
    → lookup q k ≡ some s
    → s.send_buf ≡ []
    → Open client_wire p out (q ∷ need) k
    → Open client_wire p out need k
idle-Open p q need k s e empty o = elim (Bool-cases (q == p)) [
  | inl a ↦
      let z : q ≡ p = ground arith in
      let same = same_socket p q k s z e o in
      Open-weaken client_wire need o (inl (ap (λ (c : Connection). c.send_buf) same ∙ empty))
  | inr a ↦ Open-rest client_wire p q a o
]

-- One socket of needSendList.
flush_one-Open :
    (p q : ℕ) {out : List ℕ} (need : List ℕ) (t : Thread)
    → Live t.sockets q
    → Open client_wire p out (q ∷ need) t.sockets
    → (u : Thread) × (flush_one q (lookup q t.sockets) t ≡ some u)
      × Open client_wire p out need u.sockets
      × Stays t u
unfolding flush_one
flush_one-Open p q need t (s, e) o =
    let k = update q (consumed s) t.sockets in
    elim (idle_or_busy s) [
      | inl b ↦ (
        record t { sockets = k },
        rw (e, b) refl,
        consumed-Open p q need t.sockets s e o,
        record { live = update-LiveStill q (consumed s) t.sockets; queue = refl; count = refl },
      )
      | inr (b, z) ↦ (
        t,
        rw (e, b) refl,
        idle-Open p q need t.sockets s e z o,
        record { live = λ p a. a; queue = refl; count = refl },
      )
    ]

flush-Flushed :
    (p : ℕ) (out need : List ℕ) (t : Thread)
    → All (Live t.sockets) need
    → Open client_wire p out need t.sockets
    → (u : Thread) × (flush need t ≡ some u) × Flushed client_wire p out u.sockets × Stays t u
unfolding flush
flush-Flushed p out [] t l o =
    (t, refl, Open-Flushed client_wire o, record { live = λ q a. a; queue = refl; count = refl })
flush-Flushed p out (q ∷ need) t l o =
    let (u, e, o', s) = flush_one-Open p q need t l.0 o in
    let (v, f, r, x) =
      flush-Flushed p out need u (All-LiveStill t.sockets u.sockets need s.live l.1) o' in
    (
      v,
      rw (flush, e) f,
      r,
      record {
        live = λ q' a. x.live q' (s.live q' a);
        queue = x.queue ∙ s.queue;
        count = x.count ∙ s.count;
      },
    )

wake_same :
    (t : Thread)
    → ((wake t).sockets ≡ t.sockets)
      × ((wake t).queue ≡ t.queue)
      × ((wake t).pair_deal_count ≡ t.pair_deal_count)
unfolding wake
wake_same t = elim (Bool-cases (has_more t.queue)) [
  | inl e ↦ rw e (refl, refl, refl)
  | inr e ↦ rw e (refl, refl, refl)
]

-- One call of pairCallback on a connection whose buffer was empty.
pair_callback-Flushed :
    (start : ℕ → ℕ) (net : ℕ → Attempt) (p : ℕ) (s : Connection) (t : Thread)
    → lookup p t.sockets ≡ some s
    → Sends s
    → s.send_buf ≡ []
    → All (Keeps start p t.sockets) t.queue
    → (u : Thread) × (pair_callback start net t ≡ some u)
      × Flushed client_wire p
          (concat s.sent ++ all_bytes_to p (take (suc t.pair_deal_count) t.queue))
          u.sockets
      × Stays (at_queue (drop (suc t.pair_deal_count) t.queue) t) u
unfolding pair_callback
pair_callback-Flushed start net p s t e v z k =
    let n = suc t.pair_deal_count in
    let o : Open client_wire p (concat s.sent) [] t.sockets = record {
      socket = s;
      alive = e;
      ready = v;
      bytes = rw z (append-nil (concat s.sent));
      listed = inl z;
    } in
    let ((need, u), f, x) =
      deal_loop-Serves start net p n t.queue (concat s.sent) [] t refl k o tt in
    let (y, g, r, m) = flush-Flushed p _ need u x.listed x.open_at in
    let (a, b, c) = wake_same y in
    (
      wake y,
      rw (pair_callback, f, g) refl,
      subst (Flushed client_wire p (concat s.sent ++ all_bytes_to p (take n t.queue))) (sym a) r,
      record {
        live =
            λ q h. subst (λ (w : List (ℕ × Connection)). Live w q) (sym a) (m.live q (x.live q h));
        queue = b ∙ m.queue ∙ x.queue;
        count = c ∙ m.count ∙ x.count;
      },
    )

-- `k` calls of pairCallback.
unfoldable pub run : ℕ → (ℕ → ℕ) → (ℕ → Attempt) → Thread → Option Thread
run zero start net t = some t
run (suc k) start net t = elim (pair_callback start net t) [
  | none ↦ none
  | some u ↦ run k start net u
]

all_bytes_to-split :
    (p n : ℕ) (jobs : List Job)
    → all_bytes_to p (take n jobs) ++ all_bytes_to p (drop n jobs) ≡ all_bytes_to p jobs
all_bytes_to-split p zero jobs = refl
all_bytes_to-split p (suc n) [] = refl
all_bytes_to-split p (suc n) (job ∷ jobs) =
    append_assoc (bytes_to p job) (all_bytes_to p (take n jobs)) (all_bytes_to p (drop n jobs))
    ∙ ap (λ (u : List ℕ). bytes_to p job ++ u) (all_bytes_to-split p n jobs)

-- Jobs that send only to sockets that are there, packets smaller than a buffer, are all done after
-- any number of calls of pairCallback that, times `_nPairDealCount + 1`, is at least the length of
-- the queue: no call uses a pointer that leads nowhere, the queue is empty, and a socket with a
-- bufferevent, whose buffer was empty, has sent exactly the bytes that the queue had for it, in
-- order, and keeps none, provided that no new socket gets its address; the connections that are
-- made meanwhile do not matter.
pub run-sends :
    (start : ℕ → ℕ) (net : ℕ → Attempt) (p k : ℕ) (s : Connection) (t : Thread)
    → length t.queue ≤ k * suc t.pair_deal_count
    → All (Keeps start p t.sockets) t.queue
    → lookup p t.sockets ≡ some s
    → Sends s
    → s.send_buf ≡ []
    → (t' : Thread) × (s' : Connection) × (run k start net t ≡ some t')
      × (t'.queue ≡ [])
      × (lookup p t'.sockets ≡ some s')
      × (concat s'.sent ≡ concat s.sent ++ all_bytes_to p t.queue)
      × (s'.send_buf ≡ [])
unfolding run
run-sends start net p zero s t less k e v z =
    let none_left : t.queue ≡ [] =
      nothing_left t.queue (rw (zero-mul (suc t.pair_deal_count)) at less) in
    (t, s, refl, none_left, e, rw none_left (sym (append-nil (concat s.sent))), z)
run-sends start net p (suc n) s t less k e v z =
    let c = suc t.pair_deal_count in
    let (u, f, (s₁, e₁, b₁, z₁, v₁), x) = pair_callback-Flushed start net p s t e v z k in
    let keeps : All (Keeps start p u.sockets) u.queue = rw x.queue (
      Keeps-LiveStill start p t.sockets u.sockets (drop c t.queue) x.live
        (All-drop (Keeps start p t.sockets) c t.queue k)) in
    let left : length u.queue ≡ length t.queue - c = ap length x.queue ∙ length-drop c t.queue in
    let less' : length u.queue ≤ n * suc u.pair_deal_count =
      (let d : length t.queue - c ≤ n * c = left_bound n c (length t.queue) less in
        rw (x.count, left) d) in
    let sent : concat s₁.sent ≡ concat s.sent ++ all_bytes_to p (take c t.queue) =
      sym (append-nil (concat s₁.sent)) ∙ ap (λ (y : List ℕ). concat s₁.sent ++ y) (sym z₁) ∙ b₁ in
    let bytes : concat s₁.sent ++ all_bytes_to p u.queue ≡ concat s.sent ++ all_bytes_to p t.queue =
      ap (λ (y : List ℕ). y ++ all_bytes_to p u.queue) sent
      ∙ append_assoc (concat s.sent) (all_bytes_to p (take c t.queue)) (all_bytes_to p u.queue)
      ∙ ap (λ (y : List ℕ). concat s.sent ++ y)
          (ap (λ (q : List Job). all_bytes_to p (take c t.queue) ++ all_bytes_to p q) x.queue
            ∙ all_bytes_to-split p c t.queue) in
    let (t', s', g, q, e', b', z') = run-sends start net p n s₁ u less' keeps e₁ v₁ z₁ in
    (t', s', rw (run, f) g, q, e', b' ∙ bytes, z')

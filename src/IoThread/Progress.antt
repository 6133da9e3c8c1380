-- ===== src/IoThread/Progress.antt =====
-- libsocket/ServerSocketIOThread.cpp: the jobs that use only objects that are alive.
use echo_server_cpp.Prelude.{
  ℕ, zero, suc, ◌≡◌, refl, ◌∙◌, inl, inr, Bool-cases, Option, none, some, List, [], ◌∷◌, ◌++◌, drop,
  if◌then◌else◌,
}
use echo_server_cpp.Prelude.Int.{ℤ}
use echo_server_cpp.Prelude.Bytes.{All}
use echo_server_cpp.Prelude.Assoc.{lookup, update}
use echo_server_cpp.Wire.Live.{Live, update-LiveStill, All-LiveStill, All-listing}
use echo_server_cpp.ServerIo.{had_send_buf_data, consume_send_buf}
use echo_server_cpp.IoThread.{
  Job, accept, send_buf, close, other, Thread, deal_accept, buffer_packet, deal_send, deal,
  deal_loop, flush_one, flush, has_more, wake, pair_callback,
}

abbrev pub Alive : Thread → ℕ → Type 0
Alive t q = Live t.sockets q

-- A job that deletes no object, and sends only on an object that is alive.
abbrev pub Targets : Thread → Job → Type 0
Targets t (accept fd) = Unit {0}
Targets t (send_buf none buf) = Unit {0}
Targets t (send_buf (some q) buf) = Alive t q
Targets t (close none) = Unit {0}
Targets t (close (some q)) = ⊥
Targets t other = Unit {0}

-- What such a job leaves as it was.
pub record Stays (t u : Thread) : Type 0 where
  pub alive : (q : ℕ) → Alive t q → Alive u q
  pub queue : u.queue ≡ t.queue
  pub count : u.pair_deal_count ≡ t.pair_deal_count

Stays-refl : (t : Thread) → Stays t t
Stays-refl t = record { alive = λ q a. a; queue = refl; count = refl }

Stays-trans : (t u v : Thread) → Stays t u → Stays u v → Stays t v
Stays-trans t u v a b = record {
  alive = λ q h. b.alive q (a.alive q h);
  queue = b.queue ∙ a.queue;
  count = b.count ∙ a.count;
}

accept-Stays : (fd : ℕ) (found : Option ℕ) (t : Thread) → Stays t (deal_accept fd found t)
unfolding deal_accept
accept-Stays fd none t = Stays-refl t
accept-Stays fd (some p) t = record {
  alive = λ q a. update-LiveStill p _ t.sockets q a;
  queue = refl;
  count = refl;
}

-- The result of a job or of a loop that uses no deleted object.
abbrev Runs : Thread → Option (List ℕ × Thread) → Type 0
Runs t r = (need : List ℕ) × (u : Thread) × (r ≡ some (need, u)) × All (Alive u) need × Stays t u

deal-Runs :
    (start : ℕ → Option ℕ) (written : ℤ) (job : Job) (need : List ℕ) (t : Thread)
    → Targets t job
    → All (Alive t) need
    → Runs t (deal start written job (need, t))
unfolding deal deal_send
deal-Runs start written (accept fd) need t k h =
    let s = accept-Stays fd (start fd) t in
    (need, deal_accept fd (start fd) t, refl, All-LiveStill _ _ need s.alive h, s)
deal-Runs start written (send_buf none buf) need t k h = (need, t, refl, h, Stays-refl t)
deal-Runs start written (send_buf (some q) buf) need t k h =
    let (s, e) = k in
    let (s', pushed) = buffer_packet written buf s in
    let u = record t { sockets = update q s' t.sockets } in
    let stay : Stays t u = record {
      alive = λ p a. update-LiveStill q s' t.sockets p a;
      queue = refl;
      count = refl;
    } in
    (
      (if pushed then need ++ q ∷ [] else need),
      u,
      rw e refl,
      All-listing _ q pushed need (stay.alive q k) (All-LiveStill _ _ need stay.alive h),
      stay,
    )
deal-Runs start written (close none) need t k h = (need, t, refl, h, Stays-refl t)
deal-Runs start written (close (some q)) need t k h = absurd k
deal-Runs start written other need t k h = (need, t, refl, h, Stays-refl t)

pub Targets-Stays :
    (t u : Thread) (job : Job) → ((q : ℕ) → Alive t q → Alive u q) → Targets t job → Targets u job
Targets-Stays t u (accept fd) k h = tt
Targets-Stays t u (send_buf none buf) k h = tt
Targets-Stays t u (send_buf (some q) buf) k h = k q h
Targets-Stays t u (close none) k h = tt
Targets-Stays t u (close (some q)) k h = h
Targets-Stays t u other k h = tt

pub All-Targets :
    (t u : Thread) (jobs : List Job)
    → ((q : ℕ) → Alive t q → Alive u q)
    → All (Targets t) jobs
    → All (Targets u) jobs
All-Targets t u [] k h = tt
All-Targets t u (job ∷ jobs) k h = (Targets-Stays t u job k h.0, All-Targets t u jobs k h.1)

-- The thread whose queue is left at `queue`.
abbrev pub at_queue : List Job → Thread → Thread
at_queue queue t = record t { queue = queue }

at_queue-Stays :
    (queue : List Job) (t u : Thread) → Stays t u → Stays (at_queue queue t) (at_queue queue u)
at_queue-Stays queue t u k = record { alive = k.alive; queue = refl; count = k.count }

deal_loop-Runs :
    (start : ℕ → Option ℕ) (written : ℤ) (n : ℕ) (queue : List Job) (need : List ℕ) (t : Thread)
    → t.queue ≡ queue
    → All (Targets t) queue
    → All (Alive t) need
    → Runs (at_queue (drop n queue) t) (deal_loop start written n queue (need, t))
unfolding deal_loop
deal_loop-Runs start written zero queue need t e k h =
    (need, t, refl, h, record { alive = λ q a. a; queue = e; count = refl })
deal_loop-Runs start written (suc n) [] need t e k h =
    (need, t, refl, h, record { alive = λ q a. a; queue = e; count = refl })
deal_loop-Runs start written (suc n) (job ∷ rest) need t e k h =
    let t' = at_queue rest t in
    let same : (q : ℕ) → Alive t q → Alive t' q = λ q a. a in
    let (need', u, f, a, s) =
      deal-Runs start written job need t' (Targets-Stays t t' job same k.0)
        (All-LiveStill _ _ need same h) in
    let (last, v, g, b, r) =
      deal_loop-Runs start written n rest need' u s.queue (All-Targets t u rest s.alive k.1) a in
    (
      last,
      v,
      rw (deal_loop, f) g,
      b,
      record { alive = λ q x. r.alive q (s.alive q x); queue = r.queue; count = r.count ∙ s.count },
    )

flush_one-Stays :
    (written : ℤ) (p : ℕ) (t : Thread)
    → Alive t p
    → (u : Thread) × (flush_one written p (lookup p t.sockets) t ≡ some u) × Stays t u
unfolding flush_one
flush_one-Stays written p t (s, e) = elim (Bool-cases (had_send_buf_data s)) [
  | inl b ↦
      let u = record t { sockets = update p (consume_send_buf written s).1 t.sockets } in
      (
        u,
        rw (e, b) refl,
        record { alive = λ q a. update-LiveStill p _ t.sockets q a; queue = refl; count = refl },
      )
  | inr b ↦ (t, rw (e, b) refl, Stays-refl t)
]

flush-Stays :
    (written : ℤ) (need : List ℕ) (t : Thread)
    → All (Alive t) need
    → (u : Thread) × (flush written need t ≡ some u) × Stays t u
unfolding flush
flush-Stays written [] t h = (t, refl, Stays-refl t)
flush-Stays written (p ∷ need) t h =
    let (u, e, s) = flush_one-Stays written p t h.0 in
    let (v, f, r) = flush-Stays written need u (All-LiveStill _ _ need s.alive h.1) in
    (v, rw (flush, e) f, Stays-trans t u v s r)

wake-Stays : (t : Thread) → Stays t (wake t)
unfolding wake
wake-Stays t = elim (Bool-cases (has_more t.queue)) [
  | inl e ↦ rw e (record { alive = λ q a. a; queue = refl; count = refl })
  | inr e ↦ rw e (Stays-refl t)
]

-- A call of pairCallback whose jobs send only on objects that are alive, and delete none, takes
-- `_nPairDealCount + 1` jobs from the queue.
pub pair_callback-Stays :
    (start : ℕ → Option ℕ) (written : ℤ) (t : Thread)
    → All (Targets t) t.queue
    → (u : Thread) × (pair_callback start written t ≡ some u)
      × Stays (at_queue (drop (suc t.pair_deal_count) t.queue) t) u
unfolding pair_callback
pair_callback-Stays start written t h =
    let n = suc t.pair_deal_count in
    let (need, u, e, a, s) = deal_loop-Runs start written n t.queue [] t refl h tt in
    let (v, f, r) = flush-Stays written need u a in
    (
      wake v,
      rw (pair_callback, e, f) refl,
      Stays-trans (at_queue (drop n t.queue) t) u (wake v) s
          (Stays-trans u v (wake v) r (wake-Stays v)),
    )

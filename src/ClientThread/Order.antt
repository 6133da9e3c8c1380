-- ===== src/ClientThread/Order.antt =====
-- libsocket/ClientSocketIOThread.cpp: the bytes that go out on one connection.
use mathlib.Core.Option.{some-injective}
use echo_server_cpp.Prelude.{
  sym, ℕ, zero, suc, ◌<◌, ◌≡◌, ◌≢◌, refl, ap, ◌∙◌, inl, inr, false, Bool-cases, none, some, List,
  [], ◌∷◌, ◌++◌, append-nil, append_assoc, arith, length, take, drop, ◌==◌, if◌then◌else◌,
}
use echo_server_cpp.Prelude.Bytes.{All}
use echo_server_cpp.Prelude.Assoc.{lookup, update}
use echo_server_cpp.SocketBase.{max_buffer_size}
use echo_server_cpp.ClientIo.Connection.{Connection, make, Attempt, to_connect}
use echo_server_cpp.Wire.{listing, Listed-other, Open, Open-other, Open-put}
use echo_server_cpp.Wire.Live.{Live, LiveStill, update-LiveStill, All-LiveStill, All-listing}
use echo_server_cpp.ClientThread.{
  Job, connect, send_buf, other, Thread, deal_connect, buffer_packet, deal_send, deal, deal_loop,
}
use echo_server_cpp.ClientThread.Buffer.{client_wire}

-- The bytes that a job sends on the connection `p`.
abbrev pub bytes_to : ℕ → Job → List ℕ
bytes_to p (connect id) = []
bytes_to p (send_buf none buf) = []
bytes_to p (send_buf (some q) buf) = if q == p then buf else []
bytes_to p other = []

abbrev pub all_bytes_to : ℕ → List Job → List ℕ
all_bytes_to p [] = []
all_bytes_to p (job ∷ jobs) = bytes_to p job ++ all_bytes_to p jobs

-- A job that sends only to an object that is there, and less than a buffer holds if it is `p`, and
-- that makes no object at the address `p`.
abbrev pub Keeps : (ℕ → ℕ) → ℕ → List (ℕ × Connection) → Job → Type 0
Keeps start p k (connect id) = start id ≢ p
Keeps start p k (send_buf none buf) = Unit {0}
Keeps start p k (send_buf (some q) buf) = Live k q × (length buf < max_buffer_size)
Keeps start p k other = Unit {0}

-- What the loop keeps true: of the thread before, and of needSendList and the thread after.
pub record Serves (p : ℕ) (out : List ℕ) (t : Thread) (r : List ℕ × Thread) : Type 0 where
  pub open_at : Open client_wire p out r.0 r.1.sockets
  pub listed : All (Live r.1.sockets) r.0
  pub live : LiveStill t.sockets r.1.sockets
  pub queue : r.1.queue ≡ t.queue
  pub count : r.1.pair_deal_count ≡ t.pair_deal_count

other_address : (q p : ℕ) → q ≢ p → (q == p) ≡ false
other_address q p h = elim (Bool-cases (q == p)) [
  | inl a ↦ let e : q ≡ p = ground arith in absurd (h e)
  | inr a ↦ a
]

-- A job that leaves needSendList and the sockets as they were.
Serves-same :
    (p : ℕ) {out need : List ℕ} (t : Thread)
    → Open client_wire p out need t.sockets
    → All (Live t.sockets) need
    → Serves p (out ++ []) t (need, t)
Serves-same p {out} t o l = record {
  open_at = rw (append-nil out) o;
  listed = l;
  live = λ q a. a;
  queue = refl;
  count = refl;
}

sent-Open :
    (p q : ℕ) (buf : List ℕ) {out need : List ℕ} (k : List (ℕ × Connection)) (s : Connection)
    → lookup q k ≡ some s
    → length buf < max_buffer_size
    → Open client_wire p out need k
    → Open client_wire p
        (out ++ (if q == p then buf else []))
        (listing q (buffer_packet buf s).1 need)
        (update q (buffer_packet buf s).0 k)
unfolding buffer_packet
sent-Open p q buf {out} {need} k s e h o = elim (Bool-cases (q == p)) [
  | inl a ↦
      let z : q ≡ p = ground arith in
      let same : o.socket ≡ s =
        some-injective _ _ (sym o.alive ∙ ap (λ (x : ℕ). lookup x k) (sym z) ∙ e) in
      rw (a, z, ← same) (Open-put client_wire p buf h o)
  | inr a ↦
      rw (a, append-nil out)
        (Open-other client_wire p q _ _ a (Listed-other p q need (buffer_packet buf s).1) o)
]

-- A packet for the socket at `q`, which is `p` or another.
Serves-send :
    (p q : ℕ) (buf : List ℕ) {out need : List ℕ} (t : Thread) (s : Connection)
    → lookup q t.sockets ≡ some s
    → length buf < max_buffer_size
    → Open client_wire p out need t.sockets
    → All (Live t.sockets) need
    → Serves p (out ++ (if q == p then buf else [])) t (
      listing q (buffer_packet buf s).1 need,
      record t { sockets = update q (buffer_packet buf s).0 t.sockets },
    )
Serves-send p q buf {out} {need} t s e h o l =
    let (s', b) = buffer_packet buf s in
    let k = update q s' t.sockets in
    let still : LiveStill t.sockets k = update-LiveStill q s' t.sockets in
    record {
      open_at = sent-Open p q buf t.sockets s e h o;
      listed = All-listing k q b need (still q (s, e)) (All-LiveStill t.sockets k need still l);
      live = still;
      queue = refl;
      count = refl;
    }

pub deal-Serves :
    (start : ℕ → ℕ) (net : ℕ → Attempt) (p : ℕ) (job : Job) (out need : List ℕ) (t : Thread)
    → Keeps start p t.sockets job
    → Open client_wire p out need t.sockets
    → All (Live t.sockets) need
    → (r : List ℕ × Thread) × (deal start net job (need, t) ≡ some r)
      × Serves p (out ++ bytes_to p job) t r
unfolding deal deal_connect deal_send
deal-Serves start net p (connect id) out need t k o l =
    let c = to_connect (net id) (make id) in
    let still : LiveStill t.sockets (update (start id) c t.sockets) =
      update-LiveStill (start id) c t.sockets in
    (
      (need, record t { sockets = update (start id) c t.sockets }),
      refl,
      record {
        open_at =
            rw (append-nil out) (
              Open-other client_wire p (start id) c need (other_address (start id) p k) (λ x. x) o);
        listed = All-LiveStill t.sockets _ need still l;
        live = still;
        queue = refl;
        count = refl;
      },
    )
deal-Serves start net p (send_buf none buf) out need t k o l =
    ((need, t), refl, Serves-same p t o l)
deal-Serves start net p (send_buf (some q) buf) out need t ((s, e), h) o l =
    (_, rw e refl, Serves-send p q buf t s e h o l)
deal-Serves start net p other out need t k o l = ((need, t), refl, Serves-same p t o l)

pub Keeps-LiveStill :
    (start : ℕ → ℕ) (p : ℕ) (k l : List (ℕ × Connection)) (jobs : List Job)
    → LiveStill k l
    → All (Keeps start p k) jobs
    → All (Keeps start p l) jobs
Keeps-LiveStill start p k l [] f h = tt
Keeps-LiveStill start p k l (connect id ∷ jobs) f h = (h.0, Keeps-LiveStill start p k l jobs f h.1)
Keeps-LiveStill start p k l (send_buf none buf ∷ jobs) f h =
    (tt, Keeps-LiveStill start p k l jobs f h.1)
Keeps-LiveStill start p k l (send_buf (some q) buf ∷ jobs) f h =
    ((f q h.0.0, h.0.1), Keeps-LiveStill start p k l jobs f h.1)
Keeps-LiveStill start p k l (other ∷ jobs) f h = (tt, Keeps-LiveStill start p k l jobs f h.1)

-- The thread whose queue is left at `queue`.
abbrev pub at_queue : List Job → Thread → Thread
at_queue queue t = record t { queue = queue }

pub deal_loop-Serves :
    (start : ℕ → ℕ) (net : ℕ → Attempt) (p n : ℕ) (queue : List Job) (out need : List ℕ)
    (t : Thread)
    → t.queue ≡ queue
    → All (Keeps start p t.sockets) queue
    → Open client_wire p out need t.sockets
    → All (Live t.sockets) need
    → (r : List ℕ × Thread) × (deal_loop start net n queue (need, t) ≡ some r)
      × Serves p (out ++ all_bytes_to p (take n queue)) (at_queue (drop n queue) t) r
unfolding deal_loop
deal_loop-Serves start net p zero queue out need t e k o l = (
  (need, t),
  refl,
  record { open_at = rw (append-nil out) o; listed = l; live = λ q a. a; queue = e; count = refl },
)
deal_loop-Serves start net p (suc n) [] out need t e k o l = (
  (need, t),
  refl,
  record { open_at = rw (append-nil out) o; listed = l; live = λ q a. a; queue = e; count = refl },
)
deal_loop-Serves start net p (suc n) (job ∷ rest) out need t e k o l =
    let ((need', u), f, s) = deal-Serves start net p job out need (at_queue rest t) k.0 o l in
    let (r, g, v) =
      deal_loop-Serves start net p n rest (out ++ bytes_to p job) need' u s.queue
        (Keeps-LiveStill start p t.sockets u.sockets rest s.live k.1) s.open_at s.listed in
    (
      r,
      rw (deal_loop, f) g,
      record {
        open_at =
            rw (append_assoc out (bytes_to p job) (all_bytes_to p (take n rest))) at v.open_at;
        listed = v.listed;
        live = λ q a. v.live q (s.live q a);
        queue = v.queue;
        count = v.count ∙ s.count;
      },
    )

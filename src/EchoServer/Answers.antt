-- ===== src/EchoServer/Answers.antt =====
-- EchoServer/Server.cpp, libsocket/ServerSocket.cpp and ServerSocketIOThread.cpp: the answers of the
-- main thread on their way through the IO thread of the connection.
use native.Mathlib.Nat.{mul-suc}
use echo_server_cpp.Prelude.{
  concat, ℕ, suc, ◌≤◌, ◌<◌, ◌≡◌, refl, ap, subst, ◌∙◌, Bool, true, Option, some, List, [], ◌∷◌,
  ◌++◌, length, arith, ◌==◌, if◌then◌else◌,
}
use echo_server_cpp.Prelude.Int.{ℤ}
use echo_server_cpp.Prelude.Bytes.{All}
use echo_server_cpp.Prelude.Assoc.{lookup}
use echo_server_cpp.Protocol.{Heartbeat}
use echo_server_cpp.Protocol.RoundTrip.{heartbeat_packet}
use echo_server_cpp.ServerIo.{ServerIo}
use echo_server_cpp.ServerSocket.{Socket, Order, Hub, get_agent, deal_loop}
use echo_server_cpp.ServerSocket
use echo_server_cpp.EchoServer.{Server, callbacks}
use echo_server_cpp.EchoServer.Echo.{
  beat, heartbeats, answers, deal_loop-heartbeats, length-heartbeat_packet,
}
use echo_server_cpp.IoThread.{Job, Thread}
use echo_server_cpp.IoThread
use echo_server_cpp.IoThread.Buffer.{ServerWire, plain_wire, sent_of, Sends}
use echo_server_cpp.Wire.{Flushed}
use echo_server_cpp.IoThread.Open.{all_bytes_to}
use echo_server_cpp.IoThread.Order.{AllKeep}
use echo_server_cpp.IoThread.Progress.{Alive, Targets}
use echo_server_cpp.IoThread.Drain.{run, run-Flushed}

-- asynAccept, asynSend and asynClose of the IO thread; `address` is where a socket stands.
abbrev pub job_of : (Socket → ℕ) → Order → Job
job_of address (ServerSocket.accept_fd fd) = IoThread.accept fd
job_of address (ServerSocket.send_buf a buf) = IoThread.send_buf (some (address a)) buf
job_of address (ServerSocket.close_socket a) = IoThread.close (some (address a))

-- The queue of one IO thread after the orders of the main thread.
abbrev pub jobs_for : (Socket → ℕ) → ℕ → List (ℕ × Order) → List Job
jobs_for address thread [] = []
jobs_for address thread ((k, o) ∷ orders) =
    if k == thread
    then job_of address o ∷ jobs_for address thread orders
    else jobs_for address thread orders

-- As many answers as there were heartbeats.
abbrev pub replies : ℕ → List Heartbeat → List (List ℕ)
replies now [] = []
replies now (h ∷ hs) = heartbeat_packet (beat now) ∷ replies now hs

sends_to : ℕ → List (List ℕ) → List Job
sends_to p [] = []
sends_to p (buf ∷ bufs) = IoThread.send_buf (some p) buf ∷ sends_to p bufs

jobs_for-answers :
    (address : Socket → ℕ) (a : Socket) (now : ℕ) (hs : List Heartbeat)
    → jobs_for address a.thread (answers a now hs) ≡ sends_to (address a) (replies now hs)
unfolding sends_to
jobs_for-answers address a now [] = refl
jobs_for-answers address a now (h ∷ hs) =
    let same : (a.thread == a.thread) ≡ true = ground arith in
    rw same (
      ap
        (λ (jobs : List Job).
          IoThread.send_buf (some (address a)) (heartbeat_packet (beat now)) ∷ jobs)
        (jobs_for-answers address a now hs))

length-sends_to :
    (p now : ℕ) (hs : List Heartbeat) → length (sends_to p (replies now hs)) ≡ length hs
unfolding sends_to
length-sends_to p now [] = refl
length-sends_to p now (h ∷ hs) = ap suc (length-sends_to p now hs)

sends_to-Targets :
    (t : Thread) (p now : ℕ) (hs : List Heartbeat)
    → Alive t p
    → All (Targets t) (sends_to p (replies now hs))
unfolding sends_to
sends_to-Targets t p now [] k = tt
sends_to-Targets t p now (h ∷ hs) k = (k, sends_to-Targets t p now hs k)

sends_to-Keep :
    (limit : ℕ) (start : ℕ → Option ℕ) (p now : ℕ) (hs : List Heartbeat)
    → 8 < limit
    → AllKeep limit start p (sends_to p (replies now hs))
unfolding sends_to
sends_to-Keep limit start p now [] l = tt
sends_to-Keep limit start p now (h ∷ hs) l =
    (omega (arith, length-heartbeat_packet (beat now)), sends_to-Keep limit start p now hs l)

bytes-sends_to :
    (p now : ℕ) (hs : List Heartbeat)
    → all_bytes_to p (sends_to p (replies now hs)) ≡ concat (replies now hs)
unfolding sends_to
bytes-sends_to p now [] = refl
bytes-sends_to p now (h ∷ hs) =
    let same : (p == p) ≡ true = ground arith in
    rw same (ap (λ (r : List ℕ). heartbeat_packet (beat now) ++ r) (bytes-sends_to p now hs))

-- The same for any kind of connection whose packets may have eight bytes.
pub heartbeats-Flushed :
    (host : Bool) (now n : ℕ) (x a : Socket) (hs : List Heartbeat) (s : Hub Server)
    (address : Socket → ℕ) (start : ℕ → Option ℕ) (written : ℤ) (w : ServerWire written)
    (io : Thread) (c : ServerIo)
    → 8 < w.limit
    → get_agent x s ≡ some a
    → length hs ≤ n
    → s.outbox ≡ []
    → lookup (address a) io.sockets ≡ some c
    → w.Ready c
    → c.send_buf ≡ []
    → (t : Hub Server) × (deal_loop (callbacks host now) host n (heartbeats x hs) s ≡ some t)
      × ((io' : Thread) × (run
              (length hs)
              start
              written
              (record io { queue = jobs_for address a.thread t.outbox })
            ≡ some io')
          × (io'.queue ≡ [])
          × Flushed w (address a) (w.out c ++ concat (replies now hs)) io'.sockets)
heartbeats-Flushed host now n x a hs s address start written w io c wide known few none_yet e v z =
    let p = address a in
    let (t, f, g, agents, count) = deal_loop-heartbeats host now n x a hs s known few in
    let jobs = sends_to p (replies now hs) in
    let queue : jobs_for address a.thread t.outbox ≡ jobs =
      ap (jobs_for address a.thread)
        (g ∙ ap (λ (o : List (ℕ × Order)). o ++ answers a now hs) none_yet)
      ∙ jobs_for-answers address a now hs in
    let io₁ : Thread = record io { queue = jobs } in
    let alive : Alive io₁ p = (c, e) in
    let l = length-sends_to p now hs in
    let m = mul-suc (length hs) io.pair_deal_count in
    let (io', r, q, flushed) =
      run-Flushed written w start p (length hs) c io₁ (omega (arith, l, m))
        (sends_to-Targets io₁ p now hs alive) (sends_to-Keep w.limit start p now hs wide) e v z in
    (
      t,
      f,
      (
        io',
        ap (λ (jobs' : List Job). run (length hs) start written (record io { queue = jobs' })) queue
            ∙ r,
        q,
        subst (λ (y : List ℕ). Flushed w p (w.out c ++ y) io'.sockets) (bytes-sends_to p now hs)
            flushed,
      ),
    )

-- Heartbeats from a known client, no more than the loop may take, where no order was given before,
-- are answered on the wire: with the orders that the main thread gives for them as its queue, the
-- IO thread of a plain, connected connection whose buffer is empty sends one heartbeat packet of
-- the time for each, without anything in between, in as many calls of pairCallback as there were
-- heartbeats, and no job is left.
pub heartbeats-sent :
    (host : Bool) (now n : ℕ) (x a : Socket) (hs : List Heartbeat) (s : Hub Server)
    (address : Socket → ℕ) (start : ℕ → Option ℕ) (written : ℤ) (io : Thread) (c : ServerIo)
    → get_agent x s ≡ some a
    → length hs ≤ n
    → s.outbox ≡ []
    → lookup (address a) io.sockets ≡ some c
    → Sends c
    → c.send_buf ≡ []
    → (t : Hub Server) × (deal_loop (callbacks host now) host n (heartbeats x hs) s ≡ some t)
      × ((io' : Thread) × (c' : ServerIo) × (run
              (length hs)
              start
              written
              (record io { queue = jobs_for address a.thread t.outbox })
            ≡ some io')
          × (io'.queue ≡ [])
          × (lookup (address a) io'.sockets ≡ some c')
          × (concat c'.sent ≡ concat c.sent ++ concat (replies now hs)))
heartbeats-sent host now n x a hs s address start written io c known few none_yet e v z =
    let (t, f, (io', r, q, (c', e', b, z', v'))) =
      heartbeats-Flushed host now n x a hs s address start written (plain_wire written) io c
        (omega arith) known few none_yet e v z in
    (t, f, (io', c', r, q, e', sent_of c' c (concat (replies now hs)) z' z b))

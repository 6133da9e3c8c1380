-- ===== src/EchoServer/Echo.antt =====
-- EchoServer/Server.cpp in the main thread: what is sent for heartbeats.
use echo_server_cpp.Prelude.{
  ℕ, zero, suc, ◌%◌, ◌^◌, ◌≤◌, ◌<◌, ◌≡◌, ◌≢◌, refl, sym, ap, ◌∙◌, Bool, true, false, some, List, [],
  ◌∷◌, ◌++◌, append_assoc, append-nil, arith, length, take, replicate, length-append, take_all,
  ◌==◌,
}
use echo_server_cpp.Prelude.Int.{pos, ◌+ℤ◌}
use echo_server_cpp.Prelude.Results.{ok}
use echo_server_cpp.Prelude.Assoc.{lookup}
use echo_server_cpp.Stream.Words.{wire, length-wire, at}
use echo_server_cpp.Protocol.{ProtocolHead, Heartbeat, xyid_heartbeat, reader, get_template_buf}
use echo_server_cpp.Protocol.RoundTrip.{
  head_bytes, length-head_bytes, heartbeat_head, heartbeat_packet, get_template_buf-packet,
  readxy-head, read_head-head_bytes,
}
use echo_server_cpp.ServerSocket
use echo_server_cpp.ServerSocket.{
  Socket, Package, recv_buf, Order, Hub, get_agent, send_all, deal, deal_loop,
}
use echo_server_cpp.ServerSocket.Queue.{deal-recv_known}
use echo_server_cpp.EchoServer.{
  Server, send_block, answer, on_heartbeat, on_client_recive, callbacks,
}

-- The heartbeat that the server sends at a time.
abbrev pub beat : ℕ → Heartbeat
beat now = record { timestamp = now % 2 ^ 32 }

pub length-heartbeat_packet : (h : Heartbeat) → length (heartbeat_packet h) ≡ 8
unfolding heartbeat_packet
length-heartbeat_packet h = omega (
  arith,
  length-append (head_bytes heartbeat_head) (wire false 4 h.timestamp),
  length-head_bytes heartbeat_head,
  length-wire false 4 h.timestamp,
)

send_block-packet :
    (host : Bool) (head : ProtocolHead) (now : ℕ)
    → get_template_buf host send_block head (beat now)
      ≡ ok (heartbeat_head, heartbeat_packet (beat now))
unfolding send_block
send_block-packet host head now =
    get_template_buf-packet host (replicate 8 0) head (beat now) (omega arith)
    ∙ ap (λ (t : List ℕ). ok (heartbeat_head, t)) (append-nil (heartbeat_packet (beat now)))

-- A packet with the heartbeat's id, whatever its body, is answered by one heartbeat packet with the
-- time, and both are counted.
pub on_client_recive-heartbeat :
    (host : Bool) (now : ℕ) (h : ProtocolHead) (body : List ℕ) (s : Server)
    → h.len < 2 ^ 16
    → h.xyid ≡ xyid_heartbeat
    → on_client_recive host now h (head_bytes h ++ body) s ≡ (
      record s { recive_count = s.recive_count +ℤ pos 1; send_count = s.send_count +ℤ pos 1 },
      heartbeat_packet (beat now) ∷ [],
    )
unfolding on_client_recive on_heartbeat answer
on_client_recive-heartbeat host now h body s a x =
    let (t, e) = readxy-head host h body a (omega (arith, x)) in
    let y : (h.xyid == 1) ≡ true = ground arith in
    let z : take 8 (heartbeat_packet (beat now)) ≡ heartbeat_packet (beat now) =
      take_all 8 (heartbeat_packet (beat now))
        (omega (arith, length-heartbeat_packet (beat now))) in
    rw (y, e, on_heartbeat, send_block-packet host h now, answer, z)

-- A packet with any other id is counted and not answered.
pub on_client_recive-other :
    (host : Bool) (now : ℕ) (h : ProtocolHead) (buf : List ℕ) (s : Server)
    → h.xyid ≢ xyid_heartbeat
    → on_client_recive host now h buf s ≡ (record s { recive_count = s.recive_count +ℤ pos 1 }, [])
unfolding on_client_recive
on_client_recive-other host now h buf s x = let y : (h.xyid == 1) ≡ false = ground arith in rw y

-- The packages of a client that sends heartbeats, and what the server sends for them.
abbrev pub heartbeats : Socket → List Heartbeat → List Package
heartbeats x [] = []
heartbeats x (h ∷ hs) = recv_buf (some x) (heartbeat_packet h) ∷ heartbeats x hs

abbrev pub answers : Socket → ℕ → List Heartbeat → List (ℕ × Order)
answers a now [] = []
answers a now (h ∷ hs) =
    (a.thread, ServerSocket.send_buf a (heartbeat_packet (beat now))) ∷ answers a now hs

deal-heartbeat :
    (host : Bool) (now : ℕ) (x a : Socket) (h : Heartbeat) (s : Hub Server)
    → get_agent x s ≡ some a
    → (t : Hub Server) × (deal (callbacks host now) host (recv_buf (some x) (heartbeat_packet h)) s
        ≡ some t)
      × (t.outbox
          ≡ s.outbox ++ (a.thread, ServerSocket.send_buf a (heartbeat_packet (beat now))) ∷ [])
      × (t.agents ≡ s.agents)
      × (t.now_socket_count ≡ s.now_socket_count)
unfolding heartbeat_packet callbacks send_all
deal-heartbeat host now x a h s known =
    let body = wire false 4 h.timestamp in
    let e =
      deal-recv_known (callbacks host now) host x a (heartbeat_packet h) heartbeat_head
        (at false (head_bytes heartbeat_head) body) s known
        (unfold reader in
          read_head-head_bytes host heartbeat_head [] body (omega arith) (omega arith)) in
    let f = on_client_recive-heartbeat host now heartbeat_head body s.app (omega arith) refl in
    let t : Hub Server = record s {
      app = record s.app {
        recive_count = s.app.recive_count +ℤ pos 1;
        send_count = s.app.send_count +ℤ pos 1;
      };
      outbox = s.outbox ++ (a.thread, ServerSocket.send_buf a (heartbeat_packet (beat now))) ∷ [];
    } in
    (t, e ∙ rw f, refl, refl, refl)

-- Heartbeats from a known client, no more than the loop may take, are answered one by one, in order,
-- on the thread of the client's agent; the agents and the count of connections stay as they are.
pub deal_loop-heartbeats :
    (host : Bool) (now n : ℕ) (x a : Socket) (hs : List Heartbeat) (s : Hub Server)
    → get_agent x s ≡ some a
    → length hs ≤ n
    → (t : Hub Server) × (deal_loop (callbacks host now) host n (heartbeats x hs) s ≡ some t)
      × (t.outbox ≡ s.outbox ++ answers a now hs)
      × (t.agents ≡ s.agents)
      × (t.now_socket_count ≡ s.now_socket_count)
unfolding deal_loop get_agent
deal_loop-heartbeats host now zero x a [] s known h =
    (s, refl, sym (append-nil s.outbox), refl, refl)
deal_loop-heartbeats host now (suc n) x a [] s known h =
    (s, refl, sym (append-nil s.outbox), refl, refl)
deal_loop-heartbeats host now zero x a (b ∷ hs) s known h = absurd (omega arith)
deal_loop-heartbeats host now (suc n) x a (b ∷ hs) s known h =
    let (u, e, f, g, c) =
      deal-heartbeat host now x a b (record s { queue = heartbeats x hs }) known in
    let (t, e', f', g', c') =
      deal_loop-heartbeats host now n x a hs u (ap (lookup x.fd) g ∙ known) (omega arith) in
    let one = (a.thread, ServerSocket.send_buf a (heartbeat_packet (beat now))) ∷ [] in
    (
      t,
      rw (deal_loop, e) e',
      f'
          ∙ ap (λ (o : List (ℕ × Order)). o ++ answers a now hs) f
          ∙ append_assoc s.outbox one (answers a now hs),
      g' ∙ g,
      c' ∙ c,
    )

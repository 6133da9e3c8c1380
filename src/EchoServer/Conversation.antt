-- ===== src/EchoServer/Conversation.antt =====
-- EchoServer/Server.cpp, libsocket/ServerIOSocket.cpp, ServerSocket.cpp, ServerSocketIOThread.cpp and
-- ClientIOSocket.cpp: heartbeats on their whole way, to the server and back to a client.
use echo_server_cpp.Prelude.{
  ℕ, ◌≤◌, ◌<◌, ◌≡◌, refl, sym, ap, ◌∙◌, inl, Bool, false, Option, some, List, [], ◌∷◌, ◌++◌, map,
  length, concat, append-nil, arith,
}
use echo_server_cpp.Prelude.Int.{ℤ, pos}
use echo_server_cpp.Prelude.Assoc.{lookup}
use echo_server_cpp.Stream.Words.{wire}
use echo_server_cpp.Protocol.{Heartbeat}
use echo_server_cpp.Protocol.RoundTrip.{heartbeat_head, heartbeat_packet}
use echo_server_cpp.ClientIo.{feed}
use echo_server_cpp.ClientIo.Framing.{IsPacket, AllPackets}
use echo_server_cpp.ClientIo.Segments.{feed-packets}
use echo_server_cpp.ServerIo.{ServerIo, done}
use echo_server_cpp.ServerIo.Receive.{recv}
use echo_server_cpp.ServerSocket.{Socket, Package, Hub, get_agent, deal_loop}
use echo_server_cpp.ServerSocket
use echo_server_cpp.EchoServer.{Server, callbacks}
use echo_server_cpp.EchoServer.Echo.{beat, heartbeats, length-heartbeat_packet}
use echo_server_cpp.EchoServer.EndToEnd.{beats, recv-heartbeats}
use echo_server_cpp.EchoServer.Answers.{jobs_for, replies, heartbeats-sent}
use echo_server_cpp.IoThread.{Thread}
use echo_server_cpp.IoThread.Buffer.{Sends}
use echo_server_cpp.IoThread.Drain.{run}

-- The packages that asynRecive pushes for packets.
abbrev pub packages : Socket → List (List ℕ) → List Package
packages x packets = map (ServerSocket.recv_buf (some x)) packets

pub packages-beats : (x : Socket) (hs : List Heartbeat) → packages x (beats hs) ≡ heartbeats x hs
packages-beats x [] = refl
packages-beats x (h ∷ hs) =
    ap (λ (r : List Package). ServerSocket.recv_buf (some x) (heartbeat_packet h) ∷ r)
      (packages-beats x hs)

heartbeat-IsPacket : (h : Heartbeat) → IsPacket (heartbeat_packet h)
unfolding heartbeat_packet
heartbeat-IsPacket h = record {
  head = heartbeat_head;
  body = wire false 4 h.timestamp;
  shape = refl;
  counts = sym (length-heartbeat_packet h);
  len_fits = omega arith;
  xyid_fits = omega arith;
}

replies-AllPackets : (now : ℕ) (hs : List Heartbeat) → AllPackets (replies now hs)
replies-AllPackets now [] = tt
replies-AllPackets now (h ∷ hs) = (heartbeat-IsPacket (beat now), replies-AllPackets now hs)

length-replies : (now : ℕ) (hs : List Heartbeat) → length (replies now hs) ≡ length hs
length-replies now [] = refl
length-replies now (h ∷ hs) = omega (arith, length-replies now hs)

-- One or more heartbeats arrive in one read on a plain, connected connection of a known client,
-- with nothing kept from before, an empty send buffer and no order of the main thread pending.
-- With more fuel than heartbeats, and no more of them than the main thread may take in a call: recv
-- hands up packets; the main thread deals with the packages that they make; with its orders as the
-- queue, the IO thread sends the answers in as many calls of pairCallback as there were heartbeats
-- and has no job left; and a client that reads the bytes of the answers in any chunks hands up one
-- heartbeat packet of the server's time for each, in order, and keeps nothing, on any host.
pub round_trip :
    (sha1 : List ℕ → List ℕ) (written : ℤ) (host peer : Bool) (now n fuel : ℕ) (x a : Socket)
    (h : Heartbeat) (hs : List Heartbeat) (s : Hub Server) (address : Socket → ℕ)
    (start : ℕ → Option ℕ) (io : Thread) (c : ServerIo) (chunks : List (List ℕ))
    → Sends c
    → c.recv_buf ≡ []
    → c.send_buf ≡ []
    → lookup (address a) io.sockets ≡ some c
    → get_agent x s ≡ some a
    → s.outbox ≡ []
    → length (h ∷ hs) < fuel
    → length (h ∷ hs) ≤ n
    → concat chunks ≡ concat (replies now (h ∷ hs))
    → (packets : List (List ℕ)) × (t : Hub Server) × (io' : Thread) × (c' : ServerIo) × (recv sha1
          written host fuel
          (concat (beats (h ∷ hs)))
          c
        ≡ done (pos 0, packets, record c { recv_buf = [] }))
      × (deal_loop (callbacks host now) host n (packages x packets) s ≡ some t)
      × (run
            (length (h ∷ hs))
            start
            written
            (record io { queue = jobs_for address a.thread t.outbox })
          ≡ some io')
      × (io'.queue ≡ [])
      × (lookup (address a) io'.sockets ≡ some c')
      × (concat c'.sent ≡ concat c.sent ++ concat chunks)
      × (feed peer fuel [] chunks ≡ some (replies now (h ∷ hs), []))
round_trip sha1 written host peer now n fuel x a h hs s address start io c chunks v r z e known idle
      more few cut =
    let all = h ∷ hs in
    let (t, f, (io', c', g, q, e', b)) =
      heartbeats-sent host now n x a all s address start written io c known few idle e v z in
    (
      beats all,
      t,
      io',
      c',
      recv-heartbeats sha1 written host fuel c h hs v.status v.plain r more,
      ap (λ (p : List Package). deal_loop (callbacks host now) host n p s) (packages-beats x all)
          ∙ f,
      g,
      q,
      e',
      b ∙ ap (λ (y : List ℕ). concat c.sent ++ y) (sym cut),
      feed-packets peer fuel [] chunks (replies now all) [] (replies-AllPackets now all)
          (inl (omega arith)) (inl (omega arith))
          (cut ∙ sym (append-nil (concat (replies now all))))
          (omega (arith, length-replies now all)),
    )

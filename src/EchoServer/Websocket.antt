-- ===== src/EchoServer/Websocket.antt =====
-- EchoServer/Server.cpp, libsocket/ServerIOSocket.cpp, ServerSocket.cpp and ServerSocketIOThread.cpp:
-- heartbeats in a frame, and the frames of the answers.
use echo_server_cpp.Prelude.{
  ℕ, ◌+◌, ◌≤◌, ◌<◌, ◌≡◌, refl, ap, ◌∙◌, Bool, false, Option, some, List, [], ◌∷◌, ◌++◌, map, length,
  drop, concat, arith, ltb, length-append,
}
use echo_server_cpp.Prelude.Int.{ℤ, pos}
use echo_server_cpp.Prelude.Bytes.{All, All-append, IsByte, bytes_le-IsByte}
use echo_server_cpp.Prelude.Assoc.{lookup}
use echo_server_cpp.Stream.Words.{wire}
use echo_server_cpp.SocketBase.{connected, is_web_socket, max_buffer_size, max_ws_tmp_buffer_size}
use echo_server_cpp.Protocol.{Heartbeat}
use echo_server_cpp.Protocol.RoundTrip.{head_bytes, heartbeat_head, heartbeat_packet}
use echo_server_cpp.Strings.Removal.{take-length}
use echo_server_cpp.ServerIo.{ServerIo, done}
use echo_server_cpp.ServerIo.Frame.{unmask}
use echo_server_cpp.ServerIo.Receive.{recv, recv_frame, cut_packets}
use echo_server_cpp.ServerIo.FrameLaws.{
  frame_length, length-unmask, client_frame, remove_web_socket_head-client_frame,
}
use echo_server_cpp.ServerSocket.{Socket, Package, Hub, get_agent, deal_loop}
use echo_server_cpp.EchoServer.{Server, callbacks}
use echo_server_cpp.EchoServer.EndToEnd.{beats, cut_packets-beats}
use echo_server_cpp.EchoServer.Answers.{jobs_for, replies, heartbeats-Flushed}
use echo_server_cpp.EchoServer.Conversation.{packages, packages-beats}
use echo_server_cpp.IoThread.{Thread}
use echo_server_cpp.IoThread.Payload.{SendsFrames, payload, web_wire}
use echo_server_cpp.IoThread.Frames.{payload_of}
use echo_server_cpp.IoThread.Drain.{run}

wire-IsByte : (n v : ℕ) → All IsByte (wire false n v)
unfolding wire
wire-IsByte n v = bytes_le-IsByte n v

packet-IsByte : (h : Heartbeat) → All IsByte (heartbeat_packet h)
unfolding heartbeat_packet head_bytes
packet-IsByte h =
    All-append IsByte (head_bytes heartbeat_head) (wire false 4 h.timestamp)
      (All-append IsByte (wire false 2 heartbeat_head.len) (wire false 2 heartbeat_head.xyid)
        (wire-IsByte 2 heartbeat_head.len) (wire-IsByte 2 heartbeat_head.xyid))
      (wire-IsByte 4 h.timestamp)

beats-IsByte : (hs : List Heartbeat) → All IsByte (concat (beats hs))
beats-IsByte [] = tt
beats-IsByte (h ∷ hs) =
    All-append IsByte (heartbeat_packet h) (concat (beats hs)) (packet-IsByte h) (beats-IsByte hs)

-- The websocket buffer after a frame with this data was read and taken apart.
abbrev pub after_frame : List ℕ → List ℕ → ServerIo → List ℕ
after_frame key content s =
    let frame = client_frame key content in
    let tmp = frame ++ drop (length frame) s.tmp in content ++ 0 ∷ drop (length content + 1) tmp

frame-recv :
    (sha1 : List ℕ → List ℕ) (written : ℤ) (host : Bool) (fuel : ℕ) (s : ServerIo) (chunk : List ℕ)
    → s.status ≡ connected
    → s.ws ≡ is_web_socket
    → recv sha1 written host fuel chunk s ≡ recv_frame host fuel chunk s
unfolding recv
frame-recv sha1 written host fuel s chunk c w = ground arith

recv_frame-content :
    (host : Bool) (fuel : ℕ) (s : ServerIo) (key content : List ℕ)
    → s.recv_buf ≡ []
    → length key ≡ 4
    → All IsByte key
    → All IsByte content
    → length (client_frame key content) ≤ max_ws_tmp_buffer_size
    → length content ≤ max_buffer_size
    → recv_frame host fuel (client_frame key content) s
      ≡ cut_packets host fuel content
          (length content)
          (record s { tmp = after_frame key content s })
unfolding recv_frame
recv_frame-content host fuel s key content empty four k b fits less =
    let frame = client_frame key content in
    let s₁ = record s { tmp = frame ++ drop (length frame) s.tmp } in
    let e =
      remove_web_socket_head-client_frame s₁ key content (drop (length frame) s.tmp) refl four k b
        fits in
    let room : ltb max_buffer_size (length s.recv_buf + length content) ≡ false =
      (let z = ap length empty in ground (arith, z)) in
    let t = take-length content (0 ∷ drop (length content + 1) s₁.tmp) in
    rw (recv_frame, e, room, t)
      (ap
        (λ (x : List ℕ).
          cut_packets host fuel (x ++ content) (length content)
            (record s { tmp = after_frame key content s }))
        empty)

content_fits :
    (key content : List ℕ)
    → length (client_frame key content) ≤ max_ws_tmp_buffer_size
    → length content ≤ max_buffer_size
unfolding client_frame
content_fits key content h =
    let n = length content in
    omega (
      arith,
      length-append (frame_length n) (key ++ unmask key 0 content),
      length-append key (unmask key 0 content),
      length-unmask key 0 content,
    )

-- The connection as recv leaves it.
abbrev pub received : List ℕ → List Heartbeat → ServerIo → ServerIo
received key hs c = record c { tmp = after_frame key (concat (beats hs)) c; recv_buf = [] }

-- One or more heartbeats arrive on a connected websocket of a known client, as the data of one masked
-- frame that fits the websocket buffer, with nothing kept from before, an empty send buffer and no
-- order of the main thread pending. With more fuel than heartbeats, and no more of them than the
-- main thread may take in a call: recv hands up packets; the main thread deals with the packages
-- that they make; and with its orders as the queue, the IO thread, which has the connection as recv
-- left it, sends frames whose data, one after the other, are one heartbeat packet of the server's
-- time for each, in as many calls of pairCallback as there were heartbeats, and has no job left.
pub web_round_trip :
    (sha1 : List ℕ → List ℕ) (written : ℤ) (host : Bool) (now n fuel : ℕ) (x a : Socket)
    (key : List ℕ) (h : Heartbeat) (hs : List Heartbeat) (s : Hub Server) (address : Socket → ℕ)
    (start : ℕ → Option ℕ) (io : Thread) (c : ServerIo)
    → SendsFrames c
    → c.recv_buf ≡ []
    → c.send_buf ≡ []
    → lookup (address a) io.sockets ≡ some (received key (h ∷ hs) c)
    → get_agent x s ≡ some a
    → s.outbox ≡ []
    → length key ≡ 4
    → All IsByte key
    → length (client_frame key (concat (beats (h ∷ hs)))) ≤ max_ws_tmp_buffer_size
    → length (h ∷ hs) < fuel
    → length (h ∷ hs) ≤ n
    → (packets : List (List ℕ)) × (t : Hub Server) × (io' : Thread) × (c' : ServerIo) × (recv sha1
          written host fuel
          (client_frame key (concat (beats (h ∷ hs))))
          c
        ≡ done (pos 0, packets, received key (h ∷ hs) c))
      × (deal_loop (callbacks host now) host n (packages x packets) s ≡ some t)
      × (run
            (length (h ∷ hs))
            start
            written
            (record io { queue = jobs_for address a.thread t.outbox })
          ≡ some io')
      × (io'.queue ≡ [])
      × (lookup (address a) io'.sockets ≡ some c')
      × (concat (map payload c'.sent)
          ≡ concat (map payload c.sent) ++ concat (replies now (h ∷ hs)))
web_round_trip sha1 written host now n fuel x a key h hs s address start io c v r z e known idle
      four k fits more few =
    let all = h ∷ hs in
    let content = concat (beats all) in
    let u = received key all c in
    let ready : SendsFrames u = record {
      status = v.status;
      web = v.web;
      bev = v.bev;
      room = v.room;
    } in
    let (t, f, (io', g, q, (c', e', b, z', v'))) =
      heartbeats-Flushed host now n x a all s address start written (web_wire written) io u
        (omega arith) known few idle e ready z in
    (
      beats all,
      t,
      io',
      c',
      frame-recv sha1 written host fuel c (client_frame key content) v.status v.web
          ∙ recv_frame-content host fuel c key content r four k (beats-IsByte all) fits
              (content_fits key content fits)
          ∙ cut_packets-beats host fuel (record c { tmp = after_frame key content c }) h hs more,
      ap (λ (p : List Package). deal_loop (callbacks host now) host n p s) (packages-beats x all)
          ∙ f,
      g,
      q,
      e',
      payload_of c' u (concat (replies now all)) z' z b,
    )

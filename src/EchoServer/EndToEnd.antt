-- ===== src/EchoServer/EndToEnd.antt =====
-- libsocket/ServerIOSocket.cpp and EchoServer/Server.cpp: heartbeats that arrive on a connection.
use echo_server_cpp.Prelude.{
  concat, ℕ, ◌<◌, ◌≡◌, ap, ◌∙◌, Bool, true, false, List, [], ◌∷◌, ◌++◌, map, append_assoc,
  append-nil, arith, length, drop_all, length-append, length-map,
}
use echo_server_cpp.Prelude.Int.{ℤ, pos}
use echo_server_cpp.Stream.Words.{wire}
use echo_server_cpp.Protocol.{Heartbeat}
use echo_server_cpp.Protocol.RoundTrip.{heartbeat_head, heartbeat_packet}
use echo_server_cpp.SocketBase.{not_web_socket, connected}
use echo_server_cpp.ServerIo.{ServerIo, done}
use echo_server_cpp.ServerIo.Receive.{recv, recv_plain, do_web_socket, cut_packets}
use echo_server_cpp.ServerIo.Packets.{Headed, AllLength, parse-uniform}
use echo_server_cpp.EchoServer.Echo.{length-heartbeat_packet}

-- The bytes of some heartbeats, one after the other.
abbrev pub beats : List Heartbeat → List (List ℕ)
beats hs = map heartbeat_packet hs

AllLength-beats : (hs : List Heartbeat) → AllLength 8 (beats hs)
AllLength-beats [] = tt
AllLength-beats (h ∷ hs) = (length-heartbeat_packet h, AllLength-beats hs)

beats-Headed :
    (h : Heartbeat) (hs : List Heartbeat)
    → Headed (concat (beats (h ∷ hs)) ++ []) (length (concat (beats (h ∷ hs)))) heartbeat_head
unfolding heartbeat_packet
beats-Headed h hs = record {
  body = wire false 4 h.timestamp ++ concat (beats hs);
  shape =
      append-nil (concat (beats (h ∷ hs)))
      ∙ append_assoc _ (wire false 4 h.timestamp) (concat (beats hs));
  enough =
      omega
        (arith, length-append (heartbeat_packet h) (concat (beats hs)), length-heartbeat_packet h);
  len_fits = omega arith;
  xyid_fits = omega arith;
}

plain-recv :
    (sha1 : List ℕ → List ℕ) (written : ℤ) (host : Bool) (fuel : ℕ) (s : ServerIo) (chunk : List ℕ)
    → s.status ≡ connected
    → s.ws ≡ not_web_socket
    → recv sha1 written host fuel chunk s
      ≡ cut_packets host fuel (s.recv_buf ++ chunk) (length chunk) s
unfolding recv recv_plain cut_packets
plain-recv sha1 written host fuel s chunk c w =
    let plain : recv sha1 written host fuel chunk s ≡ recv_plain sha1 written host fuel chunk s =
      ground arith in
    let known : do_web_socket sha1 written (s.recv_buf ++ chunk) s ≡ done (true, s) =
      unfold do_web_socket in ground arith in
    plain ∙ rw (recv_plain, known)

-- A buffer of whole heartbeats.
pub cut_packets-beats :
    (host : Bool) (fuel : ℕ) (s : ServerIo) (h : Heartbeat) (hs : List Heartbeat)
    → length (h ∷ hs) < fuel
    → cut_packets host fuel (concat (beats (h ∷ hs))) (length (concat (beats (h ∷ hs)))) s
      ≡ done (pos 0, beats (h ∷ hs), record s { recv_buf = [] })
unfolding cut_packets
cut_packets-beats host fuel s h hs f =
    let ps = beats (h ∷ hs) in
    let n = length-map (h ∷ hs) heartbeat_packet in
    let e =
      parse-uniform host fuel (length (concat ps)) heartbeat_head ps [] (beats-Headed h hs)
        (omega arith) (AllLength-beats (h ∷ hs)) (omega arith) (omega (arith, n)) in
    let z = rw (append-nil (concat ps)) at e in
    rw (cut_packets, z, drop_all (length (concat ps)) (concat ps) (omega arith))

-- A read on a connection that is known to be plain brings one or more whole heartbeats, and nothing
-- was kept from before: with more fuel than heartbeats recv ends, hands up each of them and keeps
-- nothing.
pub recv-heartbeats :
    (sha1 : List ℕ → List ℕ) (written : ℤ) (host : Bool) (fuel : ℕ) (s : ServerIo) (h : Heartbeat)
    (hs : List Heartbeat)
    → s.status ≡ connected
    → s.ws ≡ not_web_socket
    → s.recv_buf ≡ []
    → length (h ∷ hs) < fuel
    → recv sha1 written host fuel (concat (beats (h ∷ hs))) s
      ≡ done (pos 0, beats (h ∷ hs), record s { recv_buf = [] })
recv-heartbeats sha1 written host fuel s h hs c w k f =
    let ps = beats (h ∷ hs) in
    plain-recv sha1 written host fuel s (concat ps) c w
    ∙ ap (λ (t : List ℕ). cut_packets host fuel (t ++ concat ps) (length (concat ps)) s) k
    ∙ cut_packets-beats host fuel s h hs f

-- ===== src/ClientSocket/HeartBeat.antt =====
-- libsocket/AgentServer.cpp: when a heartbeat goes out to a server.
use echo_server_cpp.Prelude.{
  ℕ, ◌+◌, ◌-◌, ◌%◌, ◌^◌, ◌≤◌, ◌<◌, ◌≡◌, refl, ap, ◌∙◌, Bool, true, false, List, [], ◌∷◌, ◌++◌,
  length, take, drop, leb, ◌==◌, if◌then◌else◌, Bool-cases, inl, inr, arith, length-append,
}
use echo_server_cpp.Prelude.Results.{ok}
use echo_server_cpp.Stream.Words.{wire, length-wire}
use echo_server_cpp.Protocol.{Heartbeat}
use echo_server_cpp.Protocol.RoundTrip.{
  get_template_buf-packet, heartbeat_packet, heartbeat_head, head_bytes, length-head_bytes,
}
use echo_server_cpp.Strings.Removal.{take-length}
use echo_server_cpp.ClientSocket.{try_heart_beat}

packet_front :
    (xy : Heartbeat) (rest : List ℕ) → take 8 (heartbeat_packet xy ++ rest) ≡ heartbeat_packet xy
unfolding heartbeat_packet
packet_front xy rest =
    let p = heartbeat_packet xy in
    let n : 8 ≡ length p = omega (
      arith,
      length-append (head_bytes heartbeat_head) (wire false 4 xy.timestamp),
      length-head_bytes heartbeat_head,
      length-wire false 4 xy.timestamp,
    ) in
    ap (λ (m : ℕ). take m (p ++ rest)) n ∙ take-length p rest

-- With a buffer for a whole packet, and a clock that does not go back, tryHeartBeat sends exactly
-- the heartbeat packet of the time if it is the first or 60 seconds have passed since the last one
-- that it sent, and otherwise sends nothing and keeps that time.
pub try_heart_beat-interval :
    (host : Bool) (buffer : List ℕ) (now last : ℕ)
    → 8 ≤ length buffer
    → last ≤ now
    → now < 2 ^ 32
    → try_heart_beat host buffer now last
      ≡ ok (
          if (if last == 0 then true else leb (last + 60) now)
          then (now, heartbeat_packet (record { timestamp = now }) ∷ [])
          else (last, []))
unfolding try_heart_beat
try_heart_beat-interval host buffer now last room order fits =
    let made =
      get_template_buf-packet host buffer (record { len = 0; xyid = 0 })
        (record { timestamp = now }) room in
    let front = packet_front (record { timestamp = now }) (drop 8 buffer) in
    let w : (now + 2 ^ 32 - last) % 2 ^ 32 ≡ now - last = omega arith in
    let same : leb 60 (now - last) ≡ leb (last + 60) now = ground arith in
    elim (Bool-cases (if last == 0 then true else leb (last + 60) now)) [
      | inl e ↦ rw (try_heart_beat, w, same, e, made, front) refl
      | inr e ↦ rw (try_heart_beat, w, same, e) refl
    ]

-- ===== src/ServerIo/FrameFaults.antt =====
-- libsocket/ServerIOSocket.cpp: long and coalesced frames, and the heads of the frames sent.
use echo_server_cpp.Prelude.{
  ℕ, ◌+◌, ◌*◌, ◌%◌, ◌^◌, ◌≤◌, ◌<◌, ◌≡◌, Bool, true, false, List, ◌∷◌, ◌++◌, append_assoc, arith,
  length, drop, get_or, take-append, ltb, ◌==◌, if◌then◌else◌,
}
use echo_server_cpp.Prelude.Bytes.{IsByte, All}
use echo_server_cpp.SocketBase.{max_buffer_size, max_ws_tmp_buffer_size}
use echo_server_cpp.ServerIo.{ServerIo, fault, frame_head}
use echo_server_cpp.ServerIo.Frame.{data_length, binary_data, remove_web_socket_head}
use echo_server_cpp.ServerIo.FrameLaws.{client_frame, remove_web_socket_head-client_frame}
use echo_server_cpp.ServerIo.Receive.{cut_packets, recv_frame}

-- A frame with the 8-byte length field, whatever its kind, makes the code write out of bounds.
pub remove_web_socket_head-wide :
    (s : ServerIo) → get_or s.tmp 1 0 % 128 ≡ 127 → remove_web_socket_head s ≡ fault
unfolding remove_web_socket_head data_length
remove_web_socket_head-wide s h = rw (remove_web_socket_head, h)

-- A binary frame with the 2-byte length field that announces more data than fits the websocket
-- buffer together with the eight bytes in front makes the code leave that buffer, however few bytes
-- were received.
pub remove_web_socket_head-long :
    (s : ServerIo)
    → get_or s.tmp 0 0 % 16 ≡ 2
    → get_or s.tmp 1 0 % 128 ≡ 126
    → max_ws_tmp_buffer_size < 8 + (get_or s.tmp 2 0 * 256 + get_or s.tmp 3 0)
    → remove_web_socket_head s ≡ fault
unfolding remove_web_socket_head data_length binary_data
remove_web_socket_head-long s o h long =
    let e : ltb max_ws_tmp_buffer_size (8 + (get_or s.tmp 2 0 * 256 + get_or s.tmp 3 0)) ≡ true =
      ground arith in
    rw (remove_web_socket_head, h, o, e)

-- A read that brings a masked frame, which fits the buffers with its data, and more bytes behind it,
-- such as a second frame: the data of the first frame is cut into packets, and what is behind it has
-- no influence on the packets or the code returned.
pub recv_frame-first :
    (host : Bool) (fuel : ℕ) (s : ServerIo) (key payload extra : List ℕ)
    → length key ≡ 4
    → All IsByte key
    → All IsByte payload
    → length (client_frame key payload) ≤ max_ws_tmp_buffer_size
    → length s.recv_buf + length payload ≤ max_buffer_size
    → (tmp : List ℕ) × (recv_frame host fuel (client_frame key payload ++ extra) s
        ≡ cut_packets host fuel (s.recv_buf ++ payload) (length payload) (record s { tmp = tmp }))
unfolding recv_frame
recv_frame-first host fuel s key payload extra four k h fits room =
    let chunk = client_frame key payload ++ extra in
    let t = record s { tmp = chunk ++ drop (length chunk) s.tmp } in
    let rest = extra ++ drop (length chunk) s.tmp in
    let e =
      remove_web_socket_head-client_frame t key payload rest
        (append_assoc (client_frame key payload) extra (drop (length chunk) s.tmp)) four k h fits in
    let f : ltb max_buffer_size (length s.recv_buf + length payload) ≡ false = ground arith in
    (payload ++ 0 ∷ drop (length payload + 1) t.tmp, rw (recv_frame, e, f, take-append))

-- The data length that a frame head announces, by RFC 6455.
unfoldable pub announced : List ℕ → ℕ
announced head =
    let at = λ (i : ℕ). get_or head i 0 in
    let short = at 1 % 128 in
    if short == 126
    then at 2 * 256 + at 3
    else if short == 127
    then ((((((at 2 * 256 + at 3) * 256 + at 4) * 256 + at 5) * 256 + at 6) * 256 + at 7) * 256
          + at 8)
        * 256
      + at 9
    else short

-- Below 65536 bytes the head that sendWebSocketBuff writes announces, by RFC 6455, the length.
pub announced-frame_head : (n : ℕ) → n < 2 ^ 16 → announced (frame_head n) ≡ n
unfolding announced frame_head
announced-frame_head n h = ground arith

-- From 65536 bytes on, for a 32-bit length, the head that sendWebSocketBuff writes announces the
-- length times 2 ^ 32.
pub announced-frame_head_wide :
    (n : ℕ) → 2 ^ 16 ≤ n → n < 2 ^ 32 → announced (frame_head n) ≡ n * 2 ^ 32
unfolding announced frame_head
announced-frame_head_wide n h k = ground arith

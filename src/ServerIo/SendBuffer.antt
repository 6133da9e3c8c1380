-- ===== src/ServerIo/SendBuffer.antt =====
-- libsocket/ServerIOSocket.cpp: the send buffer of a connection, expandSendBuf and consumeSendBuf.
use echo_server_cpp.Prelude.{
  ℕ, ◌+◌, ◌%◌, ◌^◌, ◌≤◌, ◌<◌, ◌≡◌, refl, ◌⊎◌, inl, inr, true, false, Bool-cases, List, [], ◌∷◌,
  ◌++◌, arith, length, length-append, ltb, leb, if◌then◌else◌,
}
use echo_server_cpp.Prelude.Int.{ℤ}
use echo_server_cpp.SocketBase.{max_buffer_size, connected, is_web_socket, not_web_socket}
use echo_server_cpp.ServerIo.{
  ServerIo, is_web, is_connected, frame_head, to_send, send_web_socket_buff, expand_send_buf,
  had_send_buf_data, consume_send_buf,
}
use echo_server_cpp.ServerIo.FrameFaults.{announced, announced-frame_head}

-- The room that is kept free for the head of a frame.
abbrev pub reserve : ServerIo → ℕ
reserve s = if is_web s.ws then 10 else 0

reserve_bound : (s : ServerIo) → reserve s ≤ 10
reserve_bound s = ground arith

-- With lengths below 2 ^ 31, expandSendBuf either takes the whole packet behind what is there, and
-- then less than the buffer is filled together with the room for the head of a frame, or it refuses
-- for lack of that room and changes nothing.
pub expand_send_buf-cases :
    (buf : List ℕ) (s : ServerIo)
    → length buf < 2 ^ 31
    → length s.send_buf < max_buffer_size
    → ((expand_send_buf buf s ≡ (true, record s { send_buf = s.send_buf ++ buf }))
        × (length (s.send_buf ++ buf) + reserve s < max_buffer_size))
      ⊎ ((expand_send_buf buf s ≡ (false, s))
          × (max_buffer_size ≤ length (s.send_buf ++ buf) + reserve s))
unfolding expand_send_buf
expand_send_buf-cases buf s h k =
    let n = length-append s.send_buf buf in
    let r = reserve_bound s in
    let total : ℕ = length buf + length s.send_buf + reserve s in
    let w : total % 2 ^ 32 ≡ total = omega (arith, r) in
    elim (Bool-cases (leb max_buffer_size total)) [
      | inl a ↦ inr (rw (w, a) refl, ground (arith, n))
      | inr a ↦ inl (rw (w, a) refl, ground (arith, n))
    ]

pub consume_send_buf-web :
    (written : ℤ) (s : ServerIo)
    → s.status ≡ connected
    → s.ws ≡ is_web_socket
    → s.bev ≡ true
    → 0 < length s.send_buf
    → consume_send_buf written s ≡ (
      true,
      record s {
        send_buf = [];
        sent = s.sent ++ (frame_head (length s.send_buf) ++ s.send_buf) ∷ [];
      },
    )
unfolding consume_send_buf had_send_buf_data to_send is_connected is_web send_web_socket_buff
consume_send_buf-web written s c w b h =
    let e : ltb 0 (length s.send_buf) ≡ true = ground arith in rw (e, c, w, b) refl

-- On a connected websocket whose buffer is not empty and not overfull, consumeSendBuf sends all of
-- it as one frame, whose head announces its length, and empties the buffer.
pub consume_send_buf-frame :
    (written : ℤ) (s : ServerIo)
    → s.status ≡ connected
    → s.ws ≡ is_web_socket
    → s.bev ≡ true
    → 0 < length s.send_buf
    → length s.send_buf < max_buffer_size
    → (head : List ℕ) × (consume_send_buf written s
        ≡ (true, record s { send_buf = []; sent = s.sent ++ (head ++ s.send_buf) ∷ [] }))
      × (announced head ≡ length s.send_buf)
consume_send_buf-frame written s c w b h k = (
  frame_head (length s.send_buf),
  consume_send_buf-web written s c w b h,
  announced-frame_head (length s.send_buf) (omega arith),
)

-- A plain connection sends the bytes as they are.
pub consume_send_buf-plain :
    (written : ℤ) (s : ServerIo)
    → s.status ≡ connected
    → s.ws ≡ not_web_socket
    → 0 < length s.send_buf
    → consume_send_buf written s
      ≡ (true, record s { send_buf = []; sent = s.sent ++ s.send_buf ∷ [] })
unfolding consume_send_buf had_send_buf_data to_send is_connected is_web
consume_send_buf-plain written s c w h =
    let e : ltb 0 (length s.send_buf) ≡ true = ground arith in rw (e, c, w) refl

pub consume_send_buf-empty :
    (written : ℤ) (s : ServerIo) → s.send_buf ≡ [] → consume_send_buf written s ≡ (true, s)
unfolding consume_send_buf had_send_buf_data
consume_send_buf-empty written s h = rw h refl

pub empty_or_not : (xs : List ℕ) → (xs ≡ []) ⊎ (0 < length xs)
empty_or_not [] = inl refl
empty_or_not (x ∷ xs) = inr (omega arith)

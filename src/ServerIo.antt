-- ===== src/ServerIo.antt =====
-- libsocket/ServerIOSocket.cpp: a connection from a client, plain TCP or websocket.
-- The receive and send buffers are the lists of their valid bytes; `tmp` is the whole of the
-- websocket buffer. `sent` lists what went to bufferevent_write, newest last.
-- An access outside of a buffer is the result `fault`; `stuck` means that a loop ran out of fuel.
pub mod Ascii
pub mod Frame
pub mod Receive
pub mod Packets
pub mod FrameLaws
pub mod FrameFaults
pub mod SendBuffer
use Prim.Native.Nat.{bit_xor}
use echo_server_cpp.Prelude.{
  ℕ, zero, suc, ◌+◌, ◌-◌, ◌*◌, ◌/◌, ◌%◌, ◌^◌, Bool, true, false, ◌||◌, Option, none, some, List, [],
  ◌∷◌, ◌++◌, length, take, drop, replicate, get_or, ltb, leb, ◌==◌, if◌then◌else◌,
}
use echo_server_cpp.Prelude.Int.{ℤ, pos, negsuc}
use echo_server_cpp.Prelude.Results.{Result, ok, throw}
use echo_server_cpp.Stream.{Stream, Thrown}
use echo_server_cpp.Protocol.{ProtocolHead, read_head, reader}
use echo_server_cpp.SocketBase.{
  max_buffer_size, max_ws_tmp_buffer_size, WebSocketFlag, unknown, not_web_socket, is_web_socket,
  continue_frame, text_frame, binary_frame, close_frame, Status, unconnected, connected,
  while_close, closed,
}

pub record ServerIo : Type 0 where
  pub status : Status
  pub fd : ℕ
  pub ws : WebSocketFlag
  pub bev : Bool
  pub recv_buf : List ℕ
  pub tmp : List ℕ
  pub send_buf : List ℕ
  pub sent : List (List ℕ)

pub data Outcome {ℓ} (A : Type ℓ) : Type ℓ where
  done : A → Outcome A
  fault : Outcome A
  stuck : Outcome A

-- The constructor.
unfoldable pub make : ℕ → ServerIo
make fd = record {
  status = unconnected;
  fd = fd;
  ws = unknown;
  bev = true;
  recv_buf = [];
  tmp = [];
  send_buf = [];
  sent = [];
}

unfoldable pub to_close : ServerIo → ServerIo
to_close s = record s { status = closed; bev = false }

unfoldable pub is_web : WebSocketFlag → Bool
is_web unknown = false
is_web not_web_socket = false
is_web is_web_socket = true

is_connected : Status → Bool
is_connected Status.unconnected = false
is_connected Status.wait_connect = false
is_connected Status.connected = true
is_connected Status.while_close = false
is_connected Status.closed = false

-- A 16-bit number in network order.
unfoldable pub htons : ℕ → List ℕ
htons n = n / 256 % 256 ∷ n % 256 ∷ []

-- The header that sendWebSocketBuff puts in front of `len` bytes. At 65536 bytes and more the field
-- is the 32-bit number in network order, widened to an 8-byte `long` of the machine (LP64, least
-- significant byte first).
unfoldable pub frame_head : ℕ → List ℕ
unfolding htons
frame_head len =
    if leb 65536 len
    then 0x82 ∷ 127 ∷ (htons (len / 2 ^ 16) ++ htons len) ++ 0 ∷ 0 ∷ 0 ∷ 0 ∷ []
    else if leb 126 len
    then 0x82 ∷ 126 ∷ htons len
    else 0x82 ∷ len ∷ []

-- The result is the `bool` that is returned, as toSend converts it.
unfoldable pub send_web_socket_buff : List ℕ → ServerIo → ℤ × ServerIo
unfolding frame_head
send_web_socket_buff buf s =
    if s.bev
    then (pos 1, record s { sent = s.sent ++ (frame_head (length buf) ++ buf) ∷ [] })
    else (pos 0, s)

-- `written` is what bufferevent_write returns.
unfoldable pub to_send : ℤ → List ℕ → ServerIo → ℤ × ServerIo
unfolding is_connected is_web send_web_socket_buff
to_send written buf s =
    if is_connected s.status
    then (if is_web s.ws
        then send_web_socket_buff buf s
        else (written, record s { sent = s.sent ++ buf ∷ [] }))
    else (negsuc 0, s)

-- The sum is that of `unsigned int`.
unfoldable pub expand_send_buf : List ℕ → ServerIo → Bool × ServerIo
unfolding is_web
expand_send_buf buf s =
    let ws_len_add : ℕ = if is_web s.ws then 10 else 0 in
    if leb max_buffer_size ((length buf + length s.send_buf + ws_len_add) % 2 ^ 32)
    then (false, s)
    else (true, record s { send_buf = s.send_buf ++ buf })

unfoldable pub had_send_buf_data : ServerIo → Bool
had_send_buf_data s = ltb 0 (length s.send_buf)

unfoldable pub consume_send_buf : ℤ → ServerIo → Bool × ServerIo
unfolding had_send_buf_data to_send
consume_send_buf written s =
    if had_send_buf_data s
    then (true, record (to_send written s.send_buf s).1 { send_buf = [] })
    else (true, s)

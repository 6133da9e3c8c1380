-- ===== src/ServerIo/Receive.antt =====
-- ServerIOSocket::recv: handshake, frames, and the loop that cuts out packets.
-- `sha1` stands for the digest of the class SHA1, with its five words in network order.
use echo_server_cpp.Prelude.{
  ℕ, zero, suc, ◌+◌, ◌-◌, Bool, true, false, Option, none, some, List, [], ◌∷◌, ◌++◌, length, take,
  drop, replicate, ltb, leb, ◌==◌, if◌then◌else◌,
}
use echo_server_cpp.Prelude.Int.{ℤ, pos, negsuc}
use echo_server_cpp.Prelude.Results.{Result, ok, throw}
use echo_server_cpp.Stream.{Stream, Thrown}
use echo_server_cpp.Protocol.{ProtocolHead, read_head, reader}
use echo_server_cpp.Base64.{encode_base64}
use echo_server_cpp.SocketBase.{
  max_buffer_size, max_ws_tmp_buffer_size, unknown, not_web_socket, is_web_socket,
}
use echo_server_cpp.ServerIo.{ServerIo, Outcome, done, fault, stuck, is_connected, is_web, to_send}
use echo_server_cpp.ServerIo.Frame.{remove_web_socket_head}
use echo_server_cpp.Prelude.Ascii.{codes, c_string}
use echo_server_cpp.ServerIo.Ascii.{find_text}

-- What doWebSocketHandShake sends for the key of a request.
unfoldable pub accept_response : (List ℕ → List ℕ) → List ℕ → List ℕ
unfolding c_string
accept_response sha1 req_key =
    let digest = sha1 (c_string req_key ++ codes "258EAFA5-E914-47DA-95CA-C5AB0DC85B11") in
    let key : List ℕ = elim (encode_base64 digest) [ none ↦ [] | some t ↦ t ] in
    codes
      "HTTP/1.1 101 Switching Protocols\r\nUpgrade: websocket\r\nConnection: Upgrade\r\nSec-WebSocket-Accept: "
    ++ (key ++ codes "\r\n\r\n")

-- The position of the first occurrence in the C string at the front of the receive buffer, whose
-- bytes behind `raw` are zero; a search that fails on a full buffer without a zero byte reads on.
strstr : List ℕ → List ℕ → Outcome (Option ℕ)
unfolding c_string find_text
strstr pat raw =
    let text = c_string raw in
    elim (find_text pat text) [
      | some suffix ↦ done (some (length text - length suffix))
      | none ↦ if leb max_buffer_size (length text) then fault else done none
    ]

is_zero : ℤ → Bool
is_zero (pos n) = n == 0
is_zero (negsuc n) = false

unfoldable pub do_web_socket_hand_shake :
    (List ℕ → List ℕ) → ℤ → List ℕ → ServerIo → Outcome (Bool × ServerIo)
unfolding strstr accept_response to_send is_zero
do_web_socket_hand_shake sha1 written raw s = elim (strstr (codes "Sec-WebSocket-Key") raw) [
  | fault ↦ fault
  | stuck ↦ stuck
  | done none ↦ done (false, s)
  | done (some p) ↦
      if ltb max_buffer_size (p + 19 + 24)
      then fault
      else (let (code, s') =
            to_send written (accept_response sha1 (take 24 (drop (p + 19) raw))) s in
          done (is_zero code, s'))
]

as_plain : ServerIo → Outcome (Bool × ServerIo)
as_plain s = done (true, record s { ws = not_web_socket })

-- Whether the connection upgrades, once that is unknown no more.
unfoldable pub first_contact : (List ℕ → List ℕ) → ℤ → List ℕ → ServerIo → Outcome (Bool × ServerIo)
unfolding strstr do_web_socket_hand_shake as_plain
first_contact sha1 written raw s = elim (strstr (codes "GET") raw) [
  | fault ↦ fault
  | stuck ↦ stuck
  | done none ↦ as_plain s
  | done (some p) ↦ elim (do_web_socket_hand_shake sha1 written raw s) [
    | fault ↦ fault
    | stuck ↦ stuck
    | done (false, s') ↦ as_plain s'
    | done (true, s') ↦
        done (false, record s' { ws = is_web_socket; tmp = replicate max_ws_tmp_buffer_size 0 })
  ]
]

unfoldable pub do_web_socket : (List ℕ → List ℕ) → ℤ → List ℕ → ServerIo → Outcome (Bool × ServerIo)
unfolding first_contact
do_web_socket sha1 written raw s = elim s.ws [
  | not_web_socket ↦ done (true, s)
  | is_web_socket ↦ done (true, s)
  | unknown ↦ first_contact sha1 written raw s
]

-- The packets handed up, and `tmpIndex` behind the last of them.
abbrev pub Parsed : Type 0
Parsed = List (List ℕ) × ℕ

-- What one round does with the head; `next` is the rest of the loop.
unfoldable pub take_packet :
    List ℕ → ℕ → Result Thrown (ProtocolHead × Stream) → (ℕ → Outcome Parsed) → Outcome Parsed
take_packet buf index (throw e) next = done ([], index)
take_packet buf index (ok (head, s)) next =
    if ltb (length buf - index) head.len then done ([], index) else elim (next (index + head.len)) [
      | done (packets, end) ↦ done (take head.len (drop index buf) ∷ packets, end)
      | fault ↦ fault
      | stuck ↦ stuck
    ]

-- The `while (true)` of recv on fuel. The head is read at the start of the buffer, from the `len`
-- bytes that the last read brought.
unfoldable pub parse : Bool → ℕ → List ℕ → ℕ → ℕ → Outcome Parsed
unfolding take_packet
parse host zero buf len index = stuck
parse host (suc fuel) buf len index =
    let round =
      take_packet buf index (read_head host (reader (take len buf))) (parse host fuel buf len) in
    if length buf - index == 0 then done ([], index) else round

-- The code that recv returns, the packets for asynRecive, and the state.
abbrev pub Received : Type 0
Received = Outcome (ℤ × List (List ℕ) × ServerIo)

unfoldable pub cut_packets : Bool → ℕ → List ℕ → ℕ → ServerIo → Received
cut_packets host fuel buf len s = elim (parse host fuel buf len 0) [
  | done (packets, index) ↦ done (pos 0, packets, record s { recv_buf = drop index buf })
  | fault ↦ fault
  | stuck ↦ stuck
]

unfoldable pub recv_frame : Bool → ℕ → List ℕ → ServerIo → Received
recv_frame host fuel chunk s =
    elim (remove_web_socket_head (record s { tmp = chunk ++ drop (length chunk) s.tmp })) [
      | fault ↦ fault
      | stuck ↦ stuck
      | done (none, s') ↦ done (negsuc 1, [], s')
      | done (some len, s') ↦
          if ltb max_buffer_size (length s'.recv_buf + len)
          then fault
          else cut_packets host fuel (s'.recv_buf ++ take len s'.tmp) len s'
    ]

unfoldable pub recv_plain : (List ℕ → List ℕ) → ℤ → Bool → ℕ → List ℕ → ServerIo → Received
recv_plain sha1 written host fuel chunk s =
    elim (do_web_socket sha1 written (s.recv_buf ++ chunk) s) [
      | fault ↦ fault
      | stuck ↦ stuck
      | done (false, s') ↦ done (negsuc 2, [], s')
      | done (true, s') ↦ cut_packets host fuel (s'.recv_buf ++ chunk) (length chunk) s'
    ]

-- `chunk` is what bufferevent_read stores: at most the room in the buffer that it is given.
-- `written` is what bufferevent_write would return.
unfoldable pub recv : (List ℕ → List ℕ) → ℤ → Bool → ℕ → List ℕ → ServerIo → Received
unfolding is_connected is_web
recv sha1 written host fuel chunk s =
    if is_connected s.status
    then (if is_web s.ws
        then recv_frame host fuel chunk s
        else recv_plain sha1 written host fuel chunk s)
    else done (negsuc 0, [], s)

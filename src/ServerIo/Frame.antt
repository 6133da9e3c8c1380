-- ===== src/ServerIo/Frame.antt =====
-- ServerIOSocket::removeWebSocketHead on the websocket buffer.
use Prim.Native.Nat.{bit_xor}
use echo_server_cpp.Prelude.{
  ℕ, ◌+◌, ◌*◌, ◌%◌, Option, none, some, List, [], ◌∷◌, ◌++◌, take, drop, get_or, ltb, ◌==◌,
  if◌then◌else◌,
}
use echo_server_cpp.SocketBase.{max_ws_tmp_buffer_size, binary_frame, close_frame, while_close}
use echo_server_cpp.ServerIo.{ServerIo, Outcome, done, fault}

-- The unmasking loop from index `i` on.
unfoldable pub unmask : List ℕ → ℕ → List ℕ → List ℕ
unmask key i [] = []
unmask key i (b ∷ bs) = bit_xor b (get_or key (i % 4) 0) ∷ unmask key (i + 1) bs

-- The data length and `playloadByteNum`. Where the length has 8 bytes, they are copied over a
-- variable of 4 bytes.
unfoldable pub data_length : List ℕ → Outcome (ℕ × ℕ)
data_length tmp =
    let len = get_or tmp 1 0 % 128 in
    if len == 126
    then done (get_or tmp 2 0 * 256 + get_or tmp 3 0, 3)
    else if len == 127
    then fault
    else done (len, 1)

-- A binary frame: the data moves to the front of the buffer, is unmasked and closed by a zero byte.
unfoldable pub binary_data : List ℕ → ℕ → ℕ → Outcome (List ℕ)
unfolding unmask
binary_data tmp len num =
    let key = take 4 (drop (1 + num) tmp) in
    let front = take len (drop (1 + num + 4) tmp) in
    if ltb max_ws_tmp_buffer_size (1 + num + 4 + len)
    then fault
    else done (unmask key 0 front ++ 0 ∷ drop (len + 1) tmp)

-- `some len` where true is returned, with the length of the data now at the front of the buffer.
unfoldable pub remove_web_socket_head : ServerIo → Outcome (Option ℕ × ServerIo)
remove_web_socket_head s =
    let opcode = get_or s.tmp 0 0 % 16 in
    elim (data_length s.tmp) [
      | fault ↦ fault
      | Outcome.stuck ↦ Outcome.stuck
      | done (len, num) ↦
          if opcode == binary_frame
          then elim (binary_data s.tmp len num) [
            | done tmp ↦ done (some len, record s { tmp = tmp })
            | _ ↦ fault
          ]
          else if opcode == close_frame
          then done (none, record s { status = while_close })
          else done (none, s)
    ]

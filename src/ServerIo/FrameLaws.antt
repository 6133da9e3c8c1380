-- ===== src/ServerIo/FrameLaws.antt =====
-- What a masked binary frame becomes in ServerIOSocket::removeWebSocketHead.
use echo_server_cpp.Prelude.{
  ℕ, zero, suc, ◌+◌, ◌/◌, ◌%◌, ◌^◌, ◌≤◌, ◌<◌, ◌≡◌, refl, sym, ap, ap₂, ◌∙◌, false, some, List, [],
  ◌∷◌, ◌++◌, append_assoc, arith, length, take, drop, get_or, length-append, take-append,
  drop-append, drop-drop, ltb, if◌then◌else◌,
}
use echo_server_cpp.Prelude.Bytes.{IsByte, All}
use echo_server_cpp.Prelude.Tables.{xor-xor}
use echo_server_cpp.SocketBase.{max_ws_tmp_buffer_size}
use echo_server_cpp.ServerIo.{ServerIo, done}
use echo_server_cpp.ServerIo.Frame.{unmask, data_length, binary_data, remove_web_socket_head}

get_or-IsByte : (bs : List ℕ) (i : ℕ) → All IsByte bs → IsByte (get_or bs i 0)
get_or-IsByte [] i h = omega arith
get_or-IsByte (b ∷ bs) zero h = h.0
get_or-IsByte (b ∷ bs) (suc i) h = get_or-IsByte bs i h.1

pub length-unmask : (key : List ℕ) (i : ℕ) (bs : List ℕ) → length (unmask key i bs) ≡ length bs
unfolding unmask
length-unmask key i [] = refl
length-unmask key i (b ∷ bs) = ap suc (length-unmask key (i + 1) bs)

-- Masking with a key and unmasking with it are inverse.
pub unmask-unmask :
    (key : List ℕ) (i : ℕ) (bs : List ℕ)
    → All IsByte key
    → All IsByte bs
    → unmask key i (unmask key i bs) ≡ bs
unfolding unmask
unmask-unmask key i [] k h = refl
unmask-unmask key i (b ∷ bs) k h =
    ap₂ ◌∷◌ (xor-xor b (get_or key (i % 4) 0) h.0 (get_or-IsByte key (i % 4) k))
      (unmask-unmask key (i + 1) bs k h.1)

-- The length field of a masked frame with `n` bytes of data.
unfoldable pub frame_length : ℕ → List ℕ
frame_length n = if ltb n 126 then (128 + n) ∷ [] else 254 ∷ n / 256 ∷ n % 256 ∷ []

-- A masked binary frame, as RFC 6455 has a client send it.
unfoldable pub client_frame : List ℕ → List ℕ → List ℕ
client_frame key payload = 0x82 ∷ frame_length (length payload) ++ (key ++ unmask key 0 payload)

data_length-frame :
    (n : ℕ) (xs : List ℕ)
    → n < 2 ^ 16
    → data_length (0x82 ∷ frame_length n ++ xs) ≡ done (n, length (frame_length n))
unfolding data_length frame_length
data_length-frame n xs h = ground arith

binary_data-frame :
    (tmp front key masked rest : List ℕ)
    → tmp ≡ 0x82 ∷ front ++ (key ++ (masked ++ rest))
    → length key ≡ 4
    → 1 + length front + 4 + length masked ≤ max_ws_tmp_buffer_size
    → binary_data tmp (length masked) (length front)
      ≡ done (unmask key 0 masked ++ 0 ∷ drop (length masked + 1) tmp)
unfolding binary_data
binary_data-frame tmp front key masked rest e four fits =
    let a : drop (1 + length front) tmp ≡ key ++ (masked ++ rest) =
      ap (λ (n : ℕ). drop n tmp) {y = length (0x82 ∷ front)} (omega arith)
      ∙ ap (drop (length (0x82 ∷ front))) e
      ∙ drop-append (0x82 ∷ front) (key ++ (masked ++ rest)) in
    let b : drop (1 + length front + 4) tmp ≡ masked ++ rest =
      sym (drop-drop 4 (1 + length front) tmp)
      ∙ ap (drop 4) a
      ∙ rw (← four) (drop-append key (masked ++ rest)) in
    let c : take 4 (key ++ (masked ++ rest)) ≡ key =
      rw (← four) (take-append key (masked ++ rest)) in
    let d : ltb max_ws_tmp_buffer_size (1 + length front + 4 + length masked) ≡ false =
      ground arith in
    rw (d, a, c, b, take-append)

-- A masked binary frame at the front of the websocket buffer, which it fits with its data: the data
-- comes to the front, unmasked and closed by a zero byte, and its length is returned.
pub remove_web_socket_head-client_frame :
    (s : ServerIo) (key payload rest : List ℕ)
    → s.tmp ≡ client_frame key payload ++ rest
    → length key ≡ 4
    → All IsByte key
    → All IsByte payload
    → length (client_frame key payload) ≤ max_ws_tmp_buffer_size
    → remove_web_socket_head s
      ≡ done
          (some (length payload), record s { tmp = payload ++ 0 ∷ drop (length payload + 1) s.tmp })
unfolding remove_web_socket_head client_frame
remove_web_socket_head-client_frame s key payload rest e four k h fits =
    let n = length payload in
    let masked = unmask key 0 payload in
    let front = frame_length n in
    let m = length-unmask key 0 payload in
    let total : 1 + length front + 4 + n ≤ max_ws_tmp_buffer_size =
      omega (arith, length-append front (key ++ masked), length-append key masked) in
    let g : s.tmp ≡ 0x82 ∷ front ++ (key ++ (masked ++ rest)) =
      e
      ∙ ap (◌∷◌ 0x82) (
          append_assoc front (key ++ masked) rest
          ∙ ap (◌++◌ front) (append_assoc key masked rest)) in
    let o : get_or s.tmp 0 0 ≡ 0x82 = ap (λ (t : List ℕ). get_or t 0 0) g in
    let l = ap data_length g ∙ data_length-frame n (key ++ (masked ++ rest)) (omega arith) in
    let d = binary_data-frame s.tmp front key masked rest g four (omega arith) in
    rw (remove_web_socket_head, l, o, rw m at d, unmask-unmask key 0 payload k h)

-- ===== src/ClientThread/Buffer.antt =====
-- libsocket/ClientSocketIOThread.cpp: one connection and its send buffer.
use echo_server_cpp.Prelude.{
  concat, concat-snoc, ℕ, ◌+◌, ◌%◌, ◌^◌, ◌<◌, ◌≡◌, refl, sym, ◌∙◌, ◌⊎◌, inl, inr, true, false,
  Bool-cases, List, [], ◌∷◌, ◌++◌, append-nil, append_assoc, arith, length, length-append, leb, ltb,
}
use echo_server_cpp.SocketBase.{max_buffer_size}
use echo_server_cpp.ClientIo.Connection.{
  Connection, expand_send_buf, had_send_buf_data, consume_send_buf,
}
use echo_server_cpp.ServerIo.SendBuffer.{empty_or_not}
use echo_server_cpp.Wire.{Wire, buffered, make_wire}

-- A socket that has a bufferevent, and room in its buffer.
pub record Sends (s : Connection) : Type 0 where
  pub bev : 0 < s.bevs
  pub room : length s.send_buf < max_buffer_size

abbrev pub output : Connection → List ℕ
output s = concat s.sent ++ s.send_buf

abbrev pub consumed : Connection → Connection
consumed s = (consume_send_buf s).1

abbrev pub waiting : Connection → List ℕ
waiting s = s.send_buf

pub takes_packet :
    (buf : List ℕ) (s : Connection)
    → length buf < max_buffer_size
    → Sends s
    → (((expand_send_buf buf s).0 ≡ true)
        × Sends (expand_send_buf buf s).1
        × (output (expand_send_buf buf s).1 ≡ output s ++ buf))
      ⊎ (((expand_send_buf buf s).0 ≡ false) × (0 < length s.send_buf))
unfolding expand_send_buf
takes_packet buf s h v =
    let r = v.room in
    let w : (length buf + length s.send_buf) % 2 ^ 32 ≡ length buf + length s.send_buf =
      omega arith in
    elim (Bool-cases (leb max_buffer_size (length buf + length s.send_buf))) [
      | inl a ↦ rw (w, a) (inr (refl, ground arith))
      | inr a ↦
          rw (w, a)
            (inl (
              refl,
              record { bev = v.bev; room = ground (arith, length-append s.send_buf buf) },
              sym (append_assoc (concat s.sent) s.send_buf buf),
            ))
    ]

pub consume-output :
    (s : Connection)
    → Sends s
    → Sends (consumed s) × (output (consumed s) ≡ output s) × ((consumed s).send_buf ≡ [])
unfolding consume_send_buf had_send_buf_data
consume-output s v = elim (empty_or_not s.send_buf) [
  | inl e ↦ let z : ltb 0 (length s.send_buf) ≡ false = rw e refl in rw (consumed, z) (v, refl, e)
  | inr h ↦
      let z : ltb 0 (length s.send_buf) ≡ true = ground arith in
      rw (consumed, z)
        (
          record { bev = v.bev; room = omega arith },
          append-nil (concat (s.sent ++ s.send_buf ∷ [])) ∙ concat-snoc s.sent s.send_buf,
          refl,
        )
]

abbrev pub ClientWire : Type 1
ClientWire = Wire (buffered expand_send_buf consumed waiting) consumed waiting

abbrev pub client_wire : ClientWire
client_wire =
    make_wire expand_send_buf consumed waiting Sends output max_buffer_size takes_packet
      consume-output

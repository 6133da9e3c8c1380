-- ===== src/IoThread/Buffer.antt =====
-- libsocket/ServerIOSocket.cpp and ServerSocketIOThread.cpp: one connection and its send buffer.
use echo_server_cpp.Prelude.{
  concat, concat-snoc, ℕ, ◌+◌, ◌<◌, ◌≡◌, refl, sym, ◌∙◌, ◌⊎◌, inl, inr, true, false, List, [], ◌∷◌,
  ◌++◌, append-nil, append_assoc, arith, length, length-append,
}
use echo_server_cpp.Prelude.Int.{ℤ}
use echo_server_cpp.SocketBase.{max_buffer_size, connected, not_web_socket}
use echo_server_cpp.Wire.{Wire, buffered, make_wire}
use echo_server_cpp.ServerIo.{ServerIo, is_web, expand_send_buf, consume_send_buf}
use echo_server_cpp.ServerIo.SendBuffer.{
  reserve, expand_send_buf-cases, consume_send_buf-plain, consume_send_buf-empty, empty_or_not,
}

-- consumeSendBuf, where its result does not matter.
abbrev pub consumed : ℤ → ServerIo → ServerIo
consumed written s = (consume_send_buf written s).1

abbrev pub waiting : ServerIo → List ℕ
waiting s = s.send_buf

-- A connection of the server as a Wire.
abbrev pub ServerWire : ℤ → Type 1
ServerWire written =
    Wire (buffered expand_send_buf (consumed written) waiting) (consumed written) waiting

module _ (Ready : ServerIo → Type 0) (out : ServerIo → List ℕ) (limit : ℕ)
    (room : (s : ServerIo) → Ready s → length s.send_buf < max_buffer_size)
    (fits : (s : ServerIo) → Ready s → limit + reserve s ≡ max_buffer_size)
    (grown : (s : ServerIo) (buf : List ℕ)
      → Ready s
      → length buf < max_buffer_size
      → Ready (record s { send_buf = buf }))
    (grown-out : (s : ServerIo) (buf : List ℕ)
      → out (record s { send_buf = s.send_buf ++ buf }) ≡ out s ++ buf) where
  -- expandSendBuf takes a packet unless there are bytes in the buffer already.
  pub takes_packet :
      (buf : List ℕ) (s : ServerIo)
      → length buf < limit
      → Ready s
      → (((expand_send_buf buf s).0 ≡ true)
          × Ready (expand_send_buf buf s).1
          × (out (expand_send_buf buf s).1 ≡ out s ++ buf))
        ⊎ (((expand_send_buf buf s).0 ≡ false) × (0 < length s.send_buf))
  takes_packet buf s h v =
      let f = fits s v in
      elim (expand_send_buf-cases buf s (omega arith) (room s v)) [
        | inl (e, less) ↦
            rw e (inl (refl, grown s (s.send_buf ++ buf) v (omega arith), grown-out s buf))
        | inr (e, more) ↦ rw e (inr (refl, omega (arith, length-append s.send_buf buf)))
      ]

-- A plain connection that can send, with room in its buffer.
pub record Sends (s : ServerIo) : Type 0 where
  pub status : s.status ≡ connected
  pub plain : s.ws ≡ not_web_socket
  pub room : length s.send_buf < max_buffer_size

-- The bytes that were sent on a plain connection and those that wait in its buffer.
abbrev pub output : ServerIo → List ℕ
output s = concat s.sent ++ s.send_buf

pub sent_of :
    (s' s : ServerIo) (new : List ℕ)
    → s'.send_buf ≡ []
    → s.send_buf ≡ []
    → output s' ≡ output s ++ new
    → concat s'.sent ≡ concat s.sent ++ new
sent_of s' s new h k e = rw (h, k, append-nil (concat s'.sent), append-nil (concat s.sent)) at e

Sends-grown :
    (s : ServerIo) (buf : List ℕ)
    → Sends s
    → length buf < max_buffer_size
    → Sends (record s { send_buf = buf })
Sends-grown s buf v h = record { status = v.status; plain = v.plain; room = h }

pub consume-output :
    (written : ℤ) (s : ServerIo)
    → Sends s
    → Sends (consumed written s)
      × (output (consumed written s) ≡ output s)
      × ((consumed written s).send_buf ≡ [])
consume-output written s v = elim (empty_or_not s.send_buf) [
  | inl e ↦ rw (consumed, consume_send_buf-empty written s e) (v, refl, e)
  | inr h ↦
      rw (consumed, consume_send_buf-plain written s v.status v.plain h)
        (
          record { status = v.status; plain = v.plain; room = omega arith },
          append-nil (concat (s.sent ++ s.send_buf ∷ [])) ∙ concat-snoc s.sent s.send_buf,
          refl,
        )
]

plain_fits : (s : ServerIo) → Sends s → max_buffer_size + reserve s ≡ max_buffer_size
unfolding is_web
plain_fits s v = let e : reserve s ≡ 0 = rw v.plain refl in omega (arith, e)

pub plain_takes :
    (buf : List ℕ) (s : ServerIo)
    → length buf < max_buffer_size
    → Sends s
    → (((expand_send_buf buf s).0 ≡ true)
        × Sends (expand_send_buf buf s).1
        × (output (expand_send_buf buf s).1 ≡ output s ++ buf))
      ⊎ (((expand_send_buf buf s).0 ≡ false) × (0 < length s.send_buf))
plain_takes =
    takes_packet Sends output max_buffer_size (λ s v. v.room) plain_fits Sends-grown
      (λ s buf. sym (append_assoc (concat s.sent) s.send_buf buf))

abbrev pub plain_wire : (written : ℤ) → ServerWire written
plain_wire written =
    make_wire expand_send_buf (consumed written) waiting Sends output max_buffer_size plain_takes
      (consume-output written)

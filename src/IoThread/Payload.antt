-- ===== src/IoThread/Payload.antt =====
-- libsocket/ServerIOSocket.cpp and ServerSocketIOThread.cpp: a websocket and its send buffer. Of what
-- was sent, the peer reads the data of each frame.
use echo_server_cpp.Prelude.{
  concat, ℕ, suc, ◌+◌, ◌<◌, ◌≡◌, refl, sym, ap, ◌∙◌, ◌⊎◌, inl, inr, true, false, Bool-cases, List,
  [], ◌∷◌, ◌++◌, append-nil, append_assoc, arith, length, map, drop, get_or, leb, ◌==◌, ◌&&◌, ◌%◌,
  ◌/◌, ◌*◌, if◌then◌else◌,
}
use echo_server_cpp.Prelude.Int.{ℤ}
use echo_server_cpp.SocketBase.{max_buffer_size, connected, is_web_socket}
use echo_server_cpp.ServerIo.{ServerIo, is_web, frame_head, htons, expand_send_buf}
use echo_server_cpp.ServerIo.FrameFaults.{announced}
use echo_server_cpp.ServerIo.SendBuffer.{
  reserve, consume_send_buf-web, consume_send_buf-empty, empty_or_not,
}
use echo_server_cpp.IoThread.Buffer.{consumed, waiting, takes_packet, ServerWire}
use echo_server_cpp.Wire.{make_wire}

-- A websocket that can send, with room in its buffer for the head of a frame.
pub record SendsFrames (s : ServerIo) : Type 0 where
  pub status : s.status ≡ connected
  pub web : s.ws ≡ is_web_socket
  pub bev : s.bev ≡ true
  pub room : length s.send_buf < max_buffer_size

-- Where the data of an unmasked frame starts, by its second byte.
abbrev data_start : ℕ → ℕ
data_start b = if b == 127 then 10 else if b == 126 then 4 else 2

-- The data of a whole unmasked binary frame, by RFC 6455: the first byte is 0x82, and the bytes
-- after the length are as many as it announces. Other bytes are no such frame and have no data.
unfoldable pub payload : List ℕ → List ℕ
payload frame =
    let start = data_start (get_or frame 1 0) in
    if get_or frame 0 0 == 0x82 && length frame == start + announced frame
    then drop start frame
    else []

start_short : (n : ℕ) → n < 126 → data_start n ≡ 2
start_short n h = ground arith

payload_short : (buf : List ℕ) → length buf < 126 → payload (0x82 ∷ length buf ∷ buf) ≡ buf
unfolding payload announced
payload_short buf h =
    let n = length buf in
    let e = start_short n h in
    let f : announced (0x82 ∷ n ∷ buf) ≡ n = ground arith in
    let g : (suc (suc n) == 2 + n) ≡ true = ground arith in rw (payload, e, f, g) refl

payload_long :
    (buf : List ℕ) → length buf < 65536 → payload (0x82 ∷ 126 ∷ (htons (length buf) ++ buf)) ≡ buf
unfolding payload announced htons
payload_long buf h =
    let n = length buf in
    let f : n / 256 % 256 * 256 + n % 256 ≡ n = omega arith in
    let g : (suc (suc (suc (suc n))) == 4 + n) ≡ true = ground arith in
    rw (payload, announced, f, g) refl

pub payload-frame_head :
    (buf : List ℕ) → length buf < 65536 → payload (frame_head (length buf) ++ buf) ≡ buf
unfolding frame_head
payload-frame_head buf h =
    let a : leb 65536 (length buf) ≡ false = ground arith in
    elim (Bool-cases (leb 126 (length buf))) [
      | inl b ↦ rw (frame_head, a, b) (payload_long buf h)
      | inr b ↦ rw (frame_head, a, b) (payload_short buf (ground arith))
    ]

-- The data of the frames that were sent, and the bytes that wait for the next.
abbrev pub web_output : ServerIo → List ℕ
web_output s = concat (map payload s.sent) ++ s.send_buf

map-snoc :
    (frames : List (List ℕ)) (f : List ℕ)
    → concat (map payload (frames ++ f ∷ [])) ≡ concat (map payload frames) ++ payload f
map-snoc [] f = append-nil (payload f)
map-snoc (g ∷ frames) f =
    rw (map-snoc frames f)
      (sym (append_assoc (payload g) (concat (map payload frames)) (payload f)))

SendsFrames-grown :
    (s : ServerIo) (buf : List ℕ)
    → SendsFrames s
    → length buf < max_buffer_size
    → SendsFrames (record s { send_buf = buf })
SendsFrames-grown s buf v h = record { status = v.status; web = v.web; bev = v.bev; room = h }

pub consume-web_output :
    (written : ℤ) (s : ServerIo)
    → SendsFrames s
    → SendsFrames (consumed written s)
      × (web_output (consumed written s) ≡ web_output s)
      × ((consumed written s).send_buf ≡ [])
consume-web_output written s v = elim (empty_or_not s.send_buf) [
  | inl e ↦ rw (consumed, consume_send_buf-empty written s e) (v, refl, e)
  | inr h ↦
      rw (consumed, consume_send_buf-web written s v.status v.web v.bev h)
        (
          record { status = v.status; web = v.web; bev = v.bev; room = omega arith },
          append-nil (
                concat
                  (map payload (s.sent ++ (frame_head (length s.send_buf) ++ s.send_buf) ∷ [])))
              ∙ map-snoc s.sent (frame_head (length s.send_buf) ++ s.send_buf)
              ∙ ap (λ (d : List ℕ). concat (map payload s.sent) ++ d)
                  (payload-frame_head s.send_buf (let r = v.room in omega arith)),
          refl,
        )
]

-- A packet leaves ten bytes of the buffer free.
abbrev pub web_limit : ℕ
web_limit = 8182

web_fits : (s : ServerIo) → SendsFrames s → web_limit + reserve s ≡ max_buffer_size
unfolding is_web
web_fits s v = let e : reserve s ≡ 10 = rw v.web refl in omega (arith, e)

pub web_takes :
    (buf : List ℕ) (s : ServerIo)
    → length buf < web_limit
    → SendsFrames s
    → (((expand_send_buf buf s).0 ≡ true)
        × SendsFrames (expand_send_buf buf s).1
        × (web_output (expand_send_buf buf s).1 ≡ web_output s ++ buf))
      ⊎ (((expand_send_buf buf s).0 ≡ false) × (0 < length s.send_buf))
web_takes =
    takes_packet SendsFrames web_output web_limit (λ s v. v.room) web_fits SendsFrames-grown
      (λ s buf. sym (append_assoc (concat (map payload s.sent)) s.send_buf buf))

abbrev pub web_wire : (written : ℤ) → ServerWire written
web_wire written =
    make_wire expand_send_buf (consumed written) waiting SendsFrames web_output web_limit web_takes
      (consume-web_output written)

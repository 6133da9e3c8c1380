-- ===== src/Protocol/RoundTrip.antt =====
-- include/protocol/ProtocolBase.h and EchoServer/SomeDefine.h: the bytes of heads and packets.
use echo_server_cpp.Prelude.{
  ℕ, ◌+◌, ◌-◌, ◌*◌, ◌^◌, ◌≤◌, ◌<◌, ◌≡◌, refl, ap, ap₂, ◌∙◌, Bool, List, [], ◌∷◌, ◌++◌, append-nil,
  append_assoc, arith, length, take, drop, length-append, length-take, length-drop, drop_all,
  dec_lt, ltb, false,
}
use echo_server_cpp.Prelude.Bytes.{bytes_le}
use echo_server_cpp.Prelude.Results.{ok}
use echo_server_cpp.Stream.{Stream, fail, overflow, avail, used, put, get}
use echo_server_cpp.Stream.Words.{
  unwire, wire, length-wire, at, put-put, length-put, write_int_fits, read_int-wire, read_int_lem,
}
use echo_server_cpp.Protocol.{
  ProtocolHead, Heartbeat, xyid_heartbeat, write_head, read_head, write_heartbeat, read_heartbeat,
  reader, readxy, get_template_buf,
}

-- The four bytes of a head: two little-endian shorts.
unfoldable pub head_bytes : ProtocolHead → List ℕ
head_bytes h = wire false 2 h.len ++ wire false 2 h.xyid

pub length-head_bytes : (h : ProtocolHead) → length (head_bytes h) ≡ 4
unfolding head_bytes
length-head_bytes h = omega (
  arith,
  length-append (wire false 2 h.len) (wire false 2 h.xyid),
  length-wire false 2 h.len,
  length-wire false 2 h.xyid,
)

-- A head whose fields are 16-bit numbers is read back from its four bytes, on any host, wherever
-- they stand in the stream and whatever follows them.
pub read_head-head_bytes :
    (host : Bool) (h : ProtocolHead) (xs ys : List ℕ)
    → h.len < 2 ^ 16
    → h.xyid < 2 ^ 16
    → read_head host (at false xs (head_bytes h ++ ys)) ≡ ok (h, at false (xs ++ head_bytes h) ys)
unfolding read_head head_bytes
read_head-head_bytes host h xs ys a b =
    let l = wire false 2 h.len in
    let x = wire false 2 h.xyid in
    rw
      (
        append_assoc l x ys,
        read_int-wire host false 2 h.len xs (x ++ ys) a,
        read_int-wire host false 2 h.xyid (xs ++ l) ys b,
      )
      (simp append_assoc)

-- A head wants four bytes.
pub read_head-short :
    (host : Bool) (s : Stream) → avail s < 4 → (t : Stream) × (read_head host s ≡ fail overflow t)
unfolding read_head
read_head-short host s h = elim (dec_lt (avail s) 2) [
  | yes e ↦ (s, ground (arith, read_int_lem host 2 s))
  | no e ↦
      let t = (get 2 s).1 in
      let k : avail t ≡ avail s - 2 = unfold get in length-drop 2 s.after in
      (t, ground (arith, read_int_lem host 2 s, read_int_lem host 2 t))
]

-- Four bytes or more begin with a head.
pub read_head-long :
    (host : Bool) (s : Stream)
    → 4 ≤ avail s
    → (r : ProtocolHead × Stream) × (read_head host s ≡ ok r)
unfolding read_head
read_head-long host s h =
    let t = (get 2 s).1 in
    let k : avail t ≡ avail s - 2 = unfold get in length-drop 2 s.after in
    let first : ltb (avail s) 2 ≡ false = ground arith in
    let second : ltb (avail t) 2 ≡ false = ground arith in
    let a = rw first at (read_int_lem host 2 s) in
    let b = rw second at (read_int_lem host 2 t) in
    (
      (
        record { len = unwire s.bigendian (get 2 s).0; xyid = unwire t.bigendian (get 2 t).0 },
        (get 2 t).1,
      ),
      rw (a, b) refl,
    )

pub write_head-fits :
    (host : Bool) (h : ProtocolHead) (ys : List ℕ)
    → 4 ≤ length ys
    → write_head host h (reader ys) ≡ ok (put (head_bytes h) (reader ys))
unfolding write_head head_bytes reader put
write_head-fits host h ys fit = rw (write_int_fits host 2 h.len (reader ys) (omega arith)) (
    write_int_fits host 2 h.xyid (put (wire false 2 h.len) (reader ys))
      (rw (length-put (wire false 2 h.len) (reader ys)) (omega (arith, length-wire false 2 h.len)))
    ∙ ap ok (put-put (wire false 2 h.len) (wire false 2 h.xyid) (reader ys)))

-- A packet that fills its part of the buffer exactly.
put_filled :
    (p ys : List ℕ)
    → length p ≡ length ys
    → let s = put p (reader ys) in (s.before ++ s.after ≡ p) × (used s ≡ length p)
unfolding put reader
put_filled p ys e = (rw (e, drop_all (length ys) ys (omega arith)) (append-nil p), refl)

abbrev pub heartbeat_head : ProtocolHead
heartbeat_head = record { len = 8; xyid = xyid_heartbeat }

-- The eight bytes of a heartbeat packet.
unfoldable pub heartbeat_packet : Heartbeat → List ℕ
heartbeat_packet xy = head_bytes heartbeat_head ++ wire false 4 xy.timestamp

-- In a buffer with room for it, GET_TEMPLATE_BUF builds the heartbeat packet on any host and keeps
-- the bytes behind it; the head that it returns says 8 bytes and XYID_HEARTBEAT.
pub get_template_buf-packet :
    (host : Bool) (buffer : List ℕ) (head : ProtocolHead) (xy : Heartbeat)
    → 8 ≤ length buffer
    → get_template_buf host buffer head xy
      ≡ ok (heartbeat_head, heartbeat_packet xy ++ drop 8 buffer)
unfolding get_template_buf write_heartbeat heartbeat_packet
get_template_buf-packet host buffer head xy h =
    rw
      (
        write_int_fits host 4 xy.timestamp (reader body)
            (unfold reader in omega (arith, body_length)),
        (put_filled w body (omega (arith, body_length, length-wire false 4 xy.timestamp))).0,
        (put_filled w body (omega (arith, body_length, length-wire false 4 xy.timestamp))).1,
        length-wire false 4 xy.timestamp,
        write_head-fits host heartbeat_head front (omega (arith, front_length)),
        (put_filled k front (omega (arith, front_length, length-head_bytes heartbeat_head))).0,
      )
      (simp append_assoc)
  where
    w : List ℕ
    w = wire false 4 xy.timestamp

    k : List ℕ
    k = head_bytes heartbeat_head

    body : List ℕ
    body = take 4 (drop 4 buffer)

    front : List ℕ
    front = take 4 buffer

    body_length : length body ≡ 4
    body_length = omega (arith, length-take 4 (drop 4 buffer), length-drop 4 buffer)

    front_length : length front ≡ 4
    front_length = omega (arith, length-take 4 buffer)

head_bytes-wire :
    (h : ProtocolHead) → h.len < 2 ^ 16 → head_bytes h ≡ wire false 4 (h.len + 2 ^ 16 * h.xyid)
unfolding head_bytes wire bytes_le
head_bytes-wire h a =
    ap₂ ◌∷◌ (omega arith)
      (ap₂ ◌∷◌ (omega arith) (ap₂ ◌∷◌ (omega arith) (ap₂ ◌∷◌ (omega arith) refl)))

-- READXY on a packet whose head has 16-bit fields takes the head for the body: it reads the length
-- and the id of the packet as the timestamp of the heartbeat, on any host.
pub readxy-head :
    (host : Bool) (h : ProtocolHead) (ys : List ℕ)
    → h.len < 2 ^ 16
    → h.xyid < 2 ^ 16
    → (t : Stream) × (readxy host (head_bytes h ++ ys)
        ≡ ok (record { timestamp = h.len + 2 ^ 16 * h.xyid }, t))
unfolding readxy read_heartbeat reader
readxy-head host h ys a b = (
  at false (head_bytes h) ys,
  rw (
    head_bytes-wire h a,
    read_int-wire host false 4 (h.len + 2 ^ 16 * h.xyid) [] ys (omega arith),
  ),
)

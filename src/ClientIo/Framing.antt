-- ===== src/ClientIo/Framing.antt =====
-- libsocket/ClientIOSocket.cpp: the packets of a byte stream and one call of recv.
use Prim.Native.Nat.add
use echo_server_cpp.Prelude.{
  concat, ℕ, zero, suc, ◌+◌, ◌-◌, ◌^◌, ◌≤◌, ◌<◌, ◌≡◌, refl, sym, ap, ◌∙◌, ◌⊎◌, inl, inr, Bool, true,
  false, some, List, [], ◌∷◌, ◌++◌, append_assoc, append-nil, arith, length, take, drop,
  length-append, take-append, drop-append, drop-drop, length-drop, ltb,
}
use echo_server_cpp.Prelude.Results.{ok}
use echo_server_cpp.Stream.Words.{at}
use echo_server_cpp.Protocol.{ProtocolHead, read_head, reader}
use echo_server_cpp.Protocol.RoundTrip.{head_bytes, length-head_bytes, read_head-head_bytes}
use echo_server_cpp.ClientIo.{take_packet, parse, recv}

-- A packet: its head gives its whole length, which is at least that of a head.
pub record IsPacket (p : List ℕ) : Type 0 where
  pub head : ProtocolHead
  pub body : List ℕ
  pub shape : p ≡ head_bytes head ++ body
  pub counts : head.len ≡ length p
  pub len_fits : head.len < 2 ^ 16
  pub xyid_fits : head.xyid < 2 ^ 16

abbrev pub AllPackets : List (List ℕ) → Type 0
AllPackets [] = Unit {0}
AllPackets (p ∷ ps) = IsPacket p × AllPackets ps

pub length-packet : {p : List ℕ} → IsPacket p → 4 ≤ length p
length-packet k =
    omega
      (arith, ap length k.shape, length-append (head_bytes k.head) k.body, length-head_bytes k.head)

-- The start of a packet: less than a head, or a head that asks for more bytes than are there.
abbrev pub IsPartial : List ℕ → Type 0
IsPartial r =
    (length r < 4)
    ⊎ ((h : ProtocolHead) × (body : List ℕ) × (r ≡ head_bytes h ++ body)
        × (length r < h.len)
        × (h.len < 2 ^ 16)
        × (h.xyid < 2 ^ 16))

-- The head at the front of a buffer.
pub read_front :
    (host : Bool) (h : ProtocolHead) (ys : List ℕ)
    → h.len < 2 ^ 16
    → h.xyid < 2 ^ 16
    → read_head host (reader (take 4 (head_bytes h ++ ys))) ≡ ok (h, at false (head_bytes h) [])
unfolding reader
read_front host h ys a b =
    let e : take 4 (head_bytes h ++ ys) ≡ head_bytes h ++ [] =
      rw (← length-head_bytes h, take-append) (sym (append-nil _)) in
    rw (e, read_head-head_bytes host h [] [] a b)

pub head_unique :
    (h k : ProtocolHead) (x y : List ℕ)
    → head_bytes h ++ x ≡ head_bytes k ++ y
    → h.len < 2 ^ 16
    → h.xyid < 2 ^ 16
    → k.len < 2 ^ 16
    → k.xyid < 2 ^ 16
    → h ≡ k
head_unique h k x y e a b c d = cc (
  read_front false h x a b,
  read_front false k y c d,
  ap (λ (t : List ℕ). read_head false (reader (take 4 t))) e,
)

-- One round at a whole packet.
parse_packet :
    (host : Bool) (fuel : ℕ) (buf : List ℕ) (index : ℕ) (p ys : List ℕ) {ps : List (List ℕ)}
    {end : ℕ}
    → IsPacket p
    → index ≤ length buf
    → drop index buf ≡ p ++ ys
    → parse host fuel buf (index + length p) ≡ some (ps, end)
    → parse host (suc fuel) buf index ≡ some (p ∷ ps, end)
unfolding parse take_packet
parse_packet host fuel buf index p ys k le e rest =
    let n : length buf - index ≡ length p + length ys =
      omega (arith, length-drop index buf, ap length e, length-append p ys) in
    let h = k.head in
    let a : ltb (length buf - index) 4 ≡ false = ground (arith, n, length-packet k) in
    let b : ltb (length buf - index) h.len ≡ false = ground (arith, n, k.counts) in
    let f : drop index buf ≡ head_bytes h ++ (k.body ++ ys) =
      e ∙ ap (λ (t : List ℕ). t ++ ys) k.shape ∙ append_assoc (head_bytes h) k.body ys in
    let c = read_front host h (k.body ++ ys) k.len_fits k.xyid_fits in
    rw (a, ap (take 4) f, c, b, k.counts, rest, e, k.counts, take-append)

-- One round at the start of a packet.
parse_partial :
    (host : Bool) (fuel : ℕ) (buf : List ℕ) (index : ℕ) (r : List ℕ)
    → IsPartial r
    → index ≤ length buf
    → drop index buf ≡ r
    → parse host (suc fuel) buf index ≡ some ([], index)
unfolding parse take_packet
parse_partial host fuel buf index r (inl short) le e =
    let a : ltb (length buf - index) 4 ≡ true =
      ground (arith, length-drop index buf, ap length e) in
    rw a
parse_partial host fuel buf index r (inr (h, body, f, less, x, y)) le e =
    let n : length buf - index ≡ length r = omega (arith, length-drop index buf, ap length e) in
    let a : ltb (length buf - index) 4 ≡ false =
      ground (arith, n, ap length f, length-append (head_bytes h) body, length-head_bytes h) in
    let b : ltb (length buf - index) h.len ≡ true = ground (arith, n) in
    rw (a, ap (take 4) (e ∙ f), read_front host h body x y, b)

parse_stream :
    (host : Bool) (fuel : ℕ) (buf : List ℕ) (index : ℕ) (ps : List (List ℕ)) (r : List ℕ)
    → AllPackets ps
    → IsPartial r
    → index ≤ length buf
    → drop index buf ≡ concat ps ++ r
    → length ps < fuel
    → parse host fuel buf index ≡ some (ps, index + length (concat ps))
parse_stream host zero buf index ps r k t le e f = absurd (omega arith)
parse_stream host (suc fuel) buf index [] r k t le e f =
    parse_partial host fuel buf index r t le e ∙ ap (λ (n : ℕ). some ([], n)) (omega arith)
parse_stream host (suc fuel) buf index (p ∷ ps) r k t le e f =
    let g : drop index buf ≡ p ++ (concat ps ++ r) = e ∙ append_assoc p (concat ps) r in
    let n : length buf - index ≡ length p + length (concat ps ++ r) =
      omega (arith, length-drop index buf, ap length g, length-append p (concat ps ++ r)) in
    let d : drop (index + length p) buf ≡ concat ps ++ r =
      sym (drop-drop (length p) index buf)
      ∙ ap (drop (length p)) g
      ∙ drop-append p (concat ps ++ r) in
    let ih =
      parse_stream host fuel buf (index + length p) ps r k.1 t (omega (arith, n, length-packet k.0))
        d (omega arith) in
    parse_packet host fuel buf index p (concat ps ++ r) k.0 le g
      (ih ∙ ap (λ (m : ℕ). some (ps, m)) (omega (arith, length-append p (concat ps))))

-- recv on a buffer that, with the new bytes, holds packets and the start of one more, with more fuel
-- than packets: the packets go up whole and in order, and the start stays.
pub recv-packets :
    (host : Bool) (fuel : ℕ) (kept chunk : List ℕ) (ps : List (List ℕ)) (r : List ℕ)
    → AllPackets ps
    → IsPartial r
    → kept ++ chunk ≡ concat ps ++ r
    → length ps < fuel
    → recv host fuel kept chunk ≡ some (ps, r)
unfolding recv
recv-packets host fuel kept chunk ps r k t e f = rw (
  recv,
  e,
  parse_stream host fuel (concat ps ++ r) 0 ps r k t (omega arith) refl f,
  add.zero,
  e,
  drop-append,
)

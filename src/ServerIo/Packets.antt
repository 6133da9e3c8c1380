-- ===== src/ServerIo/Packets.antt =====
-- The packets that the loop of ServerIOSocket::recv cuts out of the receive buffer.
use native.Mathlib.Nat.{div-add-mod, mod-lt}
use echo_server_cpp.Prelude.{
  concat, ℕ, zero, suc, ◌+◌, ◌-◌, ◌*◌, ◌/◌, ◌^◌, ◌≤◌, ◌<◌, ◌≡◌, ◌≢◌, refl, sym, ap, ap₂, ◌∙◌, Bool,
  true, false, List, [], ◌∷◌, ◌++◌, append_assoc, arith, length, take, drop, length-append,
  length-drop, length-take, take-append, drop-append, drop-drop, ltb, ◌==◌,
}
use echo_server_cpp.Prelude.Results.{ok}
use echo_server_cpp.Stream.{Stream}
use echo_server_cpp.Stream.Words.{at}
use echo_server_cpp.Protocol.{ProtocolHead, read_head, reader}
use echo_server_cpp.Protocol.RoundTrip.{
  head_bytes, length-head_bytes, read_head-head_bytes, read_head-short,
}
use echo_server_cpp.ServerIo.{done, stuck}
use echo_server_cpp.ServerIo.Receive.{take_packet, parse}

-- A buffer whose front is a head, with at least its four bytes brought by the last read.
pub record Headed (buf : List ℕ) (len : ℕ) (h : ProtocolHead) : Type 0 where
  pub body : List ℕ
  pub shape : buf ≡ head_bytes h ++ body
  pub enough : 4 ≤ len
  pub len_fits : h.len < 2 ^ 16
  pub xyid_fits : h.xyid < 2 ^ 16

take_past :
    (n : ℕ) (xs ys : List ℕ) → length xs ≤ n → take n (xs ++ ys) ≡ xs ++ take (n - length xs) ys
take_past n [] ys h = ap (λ (k : ℕ). take k ys) (omega arith)
take_past zero (x ∷ xs) ys h = absurd (omega arith)
take_past (suc n) (x ∷ xs) ys h =
    ap (◌∷◌ x) (take_past n xs ys (omega arith) ∙ ap (λ (k : ℕ). xs ++ take k ys) (omega arith))

read_Headed :
    (host : Bool) (buf : List ℕ) (len : ℕ) (h : ProtocolHead)
    → Headed buf len h
    → (s : Stream) × (read_head host (reader (take len buf)) ≡ ok (h, s))
unfolding reader
read_Headed host buf len h v =
    let front = head_bytes h in
    let n = length-head_bytes h in
    let e : take len buf ≡ front ++ take (len - length front) v.body =
      ap (take len) v.shape ∙ take_past len front v.body (omega (arith, n, v.enough)) in
    (
      at false front (take (len - length front) v.body),
      rw (
        e,
        read_head-head_bytes host h [] (take (len - length front) v.body) v.len_fits v.xyid_fits,
      ),
    )

-- `k` slices of `n` bytes each.
pieces : ℕ → ℕ → List ℕ → List (List ℕ)
pieces zero n xs = []
pieces (suc k) n xs = take n xs ∷ pieces k n (drop n xs)

parse_last :
    (host : Bool) (fuel : ℕ) (buf : List ℕ) (len index : ℕ) (h : ProtocolHead)
    → Headed buf len h
    → length buf - index < h.len
    → parse host (suc fuel) buf len index ≡ done ([], index)
unfolding parse take_packet
parse_last host fuel buf len index h v less =
    let (s, e) = read_Headed host buf len h v in
    let f : ltb (length buf - index) h.len ≡ true = ground arith in rw (e, f) (ground arith)

parse_next :
    (host : Bool) (fuel : ℕ) (buf : List ℕ) (len index : ℕ) (h : ProtocolHead) {ps : List (List ℕ)}
    {end : ℕ}
    → Headed buf len h
    → 0 < h.len
    → index + h.len ≤ length buf
    → parse host fuel buf len (index + h.len) ≡ done (ps, end)
    → parse host (suc fuel) buf len index ≡ done (take h.len (drop index buf) ∷ ps, end)
unfolding parse take_packet
parse_next host fuel buf len index h v positive le rest =
    let (s, e) = read_Headed host buf len h v in
    let f : ltb (length buf - index) h.len ≡ false = ground arith in
    let g : (length buf - index == 0) ≡ false = ground arith in rw (e, f, g, rest)

-- Every slice has the length that the head at the front of the buffer gives, as often as it goes
-- into the bytes that are left; the fuel wants to be more than that number.
parse-pieces :
    (host : Bool) (fuel : ℕ) (buf : List ℕ) (len index k : ℕ) (h : ProtocolHead)
    → Headed buf len h
    → 0 < h.len
    → index + k * h.len ≤ length buf
    → length buf < index + k * h.len + h.len
    → k < fuel
    → parse host fuel buf len index ≡ done (pieces k h.len (drop index buf), index + k * h.len)
unfolding pieces
parse-pieces host zero buf len index k h v positive lo hi f = absurd (omega arith)
parse-pieces host (suc fuel) buf len index zero h v positive lo hi f =
    parse_last host fuel buf len index h v (omega arith)
    ∙ ap (λ (n : ℕ). done ([], n)) (omega arith)
parse-pieces host (suc fuel) buf len index (suc k) h v positive lo hi f =
    let ih =
      parse-pieces host fuel buf len (index + h.len) k h v positive (omega arith) (omega arith)
        (omega arith) in
    parse_next host fuel buf len index h v positive (omega arith) (
      ih
      ∙ ap₂ (λ (t : List ℕ) (n : ℕ). done (pieces k h.len t, n)) (sym (drop-drop h.len index buf))
          (omega arith))

-- Every packet has `n` bytes.
abbrev pub AllLength : ℕ → List (List ℕ) → Type 0
AllLength n [] = Unit {0}
AllLength n (p ∷ ps) = (length p ≡ n) × AllLength n ps

pieces-concat :
    (n : ℕ) (ps : List (List ℕ)) (r : List ℕ)
    → AllLength n ps
    → pieces (length ps) n (concat ps ++ r) ≡ ps
unfolding pieces
pieces-concat n [] r h = refl
pieces-concat n (p ∷ ps) r h =
    let e = append_assoc p (concat ps) r in
    rw (e, ← h.0, take-append, drop-append) (ap (◌∷◌ p) (rw (← h.0) at (pieces-concat n ps r h.1)))

length-concat : (n : ℕ) (ps : List (List ℕ)) → AllLength n ps → length (concat ps) ≡ length ps * n
length-concat n [] h = omega arith
length-concat n (p ∷ ps) h = omega (arith, length-append p (concat ps), length-concat n ps h.1)

-- Packets of the nonzero length that the first head gives, such as heartbeats, with fewer bytes
-- behind them: if the first head is within the last read and the fuel is more than the number of
-- packets, the loop ends and hands up exactly the packets.
pub parse-uniform :
    (host : Bool) (fuel : ℕ) (len : ℕ) (h : ProtocolHead) (ps : List (List ℕ)) (r : List ℕ)
    → Headed (concat ps ++ r) len h
    → 0 < h.len
    → AllLength h.len ps
    → length r < h.len
    → length ps < fuel
    → parse host fuel (concat ps ++ r) len 0 ≡ done (ps, length (concat ps))
parse-uniform host fuel len h ps r v positive all less f =
    let n = length-concat h.len ps all in
    let m = length-append (concat ps) r in
    parse-pieces host fuel (concat ps ++ r) len 0 (length ps) h v positive (omega arith)
      (omega arith) f
    ∙ ap₂ (λ (t : List (List ℕ)) (k : ℕ). done (t, k)) (pieces-concat h.len ps r all) (omega arith)

-- A head of length zero at the front, within the last read, and bytes left in the buffer: the loop
-- never ends, however much fuel it is given.
pub parse-zero :
    (host : Bool) (fuel : ℕ) (buf : List ℕ) (len index : ℕ) (h : ProtocolHead)
    → Headed buf len h
    → h.len ≡ 0
    → index < length buf
    → parse host fuel buf len index ≡ stuck
unfolding parse take_packet
parse-zero host zero buf len index h v z less = refl
parse-zero host (suc fuel) buf len index h v z less =
    let (s, e) = read_Headed host buf len h v in
    let f : ltb (length buf - index) 0 ≡ false = ground arith in
    let g : (length buf - index == 0) ≡ false = ground arith in
    let ih = parse-zero host fuel buf len (index + 0) h v z (omega arith) in rw (e, z, f, g, ih)

-- After a read of fewer than four bytes the loop ends and hands up nothing, whatever the buffer holds,
-- so also where the read completes a packet.
pub parse-short :
    (host : Bool) (fuel : ℕ) (buf : List ℕ) (len : ℕ)
    → len < 4
    → parse host (suc fuel) buf len 0 ≡ done ([], 0)
unfolding parse take_packet reader
parse-short host fuel buf len short =
    let (s, e) =
      read_head-short host (reader (take len buf)) (omega (arith, length-take len buf)) in
    rw e (ground arith)

pieces-AllLength : (k n : ℕ) (xs : List ℕ) → k * n ≤ length xs → AllLength n (pieces k n xs)
unfolding pieces
pieces-AllLength zero n xs h = tt
pieces-AllLength (suc k) n xs h = (
  length-take n xs ∙ omega arith,
  pieces-AllLength k n (drop n xs) (omega (arith, length-drop n xs)),
)

-- With a head of nonzero length at the front, within the last read, the loop ends on as much fuel as
-- there are bytes and one more; it stays within the buffer, and every packet that it hands up has the
-- length of that first head.
pub parse-AllLength :
    (host : Bool) (fuel : ℕ) (buf : List ℕ) (len : ℕ) (h : ProtocolHead)
    → Headed buf len h
    → 0 < h.len
    → length buf < fuel
    → (ps : List (List ℕ)) × (end : ℕ) × (parse host fuel buf len 0 ≡ done (ps, end))
      × (end ≤ length buf)
      × AllLength h.len ps
parse-AllLength host fuel buf len h v positive f =
    let k = length buf / h.len in
    let d = div-add-mod (length buf) h.len in
    let m = mod-lt (length buf) positive in
    let bound : k ≤ k * h.len = grind arith in
    (
      pieces k h.len buf,
      0 + k * h.len,
      parse-pieces host fuel buf len 0 k h v positive (omega arith) (omega arith) (omega arith),
      omega arith,
      pieces-AllLength k h.len buf (omega arith),
    )

-- Two packets in the buffer, the first of the nonzero length that its head gives and the second of
-- another length, with the first head within the last read and with enough fuel: the loop does not
-- hand up the two packets, wherever it ends.
pub parse-mixed :
    (host : Bool) (fuel : ℕ) (len end : ℕ) (h : ProtocolHead) (p q : List ℕ)
    → Headed (p ++ q) len h
    → length p ≡ h.len
    → 0 < h.len
    → length q ≢ h.len
    → length (p ++ q) < fuel
    → parse host fuel (p ++ q) len 0 ≢ done (p ∷ q ∷ [], end)
parse-mixed host fuel len end h p q v e positive ne f r =
    let (ps, m, t, _, all) = parse-AllLength host fuel (p ++ q) len h v positive f in
    let same : ps ≡ p ∷ q ∷ [] = cc in ne (rw same at all).1.0

-- ===== src/Stream/Words.antt =====
-- What the integer operators of Biosream.h write and read, on any host.
use mathlib.Core.List.{reverse-reverse}
use echo_server_cpp.Prelude.{
  leb, ℕ, ◌-◌, ◌%◌, ◌^◌, ◌≤◌, ◌<◌, refl, length-drop, take-append, drop-append, ◌≡◌, sym, ap, ◌∙◌,
  Bool, true, false, List, [], ◌∷◌, ◌++◌, reverse, append-nil, append_assoc, arith, length, take,
  drop, length-append, length-reverse, drop-drop, ltb, if◌then◌else◌,
}
use echo_server_cpp.Prelude.Bytes.{bytes_le, word_le, word_le-bytes_le, length-bytes_le}
use echo_server_cpp.Prelude.Results.{ok}
use echo_server_cpp.Stream.{
  less_as_long, Stream, fail, overflow, avail, memory, value, put, put_each, get, write_order,
  write_opposite, write_care_endian, read_order, read_opposite, read_care_endian, write_int,
  read_int, write_char, read_char, write, read, is_same_endian,
}

-- The order of the bytes on the wire depends on the stream alone.
unfoldable pub wire : Bool → ℕ → ℕ → List ℕ
wire bigendian n v = if bigendian then reverse (bytes_le n v) else bytes_le n v

unfoldable pub unwire : Bool → List ℕ → ℕ
unwire bigendian bytes = if bigendian then word_le (reverse bytes) else word_le bytes

pub length-wire : (m : Bool) (n v : ℕ) → length (wire m n v) ≡ n
unfolding wire
length-wire true n v = length-reverse (bytes_le n v) ∙ length-bytes_le n v
length-wire false n v = length-bytes_le n v

pub unwire-wire : (m : Bool) (n v : ℕ) → v < 256 ^ n → unwire m (wire m n v) ≡ v
unfolding wire unwire
unwire-wire true n v h = rw reverse-reverse (word_le-bytes_le n v h)
unwire-wire false n v h = word_le-bytes_le n v h

pub put-put : (p q : List ℕ) (s : Stream) → put q (put p s) ≡ put (p ++ q) s
unfolding put
put-put p q s = λ i. record {
  before = append_assoc s.before p q i;
  after =
      (drop-drop (length q) (length p) s.after ∙ ap (λ k. drop k s.after) (sym (length-append p q)))
        i;
  bigendian = s.bigendian;
}

pub put-nil : (s : Stream) → put [] s ≡ s
unfolding put
put-nil s = λ i. record { before = append-nil s.before i; after = s.after; bigendian = s.bigendian }

-- Copying byte by byte does what one `memcpy` does.
pub put_each-put : (p : List ℕ) (s : Stream) → put_each p s ≡ put p s
unfolding put_each
put_each-put [] s = sym (put-nil s)
put_each-put (b ∷ bs) s = put_each-put bs (put (b ∷ []) s) ∙ put-put (b ∷ []) bs s

write_opposite_lem :
    (p : List ℕ) (s : Stream)
    → write_opposite p s
      ≡ (if ltb (avail s) (length p) then fail overflow s else ok (put (reverse p) s))
unfolding write_opposite
write_opposite_lem p s = rw put_each-put

write_int-at :
    (host m : Bool) (n v : ℕ) (xs ys : List ℕ)
    → let s : Stream = record { before = xs; after = ys; bigendian = m } in
      write_int host n v s
      ≡ (if ltb (length ys) n then fail overflow s else ok (put (wire m n v) s))
unfolding write_int write_care_endian memory is_same_endian wire write_order
write_int-at true true n v xs ys = rw (length-reverse, length-bytes_le n v)
write_int-at true false n v xs ys =
    rw (write_opposite_lem, reverse-reverse, length-reverse, length-bytes_le n v)
write_int-at false true n v xs ys = rw (write_opposite_lem, length-bytes_le n v)
write_int-at false false n v xs ys = rw (length-bytes_le n v)

-- An integer operator of bostream throws on a full buffer and otherwise writes the wire bytes.
pub write_int_lem :
    (host : Bool) (n v : ℕ) (s : Stream)
    → write_int host n v s
      ≡ (if ltb (avail s) n then fail overflow s else ok (put (wire s.bigendian n v) s))
write_int_lem host n v s = write_int-at host s.bigendian n v s.before s.after

read_int-at :
    (host m : Bool) (n : ℕ) (xs ys : List ℕ)
    → let s : Stream = record { before = xs; after = ys; bigendian = m } in
      read_int host n s
      ≡ (if ltb (length ys) n then fail overflow s else ok (unwire m (get n s).0, (get n s).1))
unfolding read_int read_care_endian value is_same_endian read_order read_opposite unwire get
read_int-at true true n xs ys = ground arith
read_int-at true false n xs ys = ground (arith, reverse-reverse (take n ys))
read_int-at false true n xs ys = ground arith
read_int-at false false n xs ys = ground arith

pub read_int_lem :
    (host : Bool) (n : ℕ) (s : Stream)
    → read_int host n s ≡ (
        if ltb (avail s) n
        then fail overflow s
        else ok (unwire s.bigendian (get n s).0, (get n s).1))
read_int_lem host n s = read_int-at host s.bigendian n s.before s.after

abbrev pub at : Bool → List ℕ → List ℕ → Stream
at bigendian before after = record { before = before; after = after; bigendian = bigendian }

pub length-put : (p : List ℕ) (s : Stream) → avail (put p s) ≡ avail s - length p
unfolding put
length-put p s = length-drop (length p) s.after

pub bigendian-put : (p : List ℕ) (s : Stream) → (put p s).bigendian ≡ s.bigendian
unfolding put
bigendian-put p s = refl

pub write_int_fits :
    (host : Bool) (n v : ℕ) (s : Stream)
    → n ≤ avail s
    → write_int host n v s ≡ ok (put (wire s.bigendian n v) s)
write_int_fits host n v s h = ground (arith, write_int_lem host n v s)

pub write_int_full :
    (host : Bool) (n v : ℕ) (s : Stream) → avail s < n → write_int host n v s ≡ fail overflow s
write_int_full host n v s h = ground (arith, write_int_lem host n v s)

pub write_char_lem :
    (host : Bool) (c : ℕ) (s : Stream)
    → write_char host c s ≡ (if ltb (avail s) 1 then fail overflow s else ok (put (c % 256 ∷ []) s))
unfolding write_char memory write bytes_le
write_char_lem true c s = refl
write_char_lem false c s = refl

pub write_lem :
    (p : List ℕ) (s : Stream)
    → write p s ≡ (if ltb (avail s) (length p) then fail overflow s else ok (put p s))
unfolding write
write_lem p s = refl

get-append :
    (m : Bool) (xs p ys : List ℕ) → get (length p) (at m xs (p ++ ys)) ≡ (p, at m (xs ++ p) ys)
unfolding get
get-append m xs p ys = rw (take-append, drop-append)

fits-append : (p ys : List ℕ) → ltb (length (p ++ ys)) (length p) ≡ false
fits-append p ys = ground (arith, length-append p ys)

pub read-append :
    (m : Bool) (xs p ys : List ℕ)
    → length p < 2 ^ 63
    → read (length p) (at m xs (p ++ ys)) ≡ ok (p, at m (xs ++ p) ys)
unfolding read less_as_long
read-append m xs p ys h =
    let e : length p % 2 ^ 64 ≡ length p = omega arith in
    let f : leb (2 ^ 63) (length p) ≡ false = ground arith in
    rw (read, e, f, fits-append p ys, get-append m xs p ys) refl

pub read_char-append :
    (host m : Bool) (xs : List ℕ) (c : ℕ) (ys : List ℕ)
    → read_char host (at m xs (c ∷ ys)) ≡ ok (c, at m (xs ++ c ∷ []) ys)
unfolding read_char value word_le
read_char-append true m xs c ys =
    rw (read-append m xs (c ∷ []) ys (omega arith))
      (ap (λ (k : ℕ). ok (k, at m (xs ++ c ∷ []) ys)) (omega arith))
read_char-append false m xs c ys =
    rw (read-append m xs (c ∷ []) ys (omega arith))
      (ap (λ (k : ℕ). ok (k, at m (xs ++ c ∷ []) ys)) (omega arith))

-- An integer operator of bistream, on any host, reads back what the wire holds.
pub read_int-wire :
    (host m : Bool) (n v : ℕ) (xs ys : List ℕ)
    → v < 256 ^ n
    → read_int host n (at m xs (wire m n v ++ ys)) ≡ ok (v, at m (xs ++ wire m n v) ys)
read_int-wire host m n v xs ys h =
    read_int_lem host n (at m xs (wire m n v ++ ys))
    ∙ (let e = length-wire m n v in
        let f = fits-append (wire m n v) ys in
        let g = get-append m xs (wire m n v) ys in rw (rw e at f, rw e at g, unwire-wire m n v h))

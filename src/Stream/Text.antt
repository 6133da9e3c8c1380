-- ===== src/Stream/Text.antt =====
-- The length-prefixed texts of Biosream.h.
use echo_server_cpp.Prelude.{
  ℕ, suc, ◌+◌, ◌%◌, ◌^◌, ◌≤◌, ◌<◌, ◌≡◌, ap, ◌∙◌, inl, inr, Bool, true, false, List, [], ◌∷◌, ◌++◌,
  append_assoc, arith, length, length-append, ltb, Bool-cases, dec_lt, if◌then◌else◌,
}
use echo_server_cpp.Prelude.Results.{ok}
use echo_server_cpp.Stream.{
  Stream, fail, overflow, avail, put, write_char, write_int, write_length, write_text, read_text,
}
use echo_server_cpp.Stream.Words.{
  wire, length-wire, at, put-put, length-put, write_int_fits, write_int_full, write_char_lem,
  write_lem, read-append, read_char-append, read_int-wire,
}

-- The length field of a text of `n` bytes.
unfoldable pub length_field : Bool → ℕ → List ℕ
length_field m n =
    if ltb n 255
    then n ∷ []
    else if ltb n 0xfffe
    then 0xff ∷ wire m 2 n
    else 0xff ∷ wire m 2 0xffff ++ wire m 8 n

write_char_fits :
    (host : Bool) (c : ℕ) (s : Stream)
    → c < 256
    → 1 ≤ avail s
    → write_char host c s ≡ ok (put (c ∷ []) s)
write_char_fits host c s hc h =
    let e : c % 256 ≡ c = omega arith in
    let f : ltb (avail s) 1 ≡ false = ground arith in write_char_lem host c s ∙ rw (f, e)

write_char_full :
    (host : Bool) (c : ℕ) (s : Stream) → avail s < 1 → write_char host c s ≡ fail overflow s
write_char_full host c s h =
    let f : ltb (avail s) 1 ≡ true = ground arith in write_char_lem host c s ∙ rw f

-- A write of an integer behind what was put there before.
write_int_next :
    (host : Bool) (n v : ℕ) (p : List ℕ) (s : Stream)
    → length p + n ≤ avail s
    → write_int host n v (put p s) ≡ ok (put (p ++ wire s.bigendian n v) s)
unfolding put
write_int_next host n v p s h =
    write_int_fits host n v (put p s) (rw (length-put p s) (omega arith))
    ∙ ap ok (put-put p (wire s.bigendian n v) s)

write_int_next_full :
    (host : Bool) (n v : ℕ) (p : List ℕ) (s : Stream)
    → avail s < length p + n
    → length p ≤ avail s
    → write_int host n v (put p s) ≡ fail overflow (put p s)
write_int_next_full host n v p s h k =
    write_int_full host n v (put p s) (rw (length-put p s) (omega arith))

length-length_field :
    (m : Bool) (n : ℕ)
    → length (length_field m n) ≡ (if ltb n 255 then 1 else if ltb n 0xfffe then 3 else 11)
unfolding length_field
length-length_field m n = elim (Bool-cases (ltb n 255)) [
  | inl a ↦ rw a
  | inr a ↦ elim (Bool-cases (ltb n 0xfffe)) [
    | inl b ↦ rw (a, b) (ap suc (length-wire m 2 n))
    | inr b ↦
        rw (a, b)
          (omega (
            arith,
            length-append (wire m 2 0xffff) (wire m 8 n),
            length-wire m 2 0xffff,
            length-wire m 8 n,
          ))
  ]
]

write_length_fits :
    (host : Bool) (n : ℕ) (s : Stream)
    → length (length_field s.bigendian n) ≤ avail s
    → write_length host n s ≡ ok (put (length_field s.bigendian n) s)
unfolding write_length length_field
write_length_fits host n s fit = elim (Bool-cases (ltb n 255)) [
  | inl a ↦
      let k : n % 256 ≡ n = ground arith in
      rw (a, k) (write_char_fits host n s (ground arith) (ground (arith, fits)))
  | inr a ↦ elim (Bool-cases (ltb n 0xfffe)) [
    | inl b ↦
        let k : n % 2 ^ 16 ≡ n = ground arith in
        rw (a, b, k, write_char_fits host 255 s (omega arith) (ground (arith, fits)))
          (write_int_next host 2 n (255 ∷ []) s (ground (arith, fits)))
    | inr b ↦
        rw
          (
            a,
            b,
            write_char_fits host 255 s (omega arith) (ground (arith, fits)),
            write_int_next host 2 0xffff (255 ∷ []) s (ground (arith, fits)),
          )
          (write_int_next host 8 n (255 ∷ wire s.bigendian 2 0xffff) s
            (ground (arith, fits, length-wire s.bigendian 2 0xffff)))
  ]
]
  where
    fits : (if ltb n 255 then 1 else if ltb n 0xfffe then 3 else 11) ≤ avail s
    fits = rw (length-length_field s.bigendian n) at fit

-- Where the field does not fit, the write throws, after some of its bytes.
write_length_full :
    (host : Bool) (n : ℕ) (s : Stream)
    → avail s < length (length_field s.bigendian n)
    → (t : Stream) × (write_length host n s ≡ fail overflow t)
unfolding write_length
write_length_full host n s short = elim (Bool-cases (ltb n 255)) [
  | inl a ↦ (s, rw a (write_char_full host (n % 256) s (ground (arith, small))))
  | inr a ↦ elim (dec_lt (avail s) 1) [
    | yes e ↦ (s, rw (a, write_char_full host 255 s e) (ground arith))
    | no e ↦
        let c = write_char_fits host 255 s (omega arith) (omega arith) in
        elim (Bool-cases (ltb n 0xfffe)) [
          | inl b ↦ (
            put (255 ∷ []) s,
            rw (a, b, c)
                (write_int_next_full host 2 (n % 2 ^ 16) (255 ∷ []) s (ground (arith, small))
                  (omega arith)),
          )
          | inr b ↦ elim (dec_lt (avail s) 3) [
            | yes f ↦ (
              put (255 ∷ []) s,
              rw (a, b, c, write_int_next_full host 2 0xffff (255 ∷ []) s f (omega arith)),
            )
            | no f ↦
                let w = wire s.bigendian 2 0xffff in
                let k : length w ≡ 2 = length-wire s.bigendian 2 0xffff in
                (
                  put (255 ∷ w) s,
                  rw (a, b, c, write_int_next host 2 0xffff (255 ∷ []) s (omega arith))
                      (write_int_next_full host 8 n (255 ∷ w) s (ground (arith, small))
                        (omega arith)),
                )
          ]
        ]
  ]
]
  where
    small : avail s < (if ltb n 255 then 1 else if ltb n 0xfffe then 3 else 11)
    small = rw (length-length_field s.bigendian n) at short

-- The bytes of a text on the wire.
unfoldable pub text_field : Bool → List ℕ → List ℕ
text_field m text = length_field m (length text) ++ text

length-text_field :
    (m : Bool) (text : List ℕ)
    → length (text_field m text) ≡ length (length_field m (length text)) + length text
unfolding text_field
length-text_field m text = length-append (length_field m (length text)) text

-- A text that fits into the buffer with its length field is written whole, on any host.
pub write_text-fits :
    (host : Bool) (text : List ℕ) (s : Stream)
    → length (text_field s.bigendian text) ≤ avail s
    → write_text host text s ≡ ok (put (text_field s.bigendian text) s)
unfolding write_text text_field put
write_text-fits host text s h =
    let field = length_field s.bigendian (length text) in
    let k : length field + length text ≤ avail s =
      omega (arith, h, length-text_field s.bigendian text) in
    let room : ltb (avail (put field s)) (length text) ≡ false =
      ground (arith, length-put field s) in
    rw (write_length_fits host (length text) s (omega arith), write_lem text (put field s), room)
      (ap ok (put-put field text s))

-- Where the buffer has no room for the length field and the text, `overflow` is thrown, on any host.
pub write_text-overflow :
    (host : Bool) (text : List ℕ) (s : Stream)
    → avail s < length (text_field s.bigendian text)
    → (t : Stream) × (write_text host text s ≡ fail overflow t)
unfolding write_text
write_text-overflow host text s h =
    let field = length_field s.bigendian (length text) in
    let n = length-text_field s.bigendian text in
    elim (dec_lt (avail s) (length field)) [
      | yes e ↦ let (t, f) = write_length_full host (length text) s e in (t, rw f)
      | no e ↦
          let full : ltb (avail (put field s)) (length text) ≡ true =
            ground (arith, length-put field s, n) in
          (
            put field s,
            rw (
              write_length_fits host (length text) s (omega arith),
              write_lem text (put field s),
              full,
            ),
          )
    ]

-- From a text of fewer than 2 ^ 63 bytes with its length field the reader, on any host, stores the
-- text and stands behind it, whatever follows. The field of a text of 65534 bytes or more has eight
-- bytes for the length (an `unsigned long`), where the comment of the class says four.
pub read_text-text_field :
    (host m : Bool) (xs text ys : List ℕ)
    → length text < 2 ^ 63
    → read_text host (at m xs (text_field m text ++ ys))
      ≡ ok (text, at m (xs ++ text_field m text) ys)
unfolding read_text text_field length_field
read_text-text_field host m xs text ys h = elim (Bool-cases (ltb (length text) 255)) [
  | inl a ↦
      rw (a, read_char-append host m xs (length text) (text ++ ys), a)
        (read-append m (xs ++ length text ∷ []) text ys h ∙ rw append_assoc)
  | inr a ↦ elim (Bool-cases (ltb (length text) 0xfffe)) [
    | inl b ↦
        let w = wire m 2 (length text) in
        rw
          (
            a,
            b,
            append_assoc w text ys,
            read_char-append host m xs 255 (w ++ (text ++ ys)),
            read_int-wire host m 2 (length text) (xs ++ 255 ∷ []) (text ++ ys) (ground arith),
            b,
          )
          (read-append m ((xs ++ 255 ∷ []) ++ w) text ys h ∙ simp append_assoc)
    | inr b ↦
        let v = wire m 2 0xffff in
        let w = wire m 8 (length text) in
        rw
          (
            a,
            b,
            ap (◌∷◌ 255) (append_assoc (v ++ w) text ys ∙ append_assoc v w (text ++ ys)),
            read_char-append host m xs 255 (v ++ (w ++ (text ++ ys))),
            read_int-wire host m 2 0xffff (xs ++ 255 ∷ []) (w ++ (text ++ ys)) (omega arith),
            read_int-wire host m 8 (length text) ((xs ++ 255 ∷ []) ++ v) (text ++ ys) (omega arith),
          )
          (read-append m (((xs ++ 255 ∷ []) ++ v) ++ w) text ys h ∙ simp append_assoc)
  ]
]

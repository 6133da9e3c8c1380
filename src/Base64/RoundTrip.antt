-- ===== src/Base64/RoundTrip.antt =====
-- libbase/base64.cpp: DecodeBase64 on what EncodeBase64 stores.
use mathlib.Core.List.{append_assoc}
use echo_server_cpp.Prelude.{
  ℕ, ◌+◌, ◌*◌, ◌%◌, ◌^◌, ◌<◌, ◌≡◌, refl, sym, ap, ap₂, ◌≢◌, append-nil, ◌∙◌, true, some, List, [],
  ◌∷◌, ◌++◌, arith, length, ◌==◌, ==_iff,
}
use echo_server_cpp.Prelude.Bytes.{IsByte, All}
use echo_server_cpp.Prelude.Tables.{holds_below, holds_below_lem}
use echo_server_cpp.Base64.{
  pad, symbol, code_of, first, second, third, fourth, encode_groups, encode_base64, flush,
  decode_loop, decode_base64,
}

code_table : holds_below (λ i. code_of (symbol i) == i) 64 ≡ true
unfolding holds_below code_of symbol
code_table = refl

code_of-symbol : (i : ℕ) → i < 64 → code_of (symbol i) ≡ i
code_of-symbol i h =
    (==_iff _ i).0 (holds_below_lem (λ k. code_of (symbol k) == k) 64 i code_table h)

code_of-pad : code_of pad ≡ 0xfe
unfolding code_of
code_of-pad = refl

-- A character that is no padding adds six bits, unless it is the fourth of its group.
decode_more :
    (i : ℕ) (cs : List ℕ) (ncode dc nc : ℕ) (out : List ℕ)
    → i < 64
    → nc < 3
    → decode_loop (symbol i ∷ cs) ncode dc nc out
      ≡ decode_loop cs ((ncode * 64 + i) % 2 ^ 64) dc (nc + 1) out
unfolding decode_loop
decode_more i cs ncode dc nc out h k = ground (arith, code_of-symbol i h)

decode_full :
    (i : ℕ) (cs : List ℕ) (ncode dc : ℕ) (out : List ℕ)
    → i < 64
    → decode_loop (symbol i ∷ cs) ncode dc 3 out
      ≡ decode_loop cs 0 dc 0 (out ++ flush ((ncode * 64 + i) % 2 ^ 64) dc)
unfolding decode_loop
decode_full i cs ncode dc out h = ground (arith, code_of-symbol i h)

abbrev collect : ℕ → ℕ → ℕ
collect ncode i = (ncode * 64 + i) % 2 ^ 64

-- The number that four indices make up.
abbrev four : ℕ → ℕ → ℕ → ℕ → ℕ
four a b c d = collect (collect (collect (collect 0 a) b) c) d

four-sum :
    (a b c d : ℕ)
    → a < 64
    → b < 64
    → c < 64
    → d < 64
    → four a b c d ≡ a * 2 ^ 18 + b * 2 ^ 12 + c * 2 ^ 6 + d
four-sum a b c d ha hb hc hd = omega arith

decode_group :
    (a b c d : ℕ) (cs out : List ℕ)
    → a < 64
    → b < 64
    → c < 64
    → d < 64
    → decode_loop (symbol a ∷ symbol b ∷ symbol c ∷ symbol d ∷ cs) 0 0 0 out
      ≡ decode_loop cs 0 0 0 (out ++ flush (four a b c d) 0)
decode_group a b c d cs out ha hb hc hd =
    decode_more a (symbol b ∷ symbol c ∷ symbol d ∷ cs) 0 0 0 out ha (omega arith)
    ∙ decode_more b (symbol c ∷ symbol d ∷ cs) (collect 0 a) 0 1 out hb (omega arith)
    ∙ decode_more c (symbol d ∷ cs) (collect (collect 0 a) b) 0 2 out hc (omega arith)
    ∙ decode_full d cs (collect (collect (collect 0 a) b) c) 0 out hd

flush_group :
    (c1 c2 c3 : ℕ)
    → c1 < 256
    → c2 < 256
    → c3 < 256
    → flush (four (first c1) (second c1 c2) (third c2 c3) (fourth c3)) 0 ≡ c1 ∷ c2 ∷ c3 ∷ []
unfolding flush
flush_group c1 c2 c3 a b c =
    let e =
      four-sum (first c1) (second c1 c2) (third c2 c3) (fourth c3) (omega arith) (omega arith)
        (omega arith) (omega arith) in
    ap₂ ◌∷◌ (omega arith) (ap₂ ◌∷◌ (omega arith) (ap₂ ◌∷◌ (omega arith) refl))

decode_pad :
    (ncode : ℕ) (out : List ℕ)
    → decode_loop (pad ∷ []) ncode 0 3 out ≡ out ++ flush (collect ncode 0) 1
unfolding decode_loop
decode_pad ncode out = rw code_of-pad

-- A group that ends in one padding character stores two bytes.
decode_padded :
    (a b c : ℕ) (out : List ℕ)
    → a < 64
    → b < 64
    → c < 64
    → decode_loop (symbol a ∷ symbol b ∷ symbol c ∷ pad ∷ []) 0 0 0 out
      ≡ out ++ flush (four a b c 0) 1
decode_padded a b c out ha hb hc =
    decode_more a (symbol b ∷ symbol c ∷ pad ∷ []) 0 0 0 out ha (omega arith)
    ∙ decode_more b (symbol c ∷ pad ∷ []) (collect 0 a) 0 1 out hb (omega arith)
    ∙ decode_more c (pad ∷ []) (collect (collect 0 a) b) 0 2 out hc (omega arith)
    ∙ decode_pad (collect (collect (collect 0 a) b) c) out

flush_padded :
    (c1 c2 : ℕ)
    → c1 < 256
    → c2 < 256
    → flush (four (first c1) (second c1 c2) (third c2 0) 0) 1 ≡ c1 ∷ c2 ∷ []
unfolding flush
flush_padded c1 c2 a b =
    let e =
      four-sum (first c1) (second c1 c2) (third c2 0) 0 (omega arith) (omega arith) (omega arith)
        (omega arith) in
    ap₂ ◌∷◌ (omega arith) (ap₂ ◌∷◌ (omega arith) refl)

-- What decoding gives back: the bytes, and one zero byte too many where one byte is left over.
unfoldable pub decoded : List ℕ → List ℕ
decoded [] = []
decoded (c1 ∷ []) = c1 ∷ 0 ∷ []
decoded (c1 ∷ c2 ∷ []) = c1 ∷ c2 ∷ []
decoded (c1 ∷ c2 ∷ c3 ∷ rest) = c1 ∷ c2 ∷ c3 ∷ decoded rest

decode_loop-encode_groups :
    (xs out : List ℕ) → All IsByte xs → decode_loop (encode_groups xs) 0 0 0 out ≡ out ++ decoded xs
unfolding encode_groups decoded
decode_loop-encode_groups [] out h = unfold decode_loop in sym (append-nil out)
decode_loop-encode_groups (c1 ∷ []) out h =
    decode_padded (first c1) (second c1 0) (third 0 0) out (omega arith) (omega arith) (omega arith)
    ∙ ap (◌++◌ out) (flush_padded c1 0 (omega arith) (omega arith))
decode_loop-encode_groups (c1 ∷ c2 ∷ []) out h =
    decode_padded (first c1) (second c1 c2) (third c2 0) out (omega arith) (omega arith)
      (omega arith)
    ∙ ap (◌++◌ out) (flush_padded c1 c2 (omega arith) (omega arith))
decode_loop-encode_groups (c1 ∷ c2 ∷ c3 ∷ rest) out h =
    decode_group (first c1) (second c1 c2) (third c2 c3) (fourth c3) (encode_groups rest) out
      (omega arith) (omega arith) (omega arith) (omega arith)
    ∙ rw (flush_group c1 c2 c3 (omega arith) (omega arith) (omega arith)) (
        decode_loop-encode_groups rest (out ++ c1 ∷ c2 ∷ c3 ∷ []) h.1.1.1
        ∙ append_assoc out (c1 ∷ c2 ∷ c3 ∷ []) (decoded rest))

decoded_lem : (xs : List ℕ) → length xs % 3 ≢ 1 → decoded xs ≡ xs
unfolding decoded
decoded_lem [] h = refl
decoded_lem (c1 ∷ []) h = absurd (h refl)
decoded_lem (c1 ∷ c2 ∷ []) h = refl
decoded_lem (c1 ∷ c2 ∷ c3 ∷ rest) h =
    ap (λ (t : List ℕ). c1 ∷ c2 ∷ c3 ∷ t) (decoded_lem rest (omega arith))

decoded_extra : (xs : List ℕ) → length xs % 3 ≡ 1 → decoded xs ≡ xs ++ 0 ∷ []
unfolding decoded
decoded_extra [] h = absurd (omega arith)
decoded_extra (c1 ∷ []) h = refl
decoded_extra (c1 ∷ c2 ∷ []) h = absurd (omega arith)
decoded_extra (c1 ∷ c2 ∷ c3 ∷ rest) h =
    ap (λ (t : List ℕ). c1 ∷ c2 ∷ c3 ∷ t) (decoded_extra rest (omega arith))

decode-encode_groups :
    (x : ℕ) (xs : List ℕ)
    → All IsByte (x ∷ xs)
    → decode_base64 (encode_groups (x ∷ xs)) ≡ some (decoded (x ∷ xs))
unfolding decode_base64 encode_groups
decode-encode_groups x [] h = ap some (decode_loop-encode_groups (x ∷ []) [] h)
decode-encode_groups x (y ∷ []) h = ap some (decode_loop-encode_groups (x ∷ y ∷ []) [] h)
decode-encode_groups x (y ∷ z ∷ r) h = ap some (decode_loop-encode_groups (x ∷ y ∷ z ∷ r) [] h)

-- Unless one byte is left over from the groups of three, a nonempty array of bytes is encoded, and
-- DecodeBase64 gives it back.
pub decode-encode :
    (x : ℕ) (xs : List ℕ)
    → All IsByte (x ∷ xs)
    → length (x ∷ xs) % 3 ≢ 1
    → (t : List ℕ) × (encode_base64 (x ∷ xs) ≡ some t) × (decode_base64 t ≡ some (x ∷ xs))
unfolding encode_base64
decode-encode x xs h k =
    (encode_groups (x ∷ xs), refl, decode-encode_groups x xs h ∙ ap some (decoded_lem (x ∷ xs) k))

-- If one byte is left over from the groups of three, an array of bytes is encoded, and DecodeBase64
-- gives it back with a zero byte too many.
pub decode-encode_extra :
    (x : ℕ) (xs : List ℕ)
    → All IsByte (x ∷ xs)
    → length (x ∷ xs) % 3 ≡ 1
    → (t : List ℕ) × (encode_base64 (x ∷ xs) ≡ some t)
      × (decode_base64 t ≡ some ((x ∷ xs) ++ 0 ∷ []))
unfolding encode_base64
decode-encode_extra x xs h k =
    (encode_groups (x ∷ xs), refl, decode-encode_groups x xs h ∙ ap some (decoded_extra (x ∷ xs) k))

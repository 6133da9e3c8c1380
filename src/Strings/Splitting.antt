-- ===== src/Strings/Splitting.antt =====
-- libbase/Utils.cpp: what splitString makes of a string with one separator character.
use native.Mathlib.Nat.{zero-add}
use echo_server_cpp.Prelude.{
  ltb, ◌<◌, ℕ, zero, suc, ◌+◌, ◌-◌, ◌≤◌, ◌≡◌, refl, sym, ap, ◌∙◌, false, some, List, [], ◌∷◌, ◌++◌,
  append-nil, append_assoc, arith, length, take, drop, length-append, ◌==◌, Bool-cases, inl, inr,
}
use echo_server_cpp.Strings.{find, split_rest, split_loop, split_string}
use echo_server_cpp.Strings.Removal.{
  Free, drop-length, take-length, find_at-Free, find_at-present, find-append,
}

-- A string with its separators, of pieces.
abbrev pub join : ℕ → List ℕ → List (List ℕ) → List ℕ
join c s [] = s
join c s (t ∷ ts) = s ++ c ∷ join c t ts

abbrev pub AllFree : ℕ → List (List ℕ) → Type 0
AllFree c [] = Unit {0}
AllFree c (s ∷ ss) = Free c s × AllFree c ss

-- The last piece, which is dropped when it is empty.
abbrev pub pieces : List ℕ → List (List ℕ) → List (List ℕ)
pieces [] [] = []
pieces (x ∷ s) [] = (x ∷ s) ∷ []
pieces s (t ∷ ts) = s ∷ pieces t ts

drop_past :
    (done s rest : List ℕ) (c : ℕ) → done ++ (s ++ c ∷ rest) ≡ (done ++ (s ++ c ∷ [])) ++ rest
drop_past done s rest c =
    ap (λ (t : List ℕ). done ++ t) (sym (append_assoc s (c ∷ []) rest))
    ∙ sym (append_assoc done (s ++ c ∷ []) rest)

drop-past : (s rest : List ℕ) (c : ℕ) → drop (length s + 1) (s ++ c ∷ rest) ≡ rest
drop-past s rest c =
    let n : length s + 1 ≡ length (s ++ c ∷ []) = omega (arith, length-append s (c ∷ [])) in
    rw (n, sym (append_assoc s (c ∷ []) rest)) (drop-length (s ++ c ∷ []) rest)

split_rest-pieces : (done s : List ℕ) → split_rest (length done) (done ++ s) ≡ pieces s []
split_rest-pieces done [] = rw (append-nil done) (ground arith)
split_rest-pieces done (x ∷ s) =
    let n : (length done == length (done ++ x ∷ s)) ≡ false =
      ground (arith, length-append done (x ∷ s)) in
    rw (n, drop-length done (x ∷ s)) refl

split_loop-pieces :
    (c fuel ct : ℕ) (done s : List ℕ) (ss : List (List ℕ))
    → length ss ≤ fuel
    → Free c s
    → AllFree c ss
    → split_loop fuel (c ∷ []) 0 ct (length done) (done ++ join c s ss) ≡ pieces s ss
unfolding split_loop
split_loop-pieces c zero ct done s [] h f g = split_rest-pieces done s
split_loop-pieces c zero ct done s (t ∷ ts) h f g = absurd (omega arith)
split_loop-pieces c (suc fuel) ct done s [] h f g =
    rw (split_loop, find-append (c ∷ []) done s ∙ find_at-Free c (length done) s f)
      (split_rest-pieces done s)
split_loop-pieces c (suc fuel) ct done s (t ∷ ts) h f g =
    let all = done ++ join c s (t ∷ ts) in
    let found : find (c ∷ []) (length done) all ≡ some (length done + length s) =
      find-append (c ∷ []) done (join c s (t ∷ ts))
      ∙ find_at-present c (length done) s (join c t ts) f in
    let n : (length done + length s) - length done ≡ length s = omega arith in
    let piece : take (length s) (drop (length done) all) ≡ s =
      ap (take (length s)) (drop-length done (join c s (t ∷ ts)))
      ∙ take-length s (c ∷ join c t ts) in
    let next : length done + length s + 1 ≡ length (done ++ (s ++ c ∷ [])) =
      omega (arith, length-append done (s ++ c ∷ []), length-append s (c ∷ [])) in
    rw (split_loop, found, n, piece, next, drop_past done s (join c t ts) c)
      (ap (λ (r : List (List ℕ)). s ∷ r)
        (split_loop-pieces c fuel (ct + 1) (done ++ (s ++ c ∷ [])) t ts (omega arith) g.0 g.1))

pieces-length : (s : List ℕ) (ss : List (List ℕ)) → length (pieces s ss) ≤ suc (length ss)
pieces-length [] [] = omega arith
pieces-length (x ∷ s) [] = omega arith
pieces-length [] (t ∷ ts) = omega (arith, pieces-length t ts)
pieces-length (x ∷ s) (t ∷ ts) = omega (arith, pieces-length t ts)

length-join : (c : ℕ) (s : List ℕ) (ss : List (List ℕ)) → length ss ≤ length (join c s ss)
length-join c s [] = omega arith
length-join c s (t ∷ ts) = omega (arith, length-join c t ts, length-append s (c ∷ join c t ts))

split_string-loop :
    (pattern : List ℕ) (index : ℕ) (r : List ℕ)
    → 0 < length r
    → split_string pattern index r ≡ split_loop (length r) pattern index 0 0 r
unfolding split_string
split_string-loop pattern index [] h = absurd (omega arith)
split_string-loop pattern index (x ∷ r) h = refl

pieces-none :
    (c : ℕ) (s : List ℕ) (ss : List (List ℕ))
    → length (join c s ss) ≤ 0
    → (join c s ss ≡ []) × (pieces s ss ≡ [])
pieces-none c [] [] h = (refl, refl)
pieces-none c (x ∷ s) [] h = absurd (omega arith)
pieces-none c s (t ∷ ts) h = absurd (omega (arith, length-append s (c ∷ join c t ts)))

-- splitString with one separator character and no limit gives back the pieces that the separators
-- joined, but drops the last one if it is empty.
pub split_string-join :
    (c : ℕ) (s : List ℕ) (ss : List (List ℕ))
    → Free c s
    → AllFree c ss
    → split_string (c ∷ []) 0 (join c s ss) ≡ pieces s ss
unfolding split_string
split_string-join c s ss f g = elim (Bool-cases (ltb 0 (length (join c s ss)))) [
  | inl b ↦
      split_string-loop (c ∷ []) 0 (join c s ss) (ground arith)
      ∙ split_loop-pieces c (length (join c s ss)) 0 [] s ss (length-join c s ss) f g
  | inr b ↦ let (e, n) = pieces-none c s ss (ground arith) in rw (e, n) refl
]

first_piece :
    (c : ℕ) (key : List ℕ) (x : ℕ) (value : List ℕ) (fuel : ℕ)
    → Free c key
    → 0 < fuel
    → split_loop fuel (c ∷ []) 1 0 0 (key ++ c ∷ x ∷ value) ≡ key ∷ (x ∷ value) ∷ []
unfolding split_loop
first_piece c key x value zero f h = absurd (omega arith)
first_piece c key x value (suc fuel) f h =
    let all = key ++ c ∷ x ∷ value in
    let found : find (c ∷ []) 0 all ≡ some (length key) =
      find-append (c ∷ []) [] all
      ∙ find_at-present c 0 key (x ∷ value) f
      ∙ ap some (zero-add (length key)) in
    let n : length key - 0 ≡ length key = omega arith in
    let left : (length key + 1 == length all) ≡ false =
      ground (arith, length-append key (c ∷ x ∷ value)) in
    rw (split_loop, found, n, left, drop-past key (x ∷ value) c, take-length key (c ∷ x ∷ value))
      refl

-- With the limit 1 only the first separator splits, and the rest stays whole.
pub split_string-first :
    (c : ℕ) (key : List ℕ) (x : ℕ) (value : List ℕ)
    → Free c key
    → split_string (c ∷ []) 1 (key ++ c ∷ x ∷ value) ≡ key ∷ (x ∷ value) ∷ []
split_string-first c key x value f =
    let all = key ++ c ∷ x ∷ value in
    let n = length-append key (c ∷ x ∷ value) in
    split_string-loop (c ∷ []) 1 all (omega (arith, n))
    ∙ first_piece c key x value (length all) f (omega (arith, n))

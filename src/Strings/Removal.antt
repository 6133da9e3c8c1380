-- ===== src/Strings/Removal.antt =====
-- libbase/Utils.cpp: trimString and its kin against plain list functions.
use native.Mathlib.Nat.{zero-add}
use echo_server_cpp.Prelude.{
  nothing_left, ◌⊎◌, ℕ, zero, suc, ◌+◌, ◌≤◌, ◌≡◌, refl, sym, ap, ◌∙◌, false, none, some, List, [],
  ◌∷◌, ◌++◌, append_assoc, arith, length, take, drop, length-append, ◌==◌, if◌then◌else◌,
  Bool-cases, inl, inr,
}
use echo_server_cpp.Prelude.Bytes.{All}
use echo_server_cpp.Strings.{
  find_at, find, trim_loop, trim_string, trim_tail_all_string, trim_head_string, trim_tail_string,
  keep, replace,
}

-- The string without a character.
abbrev pub remove : ℕ → List ℕ → List ℕ
remove c [] = []
remove c (x ∷ s) = if x == c then remove c s else x ∷ remove c s

-- The string up to a character.
abbrev pub before : ℕ → List ℕ → List ℕ
before c [] = []
before c (x ∷ s) = if x == c then [] else x ∷ before c s

abbrev pub Free : ℕ → List ℕ → Type 0
Free c s = All (λ (x : ℕ). (x == c) ≡ false) s

pub remove-Free : (c : ℕ) (s : List ℕ) → Free c s → remove c s ≡ s
remove-Free c [] h = refl
remove-Free c (x ∷ s) h = rw h.0 (ap (λ (t : List ℕ). x ∷ t) (remove-Free c s h.1))

pub drop-length : (xs ys : List ℕ) → drop (length xs) (xs ++ ys) ≡ ys
drop-length [] ys = refl
drop-length (x ∷ xs) ys = drop-length xs ys

pub take-length : (xs ys : List ℕ) → take (length xs) (xs ++ ys) ≡ xs
take-length [] ys = refl
take-length (x ∷ xs) ys = ap (λ (t : List ℕ). x ∷ t) (take-length xs ys)

-- The two parts of a string at a character, unless it is not there.
pub search_char :
    (c : ℕ) (s : List ℕ)
    → Free c s ⊎ ((xs : List ℕ) × (ys : List ℕ) × (s ≡ xs ++ c ∷ ys) × Free c xs)
search_char c [] = inl tt
search_char c (x ∷ s) = elim (Bool-cases (x == c)) [
  | inl a ↦ let e : x ≡ c = ground arith in inr ([], s, ap (λ (y : ℕ). y ∷ s) e, tt)
  | inr a ↦ elim (search_char c s) [
    | inl f ↦ inl (a, f)
    | inr (xs, ys, e, f) ↦ inr (x ∷ xs, ys, ap (λ (t : List ℕ). x ∷ t) e, (a, f))
  ]
]

pub find_at-Free : (c offset : ℕ) (s : List ℕ) → Free c s → find_at (c ∷ []) offset s ≡ none
unfolding find_at
find_at-Free c offset [] h = refl
find_at-Free c offset (x ∷ s) h = let (a, b) = h in ground (arith, find_at-Free c (suc offset) s b)

pub find_at-present :
    (c offset : ℕ) (xs ys : List ℕ)
    → Free c xs
    → find_at (c ∷ []) offset (xs ++ c ∷ ys) ≡ some (offset + length xs)
unfolding find_at
find_at-present c offset [] ys h = ground arith
find_at-present c offset (x ∷ xs) ys h =
    let (a, b) = h in ground (arith, find_at-present c (suc offset) xs ys b)

pub find-append :
    (pattern xs ys : List ℕ) → find pattern (length xs) (xs ++ ys) ≡ find_at pattern (length xs) ys
unfolding find
find-append pattern xs ys = ap (find_at pattern (length xs)) (drop-length xs ys)

remove-at : (c : ℕ) (us vs : List ℕ) → Free c us → remove c (us ++ c ∷ vs) ≡ us ++ remove c vs
remove-at c [] vs f = ground arith
remove-at c (u ∷ us) vs f = rw f.0 (ap (λ (t : List ℕ). u ∷ t) (remove-at c us vs f.1))

pub before-Free : (c : ℕ) (s : List ℕ) → Free c s → before c s ≡ s
before-Free c [] f = refl
before-Free c (x ∷ s) f = rw f.0 (ap (λ (t : List ℕ). x ∷ t) (before-Free c s f.1))

before-at : (c : ℕ) (us vs : List ℕ) → Free c us → before c (us ++ c ∷ vs) ≡ us
before-at c [] vs f = ground arith
before-at c (u ∷ us) vs f = rw f.0 (ap (λ (t : List ℕ). u ∷ t) (before-at c us vs f.1))

pub replace-char :
    (xs ys : List ℕ) (c n : ℕ) (to : List ℕ)
    → n ≡ length xs
    → replace n 1 to (xs ++ c ∷ ys) ≡ xs ++ (to ++ ys)
replace-char xs ys c n to e =
    let a : take n (xs ++ c ∷ ys) ≡ xs =
      ap (λ (m : ℕ). take m (xs ++ c ∷ ys)) e ∙ take-length xs (c ∷ ys) in
    let l : n + 1 ≡ length (xs ++ c ∷ []) = omega (arith, length-append xs (c ∷ [])) in
    let b : drop (n + 1) (xs ++ c ∷ ys) ≡ ys =
      ap (λ (m : ℕ). drop m (xs ++ c ∷ ys)) l
      ∙ ap (drop (length (xs ++ c ∷ []))) (sym (append_assoc xs (c ∷ []) ys))
      ∙ drop-length (xs ++ c ∷ []) ys in
    rw (a, b) refl

trim_loop-remove :
    (c fuel : ℕ) (xs ys : List ℕ)
    → length ys ≤ fuel
    → trim_loop c fuel (length xs) (xs ++ ys) ≡ xs ++ remove c ys
unfolding trim_loop
trim_loop-remove c zero xs ys h = rw (nothing_left ys h) refl
trim_loop-remove c (suc fuel) xs ys h = elim (search_char c ys) [
  | inl f ↦
      rw (trim_loop, find-append (c ∷ []) xs ys, find_at-Free c (length xs) ys f)
        (ap (λ (t : List ℕ). xs ++ t) (sym (remove-Free c ys f)))
  | inr (us, vs, e, f) ↦
      let found : find (c ∷ []) (length xs) (xs ++ ys) ≡ some (length (xs ++ us)) =
        find-append (c ∷ []) xs ys
        ∙ ap (find_at (c ∷ []) (length xs)) e
        ∙ find_at-present c (length xs) us vs f
        ∙ ap some (sym (length-append xs us)) in
      let parts : xs ++ ys ≡ (xs ++ us) ++ c ∷ vs =
        ap (λ (t : List ℕ). xs ++ t) e ∙ sym (append_assoc xs us (c ∷ vs)) in
      let next : replace (length (xs ++ us)) 1 [] (xs ++ ys) ≡ (xs ++ us) ++ vs =
        ap (replace (length (xs ++ us)) 1 []) parts
        ∙ replace-char (xs ++ us) vs c (length (xs ++ us)) [] refl in
      let left : length ys ≡ length us + suc (length vs) =
        ap length e ∙ length-append us (c ∷ vs) in
      let gone : remove c ys ≡ us ++ remove c vs = ap (remove c) e ∙ remove-at c us vs f in
      rw (trim_loop, found, next)
        (trim_loop-remove c fuel (xs ++ us) vs (omega (arith, left))
          ∙ append_assoc xs us (remove c vs)
          ∙ ap (λ (t : List ℕ). xs ++ t) (sym gone))
]

-- trimString leaves the string without the character: removing one occurrence after the other, from
-- where the last one stood, misses none.
pub trim_string-remove : (c : ℕ) (s : List ℕ) → trim_string c s ≡ remove c s
unfolding trim_string
trim_string-remove c s = trim_loop-remove c (length s) [] s (omega arith)

-- trimTailAllString leaves what stands before the first occurrence, and all if there is none.
pub trim_tail_all_string-before : (c : ℕ) (s : List ℕ) → trim_tail_all_string c s ≡ before c s
unfolding trim_tail_all_string
trim_tail_all_string-before c s = elim (search_char c s) [
  | inl f ↦
      rw (trim_tail_all_string, find-append (c ∷ []) [] s ∙ find_at-Free c 0 s f)
        (sym (before-Free c s f))
  | inr (us, vs, e, f) ↦
      let found : find (c ∷ []) 0 s ≡ some (length us) =
        find-append (c ∷ []) [] s
        ∙ ap (find_at (c ∷ []) 0) e
        ∙ find_at-present c 0 us vs f
        ∙ ap some (zero-add (length us)) in
      rw (trim_tail_all_string, found)
        (ap (take (length us)) e
          ∙ take-length us (c ∷ vs)
          ∙ sym (ap (before c) e ∙ before-at c us vs f))
]

pub trim_head_string-other :
    (c x : ℕ) (s : List ℕ) → (x == c) ≡ false → trim_head_string c (x ∷ s) ≡ x ∷ s
unfolding trim_head_string
trim_head_string-other c x s h = rw h refl

pub trim_tail_string-Free : (c : ℕ) (s : List ℕ) → Free c s → trim_tail_string c (s ++ c ∷ []) ≡ s
unfolding trim_tail_string
trim_tail_string-Free c [] f = ground arith
trim_tail_string-Free c (x ∷ s) f =
    ap (keep c x) (trim_tail_string-Free c s f.1) ∙ keep-Free c x s f.0
  where
    keep-Free : (c x : ℕ) (s : List ℕ) → (x == c) ≡ false → keep c x s ≡ x ∷ s
    keep-Free c x [] h = rw h refl
    keep-Free c x (y ∷ s) h = refl

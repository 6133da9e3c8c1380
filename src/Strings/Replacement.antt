-- ===== src/Strings/Replacement.antt =====
-- libbase/Utils.cpp: what replaceAllChar makes of a string where one character replaces another.
use echo_server_cpp.Prelude.{
  nothing_left, ℕ, zero, suc, ◌+◌, ◌≤◌, ◌≡◌, refl, sym, ap, ◌∙◌, true, some, List, [], ◌∷◌, ◌++◌,
  append_assoc, arith, length, length-append, ◌==◌, if◌then◌else◌, Bool-cases, inl, inr,
}
use echo_server_cpp.Strings.{same, find_at, find, replace, replace_loop, replace_all_char}
use echo_server_cpp.Strings.Removal.{
  Free, search_char, find_at-Free, find_at-present, find-append, replace-char,
}

abbrev pub swap : ℕ → ℕ → List ℕ → List ℕ
swap a b [] = []
swap a b (x ∷ s) = (if x == a then b else x) ∷ swap a b s

swap-Free : (a b : ℕ) (s : List ℕ) → Free a s → swap a b s ≡ s
swap-Free a b [] f = refl
swap-Free a b (x ∷ s) f = rw f.0 (ap (λ (t : List ℕ). x ∷ t) (swap-Free a b s f.1))

swap-at : (a b : ℕ) (us vs : List ℕ) → Free a us → swap a b (us ++ a ∷ vs) ≡ us ++ b ∷ swap a b vs
swap-at a b [] vs f = let e : (a == a) ≡ true = ground arith in rw e refl
swap-at a b (u ∷ us) vs f = rw f.0 (ap (λ (t : List ℕ). u ∷ t) (swap-at a b us vs f.1))

swap-same : (a b : ℕ) (s : List ℕ) → (a == b) ≡ true → swap a b s ≡ s
swap-same a b [] h = refl
swap-same a b (x ∷ s) h =
    let e : (if x == a then b else x) ≡ x = ground arith in rw (e, swap-same a b s h) refl

replace_loop-swap :
    (a b fuel : ℕ) (xs ys : List ℕ)
    → length ys ≤ fuel
    → replace_loop fuel (a ∷ []) (b ∷ []) (length xs) (xs ++ ys) ≡ xs ++ swap a b ys
unfolding replace_loop
replace_loop-swap a b zero xs ys h = rw (nothing_left ys h) refl
replace_loop-swap a b (suc fuel) xs ys h = elim (search_char a ys) [
  | inl f ↦
      rw (replace_loop, find-append (a ∷ []) xs ys, find_at-Free a (length xs) ys f)
        (ap (λ (t : List ℕ). xs ++ t) (sym (swap-Free a b ys f)))
  | inr (us, vs, e, f) ↦
      let found : find (a ∷ []) (length xs) (xs ++ ys) ≡ some (length (xs ++ us)) =
        find-append (a ∷ []) xs ys
        ∙ ap (find_at (a ∷ []) (length xs)) e
        ∙ find_at-present a (length xs) us vs f
        ∙ ap some (sym (length-append xs us)) in
      let done = (xs ++ us) ++ b ∷ [] in
      let next : replace (length (xs ++ us)) 1 (b ∷ []) (xs ++ ys) ≡ done ++ vs =
        ap (replace (length (xs ++ us)) 1 (b ∷ []))
          (ap (λ (t : List ℕ). xs ++ t) e ∙ sym (append_assoc xs us (a ∷ vs)))
        ∙ replace-char (xs ++ us) vs a (length (xs ++ us)) (b ∷ []) refl
        ∙ sym (append_assoc (xs ++ us) (b ∷ []) vs) in
      let past : length (xs ++ us) + 1 ≡ length done =
        omega (arith, length-append (xs ++ us) (b ∷ [])) in
      let left : length ys ≡ length us + suc (length vs) =
        ap length e ∙ length-append us (a ∷ vs) in
      rw (replace_loop, found, next, past)
        (replace_loop-swap a b fuel done vs (omega (arith, left))
          ∙ append_assoc (xs ++ us) (b ∷ []) (swap a b vs)
          ∙ append_assoc xs us (b ∷ swap a b vs)
          ∙ ap (λ (t : List ℕ). xs ++ t) (sym (ap (swap a b) e ∙ swap-at a b us vs f)))
]

-- replaceAllChar of one character by one character is the pointwise replacement, and as many rounds
-- as the string is long are enough.
pub replace_all_char-swap :
    (a b fuel : ℕ) (s : List ℕ)
    → length s ≤ fuel
    → replace_all_char fuel (a ∷ []) (b ∷ []) s ≡ swap a b s
unfolding replace_all_char same
replace_all_char-swap a b fuel s h = elim (Bool-cases (a == b)) [
  | inl e ↦ rw (replace_all_char, e) (sym (swap-same a b s e))
  | inr e ↦ rw (replace_all_char, e) (replace_loop-swap a b fuel [] s h)
]

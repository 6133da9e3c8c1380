-- ===== src/SystemMonitor/Fields.antt =====
-- libbase/SystemMonitor.cpp: the values of lines that have a name and a value.
use native.Mathlib.Nat.{zero-add}
use echo_server_cpp.Prelude.{
  ℕ, zero, suc, ◌≡◌, refl, ap, true, false, Bool-cases, inl, inr, none, some, List, [], ◌∷◌, ◌++◌,
  arith, length, drop, ◌==◌,
}
use echo_server_cpp.Prelude.Ascii.{starts_with}
use echo_server_cpp.Prelude.Bytes.{All}
use echo_server_cpp.Strings.{
  same, find_at, find, replace, replace_loop, replace_all_char, is_string_begin_of,
}
use echo_server_cpp.Strings.Removal.{Free, remove, drop-length}
use echo_server_cpp.SystemMonitor.{cut_name, find_line}

starts_with-append : (name rest : List ℕ) → starts_with name (name ++ rest) ≡ true
starts_with-append [] rest = refl
starts_with-append (n ∷ name) rest =
    let e : (n == n) ≡ true = ground arith in rw e (starts_with-append name rest)

-- A string without the first character of a pattern does not hold the pattern.
pub find_at-none :
    (n : ℕ) (name : List ℕ) (offset : ℕ) (s : List ℕ)
    → Free n s
    → find_at (n ∷ name) offset s ≡ none
unfolding find_at
find_at-none n name offset [] f = refl
find_at-none n name offset (x ∷ s) f =
    let e : (n == x) ≡ false = (let g = f.0 in ground arith) in
    rw (find_at, e) (find_at-none n name (suc offset) s f.1)

Free-drop : (c n : ℕ) (s : List ℕ) → Free c s → Free c (drop n s)
Free-drop c zero s f = f
Free-drop c (suc n) [] f = f
Free-drop c (suc n) (x ∷ s) f = Free-drop c n s f.1

replace_loop-none :
    (fuel n : ℕ) (name : List ℕ) (index : ℕ) (s : List ℕ)
    → Free n s
    → replace_loop fuel (n ∷ name) [] index s ≡ s
unfolding replace_loop find
replace_loop-none zero n name index s f = refl
replace_loop-none (suc fuel) n name index s f =
    rw (replace_loop, find, find_at-none n name index (drop index s) (Free-drop n index s f)) refl

find_front : (n : ℕ) (name rest : List ℕ) → find (n ∷ name) 0 (n ∷ name ++ rest) ≡ some 0
unfolding find find_at
find_front n name rest = rw (find, find_at, starts_with-append (n ∷ name) rest) refl

pub cut_name-append :
    (n : ℕ) (name rest : List ℕ) → Free n rest → cut_name (n ∷ name) (n ∷ name ++ rest) ≡ rest
unfolding cut_name replace_all_char replace_loop same
cut_name-append n name rest f =
    rw
      (
        replace_loop,
        find_front n name rest,
        zero-add (length (n ∷ name)),
        replace,
        drop-length (n ∷ name) rest,
      )
      (replace_loop-none (length (name ++ rest)) n name (suc (length name)) rest f)

pub remove-append : (c : ℕ) (s t : List ℕ) → remove c (s ++ t) ≡ remove c s ++ remove c t
remove-append c [] t = refl
remove-append c (x ∷ s) t = elim (Bool-cases (x == c)) [
  | inl e ↦ rw e (remove-append c s t)
  | inr e ↦ rw e (ap (◌∷◌ x) (remove-append c s t))
]

-- Taking out one character brings in no other.
pub remove-keeps : (c d : ℕ) (s : List ℕ) → Free d s → Free d (remove c s)
remove-keeps c d [] f = f
remove-keeps c d (x ∷ s) f = elim (Bool-cases (x == c)) [
  | inl e ↦ rw e (remove-keeps c d s f.1)
  | inr e ↦ rw e (f.0, remove-keeps c d s f.1)
]

pub is_string_begin_of-append :
    (n : ℕ) (name rest : List ℕ) → is_string_begin_of (n ∷ name ++ rest) (n ∷ name) ≡ true
unfolding is_string_begin_of
is_string_begin_of-append n name rest = rw (is_string_begin_of, find_front n name rest) refl

-- The first line with a name, after lines without it.
pub find_line-first :
    (n : ℕ) (name rest : List ℕ) (before after : List (List ℕ))
    → All (λ (l : List ℕ). is_string_begin_of l (n ∷ name) ≡ false) before
    → find_line (n ∷ name) (before ++ (n ∷ name ++ rest) ∷ after) ≡ n ∷ name ++ rest
unfolding find_line
find_line-first n name rest [] after h = rw (find_line, is_string_begin_of-append n name rest) refl
find_line-first n name rest (l ∷ before) after h =
    rw (find_line, h.0) (find_line-first n name rest before after h.1)

-- A string without blanks and ends of lines.
abbrev pub stripped : List ℕ → List ℕ
stripped s = remove 9 (remove 13 (remove 10 (remove 32 s)))

pub stripped-append : (s t : List ℕ) → stripped (s ++ t) ≡ stripped s ++ stripped t
stripped-append s t =
    rw
      (
        remove-append 32 s t,
        remove-append 10 (remove 32 s) (remove 32 t),
        remove-append 13 (remove 10 (remove 32 s)) (remove 10 (remove 32 t)),
        remove-append 9 (remove 13 (remove 10 (remove 32 s))) (remove 13 (remove 10 (remove 32 t))),
      )
      refl

pub stripped-Free : (c : ℕ) (s : List ℕ) → Free c s → Free c (stripped s)
stripped-Free c s f =
    remove-keeps 9 c _ (remove-keeps 13 c _ (remove-keeps 10 c _ (remove-keeps 32 c s f)))

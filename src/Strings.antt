-- ===== src/Strings.antt =====
-- libbase/Utils.cpp: the helpers on strings. A string is the list of its characters.
pub mod Removal
pub mod Splitting
pub mod Replacement
use echo_server_cpp.Prelude.{
  ℕ, zero, suc, ◌+◌, ◌-◌, Bool, true, false, Option, none, some, List, [], ◌∷◌, ◌++◌, ◌&&◌, length,
  take, drop, map, ◌==◌, leb, if◌then◌else◌,
}
use echo_server_cpp.Prelude.Ascii.{starts_with}

-- Equality of strings.
unfoldable pub same : List ℕ → List ℕ → Bool
same [] [] = true
same [] (y ∷ ys) = false
same (x ∷ xs) [] = false
same (x ∷ xs) (y ∷ ys) = if x == y then same xs ys else false

-- The first place in `s` where the pattern stands; `offset` is the place of the head of `s`.
unfoldable pub find_at : List ℕ → ℕ → List ℕ → Option ℕ
find_at pattern offset [] = none
find_at pattern offset (x ∷ s) =
    if starts_with pattern (x ∷ s) then some offset else find_at pattern (suc offset) s

-- `find` of a std::string, for a pattern that is not empty.
unfoldable pub find : List ℕ → ℕ → List ℕ → Option ℕ
find pattern index s = find_at pattern index (drop index s)

-- `erase` and `replace` of a std::string, inside of it.
abbrev pub replace : ℕ → ℕ → List ℕ → List ℕ → List ℕ
replace index n to s = take index s ++ (to ++ drop (index + n) s)

unfoldable pub trim_loop : ℕ → ℕ → ℕ → List ℕ → List ℕ
trim_loop c zero index s = s
trim_loop c (suc fuel) index s = elim (find (c ∷ []) index s) [
  | none ↦ s
  | some i ↦ trim_loop c fuel i (replace i 1 [] s)
]

-- Every round takes one character away, so the length is fuel enough.
unfoldable pub trim_string : ℕ → List ℕ → List ℕ
trim_string c s = trim_loop c (length s) 0 s

unfoldable pub trim_tail_all_string : ℕ → List ℕ → List ℕ
trim_tail_all_string c s = elim (find (c ∷ []) 0 s) [ none ↦ s | some i ↦ take i s ]

unfoldable pub trim_head_string : ℕ → List ℕ → List ℕ
trim_head_string c [] = []
trim_head_string c (x ∷ s) = if x == c then trim_head_string c s else x ∷ s

-- A character before a tail that is trimmed already.
abbrev pub keep : ℕ → ℕ → List ℕ → List ℕ
keep c x [] = if x == c then [] else x ∷ []
keep c x (y ∷ s) = x ∷ y ∷ s

unfoldable pub trim_tail_string : ℕ → List ℕ → List ℕ
trim_tail_string c [] = []
trim_tail_string c (x ∷ s) = keep c x (trim_tail_string c s)

-- Of a replacement that holds the pattern the loop of the code may not end; `fuel` bounds its
-- rounds.
unfoldable pub replace_loop : ℕ → List ℕ → List ℕ → ℕ → List ℕ → List ℕ
replace_loop zero from to index s = s
replace_loop (suc fuel) from to index s = elim (find from index s) [
  | none ↦ s
  | some i ↦ replace_loop fuel from to (i + length from) (replace i (length from) to s)
]

unfoldable pub replace_all_char : ℕ → List ℕ → List ℕ → List ℕ → List ℕ
replace_all_char fuel from to s = if same from to then s else replace_loop fuel from to 0 s

-- What follows the last separator; nothing is pushed at the end of the string.
abbrev pub split_rest : ℕ → List ℕ → List (List ℕ)
split_rest left s = if left == length s then [] else drop left s ∷ []

-- `index` pieces at most are split off, and all if it is 0.
unfoldable pub split_loop : ℕ → List ℕ → ℕ → ℕ → ℕ → List ℕ → List (List ℕ)
split_loop zero c index ct left s = split_rest left s
split_loop (suc fuel) c index ct left s = elim (find c left s) [
  | none ↦ split_rest left s
  | some right ↦
      let rest =
        if (if index == 0 then false else leb index (ct + 1))
        then split_rest (right + 1) s
        else split_loop fuel c index (ct + 1) (right + 1) s in
      take (right - left) (drop left s) ∷ rest
]

-- Every piece is followed by a separator, so there are fewer than the string is long.
unfoldable pub split_string : List ℕ → ℕ → List ℕ → List (List ℕ)
split_string c index [] = []
split_string c index (x ∷ s) = split_loop (suc (length s)) c index 0 0 (x ∷ s)

unfoldable pub is_string_begin_of : List ℕ → List ℕ → Bool
is_string_begin_of [] s = false
is_string_begin_of (x ∷ str) [] = false
is_string_begin_of (x ∷ str) (y ∷ s) = elim (find (y ∷ s) 0 (x ∷ str)) [
  | none ↦ false
  | some pos ↦ pos == 0
]

-- stringUp, for ASCII.
unfoldable pub string_up : List ℕ → List ℕ
string_up s = map (λ (c : ℕ). if leb 97 c then (if leb c 122 then c - 32 else c) else c) s

-- ===== src/SystemMonitor/Reading.antt =====
-- libbase/SystemMonitor.cpp: readFile on a file of whole lines.
use echo_server_cpp.Prelude.{
  ℕ, zero, suc, ◌<◌, ◌≡◌, refl, ap, false, List, [], ◌∷◌, ◌++◌, map, concat, append_assoc, arith,
  length, length-append,
}
use echo_server_cpp.Prelude.Ascii.{c_string}
use echo_server_cpp.Prelude.Bytes.{All}
use echo_server_cpp.Strings.Removal.{Free}
use echo_server_cpp.SystemMonitor.{fgets, read_loop, read_file}

-- A line that fits in the buffer of readFile, without its end.
pub record Line (s : List ℕ) : Type 0 where
  pub no_end : Free 10 s
  pub no_zero : Free 0 s
  pub short : length s < 1022

abbrev pub ended : List ℕ → List ℕ
ended s = s ++ 10 ∷ []

-- A file of these lines.
abbrev pub text : List (List ℕ) → List ℕ
text lines = concat (map ended lines)

fgets-line :
    (s left : List ℕ) (n : ℕ)
    → Free 10 s
    → length s < n
    → fgets n (s ++ 10 ∷ left) ≡ (ended s, (left, false))
unfolding fgets
fgets-line s left zero f h = absurd (omega arith)
fgets-line [] left (suc n) f h = refl
fgets-line (x ∷ s) left (suc n) f h = rw (fgets, f.0, fgets-line s left n f.1 (omega arith)) refl

c_string-ended : (s : List ℕ) → Free 0 s → c_string (ended s) ≡ ended s
unfolding c_string
c_string-ended [] f = refl
c_string-ended (x ∷ s) f = rw (c_string, f.0) (ap (◌∷◌ x) (c_string-ended s f.1))

read_loop-text :
    (fuel : ℕ) (lines : List (List ℕ))
    → All Line lines
    → length (text lines) < fuel
    → read_loop fuel (text lines) ≡ map ended lines ++ [] ∷ []
unfolding read_loop fgets c_string
read_loop-text zero lines k h = absurd (omega arith)
read_loop-text (suc fuel) [] k h = refl
read_loop-text (suc fuel) (s ∷ lines) k h =
    let e : text (s ∷ lines) ≡ s ++ 10 ∷ text lines = append_assoc s (10 ∷ []) (text lines) in
    let n = length-append s (10 ∷ text lines) in
    rw
      (
        read_loop,
        e,
        fgets-line s (text lines) 1022 k.0.no_end k.0.short,
        c_string-ended s k.0.no_zero,
      )
      (ap (◌∷◌ (ended s)) (read_loop-text fuel lines k.1 (omega (arith, ap length e, n))))

-- A file of lines that are shorter than the buffer, have no zero byte and are each ended, is read line
-- by line, ends included, and an empty line follows.
pub read_file-text :
    (lines : List (List ℕ)) → All Line lines → read_file (text lines) ≡ map ended lines ++ [] ∷ []
unfolding read_file
read_file-text lines k = read_loop-text (suc (length (text lines))) lines k (omega arith)

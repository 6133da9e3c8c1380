-- ===== src/Prelude/Bytes.antt =====
-- Bytes of machine words, and predicates on all elements of a list.
use Prim.Native.Nat.{ℕ, zero, suc, ◌+◌, ◌*◌, ◌/◌, ◌%◌, ◌^◌, ◌<◌}
use mathlib.Core.Path.{◌≡◌, refl, ap, ap₂, ◌∙◌}
use mathlib.Core.List.{List, [], ◌∷◌, ◌++◌}
use native.Mathlib.Omega.{arith}
use native.Mathlib.Nat.{pow-suc}
use echo_server_cpp.Prelude.Lists.{length, take, drop}

abbrev pub IsByte : ℕ → Type 0
IsByte b = b < 256

abbrev pub All {ℓ κ} : {A : Type ℓ} → (A → Type κ) → List A → Type κ
All P [] = Unit
All P (x ∷ xs) = P x × All P xs

-- The `n` low bytes of `v`, least significant first.
unfoldable pub bytes_le : ℕ → ℕ → List ℕ
bytes_le zero v = []
bytes_le (suc n) v = v % 256 ∷ bytes_le n (v / 256)

-- The number that such bytes stand for.
unfoldable pub word_le : List ℕ → ℕ
word_le [] = 0
word_le (b ∷ bs) = b + 256 * word_le bs

pub word_le-bytes_le : (n v : ℕ) → v < 256 ^ n → word_le (bytes_le n v) ≡ v
unfolding bytes_le word_le
word_le-bytes_le zero v h = omega arith
word_le-bytes_le (suc n) v h =
    let e = pow-suc 256 n in omega (arith, word_le-bytes_le n (v / 256) (omega arith))

pub bytes_le-word_le : (bs : List ℕ) → All IsByte bs → bytes_le (length bs) (word_le bs) ≡ bs
unfolding bytes_le word_le
bytes_le-word_le [] h = refl
bytes_le-word_le (b ∷ bs) h =
    ap₂ ◌∷◌ (omega arith) (ap (bytes_le (length bs)) (omega arith) ∙ bytes_le-word_le bs h.1)

pub length-bytes_le : (n v : ℕ) → length (bytes_le n v) ≡ n
unfolding bytes_le
length-bytes_le zero v = refl
length-bytes_le (suc n) v = ap suc (length-bytes_le n (v / 256))

pub bytes_le-IsByte : (n v : ℕ) → All IsByte (bytes_le n v)
unfolding bytes_le
bytes_le-IsByte zero v = tt
bytes_le-IsByte (suc n) v = (omega arith, bytes_le-IsByte n (v / 256))

pub word_le-lt : (bs : List ℕ) → All IsByte bs → word_le bs < 256 ^ length bs
unfolding word_le
word_le-lt [] h = omega arith
word_le-lt (b ∷ bs) h = let e = pow-suc 256 (length bs) in omega (arith, word_le-lt bs h.1)

pub All-drop {ℓ κ} :
    {A : Type ℓ} (P : A → Type κ) (n : ℕ) (xs : List A) → All P xs → All P (drop n xs)
All-drop P zero xs h = h
All-drop P (suc n) [] h = h
All-drop P (suc n) (x ∷ xs) h = All-drop P n xs h.1

pub All-append {ℓ κ} :
    {A : Type ℓ} (P : A → Type κ) (xs ys : List A) → All P xs → All P ys → All P (xs ++ ys)
All-append P [] ys h k = k
All-append P (x ∷ xs) ys h k = (h.0, All-append P xs ys h.1 k)

pub All-take {ℓ κ} :
    {A : Type ℓ} (P : A → Type κ) (n : ℕ) (xs : List A) → All P xs → All P (take n xs)
All-take P zero xs h = tt
All-take P (suc n) [] h = tt
All-take P (suc n) (x ∷ xs) h = (h.0, All-take P n xs h.1)

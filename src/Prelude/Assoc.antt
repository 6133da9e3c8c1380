-- ===== src/Prelude/Assoc.antt =====
-- Maps with numbers for keys, as association lists without order.
use Prim.Native.Nat.{ℕ}
use mathlib.Core.Path.{◌≡◌, refl}
use mathlib.Core.Bool.{Bool, true, false}
use mathlib.Core.Option.{Option, none, some}
use mathlib.Core.List.{List, [], ◌∷◌}
use native.Mathlib.Omega.{arith}
use echo_server_cpp.Prelude.Tests.{◌==◌, if◌then◌else◌}

module _ {ℓ} {V : Type ℓ} where
  unfoldable pub lookup : ℕ → List (ℕ × V) → Option V
  lookup k [] = none
  lookup k ((j, v) ∷ m) = if j == k then some v else lookup k m

  -- The new value for a key, in its place or at the end.
  unfoldable pub update : ℕ → V → List (ℕ × V) → List (ℕ × V)
  update k v [] = (k, v) ∷ []
  update k v ((j, w) ∷ m) = if j == k then (k, v) ∷ m else (j, w) ∷ update k v m

  -- `insert` of a C++ map: a key that is there keeps its value.
  unfoldable pub insert : ℕ → V → List (ℕ × V) → List (ℕ × V)
  insert k v [] = (k, v) ∷ []
  insert k v ((j, w) ∷ m) = if j == k then (j, w) ∷ m else (j, w) ∷ insert k v m

  unfoldable pub erase : ℕ → List (ℕ × V) → List (ℕ × V)
  erase k [] = []
  erase k ((j, w) ∷ m) = if j == k then erase k m else (j, w) ∷ erase k m

  pub lookup-update :
      (k j : ℕ) (v : V) (m : List (ℕ × V))
      → lookup j (update k v m) ≡ (if k == j then some v else lookup j m)
  unfolding lookup update
  lookup-update k j v [] = refl
  lookup-update k j v ((i, w) ∷ m) = ground (arith, lookup-update k j v m)

  pub lookup-erase :
      (k j : ℕ) (m : List (ℕ × V)) → lookup j (erase k m) ≡ (if k == j then none else lookup j m)
  unfolding lookup erase
  lookup-erase k j [] = ground arith
  lookup-erase k j ((i, w) ∷ m) = ground (arith, lookup-erase k j m)

  pub lookup-insert :
      (k j : ℕ) (v : V) (m : List (ℕ × V))
      → lookup k m ≡ none
      → lookup j (insert k v m) ≡ (if k == j then some v else lookup j m)
  unfolding lookup insert
  lookup-insert k j v [] h = refl
  lookup-insert k j v ((i, w) ∷ m) h = ground (arith, lookup-insert k j v m)

  abbrev pub is_some : Option V → Bool
  is_some none = false
  is_some (some v) = true

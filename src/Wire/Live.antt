-- ===== src/Wire/Live.antt =====
-- libsocket/ServerSocketIOThread.cpp and ClientSocketIOThread.cpp: pointers to objects that are there.
use echo_server_cpp.Prelude.{
  ℕ, ◌≡◌, refl, inl, inr, Bool, true, false, Bool-cases, some, List, [], ◌∷◌, ◌∙◌, ◌==◌,
}
use echo_server_cpp.Prelude.Bytes.{All, All-append}
use echo_server_cpp.Prelude.Assoc.{lookup, update, lookup-update}
use echo_server_cpp.Wire.{listing}

module _ {C : Type 0} where
  abbrev pub Live : List (ℕ × C) → ℕ → Type 0
  Live k q = (c : C) × (lookup q k ≡ some c)

  -- Nothing that was there has gone.
  abbrev pub LiveStill : List (ℕ × C) → List (ℕ × C) → Type 0
  LiveStill k l = (q : ℕ) → Live k q → Live l q

  pub update-LiveStill : (p : ℕ) (c : C) (k : List (ℕ × C)) → LiveStill k (update p c k)
  update-LiveStill p c k q (x, h) = elim (Bool-cases (p == q)) [
    | inl a ↦ (c, lookup-update p q c k ∙ rw a refl)
    | inr a ↦ (x, lookup-update p q c k ∙ rw a h)
  ]

  pub All-LiveStill :
      (k l : List (ℕ × C)) (need : List ℕ) → LiveStill k l → All (Live k) need → All (Live l) need
  All-LiveStill k l [] f h = tt
  All-LiveStill k l (q ∷ need) f h = (f q h.0, All-LiveStill k l need f h.1)

  pub All-listing :
      (k : List (ℕ × C)) (q : ℕ) (b : Bool) (need : List ℕ)
      → Live k q
      → All (Live k) need
      → All (Live k) (listing q b need)
  All-listing k q true need a h = All-append (Live k) need (q ∷ []) h (a, tt)
  All-listing k q false need a h = h

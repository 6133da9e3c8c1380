-- ===== src/Memory/Manager/Places.antt =====
-- libbase/MallocManager.cpp: in how many places of the manager a block stands.
use echo_server_cpp.Prelude.{
  ℕ, zero, suc, ◌+◌, ◌≤◌, ◌<◌, ◌≡◌, refl, inl, inr, Bool-cases, Option, none, some, Option-cases,
  List, [], ◌∷◌, ◌++◌, arith, ◌==◌, if◌then◌else◌,
}
use echo_server_cpp.Prelude.Assoc.{
  lookup, update, insert, erase, lookup-erase, lookup-insert, is_some,
}
use echo_server_cpp.Memory.Pool.{Pool, split}
use echo_server_cpp.Memory.Manager.{Manager}

-- How often a block stands on a free list.
unfoldable pub count_of : ℕ → List ℕ → ℕ
count_of p [] = 0
count_of p (x ∷ xs) = (if x == p then 1 else 0) + count_of p xs

-- How often a block stands on the free lists of all pools.
unfoldable pub free_in : ℕ → List (ℕ × Pool) → ℕ
free_in p [] = 0
free_in p ((size, pool) ∷ pools) = count_of p pool.free_list + free_in p pools

-- Whether a block is handed out, as a number.
unfoldable pub held : ℕ → List (ℕ × ℕ) → ℕ
held p ptrs = if is_some (lookup p ptrs) then 1 else 0

-- How often a block is free, and how often handed out, as a small or a big one.
unfoldable pub places : ℕ → Manager → ℕ
places p m = free_in p m.small_list + held p m.small_ptr_list + held p m.big_ptr_list

pub count_of-append :
    (p : ℕ) (xs ys : List ℕ) → count_of p (xs ++ ys) ≡ count_of p xs + count_of p ys
unfolding count_of
count_of-append p [] ys = omega arith
count_of-append p (x ∷ xs) ys = omega (arith, count_of-append p xs ys)

-- A slab is cut into blocks that differ.
pub count_of-split :
    (p size n q : ℕ)
    → 0 < size
    → (count_of p (split size n q) ≤ 1) × (p < q → count_of p (split size n q) ≡ 0)
unfolding count_of split
count_of-split p size zero q h = (omega arith, λ k. refl)
count_of-split p size (suc n) q h =
    let (a, b) = count_of-split p size n (q + size) h in
    elim (Bool-cases (q == p)) [
      | inl e ↦
          let f : p < q + size = ground arith in
          (rw e (omega (arith, b f)), λ k. absurd (ground arith))
      | inr e ↦ (rw e (omega (arith, a)), λ k. rw e (omega (arith, b (omega arith))))
    ]

-- How often a block stands on the free list of a pool that may not be there.
abbrev pub count_at : ℕ → Option Pool → ℕ
count_at p none = 0
count_at p (some pool) = count_of p pool.free_list

pub free_in-update :
    (p size : ℕ) (pool : Pool) (pools : List (ℕ × Pool))
    → free_in p (update size pool pools) + count_at p (lookup size pools)
      ≡ free_in p pools + count_of p pool.free_list
unfolding free_in lookup update
free_in-update p size pool [] = omega arith
free_in-update p size pool ((s, q) ∷ pools) = elim (Bool-cases (s == size)) [
  | inl e ↦ rw e (omega arith)
  | inr e ↦ rw e (omega (arith, free_in-update p size pool pools))
]

pub held-erase :
    (k p : ℕ) (ptrs : List (ℕ × ℕ)) → held p (erase k ptrs) ≡ (if k == p then 0 else held p ptrs)
unfolding held
held-erase k p ptrs = ground (arith, lookup-erase k p ptrs)

pub held-insert :
    (k p size : ℕ) (ptrs : List (ℕ × ℕ))
    → lookup k ptrs ≡ none
    → held p (insert k size ptrs) ≡ (if k == p then 1 else 0) + held p ptrs
unfolding held
held-insert k p size ptrs h = elim (Bool-cases (k == p)) [
  | inl e ↦ let z : k ≡ p = ground arith in rw (e, lookup-insert k p size ptrs h, e, rw z at h) refl
  | inr e ↦ rw (e, lookup-insert k p size ptrs h, e) (omega arith)
]

pub held-none : (p : ℕ) (ptrs : List (ℕ × ℕ)) → held p ptrs ≡ 0 → lookup p ptrs ≡ none
unfolding held
held-none p ptrs h = elim (Option-cases (lookup p ptrs)) [
  | inl e ↦ e
  | inr (size, e) ↦ absurd (omega (arith, rw e at h))
]

pub held-some : (p size : ℕ) (ptrs : List (ℕ × ℕ)) → lookup p ptrs ≡ some size → held p ptrs ≡ 1
unfolding held
held-some p size ptrs h = rw h refl

-- ===== src/Memory/Manager/Ownership.antt =====
-- libbase/MallocManager.cpp: sizes, and the pointers that the manager owns.
use native.Mathlib.Nat.{div-add-mod, mod-lt}
use echo_server_cpp.Prelude.{
  ℕ, ◌+◌, ◌*◌, ◌/◌, ◌≤◌, ◌<◌, ◌≡◌, ap, inl, inr, true, false, none, some, arith, leb, ◌==◌, dec_lt,
  Bool-cases, Option-cases,
}
use echo_server_cpp.Prelude.Assoc.{lookup, update, erase, lookup-erase}
use echo_server_cpp.Memory.Pool
use echo_server_cpp.Memory.Pool.{Pool}
use echo_server_cpp.Memory.Manager.{
  Manager, mem_max_size, fix_size, get_count, free_small, free_big, free, avail,
}

-- A rounded size has room for the request, and is at most twice the request and 8 bytes.
pub fix_size_bounds : (n : ℕ) → (n ≤ fix_size n) × (fix_size n ≤ 2 * n + 8)
unfolding fix_size
fix_size_bounds n = ground arith

-- For a size above 0 and below the limit a slab has at least one block and at most the limit in bytes.
pub get_count_bounds :
    (n : ℕ) → 0 < n → n < mem_max_size → (0 < get_count n) × (get_count n * n ≤ mem_max_size)
unfolding get_count
get_count_bounds n h k =
    let e : leb mem_max_size n ≡ false = ground arith in
    let d = div-add-mod mem_max_size n in
    let m = mod-lt mem_max_size h in
    rw e (elim (dec_lt 0 (mem_max_size / n)) [
      | yes q ↦ (q, omega arith)
      | no q ↦
          let z : mem_max_size / n ≡ 0 = omega arith in
          absurd (omega (arith, ap (λ (t : ℕ). t * n) z))
    ])

-- A pointer is in one of the maps at most, and a small one belongs to a pool that is there.
pub record IsValid (m : Manager) : Type 0 where
  pub apart : (p size : ℕ) → lookup p m.small_ptr_list ≡ some size → lookup p m.big_ptr_list ≡ none
  pub pooled :
      (p size : ℕ)
      → lookup p m.small_ptr_list ≡ some size
      → (pool : Pool) × (lookup size m.small_list ≡ some pool)

-- What is not available cannot be freed, and the attempt changes nothing.
pub free_unavailable : (p : ℕ) (m : Manager) → avail p m ≡ false → free p m ≡ (false, m)
unfolding free free_big avail
free_unavailable p m h = elim (Bool-cases (p == 0)) [
  | inl z ↦ rw z
  | inr z ↦ elim (Option-cases (lookup p m.small_ptr_list)) [
    | inr (size, e) ↦ cc (rw (z, e) at h)
    | inl e ↦ elim (Option-cases (lookup p m.big_ptr_list)) [
      | inr (size, f) ↦ cc (rw (z, e, f) at h)
      | inl f ↦ rw (z, e, free_big, f)
    ]
  ]
]

abbrev Released : ℕ → Manager → Type 0
Released p m = (m' : Manager) × (free p m ≡ (true, m')) × (avail p m' ≡ false)

release_small :
    (p size : ℕ) (m : Manager)
    → IsValid m
    → (p == 0) ≡ false
    → lookup p m.small_ptr_list ≡ some size
    → Released p m
unfolding free free_small avail Pool.free
release_small p size m v z e =
    let (pool, f) = v.pooled p size e in
    let g = v.apart p size e in
    let r : (p == p) ≡ true = ground arith in
    (
      record m {
        small_list = update size (Pool.free p pool).1 m.small_list;
        small_ptr_list = erase p m.small_ptr_list;
      },
      rw (z, e, f),
      rw (z, lookup-erase p p m.small_ptr_list, r, g),
    )

release_big :
    (p size : ℕ) (m : Manager)
    → (p == 0) ≡ false
    → lookup p m.small_ptr_list ≡ none
    → lookup p m.big_ptr_list ≡ some size
    → Released p m
unfolding free free_big avail
release_big p size m z e f =
    let r : (p == p) ≡ true = ground arith in
    (
      record m { big_ptr_list = erase p m.big_ptr_list },
      rw (z, e, free_big, f),
      rw (z, e, lookup-erase p p m.big_ptr_list, r),
    )

release : (p : ℕ) (m : Manager) → IsValid m → avail p m ≡ true → Released p m
unfolding avail
release p m v h = elim (Bool-cases (p == 0)) [
  | inl z ↦ cc (rw z at h)
  | inr z ↦ elim (Option-cases (lookup p m.small_ptr_list)) [
    | inr (size, e) ↦ release_small p size m v z e
    | inl e ↦ elim (Option-cases (lookup p m.big_ptr_list)) [
      | inr (size, f) ↦ release_big p size m z e f
      | inl f ↦ cc (rw (z, e, f) at h)
    ]
  ]
]

-- A pointer that the manager owns can be freed once: then it is not available any more, and to free
-- it again is refused and changes nothing.
pub free_once :
    (p : ℕ) (m : Manager)
    → IsValid m
    → avail p m ≡ true
    → (m' : Manager) × (free p m ≡ (true, m')) × (avail p m' ≡ false) × (free p m' ≡ (false, m'))
free_once p m v h = let (m', e, f) = release p m v h in (m', e, f, free_unavailable p m' f)

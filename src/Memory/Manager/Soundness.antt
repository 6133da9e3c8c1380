-- ===== src/Memory/Manager/Soundness.antt =====
-- libbase/MallocManager.cpp: the maps of the manager and the free lists of its pools.
use mathlib.Core.Option.{some-injective}
use echo_server_cpp.Prelude.{
  ℕ, ◌≤◌, ◌≡◌, refl, ◌∙◌, ◌⊎◌, inl, inr, Bool-cases, none, some, Option-cases, List, [], ◌∷◌, arith,
  ◌==◌,
}
use echo_server_cpp.Prelude.Assoc.{lookup, update, erase, lookup-update, lookup-erase}
use echo_server_cpp.Memory.Pool
use echo_server_cpp.Memory.Pool.{Pool, split}
use echo_server_cpp.Memory.Manager.{Manager, get_count, free_small, free_big, free}
use echo_server_cpp.Memory.Manager.Ownership.{IsValid}
use echo_server_cpp.Memory.Manager.Places.{
  count_of, places, count_of-append, free_in-update, held-erase, held-none, held-some,
}

-- A small pointer is no big one and belongs to a pool that is there, a pool has blocks of the size by
-- which it is found, and a block is in one place at most: once on one free list, or handed out as a
-- small block, or as a big one.
pub record IsSound (m : Manager) : Type 0 where
  pub valid : IsValid m
  pub sized :
      (size : ℕ) (pool : Pool)
      → lookup size m.small_list ≡ some pool
      → (pool.size ≡ size) × (pool.count ≡ get_count size)
  pub once : (p : ℕ) → places p m ≤ 1

pub apart_of :
    (m : Manager) (p size : ℕ)
    → places p m ≤ 1
    → lookup p m.small_ptr_list ≡ some size
    → lookup p m.big_ptr_list ≡ none
unfolding places
apart_of m p size h e =
    held-none p m.big_ptr_list (omega (arith, h, held-some p size m.small_ptr_list e))

-- A pool is put back, and the small pointers are new ones.
pub put_back :
    (size : ℕ) (pool : Pool) (ptrs : List (ℕ × ℕ)) (m : Manager)
    → IsSound m
    → (pool.size ≡ size) × (pool.count ≡ get_count size)
    → ((p s : ℕ) → lookup p ptrs ≡ some s → (lookup p m.small_ptr_list ≡ some s) ⊎ (size ≡ s))
    → (let m' = record m { small_list = update size pool m.small_list; small_ptr_list = ptrs } in
        ((p : ℕ) → places p m' ≤ 1) → IsSound m')
put_back size pool ptrs m v k h once =
    let m' = record m { small_list = update size pool m.small_list; small_ptr_list = ptrs } in
    record {
      valid = record {
        apart = λ p s e. apart_of m' p s (once p) e;
        pooled = λ p s e. elim (Bool-cases (size == s)) [
          | inl a ↦ (pool, lookup-update size s pool m.small_list ∙ rw a refl)
          | inr a ↦ elim (h p s e) [
            | inl f ↦
                let (q, g) = v.valid.pooled p s f in
                (q, lookup-update size s pool m.small_list ∙ rw a g)
            | inr z ↦ ground arith
          ]
        ];
      };
      sized = λ s q e. elim (Bool-cases (size == s)) [
        | inl a ↦
            let f : pool ≡ q =
              some-injective _ _ (rw (lookup-update size s pool m.small_list, a) at e) in
            let z : size ≡ s = ground arith in rw f at (rw z at k)
        | inr a ↦ v.sized s q (rw (lookup-update size s pool m.small_list, a) at e)
      ];
      once = once;
    }

lookup-erase-some :
    (k j : ℕ) (m : List (ℕ × ℕ)) {s : ℕ} → lookup j (erase k m) ≡ some s → lookup j m ≡ some s
lookup-erase-some k j m h = ground (arith, lookup-erase k j m)

free_big-once :
    (k : ℕ) (m : Manager)
    → IsSound m
    → (p : ℕ) → places p (record m { big_ptr_list = erase k m.big_ptr_list }) ≤ 1
unfolding places
free_big-once k m v p =
    let h = v.once p in
    let f = held-erase k p m.big_ptr_list in
    elim (Bool-cases (k == p)) [
      | inl z ↦ omega (arith, h, rw z at f)
      | inr z ↦ omega (arith, h, rw z at f)
    ]

free_big-IsSound : (k : ℕ) (m : Manager) → IsSound m → IsSound (free_big k m).1
unfolding free_big
free_big-IsSound k m v = elim (Option-cases (lookup k m.big_ptr_list)) [
  | inl e ↦ rw (free_big, e) v
  | inr (size, e) ↦
      let once = free_big-once k m v in
      rw (free_big, e)
        (record {
          valid = record {
            apart = λ p s f.
                apart_of (record m { big_ptr_list = erase k m.big_ptr_list }) p s (once p) f;
            pooled = v.valid.pooled;
          };
          sized = v.sized;
          once = once;
        })
]

-- A small block that is put back stands on the free list and is not handed out any more.
free_small-once :
    (k size : ℕ) (pool : Pool) (m : Manager)
    → IsSound m
    → lookup k m.small_ptr_list ≡ some size
    → lookup size m.small_list ≡ some pool
    → (p : ℕ)
    → places p (record m {
      small_list = update size (Pool.free k pool).1 m.small_list;
      small_ptr_list = erase k m.small_ptr_list;
    })
      ≤ 1
unfolding places count_of Pool.free
free_small-once k size pool m v e f p =
    let a = rw f at (free_in-update p size (Pool.free k pool).1 m.small_list) in
    let b = count_of-append p pool.free_list (k ∷ []) in
    let c = held-erase k p m.small_ptr_list in
    elim (Bool-cases (k == p)) [
      | inl z ↦
          let g : k ≡ p = ground arith in
          omega (
            arith,
            a,
            rw z at b,
            rw z at c,
            v.once p,
            rw g at (held-some k size m.small_ptr_list e),
          )
      | inr z ↦ omega (arith, a, rw z at b, rw z at c, v.once p)
    ]

free_small-IsSound :
    (k size : ℕ) (m : Manager)
    → IsSound m
    → lookup k m.small_ptr_list ≡ some size
    → IsSound (free_small k size (lookup size m.small_list) m).1
unfolding free_small Pool.free
free_small-IsSound k size m v e =
    let (pool, f) = v.valid.pooled k size e in
    rw f (
      put_back size (Pool.free k pool).1 (erase k m.small_ptr_list) m v (v.sized size pool f)
        (λ p s g. inl (lookup-erase-some k p m.small_ptr_list g))
        (free_small-once k size pool m v e f))

-- From a sound state, where small pointers belong to pools, pools have blocks of their size, and
-- every block is in one place at most (once on one free list, or handed out as a small block, or as
-- a big one), to free any pointer, also one that the manager does not own or that was freed before,
-- leads to a sound state.
pub free-IsSound : (p : ℕ) (m : Manager) → IsSound m → IsSound (free p m).1
unfolding free
free-IsSound p m v = elim (Bool-cases (p == 0)) [
  | inl z ↦ rw z v
  | inr z ↦ elim (Option-cases (lookup p m.small_ptr_list)) [
    | inl e ↦ rw (z, e) (free_big-IsSound p m v)
    | inr (size, e) ↦ rw (z, e) (free_small-IsSound p size m v e)
  ]
]

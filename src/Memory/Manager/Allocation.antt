-- ===== src/Memory/Manager/Allocation.antt =====
-- libbase/MallocManager.cpp: the state of the manager after an allocation.
use echo_server_cpp.Prelude.{
  ℕ, ◌+◌, ◌≤◌, ◌<◌, ◌≡◌, if◌then◌else◌, dec_lt, refl, ◌∙◌, ◌⊎◌, inl, inr, Bool-cases, Option, none,
  some, Option-cases, List, [], ◌∷◌, arith, ltb, ◌==◌,
}
use echo_server_cpp.Prelude.Assoc.{lookup, update, insert}
use echo_server_cpp.Memory.Pool
use echo_server_cpp.Memory.Pool.{Pool, split, do_expand, pop_front, refill}
use echo_server_cpp.Memory.Manager.{
  Manager, mem_max_size, fix_size, get_count, pool_of, hand_out, malloc,
}
use echo_server_cpp.Memory.Manager.Places.{
  count_of, free_in, held, places, count_at, count_of-split, free_in-update, held-insert, held-none,
}
use echo_server_cpp.Memory.Manager.Soundness.{IsSound, apart_of, put_back}

lookup-insert-some :
    (k j v : ℕ) (m : List (ℕ × ℕ)) {s : ℕ}
    → lookup j (insert k v m) ≡ some s
    → (lookup j m ≡ some s) ⊎ (v ≡ s)
unfolding lookup insert
lookup-insert-some k j v [] h = ground arith
lookup-insert-some k j v ((i, w) ∷ m) {s} h = ground (arith, lookup-insert-some k j v m {s = s})

-- Memory that `new char[]` may return: no block of the slab, and not the big block itself, is one
-- that the manager has.
pub record Fresh (n new : ℕ) (m : Manager) : Type 0 where
  pub slab :
      (p : ℕ) → 0 < count_of p (split (fix_size n) (get_count (fix_size n)) new) → places p m ≡ 0
  pub block : places new m ≡ 0

slab-once :
    (n new : ℕ) (m : Manager)
    → IsSound m
    → Fresh n new m
    → (p : ℕ) → places p m + count_of p (split (fix_size n) (get_count (fix_size n)) new) ≤ 1
unfolding fix_size
slab-once n new m v fresh p =
    let size = fix_size n in
    let blocks = count_of p (split size (get_count size) new) in
    let a = count_of-split p size (get_count size) new (ground arith) in
    elim (dec_lt 0 blocks) [
      | yes h ↦ omega (arith, fresh.slab p h, a.0)
      | no h ↦ omega (arith, v.once p)
    ]

-- How often a block is what a pool returned.
abbrev given : ℕ → Option ℕ → ℕ
given p none = 0
given p (some x) = if x == p then 1 else 0

pop_front-count :
    (p : ℕ) (xs : List ℕ) (t : Pool)
    → t.free_list ≡ xs
    → (let r = pop_front xs t in count_of p r.1.free_list + given p r.0 ≡ count_of p xs)
      × ((pop_front xs t).1.size ≡ t.size)
      × ((pop_front xs t).1.count ≡ t.count)
unfolding pop_front count_of
pop_front-count p [] t e = (rw e (omega arith), refl, refl)
pop_front-count p (x ∷ xs) t e = (omega arith, refl, refl)

refill-count :
    (p bound : ℕ) (xs : List ℕ) (new : ℕ) (s : Pool)
    → s.free_list ≡ xs
    → count_of p xs ≤ bound
    → count_of p (split s.size s.count new) ≤ bound
    → (count_of p (refill xs new s).free_list ≤ bound)
      × ((refill xs new s).size ≡ s.size)
      × ((refill xs new s).count ≡ s.count)
unfolding refill do_expand count_of
refill-count p bound [] new s e h k = (rw e k, refl, refl)
refill-count p bound (x ∷ xs) new s e h k = (rw e h, refl, refl)

malloc-count :
    (p bound new : ℕ) (s : Pool)
    → count_of p s.free_list ≤ bound
    → count_of p (split s.size s.count new) ≤ bound
    → (let r = Pool.malloc new s in count_of p r.1.free_list + given p r.0 ≤ bound)
      × ((Pool.malloc new s).1.size ≡ s.size)
      × ((Pool.malloc new s).1.count ≡ s.count)
unfolding Pool.malloc
malloc-count p bound new s h k =
    let t = refill s.free_list new s in
    let (a, b, c) = refill-count p bound s.free_list new s refl h k in
    let (d, e, f) = pop_front-count p t.free_list t refl in (omega (arith, a, d), e ∙ b, f ∙ c)

-- What the pool of a size has, made or found, counted together with a slab.
pool_of-count :
    (size new : ℕ) (m : Manager)
    → IsSound m
    → (let pool = pool_of size new m in
        (pool.size ≡ size)
        × (pool.count ≡ get_count size)
        × ((p : ℕ)
            → count_of p pool.free_list
              ≤ count_at p (lookup size m.small_list)
                + count_of p (split size (get_count size) new)))
unfolding pool_of Pool.make do_expand
pool_of-count size new m v = elim (Option-cases (lookup size m.small_list)) [
  | inl e ↦ rw (pool_of, e) (refl, refl, λ p. omega arith)
  | inr (pool, e) ↦ let (a, b) = v.sized size pool e in rw (pool_of, e) (a, b, λ p. omega arith)
]

-- After a block was taken from its pool and before it is handed out, every block is in one place.
abbrev Taken : ℕ → Option ℕ × Pool → Manager → Type 0
Taken size (o, pool) m =
    (p : ℕ)
    → free_in p (update size pool m.small_list)
        + given p o
        + held p m.small_ptr_list
        + held p m.big_ptr_list
      ≤ 1

taken :
    (n new : ℕ) (m : Manager)
    → IsSound m
    → Fresh n new m
    → (let size = fix_size n in Taken size (Pool.malloc new (pool_of size new m)) m)
unfolding places
taken n new m v fresh p =
    let size = fix_size n in
    let pool = pool_of size new m in
    let (a, b, c) = pool_of-count size new m v in
    let slab = count_of p (split size (get_count size) new) in
    let bound = count_at p (lookup size m.small_list) + slab in
    let (d, e, f) = malloc-count p bound new pool (c p) (rw (a, b) (omega arith)) in
    let g = free_in-update p size (Pool.malloc new pool).1 m.small_list in
    omega (arith, d, g, slab-once n new m v fresh p)

hand_out-IsSound :
    (size : ℕ) (r : Option ℕ × Pool) (m : Manager)
    → IsSound m
    → (r.1.size ≡ size) × (r.1.count ≡ get_count size)
    → Taken size r m
    → IsSound (hand_out size r m).1
unfolding hand_out places
hand_out-IsSound size (none, pool) m v k h =
    put_back size pool m.small_ptr_list m v k (λ p s e. inl e) (λ p. omega (arith, h p))
hand_out-IsSound size (some x, pool) m v k h =
    let same : ◌≡◌ {A = ℕ} (if x == x then 1 else 0) 1 = ground arith in
    let none_yet = held-none x m.small_ptr_list (omega (arith, h x, same)) in
    put_back size pool (insert x size m.small_ptr_list) m v k
      (λ p s e. lookup-insert-some x p size m.small_ptr_list e)
      (λ p. omega (arith, h p, held-insert x p size m.small_ptr_list none_yet))

malloc_big-once :
    (new size : ℕ) (m : Manager)
    → IsSound m
    → places new m ≡ 0
    → (p : ℕ) → places p (record m { big_ptr_list = insert new size m.big_ptr_list }) ≤ 1
unfolding places
malloc_big-once new size m v h p =
    let e = held-none new m.big_ptr_list (omega (arith, h)) in
    let f = held-insert new p size m.big_ptr_list e in
    elim (Bool-cases (new == p)) [
      | inl z ↦ let g : new ≡ p = ground arith in omega (arith, rw z at f, rw g at h)
      | inr z ↦ omega (arith, rw z at f, v.once p)
    ]

malloc_big-IsSound :
    (n new : ℕ) (m : Manager)
    → IsSound m
    → Fresh n new m
    → IsSound (record m { big_ptr_list = insert new (fix_size n) m.big_ptr_list })
malloc_big-IsSound n new m v fresh =
    let once = malloc_big-once new (fix_size n) m v fresh.block in
    record {
      valid = record {
        apart = λ p s e.
            apart_of (record m { big_ptr_list = insert new (fix_size n) m.big_ptr_list }) p s
              (once p) e;
        pooled = v.valid.pooled;
      };
      sized = v.sized;
      once = once;
    }

-- From a sound state to allocate any size leads to a sound state, so that the block handed out is in
-- no other place, provided that `new` returns memory of which the manager has no block.
pub malloc-IsSound :
    (n new : ℕ) (m : Manager) → IsSound m → Fresh n new m → IsSound (malloc n new m).1
unfolding malloc
malloc-IsSound n new m v fresh =
    let size = fix_size n in
    let pool = pool_of size new m in
    let (a, b, c) = pool_of-count size new m v in
    let (d, e, f) =
      malloc-count 0 (count_of 0 pool.free_list + count_of 0 (split size (get_count size) new)) new
        pool (omega arith) (rw (a, b) (omega arith)) in
    elim (Bool-cases (ltb size mem_max_size)) [
      | inl h ↦
          rw h (
            hand_out-IsSound size (Pool.malloc new pool) m v (e ∙ a, f ∙ b) (taken n new m v fresh))
      | inr h ↦ rw h (malloc_big-IsSound n new m v fresh)
    ]

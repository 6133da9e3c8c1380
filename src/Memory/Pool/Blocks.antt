-- ===== src/Memory/Pool/Blocks.antt =====
-- libbase/MallocPool.cpp: the blocks of a pool, where they lie and how many there are.
use echo_server_cpp.Prelude.{
  ℕ, zero, suc, ◌+◌, ◌*◌, ◌≤◌, ◌<◌, ◌≡◌, refl, ap, some, List, [], ◌∷◌, arith, length,
  length-append,
}
use echo_server_cpp.Memory.Pool.{Pool, split, do_expand, make, pop_front, refill, malloc, free}

-- Blocks of `size` bytes that do not overlap and lie between `low` and `high`.
abbrev pub Spaced : ℕ → ℕ → ℕ → List ℕ → Type 0
Spaced size low high [] = low ≤ high
Spaced size low high (p ∷ ps) = (low ≤ p) × (p + size ≤ high) × Spaced size (p + size) high ps

-- A slab is cut into blocks that do not overlap and lie within it.
pub split-Spaced : (size n p : ℕ) → Spaced size p (p + n * size) (split size n p)
unfolding split
split-Spaced size zero p = omega arith
split-Spaced size (suc n) p =
    let e : p + size + n * size ≡ p + suc n * size = omega arith in
    (omega arith, omega arith, rw e at (split-Spaced size n (p + size)))

pub length-split : (size n p : ℕ) → length (split size n p) ≡ n
unfolding split
length-split size zero p = refl
length-split size (suc n) p = ap suc (length-split size n (p + size))

-- Every block of a pool is on the free list or was handed out and not given back.
pub record Balanced (s : Pool) : Type 0 where
  pub counted : length s.free_list + s.history_get ≡ s.history_count + s.history_free
  pub divided : 0 < s.count

pub do_expand-Balanced : (new : ℕ) (s : Pool) → Balanced s → Balanced (do_expand new s)
unfolding do_expand
do_expand-Balanced new s v = record {
  counted = omega (
    arith,
    v.counted,
    length-append s.free_list (split s.size s.count new),
    length-split s.size s.count new,
  );
  divided = v.divided;
}

pub make-Balanced : (size count new : ℕ) → 0 < count → Balanced (make size count new)
unfolding make do_expand
make-Balanced size count new h = record {
  counted = omega (arith, length-split size count new);
  divided = h;
}

pop_front-Balanced :
    (xs : List ℕ) (t : Pool)
    → t.free_list ≡ xs
    → Balanced t
    → 0 < length xs
    → (p : ℕ) × (s' : Pool) × (pop_front xs t ≡ (some p, s')) × Balanced s'
unfolding pop_front
pop_front-Balanced [] t e v h = absurd (omega arith)
pop_front-Balanced (p ∷ rest) t e v h = (
  p,
  record t { free_list = rest; history_get = t.history_get + 1 },
  refl,
  record { counted = omega (arith, v.counted, ap length e); divided = v.divided },
)

refill-Balanced :
    (xs : List ℕ) (new : ℕ) (s : Pool)
    → s.free_list ≡ xs
    → Balanced s
    → Balanced (refill xs new s) × (0 < length (refill xs new s).free_list)
unfolding refill do_expand
refill-Balanced [] new s e v = (
  do_expand-Balanced new s v,
  omega (
    arith,
    v.divided,
    length-append s.free_list (split s.size s.count new),
    length-split s.size s.count new,
  ),
)
refill-Balanced (p ∷ rest) new s e v = (v, omega (arith, ap length e))

-- From a pool whose blocks are all on the free list or handed out, a block is always taken, since an
-- empty free list is filled up by a new slab; the pool stays in balance.
pub malloc-Balanced :
    (new : ℕ) (s : Pool)
    → Balanced s
    → (p : ℕ) × (s' : Pool) × (malloc new s ≡ (some p, s')) × Balanced s'
unfolding malloc
malloc-Balanced new s v =
    let (w, h) = refill-Balanced s.free_list new s refl v in
    let t = refill s.free_list new s in pop_front-Balanced t.free_list t refl w h

pub free-Balanced : (p : ℕ) (s : Pool) → Balanced s → Balanced (free p s).1
unfolding free
free-Balanced p s v = record {
  counted = omega (arith, v.counted, length-append s.free_list (p ∷ []));
  divided = v.divided;
}

-- ===== src/Memory/Pool.antt =====
-- libbase/MallocPool.cpp: blocks of one size, cut from slabs that `new char[]` returns.
-- `new` is the address of the slab that the next `new char[]` would return.
pub mod Blocks
use echo_server_cpp.Prelude.{
  ℕ, zero, suc, ◌+◌, ◌*◌, Bool, true, Option, none, some, List, [], ◌∷◌, ◌++◌,
}

pub record Pool : Type 0 where
  pub size : ℕ
  pub count : ℕ
  pub all_mem_list : List ℕ
  pub free_list : List ℕ
  pub history_count : ℕ
  pub history_get : ℕ
  pub history_free : ℕ

-- The addresses of `n` blocks in a row.
unfoldable pub split : ℕ → ℕ → ℕ → List ℕ
split size zero p = []
split size (suc n) p = p ∷ split size n (p + size)

unfoldable pub do_expand : ℕ → Pool → Pool
unfolding split
do_expand new s = record s {
  all_mem_list = s.all_mem_list ++ new ∷ [];
  free_list = s.free_list ++ split s.size s.count new;
  history_count = s.history_count + s.count;
}

-- The constructor.
unfoldable pub make : ℕ → ℕ → ℕ → Pool
unfolding do_expand
make size count new = do_expand new (record {
  size = size;
  count = count;
  all_mem_list = [];
  free_list = [];
  history_count = 0;
  history_get = 0;
  history_free = 0;
})

unfoldable pub pop_front : List ℕ → Pool → Option ℕ × Pool
pop_front [] s = (none, s)
pop_front (p ∷ rest) s = (some p, record s { free_list = rest; history_get = s.history_get + 1 })

-- An empty free list is filled up first.
unfoldable pub refill : List ℕ → ℕ → Pool → Pool
unfolding do_expand
refill [] new s = do_expand new s
refill (p ∷ rest) new s = s

unfoldable pub malloc : ℕ → Pool → Option ℕ × Pool
unfolding pop_front refill
malloc new s = let t = refill s.free_list new s in pop_front t.free_list t

-- `ptr` is no null pointer. The block is cleared and goes to the end of the free list.
unfoldable pub free : ℕ → Pool → Bool × Pool
free ptr s =
    (true, record s { free_list = s.free_list ++ ptr ∷ []; history_free = s.history_free + 1 })

-- ===== src/Memory/Manager.antt =====
-- libbase/MallocManager.cpp without `_TEST_MEM_`: pools by rounded size, and big blocks from `new`.
-- A pointer is a number other than 0. The unordered maps are association lists.
pub mod Ownership
pub mod Places
pub mod Soundness
pub mod Allocation
use echo_server_cpp.Prelude.{
  ℕ, ◌+◌, ◌*◌, ◌/◌, Bool, true, false, ◌||◌, Option, none, some, List, [], ltb, leb, ◌==◌,
  if◌then◌else◌,
}
use echo_server_cpp.Memory.Pool
use echo_server_cpp.Memory.Pool.{Pool}
use echo_server_cpp.Prelude.Assoc.{lookup, update, insert, erase, is_some}

abbrev pub mem_max_size : ℕ
mem_max_size = 10240

pub record Manager : Type 0 where
  pub small_list : List (ℕ × Pool)
  pub small_ptr_list : List (ℕ × ℕ)
  pub big_ptr_list : List (ℕ × ℕ)

unfoldable pub empty : Manager
empty = record { small_list = []; small_ptr_list = []; big_ptr_list = [] }

unfoldable pub fix_size : ℕ → ℕ
fix_size n =
    if leb n 8
    then 8
    else if leb n 16
    then 16
    else if leb n 32
    then 32
    else if leb n 64
    then 64
    else if leb n 128
    then 128
    else if leb n 256
    then 256
    else if leb n 512
    then 512
    else if leb n 1024
    then 1024
    else if leb n 2048
    then 2048
    else if leb n 4096
    then 4096
    else if leb n 8192
    then 8192
    else if leb n mem_max_size
    then mem_max_size
    else n

unfoldable pub get_count : ℕ → ℕ
get_count n = if leb mem_max_size n then 1 else mem_max_size / n

-- The pool for a size, made if it is not there; its pointer is the size, by which it is found.
pool_of : ℕ → ℕ → Manager → Pool
pool_of size new m = elim (lookup size m.small_list) [
  | none ↦ Pool.make size (get_count size) new
  | some pool ↦ pool
]

hand_out : ℕ → Option ℕ × Pool → Manager → Option ℕ × Manager
hand_out size (none, pool) m = (none, record m { small_list = update size pool m.small_list })
hand_out size (some p, pool) m = (
  some p,
  record m {
    small_list = update size pool m.small_list;
    small_ptr_list = insert p size m.small_ptr_list;
  },
)

-- `new` is the address that the next `new char[]` returns, of a slab or of a big block.
unfoldable pub malloc : ℕ → ℕ → Manager → Option ℕ × Manager
unfolding pool_of hand_out
malloc n new m =
    let size = fix_size n in
    if ltb size mem_max_size
    then hand_out size (Pool.malloc new (pool_of size new m)) m
    else (some new, record m { big_ptr_list = insert new size m.big_ptr_list })

free_small : ℕ → ℕ → Option Pool → Manager → Bool × Manager
free_small ptr size none m = (false, m)
free_small ptr size (some pool) m =
    let (ret, pool') = Pool.free ptr pool in
    (
      ret,
      record m {
        small_list = update size pool' m.small_list;
        small_ptr_list = erase ptr m.small_ptr_list;
      },
    )

free_big : ℕ → Manager → Bool × Manager
free_big ptr m = elim (lookup ptr m.big_ptr_list) [
  | some size ↦ (true, record m { big_ptr_list = erase ptr m.big_ptr_list })
  | none ↦ (false, m)
]

unfoldable pub free : ℕ → Manager → Bool × Manager
unfolding free_small free_big
free ptr m = if ptr == 0 then (false, m) else elim (lookup ptr m.small_ptr_list) [
  | some size ↦ free_small ptr size (lookup size m.small_list) m
  | none ↦ free_big ptr m
]

unfoldable pub avail : ℕ → Manager → Bool
avail ptr m =
    if ptr == 0
    then false
    else is_some (lookup ptr m.small_ptr_list) || is_some (lookup ptr m.big_ptr_list)

-- ===== src/Tests/Base.antt =====
-- Memory and calendar time at concrete inputs.
use echo_server_cpp.Prelude.{◌≤◌, ◌<◌, ◌≡◌, refl, true, false, [], ◌∷◌, arith}
use echo_server_cpp.Prelude.Assoc.{lookup}
use echo_server_cpp.Memory.Pool
use echo_server_cpp.Memory.Pool.{Pool, split, do_expand}
use echo_server_cpp.Memory.Manager.{Manager, fix_size, get_count, malloc, free, avail}
use echo_server_cpp.Memory.Manager.Places.{count_of, free_in, held, places}
use echo_server_cpp.Memory.Manager.Soundness.{IsSound, free-IsSound}
use echo_server_cpp.Memory.Manager.Allocation.{Fresh, malloc-IsSound}
use echo_server_cpp.Memory.Manager.Ownership.{IsValid, free_once}
use echo_server_cpp.Time.{time_to_tm, tm_to_time}
use echo_server_cpp.Time.RoundTrip.{last_day, tm_to_time-time_to_tm}

abbrev two_blocks : Pool
two_blocks = Pool.make 16 2 1000

abbrev one_big : Manager
one_big = record { small_list = []; small_ptr_list = []; big_ptr_list = (5, 20000) ∷ [] }

one_big-IsValid : IsValid one_big
unfolding lookup
one_big-IsValid = record { apart = λ p size h. cc; pooled = λ p size h. cc }

free_once_example :
    (m : Manager) × (free 5 one_big ≡ (true, m)) × (avail 5 m ≡ false) × (free 5 m ≡ (false, m))
unfolding avail lookup
free_once_example = free_once 5 one_big one_big-IsValid refl

tm_to_time-time_to_tm_example :
    let tm = time_to_tm 951782400 in
    (tm.tm_mon < 12)
    × (1 ≤ tm.tm_mday)
    × (tm.tm_mday ≤ last_day tm.tm_year tm.tm_mon)
    × ((tm_to_time (λ t. 0) tm).0 ≡ 951782400)
tm_to_time-time_to_tm_example = tm_to_time-time_to_tm (λ t. 0) 951782400 (omega arith)

one_big-IsSound : IsSound one_big
unfolding lookup places free_in held
one_big-IsSound = record {
  valid = one_big-IsValid;
  sized = λ size pool h. cc;
  once = λ p. ground arith;
}

new_slab : Fresh 8192 1000 one_big
unfolding lookup fix_size get_count split count_of places free_in held
new_slab = record { slab = λ p h. ground arith; block = refl }

malloc-IsSound_example : IsSound (malloc 8192 1000 one_big).1
malloc-IsSound_example = malloc-IsSound 8192 1000 one_big one_big-IsSound new_slab

free-IsSound_example : IsSound (free 1000 (malloc 8192 1000 one_big).1).1
free-IsSound_example =
    free-IsSound 1000 (malloc 8192 1000 one_big).1
      (malloc-IsSound 8192 1000 one_big one_big-IsSound new_slab)

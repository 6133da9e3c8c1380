-- ===== src/Tests/Starting.antt =====
-- Threads at concrete inputs.
use echo_server_cpp.Prelude.Int.{ℤ}
use echo_server_cpp.Prelude.{List, some, ◌≡◌, refl, true, ◌&&◌, [], ◌∷◌, if◌then◌else◌}
use echo_server_cpp.Threads.{
  Thread, make, created, refused, start, thread_func_end, terminate, Setup, server_begin,
}
use echo_server_cpp.Threads.Starting.{
  Alone, starts, ends, terminates, act_all, act_all-Alone, leading, all_created, alive_of, fresh,
  opens, succeeded, server_begin-starts,
}

act_all-Alone_example : Alone (
    act_all (starts created ∷ starts created ∷ ends ∷ terminates ∷ starts (refused true) ∷ []) make)
unfolding start thread_func_end terminate
act_all-Alone_example =
    act_all-Alone (starts created ∷ starts created ∷ ends ∷ terminates ∷ starts (refused true) ∷ [])
      (refl, tt)

-- The third of four threads is not created.
abbrev setup : Setup
setup = record {
  makes_socket = true;
  reuses = true;
  unblocks = true;
  binds = true;
  listens = true;
  makes_event = true;
  adds_event = true;
  creates = created ∷ created ∷ refused true ∷ created ∷ [];
}

server_begin-starts_example :
    (code : ℤ) × (threads : List Thread) × (server_begin setup (fresh setup.creates)
      ≡ some (code, threads))
    × (succeeded code ≡ (opens setup && all_created setup.creates))
    × (alive_of threads ≡ (if opens setup then leading setup.creates else 0))
server_begin-starts_example = server_begin-starts setup refl

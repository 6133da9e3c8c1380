-- ===== src/Threads.antt =====
-- libbase/Thread.cpp, as it is built for Linux, and what libsocket/ServerSocket.cpp and ClientSocket.cpp
-- start. `alive` counts the threads of the system that are in threadFunc with this object. The locks are
-- those of the system, and start and terminate are whole steps under the lock of the object.
pub mod Starting
use echo_server_cpp.Prelude.{
  ℕ, zero, suc, ◌+◌, ◌-◌, Bool, true, false, Option, none, some, List, [], ◌∷◌, ◌||◌, if◌then◌else◌,
}
use echo_server_cpp.Prelude.Int.{ℤ, pos, negsuc}

pub record Thread : Type 0 where
  pub has_handle : Bool
  pub running : Bool
  pub alive : ℕ

-- The constructor.
abbrev pub make : Thread
make = record { has_handle = false; running = false; alive = 0 }

-- What pthread_create does. POSIX leaves the handle undefined where no thread is created: `left` is
-- whether it is set then.
pub data Creation : Type 0 where
  created : Creation
  refused : (left : Bool) → Creation

create : Creation → Thread → Bool × Thread
create created t = (true, record t { has_handle = true; running = true; alive = t.alive + 1 })
create (refused left) t = (false, record t { has_handle = left; running = false })

unfoldable pub start : Creation → Thread → Bool × Thread
unfolding create
start creation t = if t.has_handle || t.running then (false, t) else create creation t

-- threadFunc returns from run and wakes who waits in terminate.
unfoldable pub thread_func_end : Thread → Thread
thread_func_end t = record t { alive = t.alive - 1 }

-- Whether the wait for the end of the thread succeeds makes no difference to the object.
unfoldable pub terminate : Thread → Thread
terminate t = if t.running then record t { running = false; has_handle = false } else t

-- The loop of begin over the IO threads: whether all of them started. The rest of the loop is left
-- out after one that did not.
unfoldable pub start_all : List Creation → List Thread → Bool × List Thread
start_all creates [] = (true, [])
start_all [] (t ∷ threads) = (false, t ∷ threads)
start_all (c ∷ creates) (t ∷ threads) =
    let (rest, threads') = start_all creates threads in
    let (started, t') = start c t in
    if started then (rest, t' ∷ threads') else (false, t' ∷ threads)

-- What the system and libevent answer in ServerSocket::begin, and what pthread_create does for each
-- thread.
pub record Setup : Type 0 where
  pub makes_socket : Bool
  pub reuses : Bool
  pub unblocks : Bool
  pub binds : Bool
  pub listens : Bool
  pub makes_event : Bool
  pub adds_event : Bool
  pub creates : List Creation

-- The result of ServerSocket::begin, after its loop where it gets there, and the threads; `none` is
-- the use of a null pointer: event_priority_set comes before the test of what event_new returned.
unfoldable pub server_begin : Setup → List Thread → Option (ℤ × List Thread)
server_begin s threads =
    if s.makes_socket
    then (if s.reuses
        then (if s.unblocks
            then (if s.binds
                then (if s.listens
                    then (if s.makes_event
                        then (if s.adds_event
                            then (let (started, threads') = start_all s.creates threads in
                                some ((if started then pos 0 else negsuc 8), threads'))
                            else some (negsuc 7, threads))
                        else none)
                    else some (negsuc 5, threads))
                else some (negsuc 4, threads))
            else some (negsuc 3, threads))
        else some (negsuc 2, threads))
    else some (negsuc 1, threads)

-- ClientSocket::begin.
unfoldable pub client_begin : List Creation → List Thread → ℤ × List Thread
client_begin creates threads =
    let (started, threads') = start_all creates threads in
    ((if started then pos 0 else negsuc 0), threads')

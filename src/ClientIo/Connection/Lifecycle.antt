-- ===== src/ClientIo/Connection/Lifecycle.antt =====
-- libsocket/ClientIOSocket.cpp: what the main thread is told over several attempts to connect.
use echo_server_cpp.Prelude.{
  ℕ, ◌≡◌, Bool, true, false, Option, none, some, List, [], ◌∷◌, ◌==◌, if◌then◌else◌,
}
use echo_server_cpp.ClientIo.Connection
use echo_server_cpp.ClientIo.Connection.{
  Connection, Notice, connect_end, received, closed, Attempt, to_connect, reconnect_callback, Event,
  timeout, error, eof, unknown, event_callback, read_callback,
}

-- Whether all of an attempt succeeds, and the connection is open then.
abbrev pub opens : Attempt → Bool
opens net =
    if net.new_fd == 0
    then false
    else if net.connects
    then (if net.unblocks then (if net.makes_bev then net.enables else false) else false)
    else false

-- What an event leaves of an open connection.
abbrev pub survives : Event → Bool
survives timeout = false
survives error = false
survives eof = false
survives unknown = true

-- What libevent reports of a bufferevent that is not that of the open connection: of one whose
-- connection has ended, which the code never frees, or of one that was not enabled.
pub record Others : Type 0 where
  pub reports : Event → Bool
  pub brings : List ℕ → Bool

-- They report no end of a connection and bring no data, as when libevent has disabled reading and
-- writing of a bufferevent once it has reported the end of its connection.
pub record AreQuiet (others : Others) : Type 0 where
  pub ended : (event : Event) → others.reports event ≡ true → survives event ≡ true
  pub silent : (chunk : List ℕ) → others.brings chunk ≡ false

-- The socket with libevent: it is `open` while its bufferevent is enabled and no end of the
-- connection was reported. Data and events are those of the open connection or those of the other
-- bufferevents, for which the same callbacks run, and an attempt begins when the event that was added
-- for it is due.
pub data Step (host : Bool) (others : Others) : Bool × Connection → Bool × Connection → Type 0 where
  retries :
      (net : Attempt) (s : Connection)
      → s.waits ≡ true
      → Step host others (false, s) (opens net, reconnect_callback net s)
  reads :
      (fuel : ℕ) (chunk : List ℕ) (s t : Connection)
      → read_callback host fuel chunk s ≡ some t
      → Step host others (true, s) (true, t)
  ends :
      (event : Event) (s : Connection)
      → Step host others (true, s) (survives event, event_callback event s)
  other_reads :
      (fuel : ℕ) (chunk : List ℕ) (open_now : Bool) (s t : Connection)
      → others.brings chunk ≡ true
      → read_callback host fuel chunk s ≡ some t
      → Step host others (open_now, s) (open_now, t)
  other_ends :
      (event : Event) (open_now : Bool) (s : Connection)
      → others.reports event ≡ true
      → Step host others (open_now, s) (open_now, event_callback event s)

-- All that happens after the thread has made the socket and called toConnect.
pub data Reach (host : Bool) (others : Others) (id : ℕ) : Bool × Connection → Type 0 where
  starts : (net : Attempt) → Reach host others id (opens net, to_connect net (Connection.make id))
  next :
      {x y : Bool × Connection}
      → Reach host others id x
      → Step host others x y
      → Reach host others id y

-- What the main thread makes of a notice, given whether it has an agent: `none` is what it must not
-- be told, a second connection, or data without a connection.
abbrev pub told : Notice → Bool → Option Bool
told (connect_end flag) false = some true
told (connect_end flag) true = none
told (received buf) true = some true
told (received buf) false = none
told closed agent = some false

abbrev pub told_all : List Notice → Bool → Option Bool
told_all [] agent = some agent
told_all (n ∷ notices) agent = elim (told n agent) [ none ↦ none | some b ↦ told_all notices b ]

-- The main thread has an agent exactly while the connection is open, and no attempt is waiting then.
pub record Agrees (open_now : Bool) (s : Connection) : Type 0 where
  pub agent : told_all s.upward false ≡ some open_now
  pub idle : open_now ≡ true → s.waits ≡ false

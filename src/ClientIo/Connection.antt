-- ===== src/ClientIo/Connection.antt =====
-- libsocket/ClientIOSocket.cpp: connecting to another server, losing the connection and connecting
-- again. What the socket pushes on the queue of the main thread is `upward`, in order; `bevs` counts
-- the bufferevents it has made, and `waits` is whether the event for the next attempt is added.
pub mod Lifecycle
pub mod Stale
use echo_server_cpp.Prelude.{
  ℕ, zero, suc, ◌+◌, ◌%◌, ◌^◌, Bool, true, false, Option, none, some, List, [], ◌∷◌, ◌++◌, map,
  length, ltb, leb, ◌==◌, if◌then◌else◌,
}
use echo_server_cpp.SocketBase.{Status, unconnected, wait_connect, max_buffer_size}
use echo_server_cpp.ClientIo.{recv}

-- What the main thread is told: asynConnectEnd, asynRecive and asynClose.
pub data Notice : Type 0 where
  connect_end : ℕ → Notice
  received : List ℕ → Notice
  closed : Notice

pub record Connection : Type 0 where
  pub id : ℕ
  pub status : Status
  pub fd : ℕ
  pub recv_buf : List ℕ
  pub send_buf : List ℕ
  pub bevs : ℕ
  pub waits : Bool
  pub sent : List (List ℕ)
  pub upward : List Notice

-- The constructor; -1 as an `unsigned long long`.
abbrev pub make : ℕ → Connection
make id = record {
  id = id;
  status = unconnected;
  fd = 18446744073709551615;
  recv_buf = [];
  send_buf = [];
  bevs = 0;
  waits = false;
  sent = [];
  upward = [];
}

-- What the system and libevent answer in one attempt: `new_fd` is what socket returns, as an
-- `unsigned long long`.
pub record Attempt : Type 0 where
  pub new_fd : ℕ
  pub connects : Bool
  pub unblocks : Bool
  pub makes_bev : Bool
  pub enables : Bool

-- asynClose and toReConnect.
unfoldable pub lose : Connection → Connection
lose s = record s { upward = s.upward ++ closed ∷ []; waits = true }

-- `_nFd <= 0` holds of 0 only.
unfoldable pub to_connect : Attempt → Connection → Connection
unfolding lose
to_connect net s =
    let t : Connection = record s { status = wait_connect; fd = net.new_fd } in
    if net.new_fd == 0
    then t
    else if net.connects
    then (if net.unblocks
        then (if net.makes_bev
            then (if net.enables
                then record t { bevs = t.bevs + 1; upward = t.upward ++ connect_end 0 ∷ [] }
                else record t { bevs = t.bevs + 1 })
            else t)
        else lose t)
    else lose t

-- reconnectCallback; the event is no longer added when it runs.
unfoldable pub reconnect_callback : Attempt → Connection → Connection
unfolding to_connect
reconnect_callback net s = to_connect net (record s { waits = false })

pub data Event : Type 0 where
  timeout : Event
  error : Event
  eof : Event
  unknown : Event

unfoldable pub event_callback : Event → Connection → Connection
unfolding lose
event_callback timeout s = lose (record s { status = wait_connect })
event_callback error s = lose (record s { status = wait_connect })
event_callback eof s = lose (record s { status = wait_connect })
event_callback unknown s = s

-- readCallback: recv, and asynRecive for each packet.
unfoldable pub read_callback : Bool → ℕ → List ℕ → Connection → Option Connection
read_callback host fuel chunk s = elim (recv host fuel s.recv_buf chunk) [
  | none ↦ none
  | some (packets, left) ↦
      some (record s { recv_buf = left; upward = s.upward ++ map received packets })
]

-- The sum is of two `unsigned int`.
unfoldable pub expand_send_buf : List ℕ → Connection → Bool × Connection
expand_send_buf buf s =
    if leb max_buffer_size ((length buf + length s.send_buf) % 2 ^ 32)
    then (false, s)
    else (true, record s { send_buf = s.send_buf ++ buf })

unfoldable pub had_send_buf_data : Connection → Bool
had_send_buf_data s = ltb 0 (length s.send_buf)

unfoldable pub consume_send_buf : Connection → Bool × Connection
unfolding had_send_buf_data
consume_send_buf s =
    if had_send_buf_data s
    then (true, record s { send_buf = []; sent = s.sent ++ s.send_buf ∷ [] })
    else (true, s)

-- ===== src/IoThread.antt =====
-- libsocket/ServerSocketIOThread.cpp: a thread that owns connections. The main thread pushes jobs on
-- `queue`; what the thread pushes on the queue of the main thread is `upward`, in order.
-- A ServerIOSocket pointer is a number, and `sockets` are the objects that are alive. The result
-- `none` of an operation is a use of an object that was deleted. An address is not used again while
-- a pointer to it is in a queue.
-- Of a new connection, `start fd` is `none` where bufferevent_socket_new fails, else the address of
-- the object. `written` is what bufferevent_write returns.
pub mod Buffer
pub mod Payload
pub mod Open
pub mod Order
pub mod Progress
pub mod Drain
pub mod Frames
pub mod Deleted
use echo_server_cpp.Prelude.{
  ℕ, zero, suc, ◌+◌, Bool, true, false, Option, none, some, List, [], ◌∷◌, ◌++◌, ◌==◌,
  if◌then◌else◌,
}
use echo_server_cpp.Prelude.Int.{ℤ}
use echo_server_cpp.Prelude.Assoc.{lookup, update, erase}
use echo_server_cpp.SocketBase.{connected}
use echo_server_cpp.ServerIo
use echo_server_cpp.ServerIo.{
  ServerIo, to_close, expand_send_buf, had_send_buf_data, consume_send_buf,
}

-- threadPackage as an IO thread receives it; `none` is the null pointer.
pub data Job : Type 0 where
  accept : ℕ → Job
  send_buf : Option ℕ → List ℕ → Job
  close : Option ℕ → Job
  other : Job

-- What an IO thread tells the main thread.
pub data Notice : Type 0 where
  accepted : ℕ → Notice
  closed : ℕ → Notice

pub record Thread : Type 0 where
  pub pair_deal_count : ℕ
  pub queue : List Job
  pub sockets : List (ℕ × ServerIo)
  pub upward : List Notice
  pub wakes : ℕ

-- asynAccept, asynSend and asynClose: the job is queued and the thread is woken.
unfoldable pub push : Job → Thread → Thread
push job t = record t { queue = t.queue ++ job ∷ []; wakes = t.wakes + 1 }

-- The `accept` branch of pairCallback.
unfoldable pub deal_accept : ℕ → Option ℕ → Thread → Thread
deal_accept fd none t = t
deal_accept fd (some p) t = record t {
  sockets = update p (record (ServerIo.make fd) { status = connected }) t.sockets;
  upward = t.upward ++ accepted p ∷ [];
}

-- The send buffer after a packet, and whether the socket goes on needSendList.
unfoldable pub buffer_packet : ℤ → List ℕ → ServerIo → ServerIo × Bool
buffer_packet written buf s =
    let (taken, t) = expand_send_buf buf s in
    if taken then (t, true) else ((expand_send_buf buf (consume_send_buf written s).1).1, false)

-- The `send_buf` branch of pairCallback, for the object that the pointer leads to.
unfoldable pub deal_send :
    ℤ → ℕ → List ℕ → Option ServerIo → List ℕ × Thread → Option (List ℕ × Thread)
unfolding buffer_packet
deal_send written p buf none (need, t) = none
deal_send written p buf (some s) (need, t) =
    let (s', pushed) = buffer_packet written buf s in
    some ((if pushed then need ++ p ∷ [] else need), record t { sockets = update p s' t.sockets })

-- The `close` branch of pairCallback: toClose, and the object is deleted.
unfoldable pub deal_close : ℕ → Option ServerIo → List ℕ × Thread → Option (List ℕ × Thread)
deal_close p none (need, t) = none
deal_close p (some s) (need, t) = some (need, record t { sockets = erase p t.sockets })

-- One job of the loop of pairCallback, with needSendList.
unfoldable pub deal : (ℕ → Option ℕ) → ℤ → Job → List ℕ × Thread → Option (List ℕ × Thread)
unfolding deal_accept deal_send deal_close
deal start written (accept fd) (need, t) = some (need, deal_accept fd (start fd) t)
deal start written (send_buf none buf) (need, t) = some (need, t)
deal start written (send_buf (some p) buf) (need, t) =
    deal_send written p buf (lookup p t.sockets) (need, t)
deal start written (close none) (need, t) = some (need, t)
deal start written (close (some p)) (need, t) = deal_close p (lookup p t.sockets) (need, t)
deal start written other (need, t) = some (need, t)

-- The loop of pairCallback, at most `n` jobs.
unfoldable pub deal_loop :
    (ℕ → Option ℕ) → ℤ → ℕ → List Job → List ℕ × Thread → Option (List ℕ × Thread)
deal_loop start written zero queue s = some s
deal_loop start written (suc n) [] s = some s
deal_loop start written (suc n) (job ∷ rest) (need, t) =
    elim (deal start written job (need, record t { queue = rest })) [
      | none ↦ none
      | some s ↦ deal_loop start written n rest s
    ]

-- The loop over needSendList, for one object.
unfoldable pub flush_one : ℤ → ℕ → Option ServerIo → Thread → Option Thread
flush_one written p none t = none
flush_one written p (some s) t = some (
    if had_send_buf_data s
    then record t { sockets = update p (consume_send_buf written s).1 t.sockets }
    else t)

unfoldable pub flush : ℤ → List ℕ → Thread → Option Thread
flush written [] t = some t
flush written (p ∷ need) t = elim (flush_one written p (lookup p t.sockets) t) [
  | none ↦ none
  | some u ↦ flush written need u
]

has_more : List Job → Bool
has_more [] = false
has_more (job ∷ rest) = true

unfoldable pub wake : Thread → Thread
unfolding has_more
wake t = if has_more t.queue then record t { wakes = t.wakes + 1 } else t

-- `(dealCount++) <= _nPairDealCount` lets one job more pass.
unfoldable pub pair_callback : (ℕ → Option ℕ) → ℤ → Thread → Option Thread
pair_callback start written t =
    elim (deal_loop start written (suc t.pair_deal_count) t.queue ([], t)) [
      | none ↦ none
      | some (need, u) ↦ elim (flush written need u) [ none ↦ none | some v ↦ some (wake v) ]
    ]

-- eventCallback, where the socket and its thread are there: whatever the event, the main thread is
-- told.
unfoldable pub event_callback : ℕ → Thread → Thread
event_callback p t = record t { upward = t.upward ++ closed p ∷ [] }

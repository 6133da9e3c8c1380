-- ===== src/ClientThread.antt =====
-- libsocket/ClientSocketIOThread.cpp: a thread that owns the connections to other servers. The main
-- thread pushes jobs on `queue`. A ClientIOSocket pointer is a number, and `sockets` are the objects,
-- which are never deleted; `none` is the use of a pointer that leads to none of them.
-- `start id` is the address of the object that is made for a connection, and `net id` what the system
-- answers to its first attempt. What a socket tells the main thread is in its own record.
pub mod Buffer
pub mod Order
pub mod Drain
use echo_server_cpp.Prelude.{
  ℕ, zero, suc, ◌+◌, Bool, true, false, Option, none, some, List, [], ◌∷◌, ◌++◌, if◌then◌else◌,
}
use echo_server_cpp.Prelude.Assoc.{lookup, update}
use echo_server_cpp.ClientIo.Connection.{
  Connection, make, Attempt, to_connect, expand_send_buf, had_send_buf_data, consume_send_buf,
}

-- threadPackage as this thread receives it; `none` is the null pointer. The address that is connected
-- to is part of what `net` stands for.
pub data Job : Type 0 where
  connect : ℕ → Job
  send_buf : Option ℕ → List ℕ → Job
  other : Job

pub record Thread : Type 0 where
  pub pair_deal_count : ℕ
  pub queue : List Job
  pub sockets : List (ℕ × Connection)
  pub wakes : ℕ

-- asynConnect and asynSend: the job is queued and the thread is woken.
unfoldable pub push : Job → Thread → Thread
push job t = record t { queue = t.queue ++ job ∷ []; wakes = t.wakes + 1 }

-- The `connect` branch of pairCallback.
unfoldable pub deal_connect : ℕ → Attempt → ℕ → Thread → Thread
deal_connect p net id t = record t { sockets = update p (to_connect net (make id)) t.sockets }

-- The send buffer after a packet, and whether the socket goes on needSendList.
unfoldable pub buffer_packet : List ℕ → Connection → Connection × Bool
buffer_packet buf s =
    let (taken, t) = expand_send_buf buf s in
    if taken then (t, true) else ((expand_send_buf buf (consume_send_buf s).1).1, false)

-- The `send_buf` branch of pairCallback, for the object that the pointer leads to.
unfoldable pub deal_send :
    ℕ → List ℕ → Option Connection → List ℕ × Thread → Option (List ℕ × Thread)
unfolding buffer_packet
deal_send p buf none (need, t) = none
deal_send p buf (some s) (need, t) =
    let (s', pushed) = buffer_packet buf s in
    some ((if pushed then need ++ p ∷ [] else need), record t { sockets = update p s' t.sockets })

-- One job of the loop of pairCallback, with needSendList.
unfoldable pub deal : (ℕ → ℕ) → (ℕ → Attempt) → Job → List ℕ × Thread → Option (List ℕ × Thread)
unfolding deal_connect deal_send
deal start net (connect id) (need, t) = some (need, deal_connect (start id) (net id) id t)
deal start net (send_buf none buf) (need, t) = some (need, t)
deal start net (send_buf (some p) buf) (need, t) = deal_send p buf (lookup p t.sockets) (need, t)
deal start net other (need, t) = some (need, t)

-- The loop of pairCallback, at most `n` jobs.
unfoldable pub deal_loop :
    (ℕ → ℕ) → (ℕ → Attempt) → ℕ → List Job → List ℕ × Thread → Option (List ℕ × Thread)
deal_loop start net zero queue s = some s
deal_loop start net (suc n) [] s = some s
deal_loop start net (suc n) (job ∷ rest) (need, t) =
    elim (deal start net job (need, record t { queue = rest })) [
      | none ↦ none
      | some s ↦ deal_loop start net n rest s
    ]

-- The loop over needSendList, for one object.
unfoldable pub flush_one : ℕ → Option Connection → Thread → Option Thread
flush_one p none t = none
flush_one p (some s) t = some (
    if had_send_buf_data s
    then record t { sockets = update p (consume_send_buf s).1 t.sockets }
    else t)

unfoldable pub flush : List ℕ → Thread → Option Thread
flush [] t = some t
flush (p ∷ need) t = elim (flush_one p (lookup p t.sockets) t) [
  | none ↦ none
  | some u ↦ flush need u
]

has_more : List Job → Bool
has_more [] = false
has_more (job ∷ rest) = true

unfoldable pub wake : Thread → Thread
unfolding has_more
wake t = if has_more t.queue then record t { wakes = t.wakes + 1 } else t

-- `(dealCount++) <= _nPairDealCount` lets one job more pass.
unfoldable pub pair_callback : (ℕ → ℕ) → (ℕ → Attempt) → Thread → Option Thread
pair_callback start net t = elim (deal_loop start net (suc t.pair_deal_count) t.queue ([], t)) [
  | none ↦ none
  | some (need, u) ↦ elim (flush need u) [ none ↦ none | some v ↦ some (wake v) ]
]

-- ===== src/ClientSocket.antt =====
-- libsocket/ClientSocket.cpp and AgentServer.cpp: the main thread of the client socket. A
-- ClientIOSocket or an AgentServer is named by the address of its socket; `fds` is the descriptor
-- that a socket has at the time, which its IO thread sets. What the callbacks do, such as sending, is
-- part of their state `A`. `connects` is what is pushed on the queues of the IO threads, in order.
pub mod Agents
pub mod HeartBeat
use echo_server_cpp.Prelude.{
  ℕ, zero, suc, ◌+◌, ◌-◌, ◌%◌, ◌^◌, Bool, true, false, Option, none, some, List, [], ◌∷◌, ◌++◌, ltb,
  leb, take, ◌==◌, if◌then◌else◌,
}
use echo_server_cpp.Prelude.Assoc.{lookup, update, erase}
use echo_server_cpp.Prelude.Results.{Result, ok, throw}
use echo_server_cpp.Stream.{Stream, Thrown}
use echo_server_cpp.Protocol.{ProtocolHead, Heartbeat, read_head, reader, get_template_buf}

-- threadPackage as the main thread receives it; `none` is the null pointer.
pub data Message : Type 0 where
  connect_end : Option ℕ → ℕ → Message
  recv_buf : Option ℕ → List ℕ → Message
  close : Option ℕ → Message
  other : Message

pub record ClientCallback (A : Type 0) : Type 0 where
  pub on_connect_server : ℕ → ℕ → A → A
  pub on_server_recive : ℕ → ProtocolHead → List ℕ → A → A
  pub on_server_close : ℕ → A → A

pub record ClientHub (A : Type 0) : Type 0 where
  pub max_deal_count : ℕ
  pub io_threads : ℕ
  pub next_thread : ℕ
  pub messages : List Message
  pub fds : ℕ → ℕ
  pub servers : List (ℕ × ℕ)
  pub connects : List (ℕ × ℕ)
  pub wake_ups : ℕ
  pub state : A

-- tryHeartBeat, which makes the packet as GET_TEMPLATE_BUF does; `last` is _nLastHeartTime and the
-- difference is one of `unsigned int`. The result is the new time and what is sent.
unfoldable pub try_heart_beat : Bool → List ℕ → ℕ → ℕ → Result Thrown (ℕ × List (List ℕ))
try_heart_beat host buffer now last =
    let due = if last == 0 then true else leb 60 ((now + 2 ^ 32 - last) % 2 ^ 32) in
    if due
    then elim (get_template_buf host buffer (record { len = 0; xyid = 0 })
        (record { timestamp = now })) [
          | throw e ↦ throw e
          | ok (head, bytes) ↦ ok (now, take head.len bytes ∷ [])
        ]
    else ok (last, [])

module _ {A : Type 0} where
  -- asynConnect, where the IO thread was woken: the turn goes on.
  unfoldable pub connect : ℕ → ClientHub A → ClientHub A
  connect id s = record s {
    connects = s.connects ++ (s.next_thread, id) ∷ [];
    next_thread = if leb s.io_threads (s.next_thread + 1) then 0 else s.next_thread + 1;
  }

  -- asynConnectEnd, asynRecive and asynClose.
  unfoldable pub push_message : Message → ClientHub A → ClientHub A
  push_message m s = record s { messages = s.messages ++ m ∷ []; wake_ups = s.wake_ups + 1 }

  unfoldable pub get_server : ℕ → ClientHub A → Option ℕ
  get_server socket s = lookup (s.fds socket) s.servers

  unfoldable pub delete_server : ℕ → ClientHub A → ClientHub A
  delete_server agent s = record s { servers = erase (s.fds agent) s.servers }

module _ {A : Type 0} (cb : ClientCallback A) where
  unfoldable pub deal_connect_end : ℕ → ℕ → Option ℕ → ClientHub A → ClientHub A
  deal_connect_end socket flag (some agent) s = s
  deal_connect_end socket flag none s = record s {
    servers = update (s.fds socket) socket s.servers;
    state = cb.on_connect_server socket flag s.state;
  }

  unfoldable pub deal_server_head :
      ℕ → List ℕ → Result Thrown (ProtocolHead × Stream) → ClientHub A → ClientHub A
  deal_server_head agent buf (throw e) s = s
  deal_server_head agent buf (ok (head, bis)) s = record s {
    state = cb.on_server_recive agent head buf s.state;
  }

  unfoldable pub deal_recive : Bool → List ℕ → Option ℕ → ClientHub A → ClientHub A
  unfolding deal_server_head
  deal_recive host buf none s = s
  deal_recive host buf (some agent) s = deal_server_head agent buf (read_head host (reader buf)) s

  unfoldable pub deal_server_close : Option ℕ → ClientHub A → ClientHub A
  unfolding delete_server
  deal_server_close none s = s
  deal_server_close (some agent) s =
      delete_server agent (record s { state = cb.on_server_close agent s.state })

  -- One package of the loop of pairCallback.
  unfoldable pub deal_message : Bool → Message → ClientHub A → ClientHub A
  unfolding deal_connect_end deal_recive deal_server_close
  deal_message host (connect_end none flag) s = s
  deal_message host (connect_end (some socket) flag) s =
      deal_connect_end socket flag (get_server socket s) s
  deal_message host (recv_buf none buf) s = s
  deal_message host (recv_buf (some socket) buf) s = deal_recive host buf (get_server socket s) s
  deal_message host (close none) s = s
  deal_message host (close (some socket)) s = deal_server_close (get_server socket s) s
  deal_message host other s = s

  -- The loop, at most `n` packages.
  unfoldable pub deal_messages : Bool → ℕ → List Message → ClientHub A → ClientHub A
  deal_messages host zero queue s = s
  deal_messages host (suc n) [] s = s
  deal_messages host (suc n) (m ∷ rest) s =
      deal_messages host n rest (deal_message host m (record s { messages = rest }))

  is_waiting : List Message → Bool
  is_waiting [] = false
  is_waiting (m ∷ rest) = true

  -- `(dealCount++) <= _nPairDealCount` lets one package more pass.
  unfoldable pub client_pair_callback : Bool → ClientHub A → ClientHub A
  unfolding is_waiting
  client_pair_callback host s =
      let t = deal_messages host (suc s.max_deal_count) s.messages s in
      if is_waiting t.messages then record t { wake_ups = t.wake_ups + 1 } else t

-- ===== src/ServerSocket.antt =====
-- libsocket/ServerSocket.cpp and AgentClient.cpp: the main thread of the server. The IO threads
-- push packages on `queue`; what the main thread pushes on their queues is `outbox`, in order.
-- A socket pointer is the record of what the main thread reads through it, `none` is the null
-- pointer. The result `none` of an operation is a crash: it follows a null pointer, or one to an
-- agent that was deleted.
pub mod Crash
pub mod Queue
pub mod Agents
pub mod Accept
pub mod Lifecycle
pub mod Turns
use echo_server_cpp.Prelude.{
  ℕ, zero, suc, ◌+◌, Bool, true, false, Option, none, some, List, [], ◌∷◌, ◌++◌, map, length, ltb,
  leb, if◌then◌else◌,
}
use echo_server_cpp.Prelude.Int.{ℤ, pos, negsuc, ◌+ℤ◌, ◌-ℤ◌}
use echo_server_cpp.Prelude.Assoc.{lookup, update, erase}
use echo_server_cpp.Prelude.Results.{Result, ok, throw}
use echo_server_cpp.Stream.{Stream, Thrown}
use echo_server_cpp.Protocol.{ProtocolHead, read_head, reader}

pub record Socket : Type 0 where
  pub id : ℕ
  pub fd : ℕ
  pub thread : ℕ

-- threadPackage as the main thread receives it.
pub data Package : Type 0 where
  accept : Option Socket → Package
  recv_buf : Option Socket → List ℕ → Package
  close : Option Socket → Package
  other : Package

-- What the main thread asks of an IO thread.
pub data Order : Type 0 where
  accept_fd : ℕ → Order
  send_buf : Socket → List ℕ → Order
  close_socket : Socket → Order

-- ServerSocketCallBack over the state `A` of the application. A callback may send on the agent that
-- it is given; the list holds the buffers, in order. It does not close agents.
pub record CallBack (A : Type 0) : Type 0 where
  pub on_accept_client : A → A
  pub on_client_recive : ProtocolHead → List ℕ → A → A × List (List ℕ)
  pub on_client_close : A → A
  pub on_timer : A → A

pub record Hub (A : Type 0) : Type 0 where
  pub max_sockets : ℤ
  pub now_socket_count : ℤ
  pub pair_deal_count : ℕ
  pub thread_count : ℕ
  pub current_thread : ℕ
  pub queue : List Package
  pub agents : List (ℕ × Socket)
  pub outbox : List (ℕ × Order)
  pub wakes : ℕ
  pub app : A

is_negative : ℤ → Bool
is_negative (pos n) = false
is_negative (negsuc n) = true

has_more : List Package → Bool
has_more [] = false
has_more (p ∷ rest) = true

module _ {A : Type 0} where
  -- asynAccept, asynRecive and asynClose: the package is queued and the main thread is woken.
  unfoldable pub push : Package → Hub A → Hub A
  push p s = record s { queue = s.queue ++ p ∷ []; wakes = s.wakes + 1 }

  -- acceptCallback: `fd` is the result of accept as an `unsigned long long`, which is never below 0.
  unfoldable pub accept_callback : ℕ → Hub A → Hub A
  unfolding is_negative
  accept_callback fd s =
      let next : ℕ = s.current_thread + 1 in
      if is_negative (s.now_socket_count -ℤ s.max_sockets)
      then record s {
        outbox = s.outbox ++ (s.current_thread, accept_fd fd) ∷ [];
        current_thread = if leb s.thread_count next then 0 else next;
      }
      else s

  unfoldable pub get_agent : Socket → Hub A → Option Socket
  get_agent socket s = lookup socket.fd s.agents

  unfoldable pub delete_agent : Socket → Hub A → Hub A
  delete_agent agent s = record s { agents = erase agent.fd s.agents }

  -- AgentClient::getSocket. An agent is alive while the map has it under the descriptor of its socket:
  -- then it is deleted, and read no more.
  unfoldable pub get_socket : Socket → Hub A → Option Socket
  unfolding get_agent
  get_socket agent s = get_agent agent s

  order : ℕ → Order → Hub A → Hub A
  order thread o s = record s { outbox = s.outbox ++ (thread, o) ∷ [] }

  -- AgentClient::send, for each buffer.
  unfoldable pub send_all : Socket → List (List ℕ) → Hub A → Hub A
  unfolding order
  send_all agent [] s = s
  send_all agent (buf ∷ bufs) s = send_all agent bufs (order agent.thread (send_buf agent buf) s)

module _ {A : Type 0} (cb : CallBack A) where
  deal_accept : Socket → Option Socket → Hub A → Hub A
  deal_accept socket (some agent) s = s
  deal_accept socket none s = record s {
    now_socket_count = s.now_socket_count +ℤ pos 1;
    agents = update socket.fd socket s.agents;
    app = cb.on_accept_client s.app;
  }

  -- The socket is read through the agent once more after deleteAgent.
  unfoldable pub close_by_logic : Socket → Hub A → Option (Hub A)
  unfolding delete_agent get_socket order
  close_by_logic agent s =
      let t = record s {
        now_socket_count = s.now_socket_count -ℤ pos 1;
        app = cb.on_client_close s.app;
      } in
      let u = delete_agent agent t in
      elim (get_socket agent u) [
        | none ↦ none
        | some socket ↦ some (order socket.thread (close_socket socket) u)
      ]

  deal_head : Socket → List ℕ → Result Thrown (ProtocolHead × Stream) → Hub A → Option (Hub A)
  deal_head agent buf (throw e) s = close_by_logic agent s
  deal_head agent buf (ok (head, bis)) s =
      let (app, sends) = cb.on_client_recive head buf s.app in
      some (send_all agent sends (record s { app = app }))

  deal_recv : Bool → List ℕ → Option Socket → Hub A → Option (Hub A)
  unfolding deal_head
  deal_recv host buf none s = none
  deal_recv host buf (some agent) s = deal_head agent buf (read_head host (reader buf)) s

  close_agent : Option Socket → Hub A → Hub A
  close_agent none s = s
  close_agent (some agent) s = delete_agent agent (record s { app = cb.on_client_close s.app })

  deal_close : Socket → Hub A → Hub A
  unfolding close_agent order
  deal_close socket s =
      let t = record s { now_socket_count = s.now_socket_count -ℤ pos 1 } in
      order socket.thread (close_socket socket) (close_agent (get_agent socket t) t)

  -- One package of the loop of pairCallback.
  unfoldable pub deal : Bool → Package → Hub A → Option (Hub A)
  unfolding deal_accept deal_recv deal_close
  deal host (accept none) s = some s
  deal host (accept (some socket)) s = some (deal_accept socket (get_agent socket s) s)
  deal host (recv_buf none buf) s = some s
  deal host (recv_buf (some socket) buf) s = deal_recv host buf (get_agent socket s) s
  deal host (close none) s = some s
  deal host (close (some socket)) s = some (deal_close socket s)
  deal host other s = some s

  -- The loop, at most `n` packages; what the queue holds is looked at before each.
  unfoldable pub deal_loop : Bool → ℕ → List Package → Hub A → Option (Hub A)
  deal_loop host zero queue s = some s
  deal_loop host (suc n) [] s = some s
  deal_loop host (suc n) (p ∷ rest) s = elim (deal host p (record s { queue = rest })) [
    | none ↦ none
    | some t ↦ deal_loop host n rest t
  ]

  -- `(dealCount++) <= _nPairDealCount` lets one package more pass.
  unfoldable pub pair_callback : Bool → Hub A → Option (Hub A)
  unfolding has_more
  pair_callback host s = elim (deal_loop host (suc s.pair_deal_count) s.queue s) [
    | none ↦ none
    | some t ↦ some (if has_more t.queue then record t { wakes = t.wakes + 1 } else t)
  ]

  unfoldable pub timer_callback : Hub A → Hub A
  timer_callback s = record s { app = cb.on_timer s.app }

-- ===== src/Tests/Main.antt =====
-- The main thread and the echo server at concrete inputs.
use echo_server_cpp.Prelude.{
  concat, ◌≡◌, refl, true, none, some, List, [], ◌∷◌, ◌++◌, arith, length,
}
use echo_server_cpp.Prelude.Int.{pos, ◌+ℤ◌}
use echo_server_cpp.Prelude.Assoc.{lookup, update}
use echo_server_cpp.Protocol.{Heartbeat}
use echo_server_cpp.SocketBase.{connected, not_web_socket}
use echo_server_cpp.ServerIo
use echo_server_cpp.ServerIo.{ServerIo, done}
use echo_server_cpp.ServerIo.Receive
use echo_server_cpp.ServerSocket
use echo_server_cpp.ServerSocket.{
  Socket, Package, recv_buf, accept, close, Hub, get_agent, deal, deal_loop, pair_callback,
  accept_callback,
}
use echo_server_cpp.ServerSocket.Agents.{Consistent, deal-close_twice}
use echo_server_cpp.EchoServer
use echo_server_cpp.EchoServer.{Server, on_client_recive, callbacks}
use echo_server_cpp.EchoServer.EndToEnd.{beats, recv-heartbeats}

abbrev client : Socket
client = record { id = 1; fd = 9; thread = 0 }

abbrev stranger : Socket
stranger = record { id = 2; fd = 11; thread = 1 }

-- One client is connected, and it sent two heartbeats.
abbrev three : List Heartbeat
three = record { timestamp = 5 } ∷ record { timestamp = 6 } ∷ record { timestamp = 7 } ∷ []

abbrev hub : Hub Server
hub = record {
  max_sockets = pos 10;
  now_socket_count = pos 1;
  pair_deal_count = 1;
  thread_count = 2;
  current_thread = 0;
  queue = close none ∷ accept none ∷ close none ∷ [];
  agents = (9, client) ∷ [];
  outbox = [];
  wakes = 0;
  app = EchoServer.make;
}

abbrev line : ServerIo
line = record (ServerIo.make 9) { status = connected; ws = not_web_socket }

recv-heartbeats_example :
    Receive.recv (λ t. []) (pos 0) true 9 (concat (beats three)) line
    ≡ done (pos 0, beats three, record line { recv_buf = [] })
unfolding ServerIo.make
recv-heartbeats_example =
    recv-heartbeats (λ t. []) (pos 0) true 9 line (record { timestamp = 5 })
      (record { timestamp = 6 } ∷ record { timestamp = 7 } ∷ []) refl refl refl (ground arith)

known : get_agent client hub ≡ some client
unfolding get_agent lookup
known = refl

unknown : get_agent stranger hub ≡ none
unfolding get_agent lookup
unknown = refl

hub-Consistent : Consistent hub
unfolding lookup
hub-Consistent = record { counted = refl; keys = (refl, refl, tt) }

abbrev joined : Hub Server
joined = record hub {
  now_socket_count = pos 2;
  agents = (9, client) ∷ (11, stranger) ∷ [];
  app = EchoServer.on_accept_client EchoServer.make;
}

joins : deal (callbacks true 5) true (accept (some stranger)) hub ≡ some joined
unfolding deal get_agent lookup update ◌+ℤ◌ callbacks
joins = refl

deal-close_twice_example :
    (t : Hub Server) × (deal (callbacks true 5) true (close (some stranger)) hub ≡ some t)
    × (t.now_socket_count +ℤ pos 1 ≡ pos (length t.agents))
    × (t.outbox ≡ [] ++ (1, ServerSocket.close_socket stranger) ∷ [])
deal-close_twice_example =
    deal-close_twice (callbacks true 5) true stranger hub hub-Consistent unknown

abbrev settled : Hub Server
settled = record hub { queue = close none ∷ []; wakes = 1 }

-- ===== src/Tests/Turns.antt =====
-- The main thread of the server over several calls, at concrete inputs.
use echo_server_cpp.Prelude.{concat, ◌≡◌, refl, true, some, [], ◌∷◌, arith}
use echo_server_cpp.Prelude.Int.{pos}
use echo_server_cpp.Prelude.Assoc.{lookup}
use echo_server_cpp.ServerSocket.{Socket, recv_buf, accept, close, Hub, push, pair_callback}
use echo_server_cpp.ServerSocket.Lifecycle.{after_all, known}
use echo_server_cpp.ServerSocket.Turns.{here, next, pushes, Sound, reached-turn, run, run-empties}
use echo_server_cpp.EchoServer
use echo_server_cpp.EchoServer.{Server, callbacks}
use echo_server_cpp.Prelude.{ℕ, Option, List, none, ◌+◌, ◌++◌}
use echo_server_cpp.Protocol.{Heartbeat}
use echo_server_cpp.SocketBase.{connected, not_web_socket}
use echo_server_cpp.ServerIo.{ServerIo}
use echo_server_cpp.ServerSocket.{get_agent, deal_loop}
use echo_server_cpp.ServerIo.{done}
use echo_server_cpp.ServerIo.Receive.{recv}
use echo_server_cpp.ClientIo.{feed}
use echo_server_cpp.Prelude.{false}
use echo_server_cpp.EchoServer.EndToEnd.{beats}
use echo_server_cpp.Prelude.{map, length, ◌≤◌}
use echo_server_cpp.Prelude.Bytes.{bytes_le}
use echo_server_cpp.Stream.Words.{wire}
use echo_server_cpp.Protocol.RoundTrip.{head_bytes, heartbeat_packet}
use echo_server_cpp.SocketBase.{is_web_socket, max_ws_tmp_buffer_size}
use echo_server_cpp.ServerIo.Frame.{unmask}
use echo_server_cpp.ServerIo.FrameLaws.{client_frame, frame_length}
use echo_server_cpp.IoThread.Payload.{payload}
use echo_server_cpp.EchoServer.Websocket.{received, web_round_trip}
use echo_server_cpp.EchoServer.Conversation.{packages, round_trip}
use echo_server_cpp.EchoServer.Answers.{jobs_for, replies}
use echo_server_cpp.IoThread.{Thread}
use echo_server_cpp.IoThread.Drain

abbrev client : Socket
client = record { id = 1; fd = 9; thread = 0 }

abbrev stranger : Socket
stranger = record { id = 2; fd = 11; thread = 1 }

-- One client is connected; another one connects and sends a heartbeat, and the first one leaves.
abbrev hub : Hub Server
hub = record {
  max_sockets = pos 10;
  now_socket_count = pos 1;
  pair_deal_count = 1;
  thread_count = 2;
  current_thread = 0;
  queue =
      accept (some stranger)
      ∷ recv_buf (some stranger) (8 ∷ 0 ∷ 1 ∷ 0 ∷ 5 ∷ 0 ∷ 0 ∷ 0 ∷ [])
      ∷ close (some client)
      ∷ [];
  agents = (9, client) ∷ [];
  outbox = [];
  wakes = 0;
  app = EchoServer.make;
}

hub-Sound : Sound hub
unfolding lookup
hub-Sound = record {
  consistent = record { counted = refl; keys = (refl, refl, tt) };
  orderly = (refl, ((refl, omega arith), (refl, tt)));
}

reached-turn_example :
    Sound (push (close (some stranger)) hub)
    × ((u : Hub Server) × (pair_callback (callbacks true 5) true (push (close (some stranger)) hub)
          ≡ some u)
        × Sound u)
unfolding lookup
reached-turn_example =
    reached-turn (callbacks true 5) true hub (push (close (some stranger)) hub) hub-Sound
      (next here (pushes hub (close (some stranger)) refl))

run-empties_example :
    (t : Hub Server) × (run (callbacks true 5) true 3 hub ≡ some t)
    × (t.queue ≡ [])
    × Sound t
    × (known t ≡ after_all hub.queue (known hub))
run-empties_example = run-empties (callbacks true 5) true 3 hub (omega arith) hub-Sound

abbrev line : ServerIo
line = record {
  status = connected;
  fd = 9;
  ws = not_web_socket;
  bev = true;
  recv_buf = [];
  tmp = [];
  send_buf = [];
  sent = [];
}

-- The IO thread that has the connection of the client at the address 105.
abbrev io : Thread
io = record { pair_deal_count = 1; queue = []; sockets = (105, line) ∷ []; upward = []; wakes = 0 }

abbrev two : List Heartbeat
two = record { timestamp = 5 } ∷ record { timestamp = 6 } ∷ []

abbrev address : Socket → ℕ
address a = 104 + a.id

abbrev start : ℕ → Option ℕ
start fd = none

round_trip_example :
    (packets : List (List ℕ)) × (t : Hub Server) × (io' : Thread) × (c' : ServerIo) × (recv
        (λ m. [])
        (pos 0)
        true
        9
        (concat (beats two))
        line
      ≡ done (pos 0, packets, record line { recv_buf = [] }))
    × (deal_loop (callbacks true 1700000000) true 5 (packages client packets) hub ≡ some t)
    × (Drain.run 2 start (pos 0) (record io { queue = jobs_for address 0 t.outbox }) ≡ some io')
    × (io'.queue ≡ [])
    × (lookup 105 io'.sockets ≡ some c')
    × (concat c'.sent ≡ concat line.sent ++ concat (replies 1700000000 two))
    × (feed false 9 [] (replies 1700000000 two) ≡ some (replies 1700000000 two, []))
unfolding get_agent lookup
round_trip_example =
    round_trip (λ m. []) (pos 0) true false 1700000000 5 9 client client (record { timestamp = 5 })
      (record { timestamp = 6 } ∷ []) hub address start io line (replies 1700000000 two)
      (record { status = refl; plain = refl; room = omega arith }) refl refl refl refl refl
      (omega arith) (omega arith) refl

-- The same client on a websocket.
abbrev web : ServerIo
web = record line { ws = is_web_socket }

abbrev key : List ℕ
key = 1 ∷ 2 ∷ 3 ∷ 4 ∷ []

abbrev web_io : Thread
web_io = record io { sockets = (105, received key two web) ∷ [] }

two-fits : length (client_frame key (concat (beats two))) ≤ max_ws_tmp_buffer_size
unfolding client_frame unmask frame_length heartbeat_packet head_bytes wire bytes_le
two-fits = ground arith

web_round_trip_example :
    (packets : List (List ℕ)) × (t : Hub Server) × (io' : Thread) × (c' : ServerIo) × (recv
        (λ m. [])
        (pos 0)
        true
        9
        (client_frame key (concat (beats two)))
        web
      ≡ done (pos 0, packets, received key two web))
    × (deal_loop (callbacks true 1700000000) true 5 (packages client packets) hub ≡ some t)
    × (Drain.run 2 start (pos 0) (record web_io { queue = jobs_for address 0 t.outbox }) ≡ some io')
    × (io'.queue ≡ [])
    × (lookup 105 io'.sockets ≡ some c')
    × (concat (map payload c'.sent)
        ≡ concat (map payload web.sent) ++ concat (replies 1700000000 two))
unfolding get_agent lookup
web_round_trip_example =
    web_round_trip (λ m. []) (pos 0) true 1700000000 5 9 client client key
      (record { timestamp = 5 }) (record { timestamp = 6 } ∷ []) hub address start web_io web
      (record { status = refl; web = refl; bev = refl; room = omega arith }) refl refl refl refl
      refl refl (omega arith, (omega arith, (omega arith, (omega arith, tt)))) two-fits
      (omega arith) (omega arith)

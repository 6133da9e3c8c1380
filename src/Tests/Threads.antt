-- ===== src/Tests/Threads.antt =====
-- Websockets of the server and the IO thread of the client at concrete inputs.
use echo_server_cpp.Prelude.{
  concat, ℕ, ◌≡◌, refl, map, Option, none, true, some, [], ◌∷◌, ◌++◌, arith,
}
use echo_server_cpp.Prelude.Int.{pos}
use echo_server_cpp.Prelude.Assoc.{lookup}
use echo_server_cpp.SocketBase.{connected, is_web_socket}
use echo_server_cpp.ServerIo
use echo_server_cpp.ServerIo.{ServerIo}
use echo_server_cpp.IoThread
use echo_server_cpp.IoThread.Open
use echo_server_cpp.IoThread.Drain
use echo_server_cpp.IoThread.Payload.{payload}
use echo_server_cpp.IoThread.Frames.{run-frames}
use echo_server_cpp.ClientIo.Connection
use echo_server_cpp.ClientIo.Connection.{Connection, Attempt}
use echo_server_cpp.ClientThread.{connect, send_buf, Thread}
use echo_server_cpp.ClientThread.Order.{all_bytes_to}
use echo_server_cpp.ClientThread.Drain.{run, run-sends}

abbrev web : ServerIo
web = record (ServerIo.make 9) { status = connected; ws = is_web_socket }

abbrev nowhere : ℕ → Option ℕ
nowhere fd = none

-- Two packets for a websocket are queued.
abbrev frames : IoThread.Thread
frames = record {
  pair_deal_count = 1;
  queue =
      IoThread.send_buf (some 5) (1 ∷ 2 ∷ [])
      ∷ IoThread.send_buf none (4 ∷ [])
      ∷ IoThread.send_buf (some 5) (3 ∷ [])
      ∷ [];
  sockets = (5, web) ∷ [];
  upward = [];
  wakes = 0;
}

run-frames_example :
    (t' : IoThread.Thread) × (s' : ServerIo) × (Drain.run 2 nowhere (pos 0) frames ≡ some t')
    × (t'.queue ≡ [])
    × (lookup 5 t'.sockets ≡ some s')
    × (concat (map payload s'.sent)
        ≡ concat (map payload web.sent) ++ Open.all_bytes_to 5 frames.queue)
    × (s'.send_buf ≡ [])
unfolding lookup ServerIo.make
run-frames_example =
    run-frames nowhere (pos 0) 5 2 web frames (omega arith) ((web, refl), (tt, ((web, refl), tt)))
      (omega arith, (tt, (omega arith, tt))) refl
      (record { status = refl; web = refl; bev = refl; room = omega arith }) refl

-- A socket with a bufferevent; two packets for it are queued, and another connection between them.
abbrev peer : Connection
peer = record (Connection.make 7) { fd = 4; bevs = 1 }

abbrev answers : ℕ → Attempt
answers id = record {
  new_fd = 6;
  connects = true;
  unblocks = true;
  makes_bev = true;
  enables = true;
}

abbrev thread : Thread
thread = record {
  pair_deal_count = 1;
  queue = send_buf (some 7) (1 ∷ 2 ∷ []) ∷ connect 8 ∷ send_buf (some 7) (3 ∷ []) ∷ [];
  sockets = (7, peer) ∷ [];
  wakes = 0;
}

run-sends_example :
    (t' : Thread) × (s' : Connection) × (run 2 (λ id. id) answers thread ≡ some t')
    × (t'.queue ≡ [])
    × (lookup 7 t'.sockets ≡ some s')
    × (concat s'.sent ≡ concat peer.sent ++ all_bytes_to 7 thread.queue)
    × (s'.send_buf ≡ [])
unfolding lookup
run-sends_example =
    run-sends (λ id. id) answers 7 2 peer thread (omega arith)
      (
        ((peer, refl), omega arith),
        ((λ e. absurd (omega (arith, e))), (((peer, refl), omega arith), tt)),
      )
      refl (record { bev = omega arith; room = omega arith }) refl

-- ===== src/EchoServer.antt =====
-- EchoServer/Server.cpp: the application behind the callbacks of the main thread.
-- `now` is the result of time(NULL); the counters do not overflow.
pub mod Echo
pub mod EndToEnd
pub mod Answers
pub mod Conversation
pub mod Websocket
use echo_server_cpp.Prelude.{
  ℕ, ◌+◌, ◌%◌, ◌^◌, Bool, List, [], ◌∷◌, take, replicate, ◌==◌, if◌then◌else◌,
}
use echo_server_cpp.Prelude.Int.{ℤ, pos, ◌+ℤ◌, ◌-ℤ◌}
use echo_server_cpp.Prelude.Results.{Result, ok, throw}
use echo_server_cpp.Stream.{Stream, Thrown}
use echo_server_cpp.Protocol.{
  ProtocolHead, Heartbeat, xyid_heartbeat, sizeof_heartbeat, readxy, get_template_buf,
}
use echo_server_cpp.Memory.Manager.{fix_size}
use echo_server_cpp.ServerSocket.{CallBack}

pub record Server : Type 0 where
  pub socket_count : ℤ
  pub accept_count : ℤ
  pub close_count : ℤ
  pub recive_count : ℤ
  pub send_count : ℤ

unfoldable pub make : Server
make = record {
  socket_count = pos 0;
  accept_count = pos 0;
  close_count = pos 0;
  recive_count = pos 0;
  send_count = pos 0;
}

unfoldable pub on_accept_client : Server → Server
on_accept_client s = record s {
  accept_count = s.accept_count +ℤ pos 1;
  socket_count = s.socket_count +ℤ pos 1;
}

-- The block that `__new(sizeof(res))` returns, zeroed by its pool.
unfoldable pub send_block : List ℕ
unfolding fix_size
send_block = replicate (fix_size sizeof_heartbeat) 0

-- The buffer is built in the block, and `head.len` bytes of it are sent.
answer : Result Thrown (ProtocolHead × List ℕ) → Server → Server × List (List ℕ)
answer (throw e) s = (s, [])
answer (ok (head, bytes)) s =
    (record s { send_count = s.send_count +ℤ pos 1 }, take head.len bytes ∷ [])

on_heartbeat :
    Bool → ℕ → ProtocolHead → Result Thrown (Heartbeat × Stream) → Server → Server × List (List ℕ)
unfolding answer send_block
on_heartbeat host now head (throw e) s = (s, [])
on_heartbeat host now head (ok req) s =
    answer (get_template_buf host send_block head (record { timestamp = now % 2 ^ 32 })) s

unfoldable pub on_client_recive : Bool → ℕ → ProtocolHead → List ℕ → Server → Server × List (List ℕ)
unfolding on_heartbeat
on_client_recive host now head buf s =
    let t = record s { recive_count = s.recive_count +ℤ pos 1 } in
    if head.xyid == xyid_heartbeat then on_heartbeat host now head (readxy host buf) t else (t, [])

unfoldable pub on_client_close : Server → Server
on_client_close s = record s {
  close_count = s.close_count +ℤ pos 1;
  socket_count = s.socket_count -ℤ pos 1;
}

unfoldable pub on_timer : Server → Server
on_timer s = record s {
  accept_count = pos 0;
  close_count = pos 0;
  recive_count = pos 0;
  send_count = pos 0;
}

-- The server as the callbacks of the main thread.
unfoldable pub callbacks : Bool → ℕ → CallBack Server
callbacks host now = record {
  on_accept_client = on_accept_client;
  on_client_recive = on_client_recive host now;
  on_client_close = on_client_close;
  on_timer = on_timer;
}

-- ===== src/Tests/Client.antt =====
-- The connection of the client at concrete inputs.
use echo_server_cpp.Prelude.{◌<◌, ◌≡◌, refl, true, false, some, [], ◌∷◌, ◌++◌, arith}
use echo_server_cpp.Prelude.Bytes.{bytes_le}
use echo_server_cpp.Stream.Words.{wire}
use echo_server_cpp.Protocol.RoundTrip.{head_bytes}
use echo_server_cpp.Prelude.{ℕ, ◌+◌}
use echo_server_cpp.ClientIo.Framing.{IsPacket}
use echo_server_cpp.ClientIo.Connection
use echo_server_cpp.ClientIo.Connection.{
  Connection, Attempt, received, closed, connect_end, eof, to_connect, reconnect_callback,
  event_callback, read_callback,
}
use echo_server_cpp.ClientIo.Connection.Lifecycle.{survives, Others}
use echo_server_cpp.ClientIo.Connection.Stale.{read_callback-stale}
use echo_server_cpp.ClientSocket.{ClientCallback, ClientHub}

abbrev success : Attempt
success = record { new_fd = 12; connects = true; unblocks = true; makes_bev = true; enables = true }

-- The bufferevents of lost connections report only what the code ignores.
abbrev ignored : Others
ignored = record { reports = survives; brings = λ chunk. false }

-- The connection is lost and made again, and the old bufferevent reports something.
abbrev once : Connection
once = event_callback eof (to_connect success (Connection.make 7))

-- An old bufferevent that reports all that it can.
abbrev loud : Others
loud = record { reports = λ event. true; brings = λ chunk. false }

abbrev open_one : Connection
open_one = to_connect success (Connection.make 7)

-- Two bytes of a packet have come.
abbrev half : Connection
half = record (Connection.make 7) {
  fd = 12;
  recv_buf = 5 ∷ 0 ∷ [];
  bevs = 1;
  upward = connect_end 0 ∷ [];
}

mixed-IsPacket : IsPacket (5 ∷ 0 ∷ 7 ∷ 0 ∷ 99 ∷ [])
unfolding head_bytes wire bytes_le
mixed-IsPacket = record {
  head = record { len = 5; xyid = 7 };
  body = 99 ∷ [];
  shape = refl;
  counts = refl;
  len_fits = omega arith;
  xyid_fits = omega arith;
}

read_callback-stale_example :
    (t : Connection) × (read_callback true 2
        (7 ∷ 0 ∷ 99 ∷ [])
        (reconnect_callback success (event_callback eof half))
      ≡ some t)
    × (t.upward ≡ half.upward ++ closed ∷ connect_end 0 ∷ received (5 ∷ 0 ∷ 7 ∷ 0 ∷ 99 ∷ []) ∷ [])
    × (3 < 5)
    × (2 < 5)
    × (t.recv_buf ≡ [])
read_callback-stale_example =
    read_callback-stale true 2 eof success (7 ∷ 0 ∷ 99 ∷ []) half refl refl (omega arith)
      (omega arith) mixed-IsPacket (omega arith)

-- The application counts its connections.
abbrev counting : ClientCallback ℕ
counting = record {
  on_connect_server = λ agent flag n. n + 1;
  on_server_recive = λ agent head buf n. n;
  on_server_close = λ agent n. n;
}

abbrev empty_hub : ClientHub ℕ
empty_hub = record {
  max_deal_count = 10;
  io_threads = 2;
  next_thread = 0;
  messages = [];
  fds = λ socket. 12;
  servers = [];
  connects = [];
  wake_ups = 0;
  state = 0;
}

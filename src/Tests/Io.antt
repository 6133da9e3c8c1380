-- ===== src/Tests/Io.antt =====
-- The IO threads of the server and the connections of the client at concrete inputs.
use echo_server_cpp.Prelude.{
  concat, ℕ, ◌+◌, ◌≡◌, refl, true, Option, none, some, [], ◌∷◌, ◌++◌, arith, take,
}
use echo_server_cpp.Prelude.Int.{pos}
use echo_server_cpp.Prelude.Assoc.{lookup, update}
use echo_server_cpp.SocketBase.{connected, not_web_socket}
use echo_server_cpp.ServerIo
use echo_server_cpp.ServerIo.{ServerIo, expand_send_buf, consume_send_buf, had_send_buf_data}
use echo_server_cpp.IoThread.{
  accept, send_buf, close, accepted, Thread, deal_accept, buffer_packet, deal_send, deal, deal_loop,
  flush_one, flush, wake, pair_callback,
}
use echo_server_cpp.IoThread.Buffer.{Sends}
use echo_server_cpp.IoThread.Open.{all_bytes_to}
use echo_server_cpp.IoThread.Order.{pair_callback-bytes}
use echo_server_cpp.IoThread.Drain.{run, run-drains}
use echo_server_cpp.IoThread.Deleted.{pair_callback-deleted}

abbrev line : ServerIo
line = record {
  status = connected;
  fd = 9;
  ws = not_web_socket;
  bev = true;
  recv_buf = [];
  tmp = [];
  send_buf = [];
  sent = [];
}

abbrev line-Sends : Sends line
line-Sends = record { status = refl; plain = refl; room = omega arith }

abbrev start : ℕ → Option ℕ
start fd = some (fd + 100)

-- One connection is open, two packets for it are queued, and a new connection between them.
abbrev thread : Thread
thread = record {
  pair_deal_count = 1;
  queue = send_buf (some 5) (1 ∷ 2 ∷ []) ∷ accept 11 ∷ send_buf (some 5) (3 ∷ []) ∷ [];
  sockets = (5, line) ∷ [];
  upward = [];
  wakes = 0;
}

abbrev later : Thread
later = record {
  pair_deal_count = 1;
  queue = send_buf (some 5) (3 ∷ []) ∷ [];
  sockets =
      (5, record line { sent = (1 ∷ 2 ∷ []) ∷ [] })
      ∷ (111, record (ServerIo.make 11) { status = connected })
      ∷ [];
  upward = accepted 111 ∷ [];
  wakes = 1;
}

pair_callback-bytes_example :
    (s' : ServerIo) × (lookup 5 later.sockets ≡ some s')
    × (concat s'.sent ≡ concat line.sent ++ all_bytes_to 5 (take 2 thread.queue))
    × (s'.send_buf ≡ [])
    × Sends s'
unfolding pair_callback deal_loop deal deal_accept deal_send buffer_packet flush flush_one wake
    lookup update expand_send_buf consume_send_buf had_send_buf_data
pair_callback-bytes_example =
    pair_callback-bytes start (pos 0) 5 line thread later refl line-Sends refl
      (omega arith, ((λ e. cc e), tt)) refl

run-drains_example :
    (t' : Thread) × (s' : ServerIo) × (run 2 start (pos 0) thread ≡ some t')
    × (t'.queue ≡ [])
    × (lookup 5 t'.sockets ≡ some s')
    × (concat s'.sent ≡ concat line.sent ++ all_bytes_to 5 thread.queue)
    × (s'.send_buf ≡ [])
unfolding lookup
run-drains_example =
    run-drains start (pos 0) 5 2 line thread (omega arith) ((line, refl), (tt, ((line, refl), tt)))
      (omega arith, ((λ e. cc e), (omega arith, tt))) refl line-Sends refl

-- A packet and the close of the connection in one call.
abbrev closing : Thread
closing = record thread { queue = send_buf (some 5) (1 ∷ []) ∷ close (some 5) ∷ [] }

pair_callback-deleted_example : pair_callback start (pos 0) closing ≡ none
unfolding lookup expand_send_buf
pair_callback-deleted_example =
    pair_callback-deleted start (pos 0) 5 (1 ∷ []) line (record line { send_buf = 1 ∷ [] }) closing
      refl refl (omega arith) refl

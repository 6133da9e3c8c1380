-- ===== src/IoThread/Frames.antt =====
-- libsocket/ServerSocketIOThread.cpp: what the peer of a websocket reads.
use echo_server_cpp.Prelude.{
  concat, ℕ, suc, ◌*◌, ◌≤◌, ◌≡◌, Option, some, List, [], ◌++◌, append-nil, length, map,
}
use echo_server_cpp.Prelude.Int.{ℤ}
use echo_server_cpp.Prelude.Bytes.{All}
use echo_server_cpp.Prelude.Assoc.{lookup}
use echo_server_cpp.ServerIo.{ServerIo}
use echo_server_cpp.IoThread.{Thread}
use echo_server_cpp.IoThread.Open.{all_bytes_to}
use echo_server_cpp.IoThread.Order.{AllKeep}
use echo_server_cpp.IoThread.Progress.{Targets}
use echo_server_cpp.IoThread.Payload.{SendsFrames, payload, web_output, web_limit, web_wire}
use echo_server_cpp.IoThread.Drain.{run, run-Flushed}

pub payload_of :
    (s' s : ServerIo) (new : List ℕ)
    → s'.send_buf ≡ []
    → s.send_buf ≡ []
    → web_output s' ≡ web_output s ++ new
    → concat (map payload s'.sent) ≡ concat (map payload s.sent) ++ new
payload_of s' s new h k e =
    rw (h, k, append-nil (concat (map payload s'.sent)), append-nil (concat (map payload s.sent)))
      at e

-- Jobs that send only on objects that are alive, and delete none, are all done after any number of
-- calls of pairCallback that, times `_nPairDealCount + 1`, is at least the length of the queue, and
-- a connected websocket with a bufferevent, whose buffer was empty, has sent them as frames whose
-- data, one after the other, are exactly the bytes that the queue had for it, and keeps none,
-- provided that no job gives its address away and that each packet is shorter than 8182 bytes, so
-- that a buffer keeps room for the head of a frame.
pub run-frames :
    (start : ℕ → Option ℕ) (written : ℤ) (p k : ℕ) (s : ServerIo) (t : Thread)
    → length t.queue ≤ k * suc t.pair_deal_count
    → All (Targets t) t.queue
    → AllKeep web_limit start p t.queue
    → lookup p t.sockets ≡ some s
    → SendsFrames s
    → s.send_buf ≡ []
    → (t' : Thread) × (s' : ServerIo) × (run k start written t ≡ some t')
      × (t'.queue ≡ [])
      × (lookup p t'.sockets ≡ some s')
      × (concat (map payload s'.sent) ≡ concat (map payload s.sent) ++ all_bytes_to p t.queue)
      × (s'.send_buf ≡ [])
run-frames start written p k s t less h keep e v z =
    let (t', g, q, (s', e', b, z', v')) =
      run-Flushed written (web_wire written) start p k s t less h keep e v z in
    (t', s', g, q, e', payload_of s' s (all_bytes_to p t.queue) z' z b, z')

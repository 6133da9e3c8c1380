-- ===== src/IoThread/Deleted.antt =====
-- libsocket/ServerSocketIOThread.cpp: the object that needSendList still leads to.
use echo_server_cpp.Prelude.{
  ℕ, zero, suc, ◌<◌, ◌≡◌, refl, ◌∙◌, true, Option, none, some, List, [], ◌∷◌, arith, ◌==◌,
}
use echo_server_cpp.Prelude.Int.{ℤ}
use echo_server_cpp.Prelude.Assoc.{lookup, update, erase, lookup-update, lookup-erase}
use echo_server_cpp.ServerIo.{ServerIo, expand_send_buf}
use echo_server_cpp.IoThread.{
  Job, send_buf, close, Thread, buffer_packet, deal_send, deal_close, deal, deal_loop, flush_one,
  flush, pair_callback,
}

deal_loop-nil :
    (start : ℕ → Option ℕ) (written : ℤ) (n : ℕ) (s : List ℕ × Thread)
    → deal_loop start written n [] s ≡ some s
unfolding deal_loop
deal_loop-nil start written zero s = refl
deal_loop-nil start written (suc n) s = refl

-- The state after a packet for `p`, that its buffer takes, and the close of `p`.
deal_loop-deleted :
    (start : ℕ → Option ℕ) (written : ℤ) (p n : ℕ) (queue : List Job) (buf : List ℕ)
    (s s' : ServerIo) (t : Thread)
    → 0 < n
    → queue ≡ send_buf (some p) buf ∷ close (some p) ∷ []
    → lookup p t.sockets ≡ some s
    → expand_send_buf buf s ≡ (true, s')
    → (u : Thread) × (deal_loop start written (suc n) queue ([], t) ≡ some (p ∷ [], u))
      × (lookup p u.sockets ≡ none)
unfolding deal_loop deal deal_send buffer_packet deal_close
deal_loop-deleted start written p zero queue buf s s' t less q e f = absurd (omega arith)
deal_loop-deleted start written p (suc c) queue buf s s' t less q e f =
    let m : List (ℕ × ServerIo) = update p s' t.sockets in
    let same : (p == p) ≡ true = ground arith in
    let found : lookup p m ≡ some s' = lookup-update p p s' t.sockets ∙ rw same refl in
    let gone : lookup p (erase p m) ≡ none = lookup-erase p p m ∙ rw same refl in
    let u = record t { queue = []; sockets = erase p m } in
    (u, rw (q, deal_loop, e, f, found) (deal_loop-nil start written c (p ∷ [], u)), gone)

-- Where the queue is a packet that the buffer of its connection takes and then the close of that
-- connection, and the limit of jobs is not zero, the call uses the object that it has deleted:
-- needSendList still has the pointer.
pub pair_callback-deleted :
    (start : ℕ → Option ℕ) (written : ℤ) (p : ℕ) (buf : List ℕ) (s s' : ServerIo) (t : Thread)
    → lookup p t.sockets ≡ some s
    → expand_send_buf buf s ≡ (true, s')
    → 0 < t.pair_deal_count
    → t.queue ≡ send_buf (some p) buf ∷ close (some p) ∷ []
    → pair_callback start written t ≡ none
unfolding pair_callback flush flush_one
pair_callback-deleted start written p buf s s' t e f h q =
    let (u, g, gone) =
      deal_loop-deleted start written p t.pair_deal_count t.queue buf s s' t h q e f in
    rw (pair_callback, g, gone) refl

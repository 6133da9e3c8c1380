-- ===== src/IoThread/Order.antt =====
-- libsocket/ServerSocketIOThread.cpp: the bytes that go out on one connection.
use mathlib.Core.Option.{some-injective}
use echo_server_cpp.Prelude.{
  concat, ℕ, zero, suc, ◌≡◌, refl, sym, ap, subst, ◌∙◌, inl, inr, true, false, Bool-cases, Option,
  none, some, Option-cases, List, [], ◌∷◌, ◌++◌, append-nil, append_assoc, arith, take, ◌==◌,
}
use echo_server_cpp.Prelude.Int.{ℤ}
use echo_server_cpp.Prelude.Assoc.{lookup, update}
use echo_server_cpp.SocketBase.{max_buffer_size}
use echo_server_cpp.Wire.{
  Open, Open-weaken, Open-other, Open-send, Open-rest, Flushed, Open-Flushed,
}
use echo_server_cpp.ServerIo.{ServerIo, had_send_buf_data}
use echo_server_cpp.ServerIo.SendBuffer.{empty_or_not}
use echo_server_cpp.IoThread.{
  Job, Thread, deal, deal_loop, flush_one, flush, has_more, wake, pair_callback,
}
use echo_server_cpp.IoThread.Buffer.{consumed, ServerWire, plain_wire, sent_of, Sends}
use echo_server_cpp.IoThread.Open.{Keeps, bytes_to, all_bytes_to, OpenAt, deal-Open}

abbrev pub AllKeep : ℕ → (ℕ → Option ℕ) → ℕ → List Job → Type 0
AllKeep limit start p [] = Unit {0}
AllKeep limit start p (job ∷ jobs) = Keeps limit start p job × AllKeep limit start p jobs

wake_sockets : (t : Thread) → (wake t).sockets ≡ t.sockets
unfolding wake
wake_sockets t = elim (Bool-cases (has_more t.queue)) [ inl e ↦ rw e refl | inr e ↦ rw e refl ]

module _ (written : ℤ) (w : ServerWire written) where
  deal_loop-Open :
      (start : ℕ → Option ℕ) (p n : ℕ) (queue : List Job) (out need : List ℕ) (t : Thread)
      {r : List ℕ × Thread}
      → AllKeep w.limit start p (take n queue)
      → deal_loop start written n queue (need, t) ≡ some r
      → Open w p out need t.sockets
      → OpenAt written w p (out ++ all_bytes_to p (take n queue)) r
  unfolding deal_loop
  deal_loop-Open start p zero queue out need t k h o =
      subst (OpenAt written w p (out ++ [])) (some-injective _ _ h) (rw (append-nil out) o)
  deal_loop-Open start p (suc n) [] out need t k h o =
      subst (OpenAt written w p (out ++ [])) (some-injective _ _ h) (rw (append-nil out) o)
  deal_loop-Open start p (suc n) (job ∷ rest) out need t {r} k h o =
      let t' = record t { queue = rest } in
      elim (Option-cases (deal start written job (need, t'))) [
        | inl f ↦ cc (rw (deal_loop, f) at h)
        | inr ((need', u), f) ↦
            let v = deal-Open written w start p job out need t' k.0 f o in
            let x =
              deal_loop-Open start p n rest (out ++ bytes_to p job) need' u {r = r} k.1
                (rw (deal_loop, f) at h) v in
            rw (append_assoc out (bytes_to p job) (all_bytes_to p (take n rest))) at x
      ]

  flush_self :
      (p : ℕ) (out before need : List ℕ) (t : Thread)
      → (o : Open w p out before t.sockets)
      → (u : Thread) × (flush_one written p (some o.socket) t ≡ some u)
        × Open w p out need u.sockets
  unfolding flush_one
  flush_self p out before need t o = elim (empty_or_not o.socket.send_buf) [
    | inl e ↦
        let idle : had_send_buf_data o.socket ≡ false = unfold had_send_buf_data in rw e refl in
        (t, rw idle refl, Open-weaken w need o (inl e))
    | inr h ↦
        let busy : had_send_buf_data o.socket ≡ true = unfold had_send_buf_data in ground arith in
        (
          record t { sockets = update p (consumed written o.socket) t.sockets },
          rw busy refl,
          Open-send w p need o,
        )
  ]

  flush_other :
      (p q : ℕ) (out need : List ℕ) (found : Option ServerIo) (t : Thread) {u : Thread}
      → (q == p) ≡ false
      → flush_one written q found t ≡ some u
      → Open w p out (q ∷ need) t.sockets
      → Open w p out need u.sockets
  unfolding flush_one
  flush_other p q out need none t z h o = cc
  flush_other p q out need (some s) t {u} z h o =
      let before = Open-rest w p q z o in
      elim (Bool-cases (had_send_buf_data s)) [
        | inl b ↦
            subst (λ (x : Thread). Open w p out need x.sockets) (some-injective _ _ (rw b at h))
              (Open-other w p q _ need z (λ l. l) before)
        | inr b ↦
            subst (λ (x : Thread). Open w p out need x.sockets) (some-injective _ _ (rw b at h))
              before
      ]

  flush-Flushed :
      (p : ℕ) (out need : List ℕ) (t : Thread) {t' : Thread}
      → flush written need t ≡ some t'
      → Open w p out need t.sockets
      → Flushed w p out t'.sockets
  unfolding flush
  flush-Flushed p out [] t h o =
      subst (λ (x : Thread). Flushed w p out x.sockets) (some-injective _ _ h) (Open-Flushed w o)
  flush-Flushed p out (q ∷ need) t {t'} h o = elim (Bool-cases (q == p)) [
    | inl a ↦
        let z : q ≡ p = ground arith in
        let (u, e, v) = flush_self p out (q ∷ need) need t o in
        flush-Flushed p out need u {t' = t'} (rw (flush, z, o.alive, e) at h) v
    | inr a ↦ elim (Option-cases (flush_one written q (lookup q t.sockets) t)) [
      | inl f ↦ cc (rw (flush, f) at h)
      | inr (u, f) ↦
          flush-Flushed p out need u {t' = t'} (rw (flush, f) at h)
            (flush_other p q out need (lookup q t.sockets) t a f o)
    ]
  ]

  -- One call of pairCallback on a connection whose buffer was empty.
  pub pair_callback-Flushed :
      (start : ℕ → Option ℕ) (p : ℕ) (s : ServerIo) (t t' : Thread)
      → lookup p t.sockets ≡ some s
      → w.Ready s
      → s.send_buf ≡ []
      → AllKeep w.limit start p (take (suc t.pair_deal_count) t.queue)
      → pair_callback start written t ≡ some t'
      → Flushed w p (w.out s ++ all_bytes_to p (take (suc t.pair_deal_count) t.queue)) t'.sockets
  unfolding pair_callback
  pair_callback-Flushed start p s t t' e v z k h =
      let n = suc t.pair_deal_count in
      let out = w.out s ++ all_bytes_to p (take n t.queue) in
      let o : Open w p (w.out s) [] t.sockets = record {
        socket = s;
        alive = e;
        ready = v;
        bytes = refl;
        listed = inl z;
      } in
      elim (Option-cases (deal_loop start written n t.queue ([], t))) [
        | inl f ↦ cc (rw (pair_callback, f) at h)
        | inr ((need, u), f) ↦
            let x = deal_loop-Open start p n t.queue (w.out s) [] t k f o in
            elim (Option-cases (flush written need u)) [
              | inl g ↦ cc (rw (pair_callback, f, g) at h)
              | inr (y, g) ↦
                  let same : y.sockets ≡ t'.sockets =
                    sym (wake_sockets y)
                    ∙ ap (λ (r : Thread). r.sockets)
                        (some-injective _ _ (rw (pair_callback, f, g) at h)) in
                  subst (Flushed w p out) same (flush-Flushed p out need u g x)
            ]
      ]

-- Unless it uses a deleted object, one call of pairCallback sends on a plain, connected connection,
-- whose buffer was empty, exactly the bytes that the jobs it takes have for it, in order and
-- without anything in between, and leaves the buffer empty, whatever the jobs do to other
-- connections, provided that none of them deletes this one or gives its address away, and that each
-- packet is smaller than a buffer.
pub pair_callback-bytes :
    (start : ℕ → Option ℕ) (written : ℤ) (p : ℕ) (s : ServerIo) (t t' : Thread)
    → lookup p t.sockets ≡ some s
    → Sends s
    → s.send_buf ≡ []
    → AllKeep max_buffer_size start p (take (suc t.pair_deal_count) t.queue)
    → pair_callback start written t ≡ some t'
    → (s' : ServerIo) × (lookup p t'.sockets ≡ some s')
      × (concat s'.sent ≡ concat s.sent ++ all_bytes_to p (take (suc t.pair_deal_count) t.queue))
      × (s'.send_buf ≡ [])
      × Sends s'
pair_callback-bytes start written p s t t' e v z k h =
    let (s', a, b, c, d) =
      pair_callback-Flushed written (plain_wire written) start p s t t' e v z k h in
    (s', a, sent_of s' s (all_bytes_to p (take (suc t.pair_deal_count) t.queue)) c z b, c, d)

-- ===== src/ServerSocket/Queue.antt =====
-- libsocket/ServerSocket.cpp: the package queue of the main thread.
use mathlib.Core.Option.{some-injective}
use echo_server_cpp.Prelude.Int.{pos, ◌-ℤ◌}
use echo_server_cpp.Prelude.{
  ℕ, zero, suc, ◌+◌, ◌≡◌, refl, ap, subst, ◌∙◌, Bool, true, false, Option, none, some, List, [],
  ◌∷◌, arith, length, drop, ltb, Bool-cases, Option-cases, inl, inr, if◌then◌else◌,
}
use echo_server_cpp.Prelude.Results.{Result, ok, throw}
use echo_server_cpp.Stream.{Stream, Thrown}
use echo_server_cpp.Protocol.{ProtocolHead, read_head, reader}
use echo_server_cpp.ServerSocket
use echo_server_cpp.ServerSocket.Crash.{close_by_logic-crash}
use echo_server_cpp.ServerSocket.{
  Socket, Package, accept, recv_buf, close, other, CallBack, Hub, order, send_all, get_agent,
  delete_agent, deal_accept, deal_head, deal_recv, close_agent, deal_close, deal, deal_loop,
  has_more, pair_callback,
}

-- Two states with one queue, and as many wake-ups.
abbrev pub SameQueue : {A : Type 0} → Hub A → Hub A → Type 0
SameQueue s t = (t.queue ≡ s.queue) × (t.wakes ≡ s.wakes)

send_all-SameQueue :
    {A : Type 0} (a : Socket) (bufs : List (List ℕ)) (s : Hub A) → SameQueue s (send_all a bufs s)
unfolding send_all order
send_all-SameQueue a [] s = (refl, refl)
send_all-SameQueue a (b ∷ bufs) s =
    send_all-SameQueue a bufs (order a.thread (ServerSocket.send_buf a b) s)

has_more-drop : (n : ℕ) (q : List Package) → has_more (drop n q) ≡ ltb n (length q)
unfolding has_more
has_more-drop zero [] = refl
has_more-drop zero (p ∷ q) = ground arith
has_more-drop (suc n) [] = ground arith
has_more-drop (suc n) (p ∷ q) = has_more-drop n q ∙ ground arith

settle :
    {A : Type 0} (u t : Hub A) (w n : ℕ) (q : List Package)
    → u.queue ≡ drop n q
    → u.wakes ≡ w
    → some (if has_more u.queue then record u { wakes = u.wakes + 1 } else u) ≡ some t
    → (t.queue ≡ drop n q) × (t.wakes ≡ w + (if ltb n (length q) then 1 else 0))
settle u t w n q e f h =
    let g = has_more-drop n q in
    elim (Bool-cases (ltb n (length q))) [
      | inl b ↦
          let c : has_more u.queue ≡ true = ap has_more e ∙ g ∙ b in
          rw b (ground (arith, rw c at h))
      | inr b ↦
          let c : has_more u.queue ≡ false = ap has_more e ∙ g ∙ b in
          rw b (ground (arith, rw c at h))
    ]

module _ {A : Type 0} (cb : CallBack A) where
  -- A package from a known agent goes to the application with its head.
  pub deal-recv_known :
      (host : Bool) (x a : Socket) (buf : List ℕ) (head : ProtocolHead) (bis : Stream) (s : Hub A)
      → get_agent x s ≡ some a
      → read_head host (reader buf) ≡ ok (head, bis)
      → deal cb host (recv_buf (some x) buf) s ≡ (
          let (app, sends) = cb.on_client_recive head buf s.app in
          some (send_all a sends (record s { app = app })))
  unfolding deal deal_recv deal_head
  deal-recv_known host x a buf head bis s e f = rw (e, f)

  deal_accept-SameQueue :
      (x : Socket) (found : Option Socket) (s : Hub A) → SameQueue s (deal_accept cb x found s)
  unfolding deal_accept
  deal_accept-SameQueue x (some a) s = (refl, refl)
  deal_accept-SameQueue x none s = (refl, refl)

  close_agent-SameQueue : (found : Option Socket) (s : Hub A) → SameQueue s (close_agent cb found s)
  unfolding close_agent delete_agent
  close_agent-SameQueue none s = (refl, refl)
  close_agent-SameQueue (some a) s = (refl, refl)

  deal_head-SameQueue :
      (a : Socket) (buf : List ℕ) (r : Result Thrown (ProtocolHead × Stream)) (s t : Hub A)
      → deal_head cb a buf r s ≡ some t
      → SameQueue s t
  unfolding deal_head
  deal_head-SameQueue a buf (throw e) s t h = let z = close_by_logic-crash cb a s in cc (h, z)
  deal_head-SameQueue a buf (ok (head, bis)) s t h =
      let (app, sends) = cb.on_client_recive head buf s.app in
      subst (λ (u : Hub A). SameQueue s u) (some-injective _ _ h)
        (send_all-SameQueue a sends (record s { app = app }))

  deal_recv-SameQueue :
      (host : Bool) (buf : List ℕ) (found : Option Socket) (s t : Hub A)
      → deal_recv cb host buf found s ≡ some t
      → SameQueue s t
  unfolding deal_recv
  deal_recv-SameQueue host buf none s t h = cc
  deal_recv-SameQueue host buf (some a) s t h =
      deal_head-SameQueue a buf (read_head host (reader buf)) s t h

  deal-SameQueue :
      (host : Bool) (p : Package) (s t : Hub A) → deal cb host p s ≡ some t → SameQueue s t
  unfolding deal deal_close order get_agent
  deal-SameQueue host (accept none) s t h = ground arith
  deal-SameQueue host (accept (some x)) s t h =
      subst (λ (u : Hub A). SameQueue s u) (some-injective _ _ h)
        (deal_accept-SameQueue x (get_agent x s) s)
  deal-SameQueue host (recv_buf none buf) s t h = ground arith
  deal-SameQueue host (recv_buf (some x) buf) s t h =
      deal_recv-SameQueue host buf (get_agent x s) s t h
  deal-SameQueue host (close none) s t h = ground arith
  deal-SameQueue host (close (some x)) s t h =
      subst (λ (u : Hub A). SameQueue s u) (some-injective _ _ h)
        (close_agent-SameQueue (get_agent x s)
          (record s { now_socket_count = s.now_socket_count -ℤ pos 1 }))
  deal-SameQueue host other s t h = ground arith

  deal_loop-queue :
      (host : Bool) (n : ℕ) (queue : List Package) (s t : Hub A)
      → s.queue ≡ queue
      → deal_loop cb host n queue s ≡ some t
      → (t.queue ≡ drop n queue) × (t.wakes ≡ s.wakes)
  unfolding deal_loop
  deal_loop-queue host zero queue s t e h = ground arith
  deal_loop-queue host (suc n) [] s t e h = ground arith
  deal_loop-queue host (suc n) (p ∷ rest) s t e h =
      elim (Option-cases (deal cb host p (record s { queue = rest }))) [
        | inl f ↦ cc (rw (deal_loop, f) at h)
        | inr (u, f) ↦
            let q = deal-SameQueue host p (record s { queue = rest }) u f in
            let r = deal_loop-queue host n rest u t q.0 (rw (deal_loop, f) at h) in (r.0, r.1 ∙ q.1)
      ]

  -- Unless it crashes, the callback takes the oldest packages off the queue, one more than
  -- `_nPairDealCount` says or all there are, and wakes the thread again exactly if some are left.
  pub pair_callback-queue :
      (host : Bool) (s t : Hub A)
      → pair_callback cb host s ≡ some t
      → (t.queue ≡ drop (suc s.pair_deal_count) s.queue)
        × (t.wakes ≡ s.wakes + (if ltb (suc s.pair_deal_count) (length s.queue) then 1 else 0))
  unfolding pair_callback
  pair_callback-queue host s t h =
      elim (Option-cases (deal_loop cb host (suc s.pair_deal_count) s.queue s)) [
        | inl f ↦ cc (rw (pair_callback, f) at h)
        | inr (u, f) ↦
            let q = deal_loop-queue host (suc s.pair_deal_count) s.queue s u refl f in
            settle u t s.wakes (suc s.pair_deal_count) s.queue q.0 q.1 (rw (pair_callback, f) at h)
      ]

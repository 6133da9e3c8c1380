-- ===== src/ServerSocket/Lifecycle.antt =====
-- libsocket/ServerSocket.cpp: the packages of one connection in the queue of the main thread: an
-- accept, what was received, and a close.
use echo_server_cpp.Prelude.{
  ℕ, zero, suc, ◌+◌, ◌≤◌, ◌≡◌, refl, ap, ◌∙◌, Bool, true, false, Option, none, some, List, [], ◌∷◌,
  ◌++◌, length, take, drop, ◌==◌, if◌then◌else◌, Bool-cases, inl, inr,
}
use echo_server_cpp.Prelude.Assoc.{lookup, lookup-update, lookup-erase, is_some}
use echo_server_cpp.Protocol.{reader}
use echo_server_cpp.Protocol.RoundTrip.{read_head-long}
use echo_server_cpp.ServerSocket
use echo_server_cpp.ServerSocket.{
  Socket, Package, accept, recv_buf, close, other, CallBack, Hub, push, order, send_all, get_agent,
  delete_agent, deal_accept, deal_head, deal_recv, close_agent, deal_close, deal, deal_loop,
  has_more, pair_callback,
}
use echo_server_cpp.ServerSocket.Agents.{KeysOk-lookup, Consistent, Live, deal-Consistent}

-- Which descriptors have an agent after a package.
abbrev pub after : Package → (ℕ → Bool) → ℕ → Bool
after (accept none) live = live
after (accept (some x)) live = λ fd. if x.fd == fd then true else live fd
after (recv_buf x buf) live = live
after (close none) live = live
after (close (some x)) live = λ fd. if x.fd == fd then false else live fd
after other live = live

abbrev pub after_all : List Package → (ℕ → Bool) → ℕ → Bool
after_all [] live = live
after_all (p ∷ queue) live = after_all queue (after p live)

-- What an IO thread pushes: a connection is accepted under a descriptor that is free, and it
-- receives whole packets, and is closed, while it is open.
abbrev pub Allowed : Package → (ℕ → Bool) → Type 0
Allowed (accept none) live = Unit {0}
Allowed (accept (some x)) live = live x.fd ≡ false
Allowed (recv_buf none buf) live = Unit {0}
Allowed (recv_buf (some x) buf) live = (live x.fd ≡ true) × (4 ≤ length buf)
Allowed (close none) live = Unit {0}
Allowed (close (some x)) live = live x.fd ≡ true
Allowed other live = Unit {0}

abbrev pub Orderly : List Package → (ℕ → Bool) → Type 0
Orderly [] live = Unit {0}
Orderly (p ∷ queue) live = Allowed p live × Orderly queue (after p live)

pub Orderly-append :
    (queue : List Package) (p : Package) (live : ℕ → Bool)
    → Orderly queue live
    → Allowed p (after_all queue live)
    → Orderly (queue ++ p ∷ []) live
Orderly-append [] p live o a = (a, tt)
Orderly-append (q ∷ queue) p live o a = (o.0, Orderly-append queue p (after q live) o.1 a)

pub Orderly-drop :
    (n : ℕ) (queue : List Package) (live : ℕ → Bool)
    → Orderly queue live
    → Orderly (drop n queue) (after_all (take n queue) live)
Orderly-drop zero queue live o = o
Orderly-drop (suc n) [] live o = o
Orderly-drop (suc n) (p ∷ queue) live o = Orderly-drop n queue (after p live) o.1

pub after_all-split :
    (n : ℕ) (queue : List Package) (live : ℕ → Bool)
    → after_all (drop n queue) (after_all (take n queue) live) ≡ after_all queue live
after_all-split zero queue live = refl
after_all-split (suc n) [] live = refl
after_all-split (suc n) (p ∷ queue) live = after_all-split n queue (after p live)

-- Whether the main thread has an agent for a descriptor.
abbrev pub known : {A : Type 0} → Hub A → ℕ → Bool
known s fd = is_some (lookup fd s.agents)

pointwise : {f g : ℕ → Bool} → ((n : ℕ) → f n ≡ g n) → f ≡ g
pointwise h = λ i n. h n i

some_of : {A : Type 0} (o : Option A) → is_some o ≡ true → (a : A) × (o ≡ some a)
some_of none h = cc
some_of (some a) h = (a, refl)

none_of : {A : Type 0} (o : Option A) → is_some o ≡ false → o ≡ none
none_of none h = refl
none_of (some a) h = cc

is_some-if :
    {A : Type 0} (b : Bool) (a : A) (o : Option A)
    → is_some (if b then some a else o) ≡ (if b then true else is_some o)
is_some-if true a o = refl
is_some-if false a o = refl

is_some-unless :
    {A : Type 0} (b : Bool) (o : Option A)
    → is_some (if b then none else o) ≡ (if b then false else is_some o)
is_some-unless true o = refl
is_some-unless false o = refl

send_all-agents :
    {A : Type 0} (a : Socket) (bufs : List (List ℕ)) (s : Hub A)
    → (send_all a bufs s).agents ≡ s.agents
unfolding send_all order
send_all-agents a [] s = refl
send_all-agents a (b ∷ bufs) s =
    send_all-agents a bufs (order a.thread (ServerSocket.send_buf a b) s)

-- The result of dealing with packages: the agents are those that the packages leave.
abbrev pub Deals : {A : Type 0} → (ℕ → Bool) → Option (Hub A) → Type 0
Deals {A} live r = (t : Hub A) × (r ≡ some t) × (known t ≡ live)

module _ {A : Type 0} (cb : CallBack A) where
  accept-Deals :
      (x : Socket) (s : Hub A)
      → Allowed (accept (some x)) (known s)
      → known (deal_accept cb x (get_agent x s) s) ≡ after (accept (some x)) (known s)
  unfolding deal_accept get_agent
  accept-Deals x s l = rw (none_of (lookup x.fd s.agents) l) (
      pointwise (λ fd.
        ap is_some (lookup-update x.fd fd x s.agents)
        ∙ is_some-if (x.fd == fd) x (lookup fd s.agents)))

  recv-Deals :
      (host : Bool) (x : Socket) (buf : List ℕ) (s : Hub A)
      → Allowed (recv_buf (some x) buf) (known s)
      → Deals (known s) (deal_recv cb host buf (get_agent x s) s)
  unfolding deal_recv deal_head get_agent
  recv-Deals host x buf s (l, long) =
      let (a, e) = some_of (lookup x.fd s.agents) l in
      let (r, f) = read_head-long host (reader buf) (unfold reader in long) in
      let (app, sends) = cb.on_client_recive r.0 buf s.app in
      (
        send_all a sends (record s { app = app }),
        rw (e, f) refl,
        pointwise (λ fd.
            ap (λ (m : List (ℕ × Socket)). is_some (lookup fd m))
              (send_all-agents a sends (record s { app = app }))),
      )

  close-Deals :
      (x : Socket) (s : Hub A)
      → Consistent s
      → Allowed (close (some x)) (known s)
      → known (deal_close cb x s) ≡ after (close (some x)) (known s)
  unfolding deal_close close_agent delete_agent get_agent order
  close-Deals x s v l =
      let (a, e) = some_of (lookup x.fd s.agents) l in
      let f = KeysOk-lookup x.fd s.agents v.keys e in
      rw (e, f)
        (pointwise (λ fd.
          ap is_some (lookup-erase x.fd fd s.agents)
          ∙ is_some-unless (x.fd == fd) (lookup fd s.agents)))

  deal-Deals :
      (host : Bool) (p : Package) (s : Hub A)
      → Consistent s
      → Allowed p (known s)
      → Deals (after p (known s)) (deal cb host p s)
  unfolding deal
  deal-Deals host (accept none) s v l = (s, refl, refl)
  deal-Deals host (accept (some x)) s v l =
      (deal_accept cb x (get_agent x s) s, refl, accept-Deals x s l)
  deal-Deals host (recv_buf none buf) s v l = (s, refl, refl)
  deal-Deals host (recv_buf (some x) buf) s v l = recv-Deals host x buf s l
  deal-Deals host (close none) s v l = (s, refl, refl)
  deal-Deals host (close (some x)) s v l = (deal_close cb x s, refl, close-Deals x s v l)
  deal-Deals host other s v l = (s, refl, refl)

  Live-Allowed : (p : Package) (s : Hub A) → Allowed p (known s) → Live p s
  unfolding get_agent
  Live-Allowed (accept x) s l = tt
  Live-Allowed (recv_buf x buf) s l = tt
  Live-Allowed (close none) s l = tt
  Live-Allowed (close (some x)) s l = some_of (lookup x.fd s.agents) l
  Live-Allowed other s l = tt

  deal_loop-Deals :
      (host : Bool) (n : ℕ) (queue : List Package) (s : Hub A)
      → Consistent s
      → Orderly queue (known s)
      → (t : Hub A) × (deal_loop cb host n queue s ≡ some t)
        × Consistent t
        × (known t ≡ after_all (take n queue) (known s))
  unfolding deal_loop
  deal_loop-Deals host zero queue s v o = (s, refl, v, refl)
  deal_loop-Deals host (suc n) [] s v o = (s, refl, v, refl)
  deal_loop-Deals host (suc n) (p ∷ rest) s v o =
      let s' = record s { queue = rest } in
      let v' : Consistent s' = record { counted = v.counted; keys = v.keys } in
      let (u, e, k) = deal-Deals host p s' v' o.0 in
      let w = deal-Consistent cb host p s' u v' (Live-Allowed p s' o.0) e in
      let (t, f, x, l) = deal_loop-Deals host n rest u w (rw k o.1) in
      (t, rw (deal_loop, e) f, x, l ∙ ap (after_all (take n rest)) k)

  -- Where the queue is orderly, pairCallback does not crash, and deals with the oldest packages.
  pub pair_callback-Deals :
      (host : Bool) (s : Hub A)
      → Consistent s
      → Orderly s.queue (known s)
      → (t : Hub A) × (pair_callback cb host s ≡ some t)
        × Consistent t
        × (known t ≡ after_all (take (suc s.pair_deal_count) s.queue) (known s))
  unfolding pair_callback
  pair_callback-Deals host s v o =
      let (u, e, w, k) = deal_loop-Deals host (suc s.pair_deal_count) s.queue s v o in
      elim (Bool-cases (has_more u.queue)) [
        | inl b ↦ (
          record u { wakes = u.wakes + 1 },
          rw (pair_callback, e, b) refl,
          record { counted = w.counted; keys = w.keys },
          k,
        )
        | inr b ↦ (u, rw (pair_callback, e, b) refl, w, k)
      ]

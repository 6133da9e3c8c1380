-- ===== src/ServerSocket/Agents.antt =====
-- libsocket/ServerSocket.cpp: the map of agents and the count of connections.
use mathlib.Core.Option.{some-injective}
use echo_server_cpp.Prelude.{
  ℕ, ◌+◌, ◌≡◌, refl, subst, ◌∙◌, Bool, false, Option, none, some, List, [], ◌∷◌, ◌++◌, arith,
  length, ◌==◌, Bool-cases, inl, inr,
}
use echo_server_cpp.Prelude.Int.{pos, ◌+ℤ◌, ◌-ℤ◌}
use echo_server_cpp.Prelude.Assoc.{lookup, update, erase, lookup-update, lookup-erase}
use echo_server_cpp.Prelude.Results.{Result, ok, throw}
use echo_server_cpp.Stream.{Stream, Thrown}
use echo_server_cpp.Protocol.{ProtocolHead, read_head, reader}
use echo_server_cpp.ServerSocket
use echo_server_cpp.ServerSocket.Crash.{close_by_logic-crash}
use echo_server_cpp.ServerSocket.{
  Socket, Package, accept, recv_buf, close, other, Order, CallBack, Hub, order, send_all, get_agent,
  delete_agent, deal_accept, deal_head, deal_recv, close_agent, deal_close, deal,
}

-- Every agent stands under the descriptor of its socket, and only once.
abbrev pub KeysOk : List (ℕ × Socket) → Type 0
KeysOk [] = Unit {0}
KeysOk ((fd, socket) ∷ m) = (socket.fd ≡ fd) × (lookup fd m ≡ none) × KeysOk m

length-update :
    (k : ℕ) (v : Socket) (m : List (ℕ × Socket))
    → lookup k m ≡ none
    → length (update k v m) ≡ length m + 1
unfolding lookup update
length-update k v [] h = omega arith
length-update k v ((j, w) ∷ m) h = ground (arith, length-update k v m)

KeysOk-update :
    (k : ℕ) (v : Socket) (m : List (ℕ × Socket))
    → v.fd ≡ k
    → lookup k m ≡ none
    → KeysOk m
    → KeysOk (update k v m)
unfolding lookup update
KeysOk-update k v [] e h o = (e, refl, tt)
KeysOk-update k v ((j, w) ∷ m) e h o = elim (Bool-cases (j == k)) [
  | inl a ↦ cc (rw a at h)
  | inr a ↦
      let b : (k == j) ≡ false = ground arith in
      rw a (o.0, lookup-update k j v m ∙ rw b o.1, KeysOk-update k v m e (rw a at h) o.2)
]

pub KeysOk-lookup :
    (k : ℕ) (m : List (ℕ × Socket)) {v : Socket} → KeysOk m → lookup k m ≡ some v → v.fd ≡ k
unfolding lookup
KeysOk-lookup k [] o h = cc
KeysOk-lookup k ((j, w) ∷ m) {v} o h = ground (arith, KeysOk-lookup k m {v = v} o.2)

erase_absent : (k : ℕ) (m : List (ℕ × Socket)) → lookup k m ≡ none → erase k m ≡ m
unfolding lookup erase
erase_absent k [] h = refl
erase_absent k ((j, w) ∷ m) h = ground (arith, erase_absent k m)

length-erase :
    (k : ℕ) (m : List (ℕ × Socket)) {v : Socket}
    → KeysOk m
    → lookup k m ≡ some v
    → length m ≡ length (erase k m) + 1
unfolding lookup erase
length-erase k [] o h = cc
length-erase k ((j, w) ∷ m) o h = elim (Bool-cases (j == k)) [
  | inl a ↦ let e : j ≡ k = ground arith in rw (a, erase_absent k m (rw e at o.1)) (omega arith)
  | inr a ↦ rw a (omega (arith, length-erase k m o.2 (rw a at h)))
]

KeysOk-erase : (k : ℕ) (m : List (ℕ × Socket)) → KeysOk m → KeysOk (erase k m)
unfolding erase
KeysOk-erase k [] o = tt
KeysOk-erase k ((j, w) ∷ m) o = elim (Bool-cases (j == k)) [
  | inl a ↦ rw a (KeysOk-erase k m o.2)
  | inr a ↦
      let b : (k == j) ≡ false = ground arith in
      rw a (o.0, lookup-erase k j m ∙ rw b o.1, KeysOk-erase k m o.2)
]

-- The count is the number of agents.
pub record Consistent {A : Type 0} (s : Hub A) : Type 0 where
  pub counted : s.now_socket_count ≡ pos (length s.agents)
  pub keys : KeysOk s.agents

send_all-Consistent :
    {A : Type 0} (a : Socket) (bufs : List (List ℕ)) (s : Hub A)
    → Consistent s
    → Consistent (send_all a bufs s)
unfolding send_all order
send_all-Consistent a [] s v = v
send_all-Consistent a (b ∷ bufs) s v =
    send_all-Consistent a bufs (order a.thread (ServerSocket.send_buf a b) s)
      (record { counted = v.counted; keys = v.keys })

-- A close package stands for a connection that the main thread still has.
abbrev pub Live : {A : Type 0} → Package → Hub A → Type 0
Live (accept x) s = Unit {0}
Live (recv_buf x buf) s = Unit {0}
Live (close none) s = Unit {0}
Live (close (some x)) s = (a : Socket) × (get_agent x s ≡ some a)
Live other s = Unit {0}

module _ {A : Type 0} (cb : CallBack A) where
  deal_accept-Consistent :
      (x : Socket) (found : Option Socket) (s : Hub A)
      → get_agent x s ≡ found
      → Consistent s
      → Consistent (deal_accept cb x found s)
  unfolding deal_accept get_agent ◌+ℤ◌
  deal_accept-Consistent x (some a) s e v = v
  deal_accept-Consistent x none s e v = record {
    counted = rw v.counted (ground (arith, length-update x.fd x s.agents e));
    keys = KeysOk-update x.fd x s.agents refl e v.keys;
  }

  deal_head-Consistent :
      (a : Socket) (buf : List ℕ) (r : Result Thrown (ProtocolHead × Stream)) (s : Hub A)
      {t : Hub A}
      → deal_head cb a buf r s ≡ some t
      → Consistent s
      → Consistent t
  unfolding deal_head
  deal_head-Consistent a buf (throw e) s h v = let z = close_by_logic-crash cb a s in cc (h, z)
  deal_head-Consistent a buf (ok (head, bis)) s h v =
      let (app, sends) = cb.on_client_recive head buf s.app in
      let w =
        send_all-Consistent a sends (record s { app = app })
          (record { counted = v.counted; keys = v.keys }) in
      subst (λ (u : Hub A). Consistent u) (some-injective _ _ h) w

  deal_recv-Consistent :
      (host : Bool) (buf : List ℕ) (found : Option Socket) (s : Hub A) {t : Hub A}
      → deal_recv cb host buf found s ≡ some t
      → Consistent s
      → Consistent t
  unfolding deal_recv
  deal_recv-Consistent host buf none s h v = cc
  deal_recv-Consistent host buf (some a) s h v =
      deal_head-Consistent a buf (read_head host (reader buf)) s h v

  deal_close-Consistent :
      (x a : Socket) (s : Hub A)
      → get_agent x s ≡ some a
      → Consistent s
      → Consistent (deal_close cb x s)
  unfolding deal_close close_agent delete_agent get_agent order ◌-ℤ◌
  deal_close-Consistent x a s e v =
      let f = KeysOk-lookup x.fd s.agents v.keys e in
      let n = length-erase x.fd s.agents v.keys e in
      rw (e, f)
        (record {
          counted = rw v.counted (ground (arith, n));
          keys = KeysOk-erase x.fd s.agents v.keys;
        })

  -- Dealing with any package, where that does not crash, keeps the count equal to the number of
  -- agents, and the agents under their own descriptors, provided that a close package is for a
  -- connection that is still there.
  pub deal-Consistent :
      (host : Bool) (p : Package) (s t : Hub A)
      → Consistent s
      → Live p s
      → deal cb host p s ≡ some t
      → Consistent t
  unfolding deal
  deal-Consistent host (accept none) s t v l h =
      subst (λ (u : Hub A). Consistent u) (some-injective _ _ h) v
  deal-Consistent host (accept (some x)) s t v l h =
      subst (λ (u : Hub A). Consistent u) (some-injective _ _ h)
        (deal_accept-Consistent x (get_agent x s) s refl v)
  deal-Consistent host (recv_buf none buf) s t v l h =
      subst (λ (u : Hub A). Consistent u) (some-injective _ _ h) v
  deal-Consistent host (recv_buf (some x) buf) s t v l h =
      deal_recv-Consistent host buf (get_agent x s) s h v
  deal-Consistent host (close none) s t v l h =
      subst (λ (u : Hub A). Consistent u) (some-injective _ _ h) v
  deal-Consistent host (close (some x)) s t v l h =
      subst (λ (u : Hub A). Consistent u) (some-injective _ _ h)
        (deal_close-Consistent x l.0 s l.1 v)
  deal-Consistent host other s t v l h =
      subst (λ (u : Hub A). Consistent u) (some-injective _ _ h) v

  -- From a state where the count is right, a close package for a connection that is gone, such as a
  -- second one for the same socket, counts the connection off again: the count falls below the number
  -- of agents, and the IO thread is told again to delete the socket.
  pub deal-close_twice :
      (host : Bool) (x : Socket) (s : Hub A)
      → Consistent s
      → get_agent x s ≡ none
      → (t : Hub A) × (deal cb host (close (some x)) s ≡ some t)
        × (t.now_socket_count +ℤ pos 1 ≡ pos (length t.agents))
        × (t.outbox ≡ s.outbox ++ (x.thread, ServerSocket.close_socket x) ∷ [])
  unfolding deal deal_close close_agent get_agent order ◌-ℤ◌ ◌+ℤ◌
  deal-close_twice host x s v e = (deal_close cb x s, refl, rw (e, v.counted) (ground arith), rw e)

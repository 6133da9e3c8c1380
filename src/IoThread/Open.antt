-- ===== src/IoThread/Open.antt =====
-- libsocket/ServerSocketIOThread.cpp: what one job does to an open connection.
use mathlib.Core.Option.{some-injective}
use echo_server_cpp.Prelude.{
  ℕ, ◌<◌, ◌≡◌, ◌≢◌, refl, ap, subst, inl, inr, false, Bool-cases, Option, none, some, List, [], ◌∷◌,
  ◌++◌, append-nil, arith, length, ◌==◌, if◌then◌else◌,
}
use echo_server_cpp.Prelude.Int.{ℤ}
use echo_server_cpp.Prelude.Assoc.{lookup}
use echo_server_cpp.Wire.{Listed-other, Open, Open-other, Open-erase, Open-put}
use echo_server_cpp.ServerIo.{ServerIo}
use echo_server_cpp.IoThread.{
  Job, accept, send_buf, close, other, Thread, deal_accept, buffer_packet, deal_send, deal_close,
  deal,
}
use echo_server_cpp.IoThread.Buffer.{ServerWire}

-- The bytes that a job sends on the connection `p`.
abbrev pub bytes_to : ℕ → Job → List ℕ
bytes_to p (accept fd) = []
bytes_to p (send_buf none buf) = []
bytes_to p (send_buf (some q) buf) = if q == p then buf else []
bytes_to p (close q) = []
bytes_to p other = []

abbrev pub all_bytes_to : ℕ → List Job → List ℕ
all_bytes_to p [] = []
all_bytes_to p (job ∷ jobs) = bytes_to p job ++ all_bytes_to p jobs

-- What a job must not do to the connection `p`: to delete it, to take its address for another one,
-- or to send more at once than `limit`.
abbrev pub Keeps : ℕ → (ℕ → Option ℕ) → ℕ → Job → Type 0
Keeps limit start p (accept fd) = start fd ≢ some p
Keeps limit start p (send_buf none buf) = Unit {0}
Keeps limit start p (send_buf (some q) buf) = length buf < limit
Keeps limit start p (close q) = q ≢ some p
Keeps limit start p other = Unit {0}

other_address : (q p : ℕ) → some q ≢ some p → (q == p) ≡ false
other_address q p h = elim (Bool-cases (q == p)) [
  | inl a ↦ let z : q ≡ p = ground arith in absurd (h (ap some z))
  | inr a ↦ a
]

module _ (written : ℤ) (w : ServerWire written) where
  -- The connection `p` of a thread and needSendList.
  abbrev pub OpenAt : ℕ → List ℕ → List ℕ × Thread → Type 0
  OpenAt p out (need, t) = Open w p out need t.sockets

  unchanged :
      (p : ℕ) (out : List ℕ) (s : List ℕ × Thread) {r : List ℕ × Thread}
      → some s ≡ some r
      → OpenAt p out s
      → OpenAt p (out ++ []) r
  unchanged p out s h o =
      subst (OpenAt p (out ++ [])) (some-injective _ _ h) (rw (append-nil out) o)

  accept-Open :
      (p fd : ℕ) (found : Option ℕ) {out need : List ℕ} (t : Thread)
      → found ≢ some p
      → Open w p out need t.sockets
      → Open w p out need (deal_accept fd found t).sockets
  unfolding deal_accept
  accept-Open p fd none t h o = o
  accept-Open p fd (some q) {need = need} t h o =
      Open-other w p q _ need (other_address q p h) (λ l. l) o

  send-Open :
      (p : ℕ) (buf : List ℕ) {out : List ℕ} (need : List ℕ) (t : Thread)
      → length buf < w.limit
      → (o : Open w p out need t.sockets)
      → (r : List ℕ × Thread) × (deal_send written p buf (some o.socket) (need, t) ≡ some r)
        × OpenAt p (out ++ buf) r
  unfolding deal_send buffer_packet
  send-Open p buf need t h o = (_, refl, Open-put w p buf h o)

  deal_send-other :
      (p q : ℕ) (buf : List ℕ) {out need : List ℕ} (found : Option ServerIo) (t : Thread)
      {r : List ℕ × Thread}
      → (q == p) ≡ false
      → deal_send written q buf found (need, t) ≡ some r
      → Open w p out need t.sockets
      → OpenAt p out r
  unfolding deal_send buffer_packet
  deal_send-other p q buf none t z h o = cc
  deal_send-other p q buf {out} {need} (some s) t z h o =
      subst (OpenAt p out) (some-injective _ _ h)
        (Open-other w p q _ _ z (Listed-other p q need _) o)

  deal_close-other :
      (p q : ℕ) {out need : List ℕ} (found : Option ServerIo) (t : Thread) {r : List ℕ × Thread}
      → (q == p) ≡ false
      → deal_close q found (need, t) ≡ some r
      → Open w p out need t.sockets
      → OpenAt p out r
  unfolding deal_close
  deal_close-other p q none t z h o = cc
  deal_close-other p q {out} (some s) t z h o =
      subst (OpenAt p out) (some-injective _ _ h) (Open-erase w p q z o)

  pub deal-Open :
      (start : ℕ → Option ℕ) (p : ℕ) (job : Job) (out need : List ℕ) (t : Thread)
      {r : List ℕ × Thread}
      → Keeps w.limit start p job
      → deal start written job (need, t) ≡ some r
      → Open w p out need t.sockets
      → OpenAt p (out ++ bytes_to p job) r
  unfolding deal
  deal-Open start p (accept fd) out need t k h o =
      unchanged p out (need, deal_accept fd (start fd) t) h (accept-Open p fd (start fd) t k o)
  deal-Open start p (send_buf none buf) out need t k h o = unchanged p out (need, t) h o
  deal-Open start p (send_buf (some q) buf) out need t k h o = elim (Bool-cases (q == p)) [
    | inl a ↦
        let z : q ≡ p = ground arith in
        let (r, e, v) = send-Open p buf need t k o in
        rw a (subst (OpenAt p (out ++ buf)) (some-injective _ _ (rw (z, o.alive, e) at h)) v)
    | inr a ↦ rw (a, append-nil out) (deal_send-other p q buf (lookup q t.sockets) t a h o)
  ]
  deal-Open start p (close none) out need t k h o = unchanged p out (need, t) h o
  deal-Open start p (close (some q)) out need t k h o =
      rw (append-nil out) (deal_close-other p q (lookup q t.sockets) t (other_address q p k) h o)
  deal-Open start p other out need t k h o = unchanged p out (need, t) h o

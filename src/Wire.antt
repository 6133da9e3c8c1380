-- ===== src/Wire.antt =====
-- The order of bytes on a connection that an IO thread serves, for ServerSocketIOThread.cpp and
-- ClientSocketIOThread.cpp of libsocket alike: packets go into a buffer, and what is left there is
-- sent at the end of the call. `put` is what a thread does with a packet, with whether it lists the
-- socket for the end; `send` sends what is `waiting`.
pub mod Live
use echo_server_cpp.Prelude.{
  concat, concat-snoc, ℕ, ◌<◌, ◌≡◌, refl, sym, ◌∙◌, ◌⊎◌, inl, inr, Bool, true, false, Bool-cases,
  Option, some, List, [], ◌∷◌, ◌++◌, append-nil, append_assoc, arith, length, ap, ◌==◌,
  if◌then◌else◌,
}
use echo_server_cpp.Prelude.Assoc.{lookup, update, erase, lookup-update, lookup-erase}

-- How bytes get out of a connection that is `Ready`: `out` are those that were sent and those that
-- wait, as the peer is to read them, and a packet is shorter than `limit`.
pub record Wire {C : Type 0} (put : List ℕ → C → C × Bool) (send : C → C) (waiting : C → List ℕ)
    : Type 1 where
  pub Ready : C → Type 0
  pub out : C → List ℕ
  pub limit : ℕ
  pub put-out :
      (buf : List ℕ) (c : C)
      → length buf < limit
      → Ready c
      → Ready (put buf c).0
        × (out (put buf c).0 ≡ out c ++ buf)
        × (((put buf c).1 ≡ true) ⊎ (0 < length (waiting c)))
  pub send-out :
      (c : C) → Ready c → Ready (send c) × (out (send c) ≡ out c) × (waiting (send c) ≡ [])

-- A packet that finds no room is taken after the buffer was emptied, and then the socket is not
-- listed.
module _ {C : Type 0} (expand : List ℕ → C → Bool × C) (consume : C → C)
    (waiting : C → List ℕ) where
  abbrev pub buffered : List ℕ → C → C × Bool
  buffered buf c =
      let (taken, t) = expand buf c in
      if taken then (t, true) else ((expand buf (consume c)).1, false)

  module _ (Ready : C → Type 0) (out : C → List ℕ) (limit : ℕ)
      (takes : (buf : List ℕ) (c : C)
        → length buf < limit
        → Ready c
        → (((expand buf c).0 ≡ true)
            × Ready (expand buf c).1
            × (out (expand buf c).1 ≡ out c ++ buf))
          ⊎ (((expand buf c).0 ≡ false) × (0 < length (waiting c))))
      (consumed : (c : C)
        → Ready c
        → Ready (consume c) × (out (consume c) ≡ out c) × (waiting (consume c) ≡ [])) where
    pub buffered-out :
        (buf : List ℕ) (c : C)
        → length buf < limit
        → Ready c
        → Ready (buffered buf c).0
          × (out (buffered buf c).0 ≡ out c ++ buf)
          × (((buffered buf c).1 ≡ true) ⊎ (0 < length (waiting c)))
    buffered-out buf c h v = elim (takes buf c h v) [
      | inl (e, x, f) ↦ rw e (x, f, inl refl)
      | inr (e, kept) ↦
          let (x, f, z) = consumed c v in
          elim (takes buf (consume c) h x) [
            | inl (_, y, g) ↦ rw e (y, g ∙ ap (λ (t : List ℕ). t ++ buf) f, inr kept)
            | inr (_, more) ↦ absurd (omega (arith, ap length z))
          ]
    ]

    abbrev pub make_wire : Wire buffered consume waiting
    make_wire = record {
      Ready = Ready;
      out = out;
      limit = limit;
      put-out = buffered-out;
      send-out = consumed;
    }

abbrev pub Listed : ℕ → List ℕ → Type 0
Listed p [] = ⊥
Listed p (q ∷ need) = (q ≡ p) ⊎ Listed p need

Listed-append : (p : ℕ) (xs ys : List ℕ) → Listed p xs → Listed p (xs ++ ys)
Listed-append p [] ys h = elim h [ ]
Listed-append p (x ∷ xs) ys (inl e) = inl e
Listed-append p (x ∷ xs) ys (inr h) = inr (Listed-append p xs ys h)

Listed-last : (p : ℕ) (xs : List ℕ) → Listed p (xs ++ p ∷ [])
Listed-last p [] = inl refl
Listed-last p (x ∷ xs) = inr (Listed-last p xs)

-- needSendList after a packet for the socket `q`.
abbrev pub listing : ℕ → Bool → List ℕ → List ℕ
listing q b need = if b then need ++ q ∷ [] else need

pub Listed-other :
    (p q : ℕ) (need : List ℕ) (b : Bool) → Listed p need → Listed p (listing q b need)
Listed-other p q need true h = Listed-append p need (q ∷ []) h
Listed-other p q need false h = h

module _ {C : Type 0} {put : List ℕ → C → C × Bool} {send : C → C} {waiting : C → List ℕ}
    (w : Wire put send waiting) where
  -- The connection `p` is there, its output is `out`, and what waits in its buffer will be flushed.
  pub record Open (p : ℕ) (out : List ℕ) (need : List ℕ) (sockets : List (ℕ × C)) : Type 0 where
    pub socket : C
    pub alive : lookup p sockets ≡ some socket
    pub ready : w.Ready socket
    pub bytes : w.out socket ≡ out
    pub listed : (waiting socket ≡ []) ⊎ Listed p need

  pub Open-weaken :
      {p : ℕ} {out need : List ℕ} {k : List (ℕ × C)} (need' : List ℕ)
      → (o : Open p out need k) → (waiting o.socket ≡ []) ⊎ Listed p need'
      → Open p out need' k
  Open-weaken need' o l = record {
    socket = o.socket;
    alive = o.alive;
    ready = o.ready;
    bytes = o.bytes;
    listed = l;
  }

  -- What is done to another connection.
  pub Open-other :
      (p q : ℕ) (c : C) {out need : List ℕ} {k : List (ℕ × C)} (need' : List ℕ)
      → (q == p) ≡ false
      → (Listed p need → Listed p need')
      → Open p out need k
      → Open p out need' (update q c k)
  Open-other p q c {k = k} need' h f o = record {
    socket = o.socket;
    alive = lookup-update q p c k ∙ rw h o.alive;
    ready = o.ready;
    bytes = o.bytes;
    listed = elim o.listed [ inl e ↦ inl e | inr l ↦ inr (f l) ];
  }

  pub Open-erase :
      (p q : ℕ) {out need : List ℕ} {k : List (ℕ × C)}
      → (q == p) ≡ false
      → Open p out need k
      → Open p out need (erase q k)
  Open-erase p q {k = k} h o = record {
    socket = o.socket;
    alive = lookup-erase q p k ∙ rw h o.alive;
    ready = o.ready;
    bytes = o.bytes;
    listed = o.listed;
  }

  -- A packet for this connection.
  pub Open-put :
      (p : ℕ) (buf : List ℕ) {out need : List ℕ} {k : List (ℕ × C)}
      → length buf < w.limit
      → (o : Open p out need k)
      → Open p (out ++ buf) (listing p (put buf o.socket).1 need) (update p (put buf o.socket).0 k)
  Open-put p buf {need = need} {k = k} h o =
      let (v, e, l) = w.put-out buf o.socket h o.ready in
      let same : (p == p) ≡ true = ground arith in
      record {
        socket = (put buf o.socket).0;
        alive = lookup-update p p (put buf o.socket).0 k ∙ rw same refl;
        ready = v;
        bytes = e ∙ ap (λ (u : List ℕ). u ++ buf) o.bytes;
        listed = elim l [
          | inl t ↦ inr (rw t (Listed-last p need))
          | inr t ↦ elim o.listed [
            | inl m ↦ absurd (omega (arith, ap length m))
            | inr m ↦ inr (Listed-other p p need (put buf o.socket).1 m)
          ]
        ];
      }

  -- The flush of this connection.
  pub Open-send :
      (p : ℕ) (need' : List ℕ) {out need : List ℕ} {k : List (ℕ × C)}
      → (o : Open p out need k) → Open p out need' (update p (send o.socket) k)
  Open-send p need' {k = k} o =
      let (v, e, z) = w.send-out o.socket o.ready in
      let same : (p == p) ≡ true = ground arith in
      record {
        socket = send o.socket;
        alive = lookup-update p p (send o.socket) k ∙ rw same refl;
        ready = v;
        bytes = e ∙ o.bytes;
        listed = inl z;
      }

  -- Another socket at the front of the list is dealt with.
  pub Open-rest :
      (p q : ℕ) {out need : List ℕ} {k : List (ℕ × C)}
      → (q == p) ≡ false
      → Open p out (q ∷ need) k
      → Open p out need k
  Open-rest p q {need = need} h o =
      Open-weaken need o (elim o.listed [
        | inl e ↦ inl e
        | inr (inl e) ↦ absurd (ground arith)
        | inr (inr l) ↦ inr l
      ])

  -- The connection `p` when nothing of it waits any more.
  abbrev pub Flushed : ℕ → List ℕ → List (ℕ × C) → Type 0
  Flushed p out sockets =
      (c : C) × (lookup p sockets ≡ some c) × (w.out c ≡ out) × (waiting c ≡ []) × w.Ready c

  pub Open-Flushed : {p : ℕ} {out : List ℕ} {k : List (ℕ × C)} → Open p out [] k → Flushed p out k
  Open-Flushed o =
      let e : waiting o.socket ≡ [] = elim o.listed [ inl e ↦ e | inr l ↦ absurd l ] in
      (o.socket, o.alive, o.bytes, e, o.ready)

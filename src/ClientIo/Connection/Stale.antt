-- ===== src/ClientIo/Connection/Stale.antt =====
-- libsocket/ClientIOSocket.cpp: the receive buffer over a loss of the connection.
use echo_server_cpp.Prelude.{
  ℕ, ◌<◌, ◌≡◌, refl, ◌∙◌, Bool, false, some, List, [], ◌∷◌, ◌++◌, ◌==◌, Bool-cases, inl, inr,
  append-nil, append_assoc, length, length-append, ap, true, arith,
}
use echo_server_cpp.ClientIo.{recv}
use echo_server_cpp.ClientIo.Framing.{IsPacket, recv-packets}
use echo_server_cpp.ClientIo.Connection.Lifecycle.{opens, survives}
use echo_server_cpp.ClientIo.Connection.{
  Connection, Notice, connect_end, closed, received, Attempt, lose, to_connect, reconnect_callback,
  Event, timeout, error, eof, unknown, event_callback, read_callback,
}

to_connect-recv_buf : (net : Attempt) (s : Connection) → (to_connect net s).recv_buf ≡ s.recv_buf
unfolding to_connect lose
to_connect-recv_buf net s = elim (Bool-cases (net.new_fd == 0)) [
  | inl a ↦ rw a refl
  | inr a ↦ elim (Bool-cases net.connects) [
    | inl b ↦ elim (Bool-cases net.unblocks) [
      | inl c ↦ elim (Bool-cases net.makes_bev) [
        | inl d ↦ elim (Bool-cases net.enables) [
          | inl f ↦ rw (a, b, c, d, f) refl
          | inr f ↦ rw (a, b, c, d, f) refl
        ]
        | inr d ↦ rw (a, b, c, d) refl
      ]
      | inr c ↦ rw (a, b, c) refl
    ]
    | inr b ↦ rw (a, b) refl
  ]
]

event_callback-recv_buf :
    (event : Event) (s : Connection) → (event_callback event s).recv_buf ≡ s.recv_buf
unfolding event_callback lose
event_callback-recv_buf timeout s = refl
event_callback-recv_buf error s = refl
event_callback-recv_buf eof s = refl
event_callback-recv_buf unknown s = refl

to_connect-upward :
    (net : Attempt) (s : Connection)
    → opens net ≡ true
    → (to_connect net s).upward ≡ s.upward ++ connect_end 0 ∷ []
unfolding to_connect
to_connect-upward net s o = elim (Bool-cases (net.new_fd == 0)) [
  | inl a ↦ cc (rw a at o)
  | inr a ↦ elim (Bool-cases net.connects) [
    | inl b ↦ elim (Bool-cases net.unblocks) [
      | inl c ↦ elim (Bool-cases net.makes_bev) [
        | inl d ↦ elim (Bool-cases net.enables) [
          | inl f ↦ rw (a, b, c, d, f) refl
          | inr f ↦ cc (rw (a, b, c, d, f) at o)
        ]
        | inr d ↦ cc (rw (a, b, c, d) at o)
      ]
      | inr c ↦ cc (rw (a, b, c) at o)
    ]
    | inr b ↦ cc (rw (a, b) at o)
  ]
]

event_callback-upward :
    (event : Event) (s : Connection)
    → survives event ≡ false
    → (event_callback event s).upward ≡ s.upward ++ closed ∷ []
unfolding event_callback lose
event_callback-upward timeout s x = refl
event_callback-upward error s x = refl
event_callback-upward eof s x = refl
event_callback-upward unknown s x = cc

told_both :
    (net : Attempt) (event : Event) (s : Connection)
    → opens net ≡ true
    → survives event ≡ false
    → (reconnect_callback net (event_callback event s)).upward
      ≡ s.upward ++ closed ∷ connect_end 0 ∷ []
unfolding reconnect_callback
told_both net event s o x =
    to_connect-upward net (record (event_callback event s) { waits = false }) o
    ∙ ap (λ (ns : List Notice). ns ++ connect_end 0 ∷ []) (event_callback-upward event s x)
    ∙ append_assoc s.upward (closed ∷ []) (connect_end 0 ∷ [])

-- The receive buffer is not cleared when the connection ends (by an end, an error or a timeout that
-- libevent reports) and an attempt to connect again succeeds: where the bytes that it kept, which are
-- some but no whole packet, and the bytes that come first on the new connection, which are some,
-- together are one packet, the main thread is told of the close, of the new connection and of that
-- packet, with fuel for two rounds or more. The new connection has brought only a proper end of it,
-- and the receive buffer is empty then.
pub read_callback-stale :
    (host : Bool) (fuel : ℕ) (event : Event) (net : Attempt) (fresh : List ℕ) (s : Connection)
    → survives event ≡ false
    → opens net ≡ true
    → 0 < length s.recv_buf
    → 0 < length fresh
    → IsPacket (s.recv_buf ++ fresh)
    → 1 < fuel
    → (t : Connection) × (read_callback host fuel fresh
          (reconnect_callback net (event_callback event s))
        ≡ some t)
      × (t.upward ≡ s.upward ++ closed ∷ connect_end 0 ∷ received (s.recv_buf ++ fresh) ∷ [])
      × (length fresh < length (s.recv_buf ++ fresh))
      × (length s.recv_buf < length (s.recv_buf ++ fresh))
      × (t.recv_buf ≡ [])
unfolding read_callback reconnect_callback
read_callback-stale host fuel event net fresh s x o k f p h =
    let u = reconnect_callback net (event_callback event s) in
    let kept : u.recv_buf ≡ s.recv_buf =
      to_connect-recv_buf net (record (event_callback event s) { waits = false })
      ∙ event_callback-recv_buf event s in
    let e : recv host fuel u.recv_buf fresh ≡ some ((s.recv_buf ++ fresh) ∷ [], []) =
      recv-packets host fuel u.recv_buf fresh ((s.recv_buf ++ fresh) ∷ []) [] (p, tt)
        (inl (omega arith))
        (rw (kept, append-nil (s.recv_buf ++ fresh), append-nil (s.recv_buf ++ fresh)) refl)
        (omega arith) in
    let n = length-append s.recv_buf fresh in
    (
      record u { recv_buf = []; upward = u.upward ++ received (s.recv_buf ++ fresh) ∷ [] },
      rw (read_callback, e) refl,
      ap (λ (ns : List Notice). ns ++ received (s.recv_buf ++ fresh) ∷ [])
            (told_both net event s o x)
          ∙ append_assoc s.upward (closed ∷ connect_end 0 ∷ [])
              (received (s.recv_buf ++ fresh) ∷ []),
      omega (arith, n),
      omega (arith, n),
      refl,
    )

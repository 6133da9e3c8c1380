-- ===== src/ServerSocket/Turns.antt =====
-- libsocket/ServerSocket.cpp: the main thread together with the IO threads that push on its queue.
use mathlib.Core.Option.{some-injective}
use echo_server_cpp.Prelude.{
  subst, nothing_left, ℕ, zero, suc, ◌-◌, ◌≤◌, ◌≡◌, refl, sym, ap, ◌∙◌, Bool, Option, none, some,
  List, [], arith, length, drop, length-drop, Bool-cases, inl, inr,
}
use echo_server_cpp.Prelude.Int.{◌-ℤ◌}
use echo_server_cpp.ServerSocket.{
  Package, CallBack, Hub, push, pair_callback, accept_callback, timer_callback, is_negative,
}
use echo_server_cpp.ServerSocket.Agents.{Consistent}
use echo_server_cpp.ServerSocket.Queue.{pair_callback-queue}
use echo_server_cpp.ServerSocket.Lifecycle.{
  Allowed, Orderly, Orderly-append, Orderly-drop, after_all, after_all-split, known,
  pair_callback-Deals,
}

-- What may happen next: an IO thread pushes a package that fits the connection, as the queue leaves
-- it; libevent calls acceptCallback or timerCallback; or it calls pairCallback.
pub data Step {A : Type 0} (cb : CallBack A) (host : Bool) : Hub A → Hub A → Type 0 where
  pushes :
      (s : Hub A) (p : Package)
      → Allowed p (after_all s.queue (known s))
      → Step cb host s (push p s)
  accepts : (s : Hub A) (fd : ℕ) → Step cb host s (accept_callback fd s)
  ticks : (s : Hub A) → Step cb host s (timer_callback cb s)
  turns : {s t : Hub A} → pair_callback cb host s ≡ some t → Step cb host s t

pub data Reach {A : Type 0} (cb : CallBack A) (host : Bool) (s : Hub A) : Hub A → Type 0 where
  here : Reach cb host s s
  next : {t u : Hub A} → Reach cb host s t → Step cb host t u → Reach cb host s u

-- The count is the number of agents, they stand under their own descriptors, and the queue holds
-- packages that fit their connections.
pub record Sound {A : Type 0} (s : Hub A) : Type 0 where
  pub consistent : Consistent s
  pub orderly : Orderly s.queue (known s)

module _ {A : Type 0} (cb : CallBack A) (host : Bool) where
  push-Sound :
      (s : Hub A) (p : Package)
      → Allowed p (after_all s.queue (known s))
      → Sound s
      → Sound (push p s)
  unfolding push
  push-Sound s p a v = record {
    consistent = record { counted = v.consistent.counted; keys = v.consistent.keys };
    orderly = Orderly-append s.queue p (known s) v.orderly a;
  }

  accept_callback-Sound : (fd : ℕ) (s : Hub A) → Sound s → Sound (accept_callback fd s)
  unfolding accept_callback
  accept_callback-Sound fd s v =
      elim (Bool-cases (is_negative (s.now_socket_count -ℤ s.max_sockets))) [
        | inl b ↦ rw b (record {
          consistent = record { counted = v.consistent.counted; keys = v.consistent.keys };
          orderly = v.orderly;
        })
        | inr b ↦ rw b v
      ]

  timer_callback-Sound : (s : Hub A) → Sound s → Sound (timer_callback cb s)
  unfolding timer_callback
  timer_callback-Sound s v = record {
    consistent = record { counted = v.consistent.counted; keys = v.consistent.keys };
    orderly = v.orderly;
  }

  -- One call of pairCallback from a sound state.
  Sound-turn :
      (s : Hub A)
      → Sound s
      → (t : Hub A) × (pair_callback cb host s ≡ some t)
        × Sound t
        × (t.queue ≡ drop (suc s.pair_deal_count) s.queue)
        × (after_all t.queue (known t) ≡ after_all s.queue (known s))
  Sound-turn s v =
      let n = suc s.pair_deal_count in
      let (t, e, c, k) = pair_callback-Deals cb host s v.consistent v.orderly in
      let q = (pair_callback-queue cb host s t e).0 in
      (
        t,
        e,
        record { consistent = c; orderly = rw (q, k) (Orderly-drop n s.queue (known s) v.orderly) },
        q,
        rw (q, k) (after_all-split n s.queue (known s)),
      )

  Step-Sound : {s t : Hub A} → Step cb host s t → Sound s → Sound t
  Step-Sound (pushes s p a) v = push-Sound s p a v
  Step-Sound (accepts s fd) v = accept_callback-Sound fd s v
  Step-Sound (ticks s) v = timer_callback-Sound s v
  Step-Sound (turns {s} {t} e) v =
      let (u, f, w, q, k) = Sound-turn s v in
      subst (λ (x : Hub A). Sound x) (some-injective _ _ (sym f ∙ e)) w

  Reach-Sound : {s t : Hub A} → Sound s → Reach cb host s t → Sound t
  Reach-Sound v here = v
  Reach-Sound v (next r k) = Step-Sound k (Reach-Sound v r)

  -- However the IO threads push packages that fit their connections, and the other callbacks come
  -- in between, from a sound state on the main thread never crashes in pairCallback, its count stays
  -- the number of its agents, and its queue stays orderly.
  pub reached-turn :
      (s t : Hub A)
      → Sound s
      → Reach cb host s t
      → Sound t × ((u : Hub A) × (pair_callback cb host t ≡ some u) × Sound u)
  reached-turn s t v r =
      let w = Reach-Sound v r in let (u, e, x, q, k) = Sound-turn t w in (w, (u, e, x))

  -- `k` calls of pairCallback.
  unfoldable pub run : ℕ → Hub A → Option (Hub A)
  run zero s = some s
  run (suc k) s = elim (pair_callback cb host s) [ none ↦ none | some t ↦ run k t ]

module _ {A : Type 0} (cb : CallBack A) (host : Bool) where
  -- From a sound state, as many calls of pairCallback as there are packages, or more, empty the
  -- queue without a crash, and the agents are then those of the connections that the packages, in
  -- their order, leave open.
  pub run-empties :
      (k : ℕ) (s : Hub A)
      → length s.queue ≤ k
      → Sound s
      → (t : Hub A) × (run cb host k s ≡ some t)
        × (t.queue ≡ [])
        × Sound t
        × (known t ≡ after_all s.queue (known s))
  unfolding run
  run-empties zero s h v =
      let e = nothing_left s.queue h in
      (s, refl, e, v, ap (λ (q : List Package). after_all q (known s)) (sym e))
  run-empties (suc k) s h v =
      let (t, e, w, q, a) = Sound-turn cb host s v in
      let left : length t.queue ≡ length s.queue - suc s.pair_deal_count =
        ap length q ∙ length-drop (suc s.pair_deal_count) s.queue in
      let (u, f, g, x, b) = run-empties k t (omega (arith, left)) w in
      (u, rw (run, e) f, g, x, b ∙ a)

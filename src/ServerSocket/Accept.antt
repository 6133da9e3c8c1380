-- ===== src/ServerSocket/Accept.antt =====
-- libsocket/ServerSocket.cpp: acceptCallback and the IO threads.
use native.Mathlib.Nat.{mod_self, mod-eq_of_lt}
use echo_server_cpp.Prelude.{
  ℕ, ◌+◌, ◌%◌, ◌≤◌, ◌<◌, ◌≡◌, refl, sym, inl, inr, true, false, Bool-cases, [], ◌∷◌, ◌++◌, arith,
  leb, if◌then◌else◌,
}
use echo_server_cpp.Prelude.Int.{pos, ◌-ℤ◌}
use echo_server_cpp.ServerSocket.{accept_fd, Hub, is_negative, accept_callback}

below_limit : (count limit : ℕ) → count < limit → is_negative (pos count -ℤ pos limit) ≡ true
unfolding ◌-ℤ◌ is_negative
below_limit count limit h = ground arith

at_limit : (count limit : ℕ) → limit ≤ count → is_negative (pos count -ℤ pos limit) ≡ false
unfolding ◌-ℤ◌ is_negative
at_limit count limit h = ground arith

next_turn : (k n : ℕ) → k < n → (if leb n (k + 1) then 0 else k + 1) ≡ (k + 1) % n
next_turn k n h = elim (Bool-cases (leb n (k + 1))) [
  | inl a ↦ let e : k + 1 ≡ n = ground arith in rw (a, e) (sym (mod_self n))
  | inr a ↦ let e : k + 1 < n = ground arith in rw a (sym (mod-eq_of_lt e))
]

-- As long as the count of connections is below the limit, every new connection goes to an IO thread
-- that there is, and the turn passes to the next thread, round the circle of them.
pub accept_callback-turn :
    {A : Type 0} (fd count limit : ℕ) (s : Hub A)
    → s.now_socket_count ≡ pos count
    → s.max_sockets ≡ pos limit
    → count < limit
    → s.current_thread < s.thread_count
    → accept_callback fd s ≡ record s {
      outbox = s.outbox ++ (s.current_thread, accept_fd fd) ∷ [];
      current_thread = (s.current_thread + 1) % s.thread_count;
    }
unfolding accept_callback
accept_callback-turn fd count limit s c m less turn =
    rw (c, m, below_limit count limit less, next_turn s.current_thread s.thread_count turn) refl

-- At the limit and above it a new connection is turned away and nothing changes.
pub accept_callback-full :
    {A : Type 0} (fd count limit : ℕ) (s : Hub A)
    → s.now_socket_count ≡ pos count
    → s.max_sockets ≡ pos limit
    → limit ≤ count
    → accept_callback fd s ≡ s
unfolding accept_callback
accept_callback-full fd count limit s c m le = rw (c, m, at_limit count limit le) refl

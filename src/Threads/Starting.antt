-- ===== src/Threads/Starting.antt =====
-- libbase/Thread.cpp and libsocket/ServerSocket.cpp: what is running.
use echo_server_cpp.Prelude.{
  Option, none, some, sym, subst, ℕ, suc, ◌+◌, ◌≤◌, ◌≡◌, refl, ap, ◌∙◌, ◌⊎◌, inl, inr, Bool, true,
  false, Bool-cases, ◌&&◌, ◌||◌, List, [], ◌∷◌, arith, if◌then◌else◌,
}
use echo_server_cpp.Prelude.Int.{ℤ, pos, negsuc}
use echo_server_cpp.Threads.{
  Thread, make, Creation, created, refused, create, start, thread_func_end, terminate, start_all,
  Setup, server_begin,
}

-- Nobody else runs with the object: it has a handle while it is marked as running, and then at most
-- one thread is alive, else none.
pub record Alone (t : Thread) : Type 0 where
  pub marked : t.running ≡ true → t.has_handle ≡ true
  pub one : t.alive ≤ 1
  pub idle : (t.running ≡ true) ⊎ (t.alive ≡ 0)

pub data Act : Type 0 where
  starts : Creation → Act
  ends : Act
  terminates : Act

abbrev pub act : Act → Thread → Thread
act (starts creation) t = (start creation t).1
act ends t = thread_func_end t
act terminates t = terminate t

abbrev pub act_all : List Act → Thread → Thread
act_all [] t = t
act_all (a ∷ acts) t = act_all acts (act a t)

-- terminate is called only when no thread is alive any more.
abbrev pub Patient : List Act → Thread → Type 0
Patient [] t = Unit {0}
Patient (starts creation ∷ acts) t = Patient acts (act (starts creation) t)
Patient (ends ∷ acts) t = Patient acts (act ends t)
Patient (terminates ∷ acts) t = (t.alive ≡ 0) × Patient acts (act terminates t)

create-Alone : (creation : Creation) (t : Thread) → t.alive ≡ 0 → Alone (create creation t).1
unfolding create
create-Alone created t a = record { marked = λ e. refl; one = omega (arith, a); idle = inl refl }
create-Alone (refused left) t a = record {
  marked = λ e. cc e;
  one = omega (arith, a);
  idle = inr a;
}

start-Alone : (creation : Creation) (t : Thread) → Alone t → Alone (start creation t).1
unfolding start
start-Alone creation t h = elim (Bool-cases (t.has_handle || t.running)) [
  | inl r ↦ rw r h
  | inr r ↦
      let stopped : t.running ≡ false = ground arith in
      rw r (create-Alone creation t (elim h.idle [ inl e ↦ cc (e, stopped) | inr e ↦ e ]))
]

end-Alone : (t : Thread) → Alone t → Alone (thread_func_end t)
unfolding thread_func_end
end-Alone t h = record {
  marked = h.marked;
  one = (let o = h.one in omega arith);
  idle = elim h.idle [ inl e ↦ inl e | inr e ↦ inr (omega (arith, e)) ];
}

terminate-Alone : (t : Thread) → t.alive ≡ 0 → Alone t → Alone (terminate t)
unfolding terminate
terminate-Alone t a h = elim (Bool-cases t.running) [
  | inl e ↦
      subst Alone (sym (stopped e))
        (record { marked = λ f. cc f; one = omega (arith, a); idle = inr a })
  | inr e ↦ subst Alone (sym (same e)) h
]
  where
    stopped :
        t.running ≡ true
        → (if t.running then record t { running = false; has_handle = false } else t)
          ≡ record t { running = false; has_handle = false }
    stopped e =
        ap (λ (b : Bool). if b then record t { running = false; has_handle = false } else t) e

    same :
        t.running ≡ false
        → (if t.running then record t { running = false; has_handle = false } else t) ≡ t
    same e = ap (λ (b : Bool). if b then record t { running = false; has_handle = false } else t) e

-- Whatever is done to an object after it was made, and in whichever order, whatever a failed
-- pthread_create leaves in the handle, provided that terminate is called only when none of its threads
-- is alive: it has a handle while it is marked as running, at most one of its threads is alive, and
-- none where it is not marked.
pub act_all-Alone : (acts : List Act) → Patient acts make → Alone (act_all acts make)
act_all-Alone acts k =
    from acts make k (record { marked = λ e. cc e; one = omega arith; idle = inr refl })
  where
    from : (more : List Act) (t : Thread) → Patient more t → Alone t → Alone (act_all more t)
    from [] t k h = h
    from (starts creation ∷ more) t k h =
        from more (act (starts creation) t) k (start-Alone creation t h)
    from (ends ∷ more) t k h = from more (act ends t) k (end-Alone t h)
    from (terminates ∷ more) t k h = from more (act terminates t) k.1 (terminate-Alone t k.0 h)

-- How many threads are created before one is not.
abbrev pub leading : List Creation → ℕ
leading [] = 0
leading (created ∷ creates) = suc (leading creates)
leading (refused left ∷ creates) = 0

abbrev pub all_created : List Creation → Bool
all_created [] = true
all_created (created ∷ creates) = all_created creates
all_created (refused left ∷ creates) = false

abbrev pub alive_of : List Thread → ℕ
alive_of [] = 0
alive_of (t ∷ threads) = t.alive + alive_of threads

-- As many new objects as there are answers.
abbrev pub fresh : List Creation → List Thread
fresh [] = []
fresh (c ∷ creates) = make ∷ fresh creates

alive_of-fresh : (creates : List Creation) → alive_of (fresh creates) ≡ 0
alive_of-fresh [] = refl
alive_of-fresh (c ∷ creates) = omega (arith, alive_of-fresh creates)

start_all-fresh :
    (creates : List Creation)
    → ((start_all creates (fresh creates)).0 ≡ all_created creates)
      × (alive_of (start_all creates (fresh creates)).1 ≡ leading creates)
unfolding start_all start create
start_all-fresh [] = (refl, refl)
start_all-fresh (created ∷ creates) = let (a, b) = start_all-fresh creates in (a, omega (arith, b))
start_all-fresh (refused left ∷ creates) = (refl, omega (arith, alive_of-fresh creates))

-- Whether ServerSocket::begin gets to its threads, where event_new makes an event.
abbrev pub opens : Setup → Bool
opens s = s.makes_socket && (s.reuses && (s.unblocks && (s.binds && (s.listens && s.adds_event))))

abbrev pub succeeded : ℤ → Bool
succeeded (pos n) = true
succeeded (negsuc n) = false

-- That there is a result, and what is said of it where `o` is whether begin got to its threads.
abbrev pub Begun : List Creation → Bool → Option (ℤ × List Thread) → Type 0
Begun creates o r =
    (code : ℤ) × (threads : List Thread) × (r ≡ some (code, threads))
    × (succeeded code ≡ (o && all_created creates))
    × (alive_of threads ≡ (if o then leading creates else 0))

-- One test of begin.
gate :
    (creates : List Creation) (b o : Bool) (n : ℕ) (r : Option (ℤ × List Thread))
    → Begun creates o r
    → Begun creates (b && o) (if b then r else some (negsuc n, fresh creates))
gate creates true o n r h = h
gate creates false o n r h = (negsuc n, fresh creates, refl, refl, alive_of-fresh creates)

last_gate :
    (creates : List Creation) (b : Bool) (n : ℕ) (r : Option (ℤ × List Thread))
    → Begun creates true r
    → Begun creates b (if b then r else some (negsuc n, fresh creates))
last_gate creates true n r h = h
last_gate creates false n r h = (negsuc n, fresh creates, refl, refl, alive_of-fresh creates)

event_gate :
    (creates : List Creation) (b o : Bool) (r : Option (ℤ × List Thread))
    → b ≡ true
    → Begun creates o r
    → Begun creates o (if b then r else none)
event_gate creates true o r e h = h
event_gate creates false o r e h = cc

succeeded-code : (b : Bool) → succeeded (if b then pos 0 else negsuc 8) ≡ b
succeeded-code true = refl
succeeded-code false = refl

-- ServerSocket::begin on objects that are just made, where event_new makes an event, returns an error
-- code, which is negative, unless all that it asks for succeeds and every thread is created; the
-- threads that are alive then are those that were created before the first failure, and they go on
-- where begin fails, but none is where it fails before its loop.
pub server_begin-starts :
    (s : Setup)
    → s.makes_event ≡ true
    → (code : ℤ) × (threads : List Thread) × (server_begin s (fresh s.creates)
        ≡ some (code, threads))
      × (succeeded code ≡ (opens s && all_created s.creates))
      × (alive_of threads ≡ (if opens s then leading s.creates else 0))
unfolding server_begin
server_begin-starts s e =
    let (a, b) = start_all-fresh s.creates in
    let (started, threads) = start_all s.creates (fresh s.creates) in
    gate s.creates s.makes_socket _ 1 _ (
      gate s.creates s.reuses _ 2 _ (
        gate s.creates s.unblocks _ 3 _ (
          gate s.creates s.binds _ 4 _ (
            gate s.creates s.listens _ 5 _ (
              event_gate s.creates s.makes_event _ _ e (
                last_gate s.creates s.adds_event 7
                  (some ((if started then pos 0 else negsuc 8), threads))
                  (
                    (if started then pos 0 else negsuc 8),
                    threads,
                    refl,
                    succeeded-code started ∙ a,
                    b,
                  )))))))

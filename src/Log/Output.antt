-- ===== src/Log/Output.antt =====
-- libbase/Log.cpp: the text that is logged and the text that is printed.
use echo_server_cpp.Prelude.{
  subst, ◌⊎◌, ℕ, ◌+◌, ◌-◌, ◌%◌, ◌^◌, ◌≤◌, ◌<◌, ◌≡◌, refl, sym, ap, ◌∙◌, Bool, true, false, Option,
  none, some, List, [], ◌∷◌, ◌++◌, append-nil, append_assoc, length, length-append, ltb, leb, ◌==◌,
  if◌then◌else◌, Bool-cases, inl, inr, arith,
}
use echo_server_cpp.Prelude.Ascii.{c_string}
use echo_server_cpp.Prelude.Bytes.{All, All-append}
use echo_server_cpp.Log.{
  Now, Log, max_log_buffer_size, too_much, log, close_old, open_new, open_file, write_file,
  write_out, log_buffer, log_file, round,
}

-- What the threads do: one logs a text, or the thread of the log makes a round.
pub data Action : Type 0 where
  logs : List ℕ → Action
  rounds : Now → Action

unfoldable pub act : Action → Log → Log
act (logs buf) s = log buf s
act (rounds now) s = round now s

unfoldable pub act_all : List Action → Log → Log
act_all [] s = s
act_all (a ∷ actions) s = act_all actions (act a s)

abbrev pub texts : List Action → List ℕ
texts [] = []
texts (logs buf ∷ actions) = buf ++ texts actions
texts (rounds now ∷ actions) = texts actions

-- Texts have no zero characters.
abbrev pub NoZero : List ℕ → Type 0
NoZero s = All (λ (x : ℕ). (x == 0) ≡ false) s

abbrev pub IsText : Action → Type 0
IsText (logs buf) = NoZero buf × (length buf < 2 ^ 31)
IsText (rounds now) = Unit {0}

c_string-NoZero : (s : List ℕ) → NoZero s → c_string s ≡ s
unfolding c_string
c_string-NoZero [] h = refl
c_string-NoZero (x ∷ s) h = rw h.0 (ap (λ (t : List ℕ). x ∷ t) (c_string-NoZero s h.1))

-- A log that prints, with a buffer that is not overfull.
pub record Prints (s : Log) : Type 0 where
  pub prints : s.std_out ≡ true
  pub no_zero : NoZero s.buffer
  pub fits : length s.buffer ≤ max_log_buffer_size - 200

abbrev pub shown : Log → List ℕ
shown s = s.screen ++ s.buffer

-- What a round keeps.
record Kept (s t : Log) : Type 0 where
  same : shown t ≡ shown s
  drops : t.drop_count ≡ s.drop_count
  prints : Prints t

same_parts :
    (s t : Log)
    → t.screen ≡ s.screen
    → t.buffer ≡ s.buffer
    → t.drop_count ≡ s.drop_count
    → t.std_out ≡ s.std_out
    → Prints s
    → Kept s t
same_parts s t a b c d v = record {
  same = rw (a, b) refl;
  drops = c;
  prints = record { prints = d ∙ v.prints; no_zero = rw b v.no_zero; fits = rw b v.fits };
}

close_old-Kept : (found : Option ℕ) (s : Log) → Prints s → Kept s (close_old found s)
unfolding close_old
close_old-Kept none s v = same_parts s s refl refl refl refl v
close_old-Kept (some name) s v = elim (Bool-cases (leb s.file_size s.now_use_size)) [
  | inl a ↦ rw (close_old, a) (same_parts s (record s { current = none }) refl refl refl refl v)
  | inr a ↦ elim (Bool-cases (s.last_day == s.now_day)) [
    | inl b ↦ rw (close_old, a, b) (same_parts s s refl refl refl refl v)
    | inr b ↦
        rw (close_old, a, b) (same_parts s (record s { current = none }) refl refl refl refl v)
  ]
]

open_new-Kept :
    (now : Now) (found : Option ℕ) (s : Log) → Prints s → Kept s (open_new now found s).1
unfolding open_new
open_new-Kept now (some name) s v = same_parts s s refl refl refl refl v
open_new-Kept now none s v = elim (Bool-cases now.can_open) [
  | inl a ↦ rw a (same_parts s _ refl refl refl refl v)
  | inr a ↦ rw a (same_parts s _ refl refl refl refl v)
]

Kept-trans : (s t u : Log) → Kept s t → Kept t u → Kept s u
Kept-trans s t u a b = record {
  same = b.same ∙ a.same;
  drops = b.drops ∙ a.drops;
  prints = b.prints;
}

open_file-Kept : (now : Now) (s : Log) → Prints s → Kept s (open_file now s).1
unfolding open_file
open_file-Kept now s v = open_case s.file_out
  where
    open_case :
        (b : Bool)
        → Kept s
            (if b then (let t = close_old s.current s in open_new now t.current t) else (true, s)).1
    open_case true =
        let t = close_old s.current s in
        let k = close_old-Kept s.current s v in
        Kept-trans s t (open_new now t.current t).1 k (open_new-Kept now t.current t k.prints)
    open_case false = same_parts s s refl refl refl refl v

-- What writing to the file leaves.
abbrev Beside : Log → Log → Type 0
Beside s t =
    (t.screen ≡ s.screen)
    × (t.buffer ≡ s.buffer)
    × (t.drop_count ≡ s.drop_count)
    × (t.std_out ≡ s.std_out)

write_file-Beside :
    (b : Bool) (current : Option ℕ) (text : List ℕ) (s : Log)
    → Beside s (if b then write_file current text s else s)
unfolding write_file
write_file-Beside false current text s = (refl, refl, refl, refl)
write_file-Beside true none text s = (refl, refl, refl, refl)
write_file-Beside true (some name) text s = (refl, refl, refl, refl)

write_out_lem :
    (text : List ℕ) (s : Log)
    → s.std_out ≡ true
    → (t : Log) × (write_out text s ≡ record t { screen = t.screen ++ text }) × Beside s t
unfolding write_out
write_out_lem text s h =
    let t = if s.file_out then write_file s.current text s else s in
    let k = write_file-Beside s.file_out s.current text s in (t, printed t t.std_out (k.3 ∙ h), k)
  where
    printed :
        (t : Log) (b : Bool)
        → b ≡ true
        → (if b then record t { screen = t.screen ++ text } else t)
          ≡ record t { screen = t.screen ++ text }
    printed t true e = refl
    printed t false e = cc

log_buffer-Kept : (buf : List ℕ) (s : Log) → buf ≡ s.buffer → Prints s → Kept s (log_buffer buf s).1
unfolding log_buffer
log_buffer-Kept [] s e v = same_parts s s refl refl refl refl v
log_buffer-Kept (x ∷ buf) s e v =
    let text = x ∷ buf in
    let s' : Log = record s {
      buffer = [];
      now_use_size = (s.now_use_size + length text) % 2 ^ 32;
    } in
    let zero_free : NoZero text = subst NoZero (sym e) v.no_zero in
    let whole : c_string text ≡ text = c_string-NoZero text zero_free in
    let (t, f, (a, b, c, d)) = write_out_lem (c_string text) s' v.prints in
    let u : Log = record t { screen = t.screen ++ c_string text } in
    let k : Kept s u = record {
      same =
          ap (λ (r : List ℕ). (t.screen ++ c_string text) ++ r) b
          ∙ append-nil (t.screen ++ c_string text)
          ∙ ap (λ (r : List ℕ). r ++ c_string text) a
          ∙ ap (λ (r : List ℕ). s.screen ++ r) (whole ∙ e);
      drops = c;
      prints = record {
        prints = d ∙ v.prints;
        no_zero = subst NoZero (sym b) tt;
        fits = (let n : length t.buffer ≡ 0 = ap length b in omega (arith, n));
      };
    } in
    subst (λ (w : Log). Kept s w) (sym f) k

log_file-Kept : (now : Now) (s : Log) → Prints s → Kept s (log_file now s).1
unfolding log_file
log_file-Kept now s v = log_case s.runing
  where
    opened_case :
        (b : Bool) (t : Log) → Kept s t → Kept s (if b then log_buffer t.buffer t else (false, t)).1
    opened_case true t k =
        Kept-trans s t (log_buffer t.buffer t).1 k (log_buffer-Kept t.buffer t refl k.prints)
    opened_case false t k = k

    log_case :
        (b : Bool)
        → Kept s
            (if b
              then (let (opened, t) = open_file now s in
                  if opened then log_buffer t.buffer t else (false, t))
              else (false, s)).1
    log_case true = opened_case (open_file now s).0 (open_file now s).1 (open_file-Kept now s v)
    log_case false = same_parts s s refl refl refl refl v

round-Kept : (now : Now) (s : Log) → Prints s → Kept s (round now s)
unfolding round
round-Kept now s v = elim (Bool-cases (log_file now s).0) [
  | inl a ↦ rw (round, a) (log_file-Kept now s v)
  | inr a ↦
      let t = (log_file now s).1 in
      let k = log_file-Kept now s v in
      rw (round, a)
        (Kept-trans s t (record t { now_day = now.day }) k
          (same_parts t _ refl refl refl refl k.prints))
]

log_cases :
    (buf : List ℕ) (s : Log)
    → NoZero buf
    → length buf < 2 ^ 31
    → Prints s
    → ((log buf s ≡ record s { drop_count = s.drop_count + 1; screen = s.screen ++ too_much })
        × Prints (record s { drop_count = s.drop_count + 1; screen = s.screen ++ too_much }))
      ⊎ ((log buf s ≡ record s { buffer = s.buffer ++ buf })
          × Prints (record s { buffer = s.buffer ++ buf }))
unfolding log
log_cases buf s z less v =
    let w : (length s.buffer + length buf) % 2 ^ 32 ≡ length s.buffer + length buf = omega arith in
    elim (Bool-cases (ltb (max_log_buffer_size - 200) (length s.buffer + length buf))) [
      | inl a ↦
          inl
            (rw (log, w, a) refl, record { prints = v.prints; no_zero = v.no_zero; fits = v.fits })
      | inr a ↦
          let n = length-append s.buffer buf in
          inr (
            rw (log, w, a) refl,
            record {
              prints = v.prints;
              no_zero = All-append (λ (x : ℕ). (x == 0) ≡ false) s.buffer buf v.no_zero z;
              fits = ground (arith, n);
            },
          )
    ]

drops_grow :
    (actions : List Action) (s : Log)
    → Prints s
    → All IsText actions
    → s.drop_count ≤ (act_all actions s).drop_count
unfolding act_all act
drops_grow [] s v h = omega arith
drops_grow (rounds now ∷ actions) s v h =
    let k = round-Kept now s v in
    omega (arith, k.drops, drops_grow actions (round now s) k.prints h.1)
drops_grow (logs buf ∷ actions) s v (t, h) = elim (log_cases buf s t.0 t.1 v) [
  | inl (e, w) ↦
      rw (act_all, e)
        (omega (
          arith,
          drops_grow actions
              (record s { drop_count = s.drop_count + 1; screen = s.screen ++ too_much }) w h,
        ))
  | inr (e, w) ↦ rw (act_all, e) (drops_grow actions (record s { buffer = s.buffer ++ buf }) w h)
]

-- In a log that prints, with texts that have no zero character and are shorter than 2 ^ 31: if no
-- text is dropped, all that is logged, in between any rounds of the thread, is printed in order or
-- still in the buffer, which never holds more than its bound.
pub act_all-shown :
    (actions : List Action) (s : Log)
    → Prints s
    → All IsText actions
    → (act_all actions s).drop_count ≡ s.drop_count
    → (shown (act_all actions s) ≡ shown s ++ texts actions) × Prints (act_all actions s)
unfolding act_all act
act_all-shown [] s v h e = (sym (append-nil (shown s)), v)
act_all-shown (rounds now ∷ actions) s v h e =
    let k = round-Kept now s v in
    let (a, b) = act_all-shown actions (round now s) k.prints h.1 (e ∙ sym k.drops) in
    (a ∙ ap (λ (r : List ℕ). r ++ texts actions) k.same, b)
act_all-shown (logs buf ∷ actions) s v (t, h) e = elim (log_cases buf s t.0 t.1 v) [
  | inl (f, w) ↦
      let d = rw (act_all, f) at e in
      absurd (
        omega (
          arith,
          drops_grow actions
              (record s { drop_count = s.drop_count + 1; screen = s.screen ++ too_much }) w h,
          d,
        ))
  | inr (f, w) ↦
      let (a, b) =
        act_all-shown actions (record s { buffer = s.buffer ++ buf }) w h (rw (act_all, f) at e) in
      rw (act_all, f)
        (
          a
              ∙ ap (λ (r : List ℕ). r ++ texts actions) (sym (append_assoc s.screen s.buffer buf))
              ∙ append_assoc (shown s) buf (texts actions),
          b,
        )
]

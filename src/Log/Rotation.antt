-- ===== src/Log/Rotation.antt =====
-- libbase/Log.cpp: when a file is closed and another one is made.
use echo_server_cpp.Prelude.{
  subst, ℕ, ◌≤◌, ◌≡◌, ◌≢◌, refl, sym, ap, ◌∙◌, ◌⊎◌, inl, inr, Bool, true, false, Bool-cases, Option,
  none, some, [], leb, ◌==◌, if◌then◌else◌, arith,
}
use echo_server_cpp.Prelude.Assoc.{lookup, lookup-update}
use echo_server_cpp.Log.{Now, Log, close_old, open_new, open_file}

closed :
    (name : ℕ) (s : Log)
    → (s.file_size ≤ s.now_use_size) ⊎ (s.last_day ≢ s.now_day)
    → close_old (some name) s ≡ record s { current = none }
unfolding close_old
closed name s h = elim (Bool-cases (leb s.file_size s.now_use_size)) [
  | inl a ↦ rw a refl
  | inr a ↦ elim h [
    | inl less ↦ absurd (ground arith)
    | inr other ↦ let b : (s.last_day == s.now_day) ≡ false = ground arith in rw (a, b) refl
  ]
]

-- A file that is full, or that is not of the day that the thread last looked up, is closed; where
-- the next one gets the same name, as in the same second, its text is lost.
pub open_file-truncates :
    (now : Now) (name : ℕ) (s : Log)
    → s.file_out ≡ true
    → s.current ≡ some name
    → (s.file_size ≤ s.now_use_size) ⊎ (s.last_day ≢ s.now_day)
    → now.can_open ≡ true
    → now.name ≡ name
    → lookup name (open_file now s).1.files ≡ some []
unfolding open_file open_new
open_file-truncates now name s f c h o n =
    let old : close_old s.current s ≡ record s { current = none } =
      ap (λ (o : Option ℕ). close_old o s) c ∙ closed name s h in
    let t : Log = record s { current = none } in
    let fresh : lookup name (open_new now none t).1.files ≡ some [] = emptied t in
    when s.file_out f (
      subst (λ (u : Log). lookup name (open_new now u.current u).1.files ≡ some []) (sym old) fresh)
  where
    emptied : (t : Log) → lookup name (open_new now none t).1.files ≡ some []
    emptied t =
        let same : (now.name == name) ≡ true = ground arith in
        rw o (lookup-update now.name name [] t.files ∙ rw same refl)

    when :
        (b : Bool)
        → b ≡ true
        → (let t = close_old s.current s in
            lookup name (open_new now t.current t).1.files ≡ some [])
        → lookup name
            (if b
              then (let t = close_old s.current s in open_new now t.current t)
              else (true, s)).1.files
          ≡ some []
    when true e x = x
    when false e x = cc

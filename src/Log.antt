-- ===== src/Log.antt =====
-- libbase/Log.cpp: the buffer of the log and the thread that writes it out. `files` are the files by
-- name, `current` is the name of the open one, and `screen` is what went to the standard output. What
-- the clock and the file system say in a round is an argument.
pub mod Output
pub mod Rotation
use echo_server_cpp.Prelude.{
  ℕ, ◌+◌, ◌-◌, ◌%◌, ◌^◌, Bool, true, false, Option, none, some, List, [], ◌∷◌, ◌++◌, length, ltb,
  leb, ◌==◌, if◌then◌else◌,
}
use echo_server_cpp.Prelude.Ascii.{codes, c_string}
use echo_server_cpp.Prelude.Assoc.{lookup, update}

abbrev pub max_log_buffer_size : ℕ
max_log_buffer_size = 614400

-- The day, the file name for the time, and whether that file can be opened.
pub record Now : Type 0 where
  pub day : ℕ
  pub name : ℕ
  pub can_open : Bool

pub record Log : Type 0 where
  pub runing : Bool
  pub file_size : ℕ
  pub std_out : Bool
  pub file_out : Bool
  pub now_day : ℕ
  pub last_day : ℕ
  pub current : Option ℕ
  pub files : List (ℕ × List ℕ)
  pub buffer : List ℕ
  pub now_use_size : ℕ
  pub drop_count : ℕ
  pub screen : List ℕ

abbrev pub too_much : List ℕ
too_much = codes "[Error]Log is too much!" ++ 10 ∷ []

-- The length and `len` are added as `unsigned int`.
unfoldable pub log : List ℕ → Log → Log
log buf s =
    if ltb (max_log_buffer_size - 200) ((length s.buffer + length buf) % 2 ^ 32)
    then record s { drop_count = s.drop_count + 1; screen = s.screen ++ too_much }
    else record s { buffer = s.buffer ++ buf }

-- The first part of openFile: a file that is full, or of another day, is closed.
unfoldable pub close_old : Option ℕ → Log → Log
close_old none s = s
close_old (some name) s =
    if leb s.file_size s.now_use_size
    then record s { current = none }
    else if s.last_day == s.now_day
    then s
    else record s { current = none }

-- The second part; the file is opened with `trunc`.
unfoldable pub open_new : Now → Option ℕ → Log → Bool × Log
open_new now (some name) s = (true, s)
open_new now none s =
    let t : Log = record s { last_day = now.day; now_use_size = 0 } in
    if now.can_open
    then (true, record t { current = some now.name; files = update now.name [] t.files })
    else (false, t)

unfoldable pub open_file : Now → Log → Bool × Log
unfolding close_old open_new
open_file now s =
    if s.file_out then (let t = close_old s.current s in open_new now t.current t) else (true, s)

-- What is behind the name in the file system, nothing if there is no such file.
abbrev pub contents : Option (List ℕ) → List ℕ
contents none = []
contents (some text) = text

unfoldable pub write_file : Option ℕ → List ℕ → Log → Log
write_file none text s = s
write_file (some name) text s = record s {
  files = update name (contents (lookup name s.files) ++ text) s.files;
}

-- The output of one buffer.
unfoldable pub write_out : List ℕ → Log → Log
unfolding write_file
write_out text s =
    let t = if s.file_out then write_file s.current text s else s in
    if t.std_out then record t { screen = t.screen ++ text } else t

-- logFile once the file is open.
unfoldable pub log_buffer : List ℕ → Log → Bool × Log
unfolding write_out
log_buffer [] s = (false, s)
log_buffer (x ∷ buf) s = (
  true,
  write_out (c_string (x ∷ buf))
      (record s { buffer = []; now_use_size = (s.now_use_size + length (x ∷ buf)) % 2 ^ 32 }),
)

unfoldable pub log_file : Now → Log → Bool × Log
unfolding log_buffer open_file
log_file now s =
    if s.runing
    then (let (opened, t) = open_file now s in if opened then log_buffer t.buffer t else (false, t))
    else (false, s)

-- One round of run.
unfoldable pub round : Now → Log → Log
unfolding log_file
round now s = let (wrote, t) = log_file now s in if wrote then t else record t { now_day = now.day }

-- ===== src/Tests/System.antt =====
-- The system monitor at concrete files.
use echo_server_cpp.Prelude.{
  ℕ, ◌%◌, ◌^◌, ◌≡◌, refl, Bool, true, false, Bool-cases, inl, inr, some, List, [], ◌∷◌, ◌++◌, map,
  length, ltb, ltb→lt, ◌==◌, if◌then◌else◌,
}
use echo_server_cpp.Prelude.Ascii.{codes}
use echo_server_cpp.Strings.{find_at, find, is_string_begin_of, trim_head_string}
use echo_server_cpp.Strings.Removal.{Free}
use echo_server_cpp.SystemMonitor.{get_memory, init_cpu_info}
use echo_server_cpp.SystemMonitor.Reading.{Line, ended, text}
use echo_server_cpp.SystemMonitor.Fields.{stripped}
use echo_server_cpp.SystemMonitor.Values.{
  get_memory-value, init_cpu_info-described, mhz_line, processors, tidy,
}

-- Whether a character is not in a string.
absent : ℕ → List ℕ → Bool
absent c [] = true
absent c (x ∷ s) = if x == c then false else absent c s

absent-Free : (c : ℕ) (s : List ℕ) → absent c s ≡ true → Free c s
unfolding absent
absent-Free c [] h = tt
absent-Free c (x ∷ s) h = elim (Bool-cases (x == c)) [
  | inl e ↦ cc (rw e at h)
  | inr e ↦ (e, absent-Free c s (rw e at h))
]

line : (s : List ℕ) → absent 10 s ≡ true → absent 0 s ≡ true → ltb (length s) 1022 ≡ true → Line s
line s a b h = record {
  no_end = absent-Free 10 s a;
  no_zero = absent-Free 0 s b;
  short = ltb→lt (length s) 1022 h;
}

abbrev value : List ℕ
value = 9 ∷ codes "  1234 kB"

get_memory-value_example :
    get_memory length
      (some (text (codes "Name: echo" ∷ (codes "VmRSS:" ++ value) ∷ codes "Threads: 3" ∷ [])))
    ≡ length (stripped value)
unfolding is_string_begin_of find find_at absent
get_memory-value_example =
    get_memory-value length (codes "Name: echo" ∷ []) (codes "Threads: 3" ∷ []) value
      (
        line (codes "Name: echo") refl refl refl,
        (
          line (codes "VmRSS:" ++ value) refl refl refl,
          (line (codes "Threads: 3") refl refl refl, tt),
        ),
      )
      (refl, tt) (absent-Free 86 value refl)

abbrev mhz : List ℕ
mhz = codes " 2400.5"

init_cpu_info-described_example :
    ((init_cpu_info
        (some (text (codes "processor: 0" ∷ mhz_line mhz ∷ codes "processor: 1" ∷ [])))).process_num
      ≡ processors (map ended (codes "processor: 0" ∷ mhz_line mhz ∷ codes "processor: 1" ∷ []))
        % 2 ^ 32)
    × ((init_cpu_info
          (some (text (codes "processor: 0" ∷ mhz_line mhz ∷ codes "processor: 1" ∷ [])))).frequency
        ≡ trim_head_string 32 (tidy mhz))
unfolding is_string_begin_of find find_at absent
init_cpu_info-described_example =
    init_cpu_info-described (codes "processor: 0" ∷ []) (codes "processor: 1" ∷ []) mhz
      (
        line (codes "processor: 0") refl refl refl,
        (line (mhz_line mhz) refl refl refl, (line (codes "processor: 1") refl refl refl, tt)),
      )
      (refl, tt) (absent-Free 99 mhz refl)

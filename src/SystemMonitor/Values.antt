-- ===== src/SystemMonitor/Values.antt =====
-- libbase/SystemMonitor.cpp: getMemory and initCpuInfo on whole files.
use echo_server_cpp.Prelude.{
  ℕ, suc, ◌+◌, ◌%◌, ◌^◌, ◌<◌, ◌≡◌, refl, ap, ◌∙◌, true, false, Bool-cases, inl, inr, none, some,
  List, [], ◌∷◌, ◌++◌, map, append-nil, append_assoc, arith, ◌==◌, if◌then◌else◌,
}
use echo_server_cpp.Prelude.Ascii.{codes, starts_with}
use echo_server_cpp.Prelude.Bytes.{All}
use echo_server_cpp.Strings.{find_at, find, trim_string, trim_head_string, is_string_begin_of}
use echo_server_cpp.Strings.Removal.{Free, remove, trim_string-remove}
use echo_server_cpp.SystemMonitor.{
  CpuInfo, unknown_cpu, cut_name, find_line, memory_of, get_memory, read_file, cpu_line, cpu_lines,
  clean_value, init_cpu_info,
}
use echo_server_cpp.SystemMonitor.Reading.{Line, ended, text, read_file-text}
use echo_server_cpp.SystemMonitor.Fields.{
  cut_name-append, find_line-first, stripped, stripped-append, stripped-Free, remove-append,
  remove-keeps,
}

found_later :
    (p : List ℕ) (offset : ℕ) (s : List ℕ)
    → (elim (find_at p (suc offset) s) [ none ↦ false | some i ↦ i == 0 ]) ≡ false
unfolding find_at
found_later p offset [] = refl
found_later p offset (x ∷ s) = elim (Bool-cases (starts_with p (x ∷ s))) [
  | inl e ↦ let z : (suc offset == 0) ≡ false = ground arith in rw (find_at, e) z
  | inr e ↦ rw (find_at, e) (found_later p (suc offset) s)
]

-- isStringBeginOf finds the second string at the front of the first and nowhere else.
pub is_string_begin_of-starts_with :
    (x y : ℕ) (s t : List ℕ) → is_string_begin_of (x ∷ s) (y ∷ t) ≡ starts_with (y ∷ t) (x ∷ s)
unfolding is_string_begin_of find find_at
is_string_begin_of-starts_with x y s t = elim (Bool-cases (starts_with (y ∷ t) (x ∷ s))) [
  | inl e ↦ rw (is_string_begin_of, find, find_at, e) refl
  | inr e ↦ rw (is_string_begin_of, find, find_at, e) (found_later (y ∷ t) 0 s)
]

map-append :
    (before after : List (List ℕ))
    → map ended (before ++ after) ≡ map ended before ++ map ended after
map-append [] after = refl
map-append (l ∷ before) after = ap (◌∷◌ (ended l)) (map-append before after)

Other-ended :
    (name : List ℕ) (lines : List (List ℕ))
    → All (λ (l : List ℕ). is_string_begin_of (ended l) name ≡ false) lines
    → All (λ (l : List ℕ). is_string_begin_of l name ≡ false) (map ended lines)
Other-ended name [] h = tt
Other-ended name (l ∷ lines) h = (h.0, Other-ended name lines h.1)

memory_of-value :
    (atoi : List ℕ → ℕ) (value : List ℕ)
    → Free 86 value
    → memory_of atoi (ended (codes "VmRSS:" ++ value)) ≡ atoi (stripped value)
unfolding memory_of
memory_of-value atoi value f =
    let line = ended (codes "VmRSS:" ++ value) in
    let a : trim_string 9 (trim_string 13 (trim_string 10 (trim_string 32 line))) ≡ stripped line =
      rw
        (
          trim_string-remove 32 line,
          trim_string-remove 10 (remove 32 line),
          trim_string-remove 13 (remove 10 (remove 32 line)),
          trim_string-remove 9 (remove 13 (remove 10 (remove 32 line))),
        )
        refl in
    let b : stripped line ≡ codes "VmRSS:" ++ stripped value =
      ap (λ (t : List ℕ). codes "VmRSS:" ++ t)
        (stripped-append value (10 ∷ []) ∙ append-nil (stripped value)) in
    ap (λ (t : List ℕ). atoi (cut_name (codes "VmRSS:") t)) (a ∙ b)
    ∙ ap atoi (cut_name-append 86 _ (stripped value) (stripped-Free 86 value f))

-- In a file of lines that are shorter than the buffer of readFile, have no zero byte and are each
-- ended, the first line that begins with VmRSS: gives what getMemory returns: atoi of the rest of
-- the line without blanks and tabs, provided that there is no other V in the line.
pub get_memory-value :
    (atoi : List ℕ → ℕ) (before after : List (List ℕ)) (value : List ℕ)
    → All Line (before ++ (codes "VmRSS:" ++ value) ∷ after)
    → All (λ (l : List ℕ). is_string_begin_of (ended l) (codes "VmRSS:") ≡ false) before
    → Free 86 value
    → get_memory atoi (some (text (before ++ (codes "VmRSS:" ++ value) ∷ after)))
      ≡ atoi (stripped value)
unfolding get_memory
get_memory-value atoi before after value k h f =
    let lines = before ++ (codes "VmRSS:" ++ value) ∷ after in
    let e : read_file (text lines)
        ≡ map ended before ++ ended (codes "VmRSS:" ++ value) ∷ (map ended after ++ [] ∷ []) =
      read_file-text lines k
      ∙ ap (λ (t : List (List ℕ)). t ++ [] ∷ [])
          (map-append before ((codes "VmRSS:" ++ value) ∷ after))
      ∙ append_assoc (map ended before) (map ended ((codes "VmRSS:" ++ value) ∷ after)) ([] ∷ []) in
    ap (λ (t : List (List ℕ)). memory_of atoi (find_line (codes "VmRSS:") t)) e
    ∙ ap (memory_of atoi) (
        find_line-first 86 _ (value ++ 10 ∷ []) (map ended before) (map ended after ++ [] ∷ [])
          (Other-ended (codes "VmRSS:") before h))
    ∙ memory_of-value atoi value f

-- How many lines begin with `processor`.
abbrev pub processors : List (List ℕ) → ℕ
processors [] = 0
processors (l ∷ lines) =
    (if is_string_begin_of l (codes "processor") then 1 else 0) + processors lines

cpu_line-process_num :
    (l : List ℕ) (c : CpuInfo)
    → c.process_num < 2 ^ 32
    → (cpu_line l c).process_num
      ≡ (c.process_num + (if is_string_begin_of l (codes "processor") then 1 else 0)) % 2 ^ 32
unfolding cpu_line
cpu_line-process_num l c h = elim (Bool-cases (is_string_begin_of l (codes "processor"))) [
  | inl e ↦ rw e refl
  | inr e ↦
      let z : c.process_num ≡ (c.process_num + 0) % 2 ^ 32 = omega arith in ground (arith, e, z)
]

cpu_lines-process_num :
    (lines : List (List ℕ)) (c : CpuInfo)
    → c.process_num < 2 ^ 32
    → (cpu_lines lines c).process_num ≡ (c.process_num + processors lines) % 2 ^ 32
unfolding cpu_lines
cpu_lines-process_num [] c h = omega arith
cpu_lines-process_num (l ∷ lines) c h =
    let e = cpu_line-process_num l c h in
    let r = cpu_lines-process_num lines (cpu_line l c) (omega (arith, e)) in omega (arith, e, r)

-- A line that does not set the frequency.
abbrev pub Keeps : List ℕ → Type 0
Keeps l = is_string_begin_of l (codes "cpu MHz") ≡ false

cpu_line-frequency : (l : List ℕ) (c : CpuInfo) → Keeps l → (cpu_line l c).frequency ≡ c.frequency
unfolding cpu_line
cpu_line-frequency l c k = ground (arith, k)

cpu_lines-frequency :
    (lines : List (List ℕ)) (c : CpuInfo)
    → All Keeps lines
    → (cpu_lines lines c).frequency ≡ c.frequency
unfolding cpu_lines
cpu_lines-frequency [] c k = refl
cpu_lines-frequency (l ∷ lines) c k =
    cpu_lines-frequency lines (cpu_line l c) k.1 ∙ cpu_line-frequency l c k.0

cpu_lines-append :
    (xs ys : List (List ℕ)) (c : CpuInfo) → cpu_lines (xs ++ ys) c ≡ cpu_lines ys (cpu_lines xs c)
unfolding cpu_lines
cpu_lines-append [] ys c = refl
cpu_lines-append (x ∷ xs) ys c = cpu_lines-append xs ys (cpu_line x c)

processors-snoc : (lines : List (List ℕ)) → processors (lines ++ [] ∷ []) ≡ processors lines
unfolding is_string_begin_of
processors-snoc [] = omega arith
processors-snoc (l ∷ lines) = omega (arith, processors-snoc lines)

All-later :
    (after : List (List ℕ))
    → All (λ (l : List ℕ). Keeps (ended l)) after
    → All Keeps (map ended after ++ [] ∷ [])
unfolding is_string_begin_of
All-later [] h = (refl, tt)
All-later (l ∷ after) h = (h.0, All-later after h.1)

-- A string without tabs and ends of lines.
abbrev pub tidy : List ℕ → List ℕ
tidy s = remove 13 (remove 10 (remove 9 s))

tidy-append : (s t : List ℕ) → tidy (s ++ t) ≡ tidy s ++ tidy t
tidy-append s t =
    rw
      (
        remove-append 9 s t,
        remove-append 10 (remove 9 s) (remove 9 t),
        remove-append 13 (remove 10 (remove 9 s)) (remove 10 (remove 9 t)),
      )
      refl

-- The line of the frequency, with the two tabs that Linux writes.
abbrev pub mhz_line : List ℕ → List ℕ
mhz_line value = codes "cpu MHz" ++ 9 ∷ 9 ∷ 58 ∷ value

mhz_line-frequency :
    (value : List ℕ) (c : CpuInfo)
    → (cpu_line (ended (mhz_line value)) c).frequency ≡ ended (mhz_line value)
unfolding cpu_line
mhz_line-frequency value c =
    let line = ended (mhz_line value) in
    let a : is_string_begin_of line (codes "processor") ≡ false =
      is_string_begin_of-starts_with _ _ _ _ in
    let b : is_string_begin_of line (codes "cpu MHz") ≡ true =
      is_string_begin_of-starts_with _ _ _ _ in
    rw (a, b) refl

clean_value-mhz :
    (value : List ℕ)
    → Free 99 value
    → clean_value (codes "cpu MHz:") (ended (mhz_line value)) ≡ trim_head_string 32 (tidy value)
unfolding clean_value
clean_value-mhz value f =
    let line = ended (mhz_line value) in
    let a : trim_string 13 (trim_string 10 (trim_string 9 line)) ≡ tidy line =
      rw
        (
          trim_string-remove 9 line,
          trim_string-remove 10 (remove 9 line),
          trim_string-remove 13 (remove 10 (remove 9 line)),
        )
        refl in
    let b : tidy line ≡ codes "cpu MHz:" ++ tidy value =
      ap (λ (t : List ℕ). codes "cpu MHz:" ++ t)
        (tidy-append value (10 ∷ []) ∙ append-nil (tidy value)) in
    ap (λ (t : List ℕ). trim_head_string 32 (cut_name (codes "cpu MHz:") t)) (a ∙ b)
    ∙ ap (trim_head_string 32) (
        cut_name-append 99 _ (tidy value)
          (remove-keeps 13 99 _ (remove-keeps 10 99 _ (remove-keeps 9 99 value f))))

-- In a file of lines that are shorter than the buffer of readFile, have no zero byte and are each
-- ended, initCpuInfo counts the lines that begin with `processor`, as an `unsigned int`, and takes
-- for the frequency what follows the colon in the last line that begins with `cpu MHz`, without
-- tabs and leading blanks, provided that two tabs stand before the colon and no c after it.
pub init_cpu_info-described :
    (before after : List (List ℕ)) (value : List ℕ)
    → All Line (before ++ mhz_line value ∷ after)
    → All (λ (l : List ℕ). Keeps (ended l)) after
    → Free 99 value
    → ((init_cpu_info (some (text (before ++ mhz_line value ∷ after)))).process_num
        ≡ processors (map ended (before ++ mhz_line value ∷ after)) % 2 ^ 32)
      × ((init_cpu_info (some (text (before ++ mhz_line value ∷ after)))).frequency
          ≡ trim_head_string 32 (tidy value))
unfolding init_cpu_info is_string_begin_of
init_cpu_info-described before after value k h f =
    let lines = before ++ mhz_line value ∷ after in
    let read = read_file-text lines k in
    let later = map ended after ++ [] ∷ [] in
    let c = cpu_lines (map ended before) unknown_cpu in
    let e : read_file (text lines) ≡ map ended before ++ ended (mhz_line value) ∷ later =
      read
      ∙ ap (λ (t : List (List ℕ)). t ++ [] ∷ []) (map-append before (mhz_line value ∷ after))
      ∙ append_assoc (map ended before) (map ended (mhz_line value ∷ after)) ([] ∷ []) in
    let frequency : (cpu_lines (read_file (text lines)) unknown_cpu).frequency
        ≡ ended (mhz_line value) =
      ap (λ (t : List (List ℕ)). (cpu_lines t unknown_cpu).frequency) e
      ∙ ap (λ (i : CpuInfo). i.frequency)
          (cpu_lines-append (map ended before) (ended (mhz_line value) ∷ later) unknown_cpu)
      ∙ cpu_lines-frequency later (cpu_line (ended (mhz_line value)) c) (All-later after h)
      ∙ mhz_line-frequency value c in
    (
      ap (λ (t : List (List ℕ)). (cpu_lines t unknown_cpu).process_num) read
          ∙ cpu_lines-process_num (map ended lines ++ [] ∷ []) unknown_cpu (omega arith)
          ∙ (let z = processors-snoc (map ended lines) in omega (arith, z)),
      ap (clean_value (codes "cpu MHz:")) frequency ∙ clean_value-mhz value f,
    )

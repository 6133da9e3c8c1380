-- ===== src/SystemMonitor.antt =====
-- libbase/SystemMonitor.cpp, as it is built for Linux: what is read from the files of /proc. A file is
-- the list of its bytes, `none` where it cannot be opened; atoi and atol are parameters.
pub mod Reading
pub mod Fields
pub mod Values
use echo_server_cpp.Prelude.{
  ℕ, zero, suc, ◌+◌, ◌%◌, ◌^◌, Bool, true, false, Option, none, some, List, [], ◌∷◌, ◌++◌, concat,
  length, ◌==◌, if◌then◌else◌,
}
use echo_server_cpp.Prelude.Int.{ℤ, pos}
use echo_server_cpp.Prelude.Ascii.{codes, c_string}
use echo_server_cpp.Strings.{trim_string, trim_head_string, replace_all_char, is_string_begin_of}

pub record SysInfo : Type 0 where
  pub name : List ℕ
  pub version : List ℕ

pub record CpuInfo : Type 0 where
  pub process_num : ℕ
  pub frequency : List ℕ
  pub manufacture : List ℕ
  pub type_name : List ℕ

-- In kilobytes, as atol returns them, before they are divided by 1024.0 twice.
pub record MemoryInfo : Type 0 where
  pub total : ℤ
  pub avail : ℤ

-- fgets with room for `n` characters: the line, what is left, and whether the end of the file was
-- met.
unfoldable pub fgets : ℕ → List ℕ → List ℕ × (List ℕ × Bool)
fgets zero s = ([], (s, false))
fgets (suc n) [] = ([], ([], true))
fgets (suc n) (x ∷ s) =
    let (line, (left, end)) = fgets n s in
    if x == 10 then (x ∷ [], (s, false)) else (x ∷ line, (left, end))

-- The loop of readFile; every round but the last takes a character, so one round more than there are
-- characters is fuel enough.
unfoldable pub read_loop : ℕ → List ℕ → List (List ℕ)
read_loop zero s = []
read_loop (suc fuel) s =
    let (line, (left, end)) = fgets 1022 s in
    let rest = read_loop fuel left in c_string line ∷ (if end then [] else rest)

unfoldable pub read_file : List ℕ → List (List ℕ)
read_file s = read_loop (suc (length s)) s

-- replaceAllChar with nothing in place of the name; every round goes on behind the name, so the length
-- is fuel enough.
unfoldable pub cut_name : List ℕ → List ℕ → List ℕ
cut_name name s = replace_all_char (length s) name [] s

-- The first line that begins with VmRSS:, or nothing.
unfoldable pub find_line : List ℕ → List (List ℕ) → List ℕ
find_line name [] = []
find_line name (line ∷ lines) =
    let rest = find_line name lines in if is_string_begin_of line name then line else rest

unfoldable pub memory_of : (List ℕ → ℕ) → List ℕ → ℕ
unfolding cut_name
memory_of atoi [] = 0
memory_of atoi (x ∷ tmp) = atoi (
    cut_name (codes "VmRSS:")
      (trim_string 9 (trim_string 13 (trim_string 10 (trim_string 32 (x ∷ tmp))))))

-- getMemory; `atoi` is converted to an `unsigned int`.
unfoldable pub get_memory : (List ℕ → ℕ) → Option (List ℕ) → ℕ
unfolding read_file find_line memory_of
get_memory atoi none = 0
get_memory atoi (some file) = memory_of atoi (find_line (codes "VmRSS:") (read_file file))

unfoldable pub init_sys_info : Option (List ℕ) → SysInfo
unfolding read_file
init_sys_info none = record { name = codes "Linux"; version = codes "unknown" }
init_sys_info (some file) = record {
  name = codes "Linux";
  version = trim_string 9 (trim_string 13 (trim_string 10 (concat (read_file file))));
}

abbrev pub unknown_cpu : CpuInfo
unknown_cpu = record {
  process_num = 0;
  frequency = codes "unknown";
  manufacture = codes "unknown";
  type_name = codes "unknown";
}

-- One line of /proc/cpuinfo.
unfoldable pub cpu_line : List ℕ → CpuInfo → CpuInfo
cpu_line line c =
    if is_string_begin_of line (codes "processor")
    then record c { process_num = (c.process_num + 1) % 2 ^ 32 }
    else if is_string_begin_of line (codes "cpu MHz")
    then record c { frequency = line }
    else if is_string_begin_of line (codes "vendor_id")
    then record c { manufacture = line }
    else if is_string_begin_of line (codes "model name")
    then record c { type_name = line }
    else c

unfoldable pub cpu_lines : List (List ℕ) → CpuInfo → CpuInfo
cpu_lines [] c = c
cpu_lines (line ∷ lines) c = cpu_lines lines (cpu_line line c)

unfoldable pub clean_value : List ℕ → List ℕ → List ℕ
unfolding cut_name
clean_value name s =
    trim_head_string 32 (cut_name name (trim_string 13 (trim_string 10 (trim_string 9 s))))

unfoldable pub init_cpu_info : Option (List ℕ) → CpuInfo
unfolding read_file cpu_lines clean_value
init_cpu_info none = unknown_cpu
init_cpu_info (some file) =
    let c = cpu_lines (read_file file) unknown_cpu in
    record c {
      frequency = clean_value (codes "cpu MHz:") c.frequency;
      manufacture = clean_value (codes "vendor_id:") c.manufacture;
      type_name = clean_value (codes "model name:") c.type_name;
    }

-- One line of /proc/meminfo.
unfoldable pub memory_line : (List ℕ → ℤ) → List ℕ → MemoryInfo → MemoryInfo
unfolding cut_name
memory_line atol line m =
    let tmp = cut_name (codes "kb") (trim_string 32 line) in
    if is_string_begin_of tmp (codes "MemTotal:")
    then record m { total = atol (cut_name (codes "MemTotal:") tmp) }
    else if is_string_begin_of tmp (codes "MemFree:")
    then record m { avail = atol (cut_name (codes "MemFree:") tmp) }
    else m

unfoldable pub memory_lines : (List ℕ → ℤ) → List (List ℕ) → MemoryInfo → MemoryInfo
memory_lines atol [] m = m
memory_lines atol (line ∷ lines) m = memory_lines atol lines (memory_line atol line m)

unfoldable pub init_memory_info : (List ℕ → ℤ) → Option (List ℕ) → MemoryInfo
unfolding read_file memory_lines
init_memory_info atol none = record { total = pos 0; avail = pos 0 }
init_memory_info atol (some file) =
    memory_lines atol (read_file file) (record { total = pos 0; avail = pos 0 })

-- ===== src/Ini.antt =====
-- include/tool/ParseIni.h, parserIni. The file is the list of its lines; a map is an association list without order.
pub mod Lines
pub mod Lookup
pub mod RoundTrip
use echo_server_cpp.Prelude.{
  ℕ, zero, suc, ◌+◌, ◌-◌, ◌*◌, Bool, true, false, Option, none, some, List, [], ◌∷◌, ◌++◌, map,
  length, ◌==◌, leb, if◌then◌else◌,
}
use echo_server_cpp.Prelude.Ascii.{codes}
use echo_server_cpp.Strings.{
  same, trim_string, trim_tail_all_string, trim_head_string, trim_tail_string, split_string,
}

-- The map of one title, and the map of the titles.
abbrev pub ConfigMap : Type 0
ConfigMap = List (List ℕ × List ℕ)

abbrev pub ConfigDic : Type 0
ConfigDic = List (List ℕ × ConfigMap)

-- `find` and `insert` of a std::map: a key that is there keeps its value.
unfoldable pub find_key : {A : Type 0} → List ℕ → List (List ℕ × A) → Option A
find_key key [] = none
find_key key ((k, v) ∷ m) = if same k key then some v else find_key key m

unfoldable pub insert_key : List ℕ → List ℕ → ConfigMap → ConfigMap
insert_key key value [] = (key, value) ∷ []
insert_key key value ((k, v) ∷ m) =
    if same k key then (k, v) ∷ m else (k, v) ∷ insert_key key value m

-- The title is inserted where it is not there, then the key under it.
unfoldable pub insert_config : List ℕ → List ℕ → List ℕ → ConfigDic → ConfigDic
insert_config title key value [] = (title, insert_key key value []) ∷ []
insert_config title key value ((t, m) ∷ dic) =
    if same t title
    then (t, insert_key key value m) ∷ dic
    else (t, m) ∷ insert_config title key value dic

pub record Ini : Type 0 where
  pub title : List ℕ
  pub configs : ConfigDic

unfoldable pub is_empty : List ℕ → Bool
is_empty [] = true
is_empty (x ∷ s) = false

-- `config[0] == c`; the character behind the end is 0, and `c` is not.
unfoldable pub begins : ℕ → List ℕ → Bool
begins c [] = false
begins c (x ∷ s) = x == c

-- What splitString gives.
deal_entry : List (List ℕ) → Ini → Ini
deal_entry [] s = s
deal_entry (key ∷ []) s = s
deal_entry (key ∷ value ∷ rest) s = record s { configs = insert_config s.title key value s.configs }

-- A line without blanks and comments: '[' is 91, ']' is 93 and '=' is 61.
pub deal_config : List ℕ → Ini → Ini
unfolding begins is_empty deal_entry
deal_config config s =
    if begins 91 config
    then record s { title = trim_tail_string 93 (trim_head_string 91 config) }
    else if is_empty s.title
    then s
    else deal_entry (split_string (61 ∷ []) 1 config) s

-- One line of the loop of load: ' ' is 32, '#' is 35, '\r' is 13 and '\t' is 9.
unfoldable pub deal_line : List ℕ → Ini → Ini
unfolding deal_config is_empty begins
deal_line line s =
    let config = trim_string 32 line in
    if is_empty config
    then s
    else if begins 35 config
    then s
    else deal_config (trim_string 9 (trim_string 13 (trim_tail_all_string 35 config))) s

unfoldable pub deal_lines : List (List ℕ) → Ini → Ini
deal_lines [] s = s
deal_lines (line ∷ lines) s = deal_lines lines (deal_line line s)

unfoldable pub has_configs : ConfigDic → Bool
has_configs [] = false
has_configs (c ∷ dic) = true

-- load, of a file that is there, into the configuration that was read before.
unfoldable pub load : List (List ℕ) → ConfigDic → Bool × ConfigDic
unfolding has_configs
load lines configs =
    let s = deal_lines lines (record { title = []; configs = configs }) in
    (has_configs s.configs, s.configs)

unfoldable pub get_string : List ℕ → List ℕ → ConfigDic → Option (List ℕ)
get_string title key configs = elim (find_key title configs) [
  | none ↦ none
  | some m ↦ find_key key m
]

-- atoi is a parameter.
unfoldable pub get_int : {Z : Type 0} → (List ℕ → Z) → List ℕ → List ℕ → ConfigDic → Option Z
unfolding is_empty
get_int atoi title key configs = elim (get_string title key configs) [
  | none ↦ none
  | some value ↦ if is_empty value then none else some (atoi value)
]

-- stringLow, for ASCII.
unfoldable pub string_low : List ℕ → List ℕ
string_low s = map (λ (c : ℕ). if leb 65 c then (if leb c 90 then c + 32 else c) else c) s

unfoldable pub get_bool : List ℕ → List ℕ → ConfigDic → Option Bool
unfolding is_empty
get_bool title key configs = elim (get_string title key configs) [
  | none ↦ none
  | some value ↦ if is_empty value then none else some (same (string_low value) (codes "true"))
]

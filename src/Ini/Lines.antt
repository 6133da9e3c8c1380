-- ===== src/Ini/Lines.antt =====
-- include/tool/ParseIni.h: what one line of the file is worth.
use echo_server_cpp.Prelude.{
  ℕ, ◌≡◌, refl, sym, ap, ◌∙◌, false, List, [], ◌∷◌, ◌++◌, ◌==◌, if◌then◌else◌, Bool-cases, inl, inr,
}
use echo_server_cpp.Strings.{trim_head_string, split_string}
use echo_server_cpp.Strings.Removal.{
  remove, before, Free, trim_string-remove, trim_tail_all_string-before, trim_tail_string-Free,
}
use echo_server_cpp.Strings.Splitting.{split_string-first}
use echo_server_cpp.Ini.{
  insert_config, Ini, is_empty, begins, deal_entry, deal_config, deal_line, deal_lines,
}

-- A line without spaces, its comment, carriage returns and tabs.
abbrev pub strip : List ℕ → List ℕ
strip line = remove 9 (remove 13 (before 35 (remove 32 line)))

deal_config-nil : (s : Ini) → deal_config [] s ≡ s
unfolding deal_config deal_entry begins split_string
deal_config-nil s = elim (Bool-cases (is_empty s.title)) [ inl e ↦ rw e refl | inr e ↦ rw e refl ]

-- A line does what its stripped text does: it does not matter where spaces, tabs and carriage
-- returns stand and what comment follows, and an empty or commented line changes nothing.
pub deal_line-strip : (line : List ℕ) (s : Ini) → deal_line line s ≡ deal_config (strip line) s
unfolding deal_line
deal_line-strip line s =
    rw
      (
        deal_line,
        trim_string-remove 32 line,
        trim_tail_all_string-before 35 (remove 32 line),
        trim_string-remove 13 (before 35 (remove 32 line)),
        trim_string-remove 9 (remove 13 (before 35 (remove 32 line))),
      )
      (guards (remove 32 line) s)
  where
    guards :
        (config : List ℕ) (s : Ini)
        → (if is_empty config
            then s
            else if begins 35 config
            then s
            else deal_config (remove 9 (remove 13 (before 35 config))) s)
          ≡ deal_config (remove 9 (remove 13 (before 35 config))) s
    guards [] s = sym (deal_config-nil s)
    guards (x ∷ config) s = elim (Bool-cases (x == 35)) [
      | inl e ↦ rw (is_empty, begins, e) (sym (deal_config-nil s))
      | inr e ↦ rw (is_empty, begins, e) refl
    ]

-- A line with a title opens a section.
pub deal_config-title :
    (x : ℕ) (title : List ℕ) (s : Ini)
    → (x == 91) ≡ false
    → Free 93 (x ∷ title)
    → deal_config (91 ∷ x ∷ title ++ 93 ∷ []) s ≡ record s { title = x ∷ title }
unfolding deal_config begins trim_head_string
deal_config-title x title s h f = rw (h, trim_tail_string-Free 93 (x ∷ title) f) refl

-- A line `key=value` under a title puts the value under the key, unless it is there.
pub deal_config-entry :
    (key : List ℕ) (x : ℕ) (value : List ℕ) (s : Ini)
    → Free 61 key
    → begins 91 key ≡ false
    → is_empty s.title ≡ false
    → deal_config (key ++ 61 ∷ x ∷ value) s
      ≡ record s { configs = insert_config s.title key (x ∷ value) s.configs }
unfolding deal_config deal_entry
deal_config-entry key x value s f b e =
    let first : begins 91 (key ++ 61 ∷ x ∷ value) ≡ false = begins-append key b in
    rw (deal_config, first, e, split_string-first 61 key x value f) refl
  where
    begins-append :
        (key : List ℕ) → begins 91 key ≡ false → begins 91 (key ++ 61 ∷ x ∷ value) ≡ false
    begins-append [] b = refl
    begins-append (y ∷ key) b = b

-- The lines that are left when the empty ones are gone.
abbrev pub text : List (List ℕ) → List (List ℕ)
text [] = []
text (line ∷ lines) = elim (strip line) [ [] ↦ text lines | x ∷ s ↦ (x ∷ s) ∷ text lines ]

abbrev pub deal_configs : List (List ℕ) → Ini → Ini
deal_configs [] s = s
deal_configs (config ∷ configs) s = deal_configs configs (deal_config config s)

pub deal_lines-text :
    (lines : List (List ℕ)) (s : Ini) → deal_lines lines s ≡ deal_configs (text lines) s
unfolding deal_lines
deal_lines-text [] s = refl
deal_lines-text (line ∷ lines) s =
    ap (deal_lines lines) (deal_line-strip line s)
    ∙ deal_lines-text lines (deal_config (strip line) s)
    ∙ skip (strip line)
  where
    skip :
        (config : List ℕ)
        → deal_configs (text lines) (deal_config config s)
          ≡ deal_configs
              (elim config as (λ x. List (List ℕ)) [
                | [] ↦ text lines
                | x ∷ c ↦ (x ∷ c) ∷ text lines
              ])
              s
    skip [] = ap (deal_configs (text lines)) (deal_config-nil s)
    skip (x ∷ c) = refl

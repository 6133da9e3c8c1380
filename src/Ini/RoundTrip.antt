-- ===== src/Ini/RoundTrip.antt =====
-- include/tool/ParseIni.h: what is found in a configuration that a file describes.
use echo_server_cpp.Prelude.{
  ℕ, ◌≡◌, refl, sym, ap, ◌∙◌, Bool, true, false, Option, none, some, List, [], ◌∷◌, ◌++◌,
  if◌then◌else◌,
}
use echo_server_cpp.Strings.{same}
use echo_server_cpp.Strings.Removal.{Free}
use echo_server_cpp.Ini.{
  ConfigMap, ConfigDic, find_key, insert_config, Ini, is_empty, begins, deal_config, load,
  get_string,
}
use echo_server_cpp.Ini.Lines.{
  text, deal_configs, deal_lines-text, deal_config-title, deal_config-entry,
}
use echo_server_cpp.Ini.Lookup.{or_else, or_else_assoc, or_else-none, hit, get_string-insert_config}

-- The lines of a configuration, which is a list of sections.
abbrev pub entry_line : List ℕ × List ℕ → List ℕ
entry_line (key, value) = key ++ 61 ∷ value

abbrev pub entries : ConfigMap → List (List ℕ)
entries [] = []
entries (e ∷ m) = entry_line e ∷ entries m

abbrev pub lines_of : ConfigDic → List (List ℕ)
lines_of [] = []
lines_of ((title, m) ∷ sections) = (91 ∷ title ++ 93 ∷ []) ∷ (entries m ++ lines_of sections)

-- The first value of a key in the sections of a title.
abbrev pub first_value : List ℕ → List ℕ → ConfigDic → Option (List ℕ)
first_value t k [] = none
first_value t k ((title, m) ∷ sections) =
    or_else (if same title t then find_key k m else none) (first_value t k sections)

-- A title is not empty, does not begin with '[' and has no ']'; a key does not begin with '[' and
-- has no '='; a value is not empty.
abbrev pub IsTitle : List ℕ → Type 0
IsTitle title = (is_empty title ≡ false) × (begins 91 title ≡ false) × Free 93 title

abbrev pub IsMap : ConfigMap → Type 0
IsMap [] = Unit {0}
IsMap ((key, value) ∷ m) =
    Free 61 key × (begins 91 key ≡ false) × (is_empty value ≡ false) × IsMap m

abbrev pub IsConfig : ConfigDic → Type 0
IsConfig [] = Unit {0}
IsConfig ((title, m) ∷ sections) = IsTitle title × IsMap m × IsConfig sections

title-line :
    (title : List ℕ) (s : Ini)
    → IsTitle title
    → deal_config (91 ∷ title ++ 93 ∷ []) s ≡ record s { title = title }
unfolding is_empty begins
title-line [] s (a, b, f) = cc
title-line (x ∷ title) s (a, b, f) = deal_config-title x title s b f

entry-line :
    (key value : List ℕ) (s : Ini)
    → Free 61 key
    → begins 91 key ≡ false
    → is_empty value ≡ false
    → is_empty s.title ≡ false
    → deal_config (key ++ 61 ∷ value) s
      ≡ record s { configs = insert_config s.title key value s.configs }
unfolding is_empty
entry-line key [] s f b v e = cc
entry-line key (x ∷ value) s f b v e = deal_config-entry key x value s f b e

or_else-if : {A : Type 0} (b : Bool) (o : Option A) → or_else o (if b then none else none) ≡ o
or_else-if true o = or_else-none o
or_else-if false o = or_else-none o

merge :
    {A : Type 0} (b c : Bool) (a : A) (o : Option A)
    → or_else (if b then (if c then some a else none) else none) (if b then o else none)
      ≡ (if b then (if c then some a else o) else none)
merge true true a o = refl
merge true false a o = refl
merge false c a o = refl

-- What a lookup finds after the lines of one section, and the state that goes on.
entries-found :
    (t k : List ℕ) (m : ConfigMap) (rest : List (List ℕ)) (s : Ini)
    → IsMap m
    → is_empty s.title ≡ false
    → (u : Ini) × (deal_configs (entries m ++ rest) s ≡ deal_configs rest u)
      × (get_string t k u.configs
          ≡ or_else (get_string t k s.configs) (if same s.title t then find_key k m else none))
unfolding find_key
entries-found t k [] rest s h e =
    (s, refl, sym (or_else-if (same s.title t) (get_string t k s.configs)))
entries-found t k ((key, value) ∷ m) rest s (f, b, v, h) e =
    let s' = record s { configs = insert_config s.title key value s.configs } in
    let (u, g, l) = entries-found t k m rest s' h e in
    (
      u,
      ap (deal_configs (entries m ++ rest)) (entry-line key value s f b v e) ∙ g,
      l
          ∙ ap (λ (o : Option (List ℕ)). or_else o (if same s.title t then find_key k m else none))
              (get_string-insert_config t k s.title key value s.configs)
          ∙ or_else_assoc (get_string t k s.configs) (hit t k s.title key value)
              (if same s.title t then find_key k m else none)
          ∙ ap (or_else (get_string t k s.configs))
              (merge (same s.title t) (same key k) value (find_key k m)),
    )

sections-found :
    (t k : List ℕ) (sections : ConfigDic) (s : Ini)
    → IsConfig sections
    → get_string t k (deal_configs (lines_of sections) s).configs
      ≡ or_else (get_string t k s.configs) (first_value t k sections)
sections-found t k [] s h = sym (or_else-none (get_string t k s.configs))
sections-found t k ((title, m) ∷ sections) s (a, b, h) =
    let s' = record s { title = title } in
    let (u, g, l) = entries-found t k m (lines_of sections) s' b a.0 in
    ap (λ (v : Ini). get_string t k (deal_configs (entries m ++ lines_of sections) v).configs)
      (title-line title s a)
    ∙ ap (λ (v : Ini). get_string t k v.configs) g
    ∙ sections-found t k sections u h
    ∙ ap (λ (o : Option (List ℕ)). or_else o (first_value t k sections)) l
    ∙ or_else_assoc (get_string t k s.configs) (if same title t then find_key k m else none)
        (first_value t k sections)

-- After load of a file whose lines, without spaces, tabs, carriage returns and comments, and the
-- empty ones left out, are those of a configuration with well-formed titles, keys and values,
-- getString finds the first value that the sections of the title have for the key, and no other. A
-- value may have '=' in it and is found whole, where the comment at the head of ParseIni.h says that
-- only one '=' is supported and that what is behind a second is cut off.
pub load-lines_of :
    (t k : List ℕ) (sections : ConfigDic) (lines : List (List ℕ))
    → IsConfig sections
    → text lines ≡ lines_of sections
    → get_string t k (load lines []).1 ≡ first_value t k sections
unfolding load get_string find_key
load-lines_of t k sections lines h e =
    let s : Ini = record { title = []; configs = [] } in
    ap (λ (v : Ini). get_string t k v.configs) (deal_lines-text lines s)
    ∙ ap (λ (ls : List (List ℕ)). get_string t k (deal_configs ls s).configs) e
    ∙ sections-found t k sections s h

-- ===== src/Ini/Lookup.antt =====
-- include/tool/ParseIni.h: lookups in the maps of the configuration.
use echo_server_cpp.Prelude.{
  ℕ, ◌≡◌, refl, sym, ap₂, true, false, Option, none, some, List, [], ◌∷◌, arith, ◌==◌,
  if◌then◌else◌, Bool-cases, inl, inr,
}
use echo_server_cpp.Strings.{same}
use echo_server_cpp.Ini.{ConfigMap, ConfigDic, find_key, insert_key, insert_config, get_string}

abbrev pub or_else : {A : Type 0} → Option A → Option A → Option A
or_else none o = o
or_else (some a) o = some a

pub or_else_assoc :
    {A : Type 0} (a b c : Option A) → or_else (or_else a b) c ≡ or_else a (or_else b c)
or_else_assoc none b c = refl
or_else_assoc (some a) b c = refl

pub or_else-none : {A : Type 0} (o : Option A) → or_else o none ≡ o
or_else-none none = refl
or_else-none (some a) = refl

same_refl : (s : List ℕ) → same s s ≡ true
unfolding same
same_refl [] = refl
same_refl (x ∷ s) = let e : (x == x) ≡ true = ground arith in rw e (same_refl s)

same-≡ : (s t : List ℕ) → same s t ≡ true → s ≡ t
unfolding same
same-≡ [] [] h = refl
same-≡ [] (y ∷ t) h = cc
same-≡ (x ∷ s) [] h = cc
same-≡ (x ∷ s) (y ∷ t) h = elim (Bool-cases (x == y)) [
  | inl a ↦
      let e : x ≡ y = ground arith in ap₂ (λ (u : ℕ) (v : List ℕ). u ∷ v) e (same-≡ s t (rw a at h))
  | inr a ↦ cc (rw a at h)
]

find_key-insert_key :
    (k key value : List ℕ) (m : ConfigMap)
    → find_key k (insert_key key value m)
      ≡ or_else (find_key k m) (if same key k then some value else none)
unfolding find_key insert_key
find_key-insert_key k key value [] = refl
find_key-insert_key k key value ((j, w) ∷ m) = elim (Bool-cases (same j key)) [
  | inl a ↦ elim (Bool-cases (same j k)) [
    | inl b ↦ rw (a, b) refl
    | inr b ↦
        let c : same key k ≡ false = rw (same-≡ j key a) at b in
        rw (a, b, c) (sym (or_else-none (find_key k m)))
  ]
  | inr a ↦ elim (Bool-cases (same j k)) [
    | inl b ↦ rw (a, b) refl
    | inr b ↦ rw (a, b) (find_key-insert_key k key value m)
  ]
]

-- What an entry gives to a lookup.
abbrev pub hit : List ℕ → List ℕ → List ℕ → List ℕ → List ℕ → Option (List ℕ)
hit t k title key value = if same title t then (if same key k then some value else none) else none

get_string-cons :
    (t k u : List ℕ) (m : ConfigMap) (dic : ConfigDic)
    → get_string t k ((u, m) ∷ dic) ≡ (if same u t then find_key k m else get_string t k dic)
unfolding get_string find_key
get_string-cons t k u m dic = elim (Bool-cases (same u t)) [
  | inl a ↦ rw (get_string, a) refl
  | inr a ↦ rw (get_string, a) refl
]

same-differs : (u v t : List ℕ) → same u v ≡ false → same u t ≡ true → same v t ≡ false
same-differs u v t a b = elim (Bool-cases (same v t)) [
  | inl d ↦ let e = rw (same-≡ u t b, same-≡ v t d) at a in cc (e, same_refl t)
  | inr d ↦ d
]

pub get_string-insert_config :
    (t k title key value : List ℕ) (dic : ConfigDic)
    → get_string t k (insert_config title key value dic)
      ≡ or_else (get_string t k dic) (hit t k title key value)
unfolding insert_config insert_key get_string same find_key
get_string-insert_config t k title key value [] = get_string-cons t k title ((key, value) ∷ []) []
get_string-insert_config t k title key value ((u, m) ∷ dic) = elim (Bool-cases (same u title)) [
  | inl a ↦
      let e = get_string-cons t k u (insert_key key value m) dic in
      elim (Bool-cases (same u t)) [
        | inl b ↦
            let c : same title t ≡ true = rw (same-≡ u title a) at b in
            rw (a, e, get_string-cons t k u m dic, b, c) (find_key-insert_key k key value m)
        | inr b ↦
            let c : same title t ≡ false = rw (same-≡ u title a) at b in
            rw (a, e, get_string-cons t k u m dic, b, c) (sym (or_else-none (get_string t k dic)))
      ]
  | inr a ↦
      let e = get_string-cons t k u m (insert_config title key value dic) in
      elim (Bool-cases (same u t)) [
        | inl b ↦
            rw (a, e, get_string-cons t k u m dic, b, same-differs u title t a b)
              (sym (or_else-none (find_key k m)))
        | inr b ↦
            rw (a, e, get_string-cons t k u m dic, b)
              (get_string-insert_config t k title key value dic)
      ]
]

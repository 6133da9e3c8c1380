-- ===== src/ServerConfig/Loading.antt =====
-- EchoServer/ServerConfig.cpp: load on a file that describes a configuration.
use echo_server_cpp.Prelude.{
  ℕ, ◌≡◌, refl, ap, ◌∙◌, ◌⊎◌, inl, inr, true, false, Option, none, some, List, [], ◌∷◌, length,
  arith, Bool-cases,
}
use echo_server_cpp.Prelude.Int.{ℤ, pos}
use echo_server_cpp.Strings.Replacement.{swap, replace_all_char-swap}
use echo_server_cpp.Ini.{ConfigDic, is_empty, find_key, has_configs, load, get_string, get_int}
use echo_server_cpp.Ini.Lines.{text}
use echo_server_cpp.Ini.RoundTrip.{IsConfig, lines_of, first_value, load-lines_of}
use echo_server_cpp.ServerConfig.{
  ServerConfig, value_or, path_of, load_log, load_rest, load_port, load_server, load_config,
  log_key, filename_key, server_key, serverid_key, listenport_key, pairdealcount_key,
}

path_of-swap :
    (separator : ℕ) (name : List ℕ)
    → path_of separator name ≡ swap 47 separator (swap 92 separator name)
unfolding path_of
path_of-swap separator name =
    let e = replace_all_char-swap 92 separator (length name) name (omega arith) in
    let other = swap 92 separator name in
    rw (path_of, e) (replace_all_char-swap 47 separator (length other) other (omega arith))

-- An entry as a number.
abbrev pub number : (List ℕ → ℤ) → Option (List ℕ) → Option ℤ
number atoi none = none
number atoi (some []) = none
number atoi (some (x ∷ value)) = some (atoi (x ∷ value))

get_int-number :
    (atoi : List ℕ → ℤ) (title key : List ℕ) (ini : ConfigDic) (found : Option (List ℕ))
    → get_string title key ini ≡ found
    → get_int atoi title key ini ≡ number atoi found
unfolding get_int is_empty
get_int-number atoi title key ini none e = rw (get_int, e) refl
get_int-number atoi title key ini (some []) e = rw (get_int, e) refl
get_int-number atoi title key ini (some (x ∷ value)) e = rw (get_int, e) refl

loaded :
    (title key : List ℕ) (ini : ConfigDic) {v : List ℕ}
    → get_string title key ini ≡ some v
    → has_configs ini ≡ true
unfolding get_string find_key has_configs
loaded title key [] h = cc
loaded title key (c ∷ ini) h = refl

module _ (separator : ℕ) (atoi : List ℕ → ℤ) (sections : ConfigDic) (lines : List (List ℕ)) where
  -- Loading a file that describes a well-formed configuration with a server id and a port, whatever
  -- its blanks and comments, succeeds; the id, the port and the limit of packages per call are the
  -- numbers of the first entries for them, with the default 5000 for the limit, and the log file is
  -- the first entry for it, or "server", with every separator replaced.
  pub load_config-described :
      (c : ServerConfig) (x y : ℕ) (id port : List ℕ)
      → IsConfig sections
      → text lines ≡ lines_of sections
      → first_value server_key serverid_key sections ≡ some (x ∷ id)
      → first_value server_key listenport_key sections ≡ some (y ∷ port)
      → (c' : ServerConfig) × (load_config separator atoi lines c ≡ (true, c'))
        × (c'.server_id ≡ atoi (x ∷ id))
        × (c'.listen_port ≡ atoi (y ∷ port))
        × (c'.max_pair_deal_count
            ≡ value_or (pos 5000) (number atoi (first_value server_key pairdealcount_key sections)))
        × (c'.log_file_name
            ≡ swap 47 separator (
                swap 92 separator
                  (value_or server_key (first_value log_key filename_key sections))))
  unfolding load_config load_server load_port load_rest load_log load
  load_config-described c x y id port h e f g =
      let ini = (load lines []).1 in
      let i = load-lines_of server_key serverid_key sections lines h e ∙ f in
      let p = load-lines_of server_key listenport_key sections lines h e ∙ g in
      let n = load-lines_of server_key pairdealcount_key sections lines h e in
      let l = load-lines_of log_key filename_key sections lines h e in
      let first = load_log separator atoi ini c in
      (
        load_rest separator atoi ini
            (record first { server_id = atoi (x ∷ id); listen_port = atoi (y ∷ port) }),
        rw
            (
              load_config,
              loaded server_key serverid_key ini i,
              get_int-number atoi server_key serverid_key ini (some (x ∷ id)) i,
              get_int-number atoi server_key listenport_key ini (some (y ∷ port)) p,
            )
            refl,
        refl,
        refl,
        ap (value_or (pos 5000)) (
            get_int-number atoi server_key pairdealcount_key ini
              (first_value server_key pairdealcount_key sections) n),
        path_of-swap separator (value_or server_key (get_string log_key filename_key ini))
            ∙ ap
                (λ (o : Option (List ℕ)).
                  swap 47 separator (swap 92 separator (value_or server_key o)))
                l,
      )

  server_fails :
      (id : Option ℤ) (ini : ConfigDic) (c : ServerConfig)
      → (id ≡ none) ⊎ (get_int atoi server_key listenport_key ini ≡ none)
      → (load_server separator atoi id ini c).0 ≡ false
  unfolding load_server load_port
  server_fails none ini c h = refl
  server_fails (some id) ini c (inl h) = cc
  server_fails (some id) ini c (inr h) = rw (load_server, h) refl

  config_fails :
      (c : ServerConfig)
      → (let ini = (load lines []).1 in
          (get_int atoi server_key serverid_key ini ≡ none)
          ⊎ (get_int atoi server_key listenport_key ini ≡ none))
      → (load_config separator atoi lines c).0 ≡ false
  unfolding load_config
  config_fails c h =
      let (ok, ini) = load lines [] in
      elim (Bool-cases ok) [
        | inl b ↦
            rw (load_config, b)
              (server_fails (get_int atoi server_key serverid_key ini) ini
                (load_log separator atoi ini c) h)
        | inr b ↦ rw (load_config, b) refl
      ]

  -- Loading a file that describes a well-formed configuration without a server id, or without a
  -- port, fails.
  pub load_config-missing :
      (c : ServerConfig)
      → IsConfig sections
      → text lines ≡ lines_of sections
      → (first_value server_key serverid_key sections ≡ none)
        ⊎ (first_value server_key listenport_key sections ≡ none)
      → (load_config separator atoi lines c).0 ≡ false
  load_config-missing c h e (inl f) = config_fails c (
      inl (
        get_int-number atoi server_key serverid_key (load lines []).1 none
          (load-lines_of server_key serverid_key sections lines h e ∙ f)))
  load_config-missing c h e (inr f) = config_fails c (
      inr (
        get_int-number atoi server_key listenport_key (load lines []).1 none
          (load-lines_of server_key listenport_key sections lines h e ∙ f)))

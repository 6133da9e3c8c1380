-- ===== src/Tests/Config.antt =====
-- The helpers on strings and the configuration at concrete inputs.
use echo_server_cpp.Prelude.{ℕ, ◌≡◌, refl, true, false, List, [], ◌∷◌}
use echo_server_cpp.Prelude.Ascii.{codes}
use echo_server_cpp.Prelude.Int.{ℤ, pos}
use echo_server_cpp.Strings.{same, trim_string}
use echo_server_cpp.Strings.Removal.{remove, trim_string-remove}
use echo_server_cpp.Strings.Replacement.{swap}
use echo_server_cpp.Ini.{ConfigDic, Ini, is_empty, begins, find_key, load, get_string}
use echo_server_cpp.Ini.RoundTrip.{IsConfig, first_value, load-lines_of}
use echo_server_cpp.ServerConfig.{
  ServerConfig, load_config, value_or, log_key, filename_key, server_key, serverid_key,
  listenport_key, pairdealcount_key,
}
use echo_server_cpp.ServerConfig.Loading.{number, load_config-described}

-- Blanks, a comment line and a comment behind an entry.
abbrev file : List (List ℕ)
file = codes "[server]" ∷ codes "serverid = 7" ∷ codes "# note" ∷ codes "listenport=80 #x" ∷ []

abbrev sections : ConfigDic
sections = (server_key, (serverid_key, codes "7") ∷ (listenport_key, codes "80") ∷ []) ∷ []

-- Only the id.
abbrev partial : ConfigDic
partial = (server_key, (serverid_key, codes "7") ∷ []) ∷ []

abbrev partial_file : List (List ℕ)
partial_file = codes "[server]" ∷ codes "serverid=7" ∷ []

abbrev nothing : Ini
nothing = record { title = []; configs = [] }

sections-IsConfig : IsConfig sections
unfolding is_empty begins
sections-IsConfig = (
  (refl, refl, (refl, (refl, (refl, (refl, (refl, (refl, tt))))))),
  (
    (refl, (refl, (refl, (refl, (refl, (refl, (refl, (refl, tt)))))))),
    refl,
    refl,
    (
      (refl, (refl, (refl, (refl, (refl, (refl, (refl, (refl, (refl, (refl, tt)))))))))),
      refl,
      refl,
      tt,
    ),
  ),
  tt,
)

partial-IsConfig : IsConfig partial
unfolding is_empty begins
partial-IsConfig = (
  (refl, refl, (refl, (refl, (refl, (refl, (refl, (refl, tt))))))),
  ((refl, (refl, (refl, (refl, (refl, (refl, (refl, (refl, tt)))))))), refl, refl, tt),
  tt,
)

load-lines_of_example :
    get_string server_key listenport_key (load file []).1
    ≡ first_value server_key listenport_key sections
load-lines_of_example = load-lines_of server_key listenport_key sections file sections-IsConfig refl

-- The first digit as a number.
abbrev digit : List ℕ → ℤ
digit [] = pos 0
digit (x ∷ s) = pos x

abbrev blank : ServerConfig
blank = record {
  log_file_name = [];
  log_file_size = pos 0;
  log_level = pos 0;
  std_out = false;
  server_id = pos 0;
  listen_port = pos 0;
  server_time_out = pos 0;
  server_threads = pos 0;
  client_threads = pos 0;
  max_sockets = pos 0;
  max_pair_deal_count = pos 0;
  daemon = false;
}

load_config-described_example :
    (c : ServerConfig) × (load_config 47 digit file blank ≡ (true, c))
    × (c.server_id ≡ digit (55 ∷ []))
    × (c.listen_port ≡ digit (56 ∷ 48 ∷ []))
    × (c.max_pair_deal_count
        ≡ value_or (pos 5000) (number digit (first_value server_key pairdealcount_key sections)))
    × (c.log_file_name
        ≡ swap 47 47 (swap 92 47 (value_or server_key (first_value log_key filename_key sections))))
unfolding find_key same
load_config-described_example =
    load_config-described 47 digit sections file blank 55 56 [] (48 ∷ []) sections-IsConfig refl
      refl refl

trim_string-remove_example :
    trim_string 32 (32 ∷ 97 ∷ 32 ∷ 32 ∷ 98 ∷ []) ≡ remove 32 (32 ∷ 97 ∷ 32 ∷ 32 ∷ 98 ∷ [])
trim_string-remove_example = trim_string-remove 32 (32 ∷ 97 ∷ 32 ∷ 32 ∷ 98 ∷ [])

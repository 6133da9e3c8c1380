-- ===== src/Tests/Logging.antt =====
-- The log at concrete inputs.
use echo_server_cpp.Prelude.{◌≡◌, refl, inl, true, some, List, [], ◌∷◌, ◌++◌, arith}
use echo_server_cpp.Prelude.Assoc.{lookup}
use echo_server_cpp.Prelude.Ascii.{c_string}
use echo_server_cpp.Log.{
  Now, Log, log, close_old, open_new, open_file, write_file, write_out, log_buffer, log_file, round,
}
use echo_server_cpp.Log.Output.{
  Action, logs, rounds, act, act_all, texts, shown, Prints, act_all-shown,
}
use echo_server_cpp.Log.Rotation.{open_file-truncates}

abbrev now : Now
now = record { day = 5; name = 1; can_open = true }

-- The file 1 is open and holds one character.
abbrev state : Log
state = record {
  runing = true;
  file_size = 100;
  std_out = true;
  file_out = true;
  now_day = 5;
  last_day = 5;
  current = some 1;
  files = (1, 55 ∷ []) ∷ [];
  buffer = [];
  now_use_size = 1;
  drop_count = 0;
  screen = [];
}

abbrev actions : List Action
actions = logs (97 ∷ []) ∷ rounds now ∷ logs (98 ∷ []) ∷ []

act_all-shown_example :
    (shown (act_all actions state) ≡ shown state ++ texts actions) × Prints (act_all actions state)
unfolding act_all act log round c_string log_file log_buffer open_file close_old open_new write_out
    write_file
act_all-shown_example =
    act_all-shown actions state (record { prints = refl; no_zero = tt; fits = omega arith })
      (((refl, tt), omega arith), (tt, (((refl, tt), omega arith), tt))) refl

abbrev full : Log
full = record state { now_use_size = 100 }

open_file-truncates_example : lookup 1 (open_file now full).1.files ≡ some []
open_file-truncates_example = open_file-truncates now 1 full refl refl (inl (omega arith)) refl refl

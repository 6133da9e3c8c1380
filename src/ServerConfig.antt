-- ===== src/ServerConfig.antt =====
-- EchoServer/ServerConfig.cpp: the configuration of the server. `separator` is the character of
-- PF, and `atoi` the C function, which is a parameter. The members that load does not reach keep
-- what they had; no integer overflow is modelled.
pub mod Loading
use echo_server_cpp.Prelude.{
  ℕ, zero, suc, Bool, true, false, Option, none, some, List, [], ◌∷◌, length, if◌then◌else◌,
}
use echo_server_cpp.Prelude.Int.{ℤ, pos, ◌*ℤ◌}
use echo_server_cpp.Prelude.Ascii.{codes}
use echo_server_cpp.Strings.{replace_all_char}
use echo_server_cpp.Ini.{ConfigDic, load, get_string, get_int, get_bool}

-- The names of sections and keys, and the file name "server".
abbrev pub log_key : List ℕ
log_key = codes "log"

abbrev pub filename_key : List ℕ
filename_key = codes "filename"

abbrev pub filesize_key : List ℕ
filesize_key = codes "filesize"

abbrev pub loglevel_key : List ℕ
loglevel_key = codes "loglevel"

abbrev pub stdout_key : List ℕ
stdout_key = codes "stdout"

abbrev pub server_key : List ℕ
server_key = codes "server"

abbrev pub serverid_key : List ℕ
serverid_key = codes "serverid"

abbrev pub listenport_key : List ℕ
listenport_key = codes "listenport"

abbrev pub timeout_key : List ℕ
timeout_key = codes "timeout"

abbrev pub serverthreads_key : List ℕ
serverthreads_key = codes "serverthreads"

abbrev pub clientthreads_key : List ℕ
clientthreads_key = codes "clientthreads"

abbrev pub maxsockets_key : List ℕ
maxsockets_key = codes "maxsockets"

abbrev pub pairdealcount_key : List ℕ
pairdealcount_key = codes "pairdealcount"

abbrev pub daemon_key : List ℕ
daemon_key = codes "daemon"

pub record ServerConfig : Type 0 where
  pub log_file_name : List ℕ
  pub log_file_size : ℤ
  pub log_level : ℤ
  pub std_out : Bool
  pub server_id : ℤ
  pub listen_port : ℤ
  pub server_time_out : ℤ
  pub server_threads : ℤ
  pub client_threads : ℤ
  pub max_sockets : ℤ
  pub max_pair_deal_count : ℤ
  pub daemon : Bool

-- GET_BASE where a missing value is no failure.
abbrev pub value_or : {A : Type 0} → A → Option A → A
value_or a none = a
value_or a (some b) = b

-- '\\' is 92 and '/' is 47.
unfoldable pub path_of : ℕ → List ℕ → List ℕ
path_of separator name =
    let name' = replace_all_char (length name) (92 ∷ []) (separator ∷ []) name in
    replace_all_char (length name') (47 ∷ []) (separator ∷ []) name'

module _ (separator : ℕ) (atoi : List ℕ → ℤ) where
  load_log : ConfigDic → ServerConfig → ServerConfig
  unfolding path_of
  load_log ini c = record c {
    log_file_name = path_of separator (value_or server_key (get_string log_key filename_key ini));
    log_file_size = value_or (pos 256) (get_int atoi log_key filesize_key ini) *ℤ pos 1048576;
    log_level = value_or (pos 0) (get_int atoi log_key loglevel_key ini);
    std_out = value_or true (get_bool log_key stdout_key ini);
  }

  load_rest : ConfigDic → ServerConfig → ServerConfig
  load_rest ini c = record c {
    server_time_out = value_or (pos 120) (get_int atoi server_key timeout_key ini);
    server_threads = value_or (pos 2) (get_int atoi server_key serverthreads_key ini);
    client_threads = value_or (pos 2) (get_int atoi server_key clientthreads_key ini);
    max_sockets = value_or (pos 5000) (get_int atoi server_key maxsockets_key ini);
    max_pair_deal_count = value_or (pos 5000) (get_int atoi server_key pairdealcount_key ini);
    daemon = value_or false (get_bool server_key daemon_key ini);
  }

  load_port : Option ℤ → ConfigDic → ServerConfig → Bool × ServerConfig
  unfolding load_rest
  load_port none ini c = (false, record c { listen_port = pos 0 })
  load_port (some port) ini c = (true, load_rest ini (record c { listen_port = port }))

  load_server : Option ℤ → ConfigDic → ServerConfig → Bool × ServerConfig
  unfolding load_port
  load_server none ini c = (false, record c { server_id = pos 0 })
  load_server (some id) ini c =
      load_port (get_int atoi server_key listenport_key ini) ini (record c { server_id = id })

  -- load, with the lines of ServerConfig.ini.
  unfoldable pub load_config : List (List ℕ) → ServerConfig → Bool × ServerConfig
  unfolding load_log load_server
  load_config lines c =
      let (loaded, ini) = load lines [] in
      if loaded
      then load_server (get_int atoi server_key serverid_key ini) ini (load_log ini c)
      else (false, c)

-- ===== src/Worker/Arguments.antt =====
-- worker/src/cli.c: the arguments of the worker's program.
use void_os_merger.Base.{
  ℕ, ◌%◌, Bool, true, false, List, [], ◌∷◌, Bytes, str_eq, strncpy, strtoul, u32_mod, if◌then◌else◌,
}

abbrev pub cli_str_max : ℕ
cli_str_max = 128

pub record WorkerArgs : Type 0 where
  pub master_endpoint : Bytes
  pub worker_id : Bytes
  pub config_path : Bytes
  pub heartbeat_interval_ms : ℕ
  pub disable_discovery : Bool
  pub execute_self_test : Bool

-- "tcp://127.0.0.1:5555", "--master", "--worker-id", "--config", "--heartbeat-ms", "--no-discovery" and "--test".
abbrev pub default_endpoint : Bytes
default_endpoint =
    116 ∷ 99 ∷ 112 ∷ 58 ∷ 47 ∷ 47 ∷ 49 ∷ 50 ∷ 55 ∷ 46 ∷ 48 ∷ 46 ∷ 48 ∷ 46 ∷ 49 ∷ 58 ∷ 53 ∷ 53 ∷ 53
    ∷ 53 ∷ []

abbrev pub master_option : Bytes
master_option = 45 ∷ 45 ∷ 109 ∷ 97 ∷ 115 ∷ 116 ∷ 101 ∷ 114 ∷ []

abbrev pub worker_id_option : Bytes
worker_id_option = 45 ∷ 45 ∷ 119 ∷ 111 ∷ 114 ∷ 107 ∷ 101 ∷ 114 ∷ 45 ∷ 105 ∷ 100 ∷ []

abbrev pub config_option : Bytes
config_option = 45 ∷ 45 ∷ 99 ∷ 111 ∷ 110 ∷ 102 ∷ 105 ∷ 103 ∷ []

abbrev pub heartbeat_option : Bytes
heartbeat_option = 45 ∷ 45 ∷ 104 ∷ 101 ∷ 97 ∷ 114 ∷ 116 ∷ 98 ∷ 101 ∷ 97 ∷ 116 ∷ 45 ∷ 109 ∷ 115 ∷ []

abbrev pub no_discovery_option : Bytes
no_discovery_option =
    45 ∷ 45 ∷ 110 ∷ 111 ∷ 45 ∷ 100 ∷ 105 ∷ 115 ∷ 99 ∷ 111 ∷ 118 ∷ 101 ∷ 114 ∷ 121 ∷ []

abbrev pub test_option : Bytes
test_option = 45 ∷ 45 ∷ 116 ∷ 101 ∷ 115 ∷ 116 ∷ []

abbrev pub default_args : WorkerArgs
default_args = record {
  master_endpoint = default_endpoint;
  worker_id = [];
  config_path = [];
  heartbeat_interval_ms = 1000;
  disable_discovery = false;
  execute_self_test = false;
}

-- The options that stand alone.
abbrev pub read_flag : Bytes → WorkerArgs → WorkerArgs
read_flag arg a =
    if str_eq arg no_discovery_option
    then record a { disable_discovery = true }
    else if str_eq arg test_option
    then record a { execute_self_test = true }
    else a

-- The options that take the argument behind them.
abbrev pub takes_value : Bytes → Bool
takes_value arg =
    if str_eq arg master_option
    then true
    else if str_eq arg worker_id_option
    then true
    else if str_eq arg config_option
    then true
    else str_eq arg heartbeat_option

abbrev pub read_value : Bytes → Bytes → WorkerArgs → WorkerArgs
read_value arg val a =
    if str_eq arg master_option
    then record a { master_endpoint = strncpy cli_str_max val }
    else if str_eq arg worker_id_option
    then record a { worker_id = strncpy cli_str_max val }
    else if str_eq arg config_option
    then record a { config_path = strncpy cli_str_max val }
    else record a { heartbeat_interval_ms = strtoul val % u32_mod }

-- The arguments behind the name of the program.
unfoldable pub read_args : List Bytes → WorkerArgs → WorkerArgs
read_args [] a = a
read_args (arg ∷ []) a = read_flag arg a
read_args (arg ∷ val ∷ rest) a = elim (takes_value arg) [
  | true ↦ read_args rest (read_value arg val a)
  | false ↦ read_args (val ∷ rest) (read_flag arg a)
]

unfoldable pub worker_cli_parse : List Bytes → WorkerArgs
worker_cli_parse args = read_args args default_args

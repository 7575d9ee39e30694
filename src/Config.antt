-- ===== src/Config.antt =====
-- common/src/config.c: the configuration file, read line by line into the six settings.
-- `Lines` is about the text of a line, `Printing` about files that are printed from entries.
pub mod Lines
pub mod Printing
mod Tests
use void_os_merger.Base.{
  is_space, skip_space, strtoul, c_string, ℕ, zero, suc, ◌+◌, ◌-◌, ◌*◌, ◌%◌, Bool, true, false,
  ◌&&◌, ◌||◌, Option, none, some, List, [], ◌∷◌, ltb, leb, ◌==◌, if◌then◌else◌, take, drop, Bytes,
  str_eq, strncpy, u64_mod, u32_mod,
}

abbrev pub config_str_max : ℕ
config_str_max = 128

abbrev pub max_name_len : ℕ
max_name_len = 64

abbrev pub max_line_len : ℕ
max_line_len = 256

pub record Config : Type 0 where
  pub cluster_name : Bytes
  pub master_endpoint : Bytes
  pub worker_id : Bytes
  pub heartbeat_interval_sec : ℕ
  pub advertised_capabilities : Bytes
  pub log_level : Bytes

-- What is left when the spaces at the end are cut.
unfoldable pub trim_end : Bytes → Bytes
trim_end [] = []
trim_end (b ∷ bs) = elim (trim_end bs) [
  | [] ↦ if is_space b then [] else b ∷ []
  | c ∷ cs ↦ b ∷ c ∷ cs
]

unfoldable pub trim_whitespace : Bytes → Bytes
trim_whitespace s = trim_end (skip_space s)

-- The index of the first byte that is c.
unfoldable pub strchr : ℕ → Bytes → Option ℕ
strchr c [] = none
strchr c (b ∷ bs) =
    let rest = strchr c bs in
    if b == c then some 0 else elim rest [ none ↦ none | some i ↦ some (suc i) ]

abbrev pub hash_sign : ℕ
hash_sign = 35

abbrev pub semicolon : ℕ
semicolon = 59

unfoldable pub strip_comment : Bytes → Bytes
strip_comment s = elim (strchr hash_sign s) [
  | some hash ↦ elim (strchr semicolon s) [
    | some semi ↦ take (if ltb hash semi then hash else semi) s
    | none ↦ take hash s
  ]
  | none ↦ elim (strchr semicolon s) [ some semi ↦ take semi s | none ↦ s ]
]

-- The names of the sections and keys.
abbrev pub cluster : Bytes
cluster = 99 ∷ 108 ∷ 117 ∷ 115 ∷ 116 ∷ 101 ∷ 114 ∷ []

abbrev pub master : Bytes
master = 109 ∷ 97 ∷ 115 ∷ 116 ∷ 101 ∷ 114 ∷ []

abbrev pub worker : Bytes
worker = 119 ∷ 111 ∷ 114 ∷ 107 ∷ 101 ∷ 114 ∷ []

abbrev pub logging : Bytes
logging = 108 ∷ 111 ∷ 103 ∷ 103 ∷ 105 ∷ 110 ∷ 103 ∷ []

abbrev pub name : Bytes
name = 110 ∷ 97 ∷ 109 ∷ 101 ∷ []

abbrev pub endpoint : Bytes
endpoint = 101 ∷ 110 ∷ 100 ∷ 112 ∷ 111 ∷ 105 ∷ 110 ∷ 116 ∷ []

abbrev pub id : Bytes
id = 105 ∷ 100 ∷ []

abbrev pub heartbeat_interval : Bytes
heartbeat_interval =
    104 ∷ 101 ∷ 97 ∷ 114 ∷ 116 ∷ 98 ∷ 101 ∷ 97 ∷ 116 ∷ 95 ∷ 105 ∷ 110 ∷ 116 ∷ 101 ∷ 114 ∷ 118 ∷ 97
    ∷ 108 ∷ []

abbrev pub capabilities : Bytes
capabilities = 99 ∷ 97 ∷ 112 ∷ 97 ∷ 98 ∷ 105 ∷ 108 ∷ 105 ∷ 116 ∷ 105 ∷ 101 ∷ 115 ∷ []

abbrev pub level : Bytes
level = 108 ∷ 101 ∷ 118 ∷ 101 ∷ 108 ∷ []

unfoldable pub set_config_entry : Config → Bytes → Bytes → Bytes → Config
set_config_entry config section key val =
    if str_eq section cluster && str_eq key name
    then record config { cluster_name = strncpy config_str_max val }
    else if str_eq section master && str_eq key endpoint
    then record config { master_endpoint = strncpy config_str_max val }
    else if str_eq section worker && str_eq key id
    then record config { worker_id = strncpy config_str_max val }
    else if str_eq section worker && str_eq key heartbeat_interval
    then record config { heartbeat_interval_sec = strtoul val % u32_mod }
    else if str_eq section worker && str_eq key capabilities
    then record config { advertised_capabilities = strncpy config_str_max val }
    else if str_eq section logging && str_eq key level
    then record config { log_level = strncpy config_str_max val }
    else config

unfoldable pub vom_config_defaults : Config
vom_config_defaults = record {
  cluster_name =
      118 ∷ 111 ∷ 109 ∷ 45 ∷ 100 ∷ 101 ∷ 102 ∷ 97 ∷ 117 ∷ 108 ∷ 116 ∷ 45 ∷ 99 ∷ 108 ∷ 117 ∷ 115
      ∷ 116 ∷ 101 ∷ 114 ∷ [];
  master_endpoint =
      116 ∷ 99 ∷ 112 ∷ 58 ∷ 47 ∷ 47 ∷ 49 ∷ 50 ∷ 55 ∷ 46 ∷ 48 ∷ 46 ∷ 48 ∷ 46 ∷ 49 ∷ 58 ∷ 53 ∷ 53 ∷ 53
      ∷ 53 ∷ [];
  worker_id = 119 ∷ 111 ∷ 114 ∷ 107 ∷ 101 ∷ 114 ∷ 45 ∷ 100 ∷ 101 ∷ 102 ∷ 97 ∷ 117 ∷ 108 ∷ 116 ∷ [];
  heartbeat_interval_sec = 5;
  advertised_capabilities = [];
  log_level = 105 ∷ 110 ∷ 102 ∷ 111 ∷ [];
}

-- One more byte before a line that goes on.
abbrev pub push : ℕ → List Bytes → List Bytes
push b [] = (b ∷ []) ∷ []
push b (line ∷ lines) = (b ∷ line) ∷ lines

-- The lines that `fgets` reads: `room` is how many more bytes fit in the one that is read.
unfoldable pub fgets_lines : ℕ → Bytes → List Bytes
fgets_lines room [] = []
fgets_lines room (b ∷ bs) =
    let closes = (b == 10) || leb room 1 in
    let rest = fgets_lines (if closes then max_line_len - 1 else room - 1) bs in
    if closes then (b ∷ []) ∷ rest else push b rest

pub record Reader : Type 0 where
  pub current_section : Bytes
  pub config : Config

unfoldable pub read_section : Bytes → Reader → Reader
read_section s r = elim (strchr 93 s) [
  | none ↦ r
  | some end ↦ record r {
    current_section = strncpy max_name_len (trim_whitespace (drop 1 (take end s)));
  }
]

unfoldable pub read_entry : Bytes → Reader → Reader
read_entry s r = elim (strchr 61 s) [
  | none ↦ r
  | some eq ↦ record r {
    config =
        set_config_entry r.config r.current_section (trim_whitespace (take eq s))
          (trim_whitespace (drop (suc eq) s));
  }
]

unfoldable pub read_text : Bytes → Reader → Reader
read_text [] r = r
read_text (b ∷ bs) r = if b == 91 then read_section (b ∷ bs) r else read_entry (b ∷ bs) r

unfoldable pub read_line : Reader → Bytes → Reader
read_line r line = read_text (trim_whitespace (strip_comment (c_string line))) r

unfoldable pub read_lines : Reader → List Bytes → Reader
read_lines r [] = r
read_lines r (line ∷ lines) = read_lines (read_line r line) lines

-- None is a file that cannot be opened.
unfoldable pub vom_config_load : Option Bytes → Config × Bool
vom_config_load none = (vom_config_defaults, false)
vom_config_load (some content) =
    let r : Reader = record { current_section = []; config = vom_config_defaults } in
    ((read_lines r (fgets_lines (max_line_len - 1) content)).config, true)

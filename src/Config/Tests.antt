-- ===== src/Config/Tests.antt =====
-- common/src/config.c: a file with two settings and a remark.
use void_os_merger.Base.{
  is_space, skip_space, digits, signed_digits, strtoul, c_string, ◌≡◌, refl, true, some, List, [],
  ◌∷◌, arith, All, str_eq,
}
use void_os_merger.Config.{
  worker, id, heartbeat_interval, vom_config_defaults, vom_config_load, strchr, set_config_entry,
  fgets_lines, strip_comment, read_line, read_lines, read_text, read_entry, read_section, trim_end,
  trim_whitespace,
}
use void_os_merger.Config.Lines.{starts_with_space, ends_with_space}
use void_os_merger.Config.Printing.{
  Item, heading, setting, remark, print, text_of, follow_all, IsPlain, IsWritable, starts_heading,
  vom_config_load-print,
}

abbrev items : List Item
items =
    heading worker
    ∷ setting id (97 ∷ 32 ∷ 98 ∷ [])
    ∷ remark (97 ∷ 61 ∷ [])
    ∷ setting heartbeat_interval (55 ∷ [])
    ∷ []

worker-IsPlain : IsPlain worker
unfolding strchr starts_with_space ends_with_space is_space
worker-IsPlain = record {
  no_nul = refl;
  no_newline = refl;
  no_hash = refl;
  no_semicolon = refl;
  starts = refl;
  ends = refl;
}

id-IsPlain : IsPlain id
unfolding strchr starts_with_space ends_with_space is_space
id-IsPlain = record {
  no_nul = refl;
  no_newline = refl;
  no_hash = refl;
  no_semicolon = refl;
  starts = refl;
  ends = refl;
}

a_b-IsPlain : IsPlain (97 ∷ 32 ∷ 98 ∷ [])
unfolding strchr starts_with_space ends_with_space is_space
a_b-IsPlain = record {
  no_nul = refl;
  no_newline = refl;
  no_hash = refl;
  no_semicolon = refl;
  starts = refl;
  ends = refl;
}

heartbeat_interval-IsPlain : IsPlain heartbeat_interval
unfolding strchr starts_with_space ends_with_space is_space
heartbeat_interval-IsPlain = record {
  no_nul = refl;
  no_newline = refl;
  no_hash = refl;
  no_semicolon = refl;
  starts = refl;
  ends = refl;
}

seven-IsPlain : IsPlain (55 ∷ [])
unfolding strchr starts_with_space ends_with_space is_space
seven-IsPlain = record {
  no_nul = refl;
  no_newline = refl;
  no_hash = refl;
  no_semicolon = refl;
  starts = refl;
  ends = refl;
}

items-AllWritable : All IsWritable items
unfolding IsWritable strchr starts_heading
items-AllWritable = (
  (worker-IsPlain, refl, omega arith),
  (
    (id-IsPlain, a_b-IsPlain, refl, refl, omega arith),
    (
      (refl, omega arith),
      ((heartbeat_interval-IsPlain, seven-IsPlain, refl, refl, omega arith), tt),
    ),
  ),
)

vom_config_load-print_example : vom_config_load (some (print items)) ≡ (
  (follow_all (record { current_section = []; config = vom_config_defaults }) items).config,
  true,
)
vom_config_load-print_example = vom_config_load-print items items-AllWritable

-- A heading and a setting with spaces and remarks around them: " [worker] ; x" and "id =\ta b # c".
spaced :
    (vom_config_load (
      some (
        32 ∷ 91 ∷ 119 ∷ 111 ∷ 114 ∷ 107 ∷ 101 ∷ 114 ∷ 93 ∷ 32 ∷ 59 ∷ 32 ∷ 120 ∷ 10 ∷ 105 ∷ 100 ∷ 32
        ∷ 61 ∷ 9 ∷ 97 ∷ 32 ∷ 98 ∷ 32 ∷ 35 ∷ 32 ∷ 99 ∷ []))).0.worker_id
    ≡ 97 ∷ 32 ∷ 98 ∷ []
unfolding vom_config_load read_lines fgets_lines read_line read_text trim_whitespace trim_end
    skip_space strip_comment strchr c_string is_space read_entry set_config_entry str_eq
    read_section
spaced = refl

interval : (vom_config_load (some (print items))).0.heartbeat_interval_sec ≡ 7
unfolding vom_config_load read_lines fgets_lines read_line read_text trim_whitespace trim_end
    skip_space strip_comment strchr c_string is_space read_entry set_config_entry str_eq
    read_section print text_of strtoul digits signed_digits vom_config_defaults
interval = refl

-- "-1" and a number beyond 64 bits.
negative : strtoul (45 ∷ 49 ∷ []) ≡ 0xffffffffffffffff
unfolding strtoul skip_space signed_digits digits is_space
negative = refl

-- ===== src/Cli.antt =====
-- cli/src/main.c: the commands of the command line program.
use void_os_merger.Base.{
  ℕ, Bool, true, false, List, [], ◌∷◌, ◌++◌, ◌≡◌, refl, arith, Bytes, str_eq, strncpy, strtoul,
  if◌then◌else◌,
}

abbrev pub cli_max_args_len : ℕ
cli_max_args_len = 128

abbrev pub cli_max_path_len : ℕ
cli_max_path_len = 256

pub data CommandType : Type 0 where
  cluster_status workload_submit workload_inspect workload_cancel worker_drain worker_resume :
      CommandType
  worker_approve ui_mode_set unknown : CommandType

pub data OutputFormat : Type 0 where
  human_readable json_structurable plain_script_table : OutputFormat

pub data ExitCode : Type 0 where
  success err_bad_syntax err_unknown_cmd err_missing_arg err_invalid_val err_network_fault :
      ExitCode
  err_internal : ExitCode

-- The part of the union that is written: the path and the priority, the identifier, or the name.
pub data Options : Type 0 where
  zeros : Options
  submits : Bytes → ℕ → Options
  targets : ℕ → Options
  names : Bytes → Options

pub record ParsedCommand : Type 0 where
  pub kind : CommandType
  pub format_strategy : OutputFormat
  pub options : Options

-- "--json", "--script", "status", "submit", "inspect", "cancel" and "drain".
abbrev pub json_option : Bytes
json_option = 45 ∷ 45 ∷ 106 ∷ 115 ∷ 111 ∷ 110 ∷ []

abbrev pub script_option : Bytes
script_option = 45 ∷ 45 ∷ 115 ∷ 99 ∷ 114 ∷ 105 ∷ 112 ∷ 116 ∷ []

abbrev pub status_verb : Bytes
status_verb = 115 ∷ 116 ∷ 97 ∷ 116 ∷ 117 ∷ 115 ∷ []

abbrev pub submit_verb : Bytes
submit_verb = 115 ∷ 117 ∷ 98 ∷ 109 ∷ 105 ∷ 116 ∷ []

abbrev pub inspect_verb : Bytes
inspect_verb = 105 ∷ 110 ∷ 115 ∷ 112 ∷ 101 ∷ 99 ∷ 116 ∷ []

abbrev pub cancel_verb : Bytes
cancel_verb = 99 ∷ 97 ∷ 110 ∷ 99 ∷ 101 ∷ 108 ∷ []

abbrev pub drain_verb : Bytes
drain_verb = 100 ∷ 114 ∷ 97 ∷ 105 ∷ 110 ∷ []

abbrev pub blank_command : OutputFormat → ParsedCommand
blank_command format = record { kind = unknown; format_strategy = format; options = zeros }

-- A verb that needs an argument.
unfoldable pub with_argument :
    CommandType → (Bytes → Options) → OutputFormat → List Bytes → ExitCode × ParsedCommand
with_argument kind options format [] = (err_missing_arg, blank_command format)
with_argument kind options format (arg ∷ args) =
    (success, record { kind = kind; format_strategy = format; options = options arg })

unfoldable pub parse_verb : Bytes → OutputFormat → List Bytes → ExitCode × ParsedCommand
parse_verb verb format args =
    if str_eq verb status_verb
    then (success, record (blank_command format) { kind = cluster_status })
    else if str_eq verb submit_verb
    then with_argument workload_submit (λ path. submits (strncpy cli_max_path_len path) 1) format
        args
    else if str_eq verb inspect_verb
    then with_argument workload_inspect (λ id. targets (strtoul id)) format args
    else if str_eq verb cancel_verb
    then with_argument workload_cancel (λ id. targets (strtoul id)) format args
    else if str_eq verb drain_verb
    then with_argument worker_drain (λ name. names (strncpy cli_max_args_len name)) format args
    else (err_unknown_cmd, blank_command format)

unfoldable pub parse_words : OutputFormat → List Bytes → ExitCode × ParsedCommand
parse_words format [] = (err_missing_arg, blank_command format)
parse_words format (verb ∷ args) = parse_verb verb format args

-- The arguments behind the name of the program. Without any the command is left as it was.
unfoldable pub commands_parse : List Bytes → ParsedCommand → ExitCode × ParsedCommand
commands_parse [] out = (err_bad_syntax, out)
commands_parse (arg ∷ args) out =
    if str_eq arg json_option
    then parse_words json_structurable args
    else if str_eq arg script_option
    then parse_words plain_script_table args
    else parse_words human_readable (arg ∷ args)

with_argument-append :
    (kind : CommandType) (options : Bytes → Options) (format : OutputFormat)
    (args extra : List Bytes)
    → (with_argument kind options format args).0 ≡ success
    → with_argument kind options format (args ++ extra) ≡ with_argument kind options format args
unfolding with_argument
with_argument-append kind options format [] extra h = ground (arith, h)
with_argument-append kind options format (arg ∷ args) extra h = refl

-- A choice between two commands, of which each that succeeds is the same with more behind it.
either_append :
    (b : Bool) (p p' q q' : ExitCode × ParsedCommand)
    → (p.0 ≡ success → p' ≡ p)
    → (q.0 ≡ success → q' ≡ q)
    → (if b then p else q).0 ≡ success
    → (if b then p' else q') ≡ (if b then p else q)
either_append true p p' q q' f g h = f h
either_append false p p' q q' f g h = g h

parse_verb-append :
    (verb : Bytes) (format : OutputFormat) (args extra : List Bytes)
    → (parse_verb verb format args).0 ≡ success
    → parse_verb verb format (args ++ extra) ≡ parse_verb verb format args
unfolding parse_verb
parse_verb-append verb format args extra =
    either_append (str_eq verb status_verb) _ _ _ _ (λ _. refl)
      (either_append (str_eq verb submit_verb) _ _ _ _ (with_argument-append _ _ format args extra)
        (either_append (str_eq verb inspect_verb) _ _ _ _
          (with_argument-append _ _ format args extra)
          (either_append (str_eq verb cancel_verb) _ _ _ _
            (with_argument-append _ _ format args extra)
            (either_append (str_eq verb drain_verb) _ _ _ _
              (with_argument-append _ _ format args extra) (λ _. refl)))))

parse_words-append :
    (format : OutputFormat) (args extra : List Bytes)
    → (parse_words format args).0 ≡ success
    → parse_words format (args ++ extra) ≡ parse_words format args
unfolding parse_words
parse_words-append format [] extra h = ground (arith, h)
parse_words-append format (verb ∷ args) extra h = parse_verb-append verb format args extra h

-- What stands behind a complete command is ignored.
pub commands_parse-append :
    (args extra : List Bytes) (out : ParsedCommand)
    → (commands_parse args out).0 ≡ success
    → commands_parse (args ++ extra) out ≡ commands_parse args out
unfolding commands_parse
commands_parse-append [] extra out h = ground (arith, h)
commands_parse-append (arg ∷ args) extra out h =
    either_append (str_eq arg json_option) _ _ _ _ (parse_words-append json_structurable args extra)
      (either_append (str_eq arg script_option) _ _ _ _
        (parse_words-append plain_script_table args extra)
        (parse_words-append human_readable (arg ∷ args) extra))
      h

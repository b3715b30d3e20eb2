-- ===== src/ProxyCli.antt =====
-- packages/cli-proxy/src/arg-parser.ts: the arguments of the proxy command line. An error's
-- message and hint repeat its code, the command and the token, and are left out.
pub mod Placed
use command_relay.Common.{
  ℕ, Bool, true, false, not, ◌&&◌, ◌||◌, Option, none, some, List, [], ◌∷◌, ◌++◌, if◌then◌else◌,
  ◌==◌, nat_eq, list_eq, length, contains,
}
use command_relay.Common.Text.{codes}
use command_relay.Common.Units.{starts_with}

pub data CliCommand : Type 0 where
  help : CliCommand
  env : (json : Bool) → CliCommand
  explain : (json with_agent : Bool) (urls : List (List ℕ)) → CliCommand

pub data ErrorCode : Type 0 where
  unknown_option unknown_command unexpected_argument missing_url : ErrorCode

pub data CliResult : Type 0 where
  ok : CliCommand → CliResult
  fail : ErrorCode → CliResult

abbrev pub help_flags : List (List ℕ)
help_flags = codes "-h" ∷ codes "--help" ∷ []

abbrev pub json_flags : List (List ℕ)
json_flags = codes "-j" ∷ codes "--json" ∷ []

abbrev pub is_option : (token : List ℕ) → Bool
is_option token = starts_with (codes "-") token

-- What a token is to the loops, by the order of their tests.
pub data TokenKind : Type 0 where
  empty_token separator json_flag help_flag unknown_flag plain : TokenKind
  agent_flag : (with_agent : Bool) → TokenKind

unfoldable pub flag_kind : (token : List ℕ) → TokenKind
flag_kind token =
    if length token == 0
    then empty_token
    else if contains token help_flags
    then help_flag
    else if contains token json_flags
    then json_flag
    else if is_option token
    then unknown_flag
    else plain

-- The flags before the command, and what follows them; `none` is an unknown option.
unfoldable pub parse_leading_global_flags :
    (help_seen json : Bool) → List (List ℕ) → Option (Bool × Bool × List (List ℕ))
unfolding flag_kind
parse_leading_global_flags help_seen json [] = some (help_seen, json, [])
parse_leading_global_flags help_seen json (token ∷ argv) = elim (flag_kind token) [
  | help_flag ↦ parse_leading_global_flags true json argv
  | json_flag ↦ parse_leading_global_flags help_seen true argv
  | unknown_flag ↦ none
  | _ ↦ some (help_seen, json, token ∷ argv)
]

abbrev pub parse_help_command : List (List ℕ) → CliResult
parse_help_command [] = ok help
parse_help_command (_ ∷ _) = fail unexpected_argument

unfoldable pub parse_env_command : (json : Bool) → List (List ℕ) → CliResult
parse_env_command json [] = ok (env json)
parse_env_command json (token ∷ rest) =
    let after_json = parse_env_command true rest in
    if contains token json_flags
    then after_json
    else if contains token help_flags
    then ok help
    else if is_option token
    then fail unknown_option
    else fail unexpected_argument

abbrev pub explain_urls : (json with_agent : Bool) (urls : List (List ℕ)) → CliResult
explain_urls json with_agent [] = fail missing_url
explain_urls json with_agent (url ∷ urls) = ok (explain json with_agent (url ∷ urls))

unfoldable pub explain_kind : (token : List ℕ) → TokenKind
explain_kind token =
    if length token == 0
    then empty_token
    else if token == codes "--"
    then separator
    else if contains token json_flags
    then json_flag
    else if contains token help_flags
    then help_flag
    else if token == codes "--with-agent"
    then agent_flag true
    else if token == codes "--no-agent"
    then agent_flag false
    else if is_option token
    then unknown_flag
    else plain

-- The loop of `parseExplainCommand`, with the URLs read so far.
unfoldable pub parse_explain :
    (json with_agent : Bool) (urls : List (List ℕ)) → List (List ℕ) → CliResult
unfolding explain_kind
parse_explain json with_agent urls [] = explain_urls json with_agent urls
parse_explain json with_agent urls (token ∷ rest) = elim (explain_kind token) [
  | empty_token ↦ parse_explain json with_agent urls rest
  | separator ↦ explain_urls json with_agent (urls ++ rest)
  | json_flag ↦ parse_explain true with_agent urls rest
  | help_flag ↦ ok help
  | agent_flag chosen ↦ parse_explain json chosen urls rest
  | unknown_flag ↦ fail unknown_option
  | plain ↦ parse_explain json with_agent (urls ++ token ∷ []) rest
]

-- The `switch` on the command.
unfoldable pub parse_command : (json : Bool) (command : List ℕ) → List (List ℕ) → CliResult
unfolding parse_env_command parse_explain
parse_command json command rest =
    if command == codes "help"
    then parse_help_command rest
    else if command == codes "env"
    then parse_env_command json rest
    else if command == codes "explain"
    then parse_explain json true [] rest
    else fail unknown_command

abbrev pub after_flags : Option (Bool × Bool × List (List ℕ)) → CliResult
after_flags none = fail unknown_option
after_flags (some (true, json, argv)) = ok help
after_flags (some (false, json, [])) = ok help
after_flags (some (false, json, command ∷ rest)) =
    if length command == 0 then ok help else parse_command json command rest

unfoldable pub parse_cli_args : List (List ℕ) → CliResult
unfolding parse_leading_global_flags parse_command
parse_cli_args [] = ok help
parse_cli_args (token ∷ argv) = after_flags (parse_leading_global_flags false false (token ∷ argv))

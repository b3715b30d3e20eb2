-- ===== src/Examples/Arguments.antt =====
-- The arguments of packages/cli-proxy/src/arg-parser.ts at work.
use command_relay.Common.{true, false, List, [], ◌∷◌, ◌++◌, map, ◌≡◌, refl}
use command_relay.Common.Text.{codes}
use command_relay.ProxyCli.{ok, fail, explain, unknown_option, parse_cli_args}
use command_relay.ProxyCli.Placed.{
  Argument, url, no_agent, short_json, unknown, written, stop_of, stopped_or, asked, asks_json,
  agent_of, urls_of, parse_cli_args-explain,
}

abbrev arguments : List Argument
arguments = url (codes "a") ∷ no_agent ∷ short_json ∷ url (codes "b") ∷ []

read :
    parse_cli_args (codes "explain" ∷ map written arguments)
    ≡ ok (explain true false (codes "a" ∷ codes "b" ∷ []))
unfolding parse_cli_args
read = refl

refused :
    parse_cli_args (codes "explain" ∷ map written (url (codes "a") ∷ unknown (codes "v") ∷ []))
    ≡ fail unknown_option
unfolding parse_cli_args
refused = refl

parse_cli_args-explain_example :
    (parse_cli_args (codes "explain" ∷ map written arguments)
      ≡ stopped_or
          (stop_of arguments)
          (asked (asks_json arguments) (agent_of true arguments) (urls_of arguments)))
    × (parse_cli_args (codes "explain" ∷ map written arguments ++ codes "--" ∷ codes "-x" ∷ [])
        ≡ stopped_or (stop_of arguments) (
            asked
              (asks_json arguments)
              (agent_of true arguments)
              (urls_of arguments ++ codes "-x" ∷ [])))
parse_cli_args-explain_example =
    parse_cli_args-explain arguments (codes "-x" ∷ []) (refl, (tt, (tt, (refl, tt))))

-- ===== src/ProxyCli/Placed.antt =====
-- packages/cli-proxy/src/arg-parser.ts: what `explain` reads, against a description of its
-- arguments as a whole.
use command_relay.Common.{
  ℕ, Bool, true, false, ◌||◌, Option, none, some, List, [], ◌∷◌, ◌++◌, map, All, ◌≡◌, refl, sym, ap,
  ◌∙◌, arith, ◌==◌, nat_eq, list_eq, length, append-nil, append_assoc, list_beq_iff, Bool-cases,
  inl, inr,
}
use command_relay.Common.Text.{codes}
use command_relay.ProxyCli.{
  CliResult, ok, fail, help, explain, missing_url, unknown_option, unknown_flag, plain,
  explain_kind, parse_explain, parse_command, parse_cli_args, explain_urls,
}

-- An argument by what a user means with it.
pub data Argument : Type 0 where
  blank short_json long_json short_help long_help with_agent no_agent : Argument
  unknown url : (text : List ℕ) → Argument

abbrev pub written : Argument → List ℕ
written blank = []
written short_json = codes "-j"
written long_json = codes "--json"
written short_help = codes "-h"
written long_help = codes "--help"
written with_agent = codes "--with-agent"
written no_agent = codes "--no-agent"
written (unknown text) = b'-' ∷ text
written (url text) = text

-- The options of `explain`, and the text that ends them.
abbrev pub options : List (List ℕ)
options =
    codes "--"
    ∷ codes "-j"
    ∷ codes "--json"
    ∷ codes "-h"
    ∷ codes "--help"
    ∷ codes "--with-agent"
    ∷ codes "--no-agent"
    ∷ []

-- A URL is not empty and has no dash at its start; an unknown option is a dash and a text that do
-- not make a known one.
abbrev pub IsWritten : Argument → Type 0
IsWritten (url []) = ⊥
IsWritten (url (c ∷ text)) = (c == b'-') ≡ false
IsWritten (unknown text) = All (λ option. (option == (b'-' ∷ text)) ≡ false) options
IsWritten _ = Unit

-- The description: no loop over a state. The first request for help or unknown option decides.
abbrev pub stop_of : List Argument → Option CliResult
stop_of [] = none
stop_of (short_help ∷ arguments) = some (ok help)
stop_of (long_help ∷ arguments) = some (ok help)
stop_of (unknown text ∷ arguments) = some (fail unknown_option)
stop_of (_ ∷ arguments) = stop_of arguments

abbrev pub asks_json : List Argument → Bool
asks_json [] = false
asks_json (short_json ∷ arguments) = true
asks_json (long_json ∷ arguments) = true
asks_json (_ ∷ arguments) = asks_json arguments

-- The last flag of the agent decides.
abbrev pub agent_of : (default : Bool) → List Argument → Bool
agent_of default [] = default
agent_of default (with_agent ∷ arguments) = agent_of true arguments
agent_of default (no_agent ∷ arguments) = agent_of false arguments
agent_of default (_ ∷ arguments) = agent_of default arguments

abbrev pub urls_of : List Argument → List (List ℕ)
urls_of [] = []
urls_of (url text ∷ arguments) = text ∷ urls_of arguments
urls_of (_ ∷ arguments) = urls_of arguments

abbrev pub asked : (json agent : Bool) (urls : List (List ℕ)) → CliResult
asked json agent [] = fail missing_url
asked json agent (first ∷ urls) = ok (explain json agent (first ∷ urls))

abbrev pub stopped_or : Option CliResult → CliResult → CliResult
stopped_or none result = result
stopped_or (some stop) result = stop

or_true : (b : Bool) → (b || true) ≡ true
or_true true = refl
or_true false = refl

or_false : (b : Bool) → (b || false) ≡ b
or_false true = refl
or_false false = refl

explain_urls-asked :
    (json agent : Bool) (urls : List (List ℕ))
    → explain_urls json agent urls ≡ asked json agent urls
explain_urls-asked json agent [] = refl
explain_urls-asked json agent (first ∷ urls) = refl

explain_kind-plain : (c : ℕ) (text : List ℕ) → (c == b'-') ≡ false → explain_kind (c ∷ text) ≡ plain
unfolding explain_kind
explain_kind-plain c text h =
    let long : (length (c ∷ text) == 0) ≡ false = ground arith in
    let turned : (b'-' == c) ≡ false = ground arith in rw (explain_kind, long, h, turned) refl

turn : (a b : List ℕ) → (a == b) ≡ false → (b == a) ≡ false
turn a b h = elim (Bool-cases (b == a)) [
  | inl same ↦
      let equal = (list_beq_iff a b).1 (sym ((list_beq_iff b a).0 same)) in
      let no : true ≡ false = sym equal ∙ h in cc
  | inr other ↦ other
]

explain_kind-unknown :
    (text : List ℕ)
    → All (λ option. (option == (b'-' ∷ text)) ≡ false) options
    → explain_kind (b'-' ∷ text) ≡ unknown_flag
unfolding explain_kind
explain_kind-unknown text (end, (j, (json, (h, (help_, (agent, (direct, _))))))) =
    let long : (length (b'-' ∷ text) == 0) ≡ false = ground arith in
    rw
      (
        explain_kind,
        long,
        turn (codes "--") (b'-' ∷ text) end,
        j,
        json,
        h,
        help_,
        turn (codes "--with-agent") (b'-' ∷ text) agent,
        turn (codes "--no-agent") (b'-' ∷ text) direct,
      )
      refl

step-unknown :
    (json agent : Bool) (urls : List (List ℕ)) (token : List ℕ) (rest : List (List ℕ))
    → explain_kind token ≡ unknown_flag
    → parse_explain json agent urls (token ∷ rest) ≡ fail unknown_option
unfolding parse_explain
step-unknown json agent urls token rest e = rw (parse_explain, e) refl

step-plain :
    (json agent : Bool) (urls : List (List ℕ)) (token : List ℕ) (rest : List (List ℕ))
    → explain_kind token ≡ plain
    → parse_explain json agent urls (token ∷ rest)
      ≡ parse_explain json agent (urls ++ token ∷ []) rest
unfolding parse_explain
step-plain json agent urls token rest e = rw (parse_explain, e) refl

-- The loop over arguments, and then over what follows them.
parse_explain-written :
    (json agent : Bool) (urls : List (List ℕ)) (arguments : List Argument) (more : List (List ℕ))
    → All IsWritten arguments
    → parse_explain json agent urls (map written arguments ++ more)
      ≡ stopped_or (stop_of arguments) (
          parse_explain
            (json || asks_json arguments)
            (agent_of agent arguments)
            (urls ++ urls_of arguments)
            more)
unfolding parse_explain explain_kind
parse_explain-written json agent urls [] more h = rw (or_false json, append-nil urls) refl
parse_explain-written json agent urls (blank ∷ arguments) more (_, h) =
    parse_explain-written json agent urls arguments more h
parse_explain-written json agent urls (short_json ∷ arguments) more (_, h) =
    rw (or_true json) (parse_explain-written true agent urls arguments more h)
parse_explain-written json agent urls (long_json ∷ arguments) more (_, h) =
    rw (or_true json) (parse_explain-written true agent urls arguments more h)
parse_explain-written json agent urls (short_help ∷ arguments) more h = refl
parse_explain-written json agent urls (long_help ∷ arguments) more h = refl
parse_explain-written json agent urls (with_agent ∷ arguments) more (_, h) =
    parse_explain-written json true urls arguments more h
parse_explain-written json agent urls (no_agent ∷ arguments) more (_, h) =
    parse_explain-written json false urls arguments more h
parse_explain-written json agent urls (unknown text ∷ arguments) more (k, h) =
    step-unknown json agent urls (b'-' ∷ text) (map written arguments ++ more)
      (explain_kind-unknown text k)
parse_explain-written json agent urls (url [] ∷ arguments) more (k, h) = elim k [ ]
parse_explain-written json agent urls (url (c ∷ text) ∷ arguments) more (k, h) =
    step-plain json agent urls (c ∷ text) (map written arguments ++ more)
      (explain_kind-plain c text k)
    ∙ parse_explain-written json agent (urls ++ (c ∷ text) ∷ []) arguments more h
    ∙ ap
        (λ us.
          stopped_or (stop_of arguments)
            (parse_explain (json || asks_json arguments) (agent_of agent arguments) us more))
        (append_assoc urls ((c ∷ text) ∷ []) (urls_of arguments))

ends :
    (json agent : Bool) (urls : List (List ℕ))
    → parse_explain json agent urls [] ≡ asked json agent urls
unfolding parse_explain
ends json agent urls = explain_urls-asked json agent urls

separates :
    (json agent : Bool) (urls raw : List (List ℕ))
    → parse_explain json agent urls (codes "--" ∷ raw) ≡ asked json agent (urls ++ raw)
unfolding parse_explain
separates json agent urls raw = explain_urls-asked json agent (urls ++ raw)

-- `explain` reads its arguments, each empty, an option, or a URL without a dash at its start, in any
-- order. The first request for help or unknown option decides. Otherwise it prints JSON where a flag
-- asks for it anywhere, the last flag of the agent decides, which is used by default, and the URLs
-- are the arguments that are no option, in their order, followed by all that comes after `--`,
-- whatever it looks like; with no URL the result is `missing_url`.
pub parse_cli_args-explain :
    (arguments : List Argument) (raw : List (List ℕ))
    → All IsWritten arguments
    → (parse_cli_args (codes "explain" ∷ map written arguments)
        ≡ stopped_or
            (stop_of arguments)
            (asked (asks_json arguments) (agent_of true arguments) (urls_of arguments)))
      × (parse_cli_args (codes "explain" ∷ map written arguments ++ codes "--" ∷ raw)
          ≡ stopped_or
              (stop_of arguments)
              (asked (asks_json arguments) (agent_of true arguments) (urls_of arguments ++ raw)))
unfolding parse_cli_args parse_command
parse_cli_args-explain arguments raw h = (
  ap (parse_explain false true []) (sym (append-nil (map written arguments)))
      ∙ parse_explain-written false true [] arguments [] h
      ∙ ap (stopped_or (stop_of arguments)) (ends _ _ _),
  parse_explain-written false true [] arguments (codes "--" ∷ raw) h
      ∙ ap (stopped_or (stop_of arguments)) (separates _ _ _ raw),
)

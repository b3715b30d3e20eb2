-- ===== src/Messages.antt =====
-- src/server/message-validation.ts: reading the fields of a message.
use command_relay.Common.{
  ℕ, String, Bool, true, false, ◌||◌, Option, none, some, List, map, if◌then◌else◌, ◌==◌, string_eq,
  list_eq, ℤ, JsNumber, finite,
}
use command_relay.Common.Text.{codes, trim, parse_int, lower_code}

-- A value of a parsed JSON object, as far as the program looks at it; `undefined` is a missing
-- field, and a number that is no integer counts as `not_finite`.
pub data Value : Type 0 where
  undefined null object : Value
  boolean : Bool → Value
  number : JsNumber → Value
  string : String → Value

unfoldable pub parse_non_empty_string : Value → Option String
unfolding trim
parse_non_empty_string (string s) = let t = trim s in if t == "" then none else some t
parse_non_empty_string _ = none

unfoldable pub parse_optional_int : Value → Option ℤ
unfolding trim parse_int
parse_optional_int (number (finite n)) = some n
parse_optional_int (string s) = if trim s == "" then none else parse_int s
parse_optional_int _ = none

abbrev lower : String → List ℕ
lower s = map lower_code (codes s)

abbrev is_word : List ℕ → String → Bool
is_word s word = s == codes word

unfoldable pub parse_optional_boolean : Value → Option Bool
unfolding trim lower_code
parse_optional_boolean (boolean b) = some b
parse_optional_boolean (string s) =
    let normalized = lower (trim s) in
    if trim s == ""
    then none
    else if is_word normalized "1"
        || is_word normalized "true"
        || is_word normalized "yes"
        || is_word normalized "on"
    then some true
    else if is_word normalized "0"
        || is_word normalized "false"
        || is_word normalized "no"
        || is_word normalized "off"
    then some false
    else none
parse_optional_boolean _ = none

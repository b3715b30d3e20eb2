-- ===== src/Examples/Wire.antt =====
-- The strict parser of packages/commandrelay-protocol/src/index.ts at work, on one message text.
use command_relay.Common.{
  ℕ, ◌≤◌, String, Bool, true, false, Option, none, some, ◌≡◌, ◌≢◌, ◌==◌, refl, subst, arith, pos,
  finite, string_eq,
}
use command_relay.Common.Text.{trim, trim_start, trim_end, is_space, byte_length, units}
use command_relay.Protocol.{
  max_v1_envelope_bytes, undefined, number, string, object, Fields, Parsed, is_record, accepted,
  is_request_id, is_printable, text_of, parse_message, envelope,
}
use command_relay.Protocol.Strict.{IsStrict, parse_message-IsStrict}
use command_relay.Protocol.Accepts.{fields_of, parse_message-envelope, parse_message-untrimmed}

-- Every text parses to an `auth` message with this request id.
abbrev parses_auth : Option String → String → Option (Parsed ℕ)
parses_auth id text = some (is_record (fields_of (envelope "auth" 7 id 1000)))

abbrev padded : Fields ℕ
padded = record {
  version = number (finite (pos 1));
  event_type = string " auth";
  request_id = undefined;
  timestamp = number (finite (pos 1000));
  payload = object 7;
}

short_text : byte_length "{}" ≤ max_v1_envelope_bytes
unfolding byte_length
short_text = omega arith

auth-trimmed : trim "auth" ≡ "auth"
unfolding trim trim_start trim_end is_space
auth-trimmed = refl

r1-valid : (id : String) → Path (Option String) (some "r1") (some id) → is_request_id id ≡ true
unfolding is_request_id is_printable trim trim_start trim_end is_space units
r1-valid id e = subst (λ o. valid_in o ≡ true) e refl
  where
    valid_in : Option String → Bool
    valid_in none = true
    valid_in (some s) = is_request_id s

parse_message-envelope_example :
    parse_message (parses_auth (some "r1")) 0 true 5 "{}"
    ≡ accepted (envelope "auth" 7 (some "r1") 1000)
parse_message-envelope_example =
    parse_message-envelope (parses_auth (some "r1")) 0 5 "{}" "auth" 7 (some "r1") 1000 refl
      short_text auth-trimmed refl (omega arith) r1-valid refl

parse_message-IsStrict_example :
    (byte_length "{}" ≤ max_v1_envelope_bytes)
    × ((f : Fields ℕ) × (raw_type : String) × (parses_auth (some "r1") "{}" ≡ some (is_record f))
        × (text_of f.event_type ≡ some raw_type)
        × IsStrict {P = ℕ} raw_type (envelope "auth" 7 (some "r1") 1000))
parse_message-IsStrict_example =
    parse_message-IsStrict (parses_auth (some "r1")) 0 5 "{}" (envelope "auth" 7 (some "r1") 1000)
      parse_message-envelope_example

padded-trim : trim " auth" ≡ "auth"
unfolding trim trim_start trim_end is_space
padded-trim = refl

padded-untrimmed : trim " auth" ≢ " auth"
unfolding trim trim_start trim_end is_space
padded-untrimmed e = subst (λ s. if_auth s) e tt
  where
    if_auth : String → Type 0
    if_auth s = elim (s == "auth") [ true ↦ Unit | false ↦ ⊥ ]

parse_message-untrimmed_example :
    parse_message (λ text. some (is_record padded)) 0 true 5 "{}"
    ≡ accepted (envelope (trim " auth") 7 none 1000)
unfolding trim trim_start trim_end is_space
parse_message-untrimmed_example =
    parse_message-untrimmed (λ text. some (is_record padded)) 0 5 "{}" " auth" 7 1000 refl
      short_text padded-untrimmed refl (omega arith)

-- ===== src/Protocol.antt =====
-- packages/commandrelay-protocol/src/index.ts: the envelopes of the wire protocol and their parser.
-- `JSON.parse` is an argument: it gives the fields of an object, something else, or throws. A
-- payload object is of any type `P`.
pub mod Strict
pub mod Accepts
use Prim.Native.Char.{Char, code}
use Prim.Native.String
use command_relay.Common.{
  ℕ, ◌*◌, ◌-◌, ◌^◌, String, Bool, true, false, not, ◌&&◌, ◌||◌, Option, none, some, List, [], ◌∷◌,
  ◌++◌, ltb, leb, if◌then◌else◌, ◌==◌, nat_eq, string_eq, contains, pos, JsNumber, finite, get_or,
}
use command_relay.Common.Text.{trim, byte_length, units}

abbrev pub protocol_v1 : ℕ
protocol_v1 = 1

abbrev pub required_event_types : List String
required_event_types =
    "auth" ∷ "list_sessions" ∷ "attach" ∷ "output" ∷ "input" ∷ "ack" ∷ "error" ∷ "heartbeat"
    ∷ "policy_update" ∷ []

abbrev pub runtime_event_types : List String
runtime_event_types =
    "detach" ∷ "enable_input" ∷ "disable_input" ∷ "disconnect" ∷ "hello" ∷ "session_list"
    ∷ "auth_ok" ∷ "auth_error" ∷ "heartbeat_ack" ∷ []

-- `V1_ALLOWED_TYPES`
abbrev pub allowed_types : List String
allowed_types = required_event_types ++ runtime_event_types

-- `V1_REQUEST_ID_REQUIRED_TYPES`
abbrev pub request_id_required_types : List String
request_id_required_types =
    "auth" ∷ "list_sessions" ∷ "attach" ∷ "detach" ∷ "enable_input" ∷ "disable_input" ∷ "disconnect"
    ∷ "input" ∷ "ack" ∷ "error" ∷ []

abbrev pub max_v1_envelope_bytes : ℕ
max_v1_envelope_bytes = 64 * 1024

abbrev pub request_id_max_length : ℕ
request_id_max_length = 128

-- The value of a field of a parsed object; a number that is no integer counts as `not_finite`.
pub data Json (P : Type 0) : Type 0 where
  undefined null array : Json P
  boolean : Bool → Json P
  number : JsNumber → Json P
  string : String → Json P
  object : P → Json P

pub record Fields (P : Type 0) : Type 0 where
  pub version : Json P
  pub event_type : Json P
  pub request_id : Json P
  pub timestamp : Json P
  pub payload : Json P

-- What `JSON.parse` gives, where it does not throw.
pub data Parsed (P : Type 0) : Type 0 where
  not_record : Parsed P
  is_record : Fields P → Parsed P

pub record Envelope (P : Type 0) : Type 0 where
  pub version : ℕ
  pub event_type : String
  pub request_id : Option String
  pub timestamp : ℕ
  pub payload : P

pub data ParseError : Type 0 where
  message_too_large invalid_json invalid_json_object missing_type invalid_type : ParseError
  invalid_version unsupported_type invalid_timestamp invalid_payload : ParseError
  invalid_request_id missing_request_id : ParseError

pub data ParseMessageResult (P : Type 0) : Type 0 where
  refused : ParseError → ParseMessageResult P
  accepted : Envelope P → ParseMessageResult P

-- `Number.isSafeInteger(x) && x >= 0`, as the number
abbrev pub safe_natural : {P : Type 0} → Json P → Option ℕ
safe_natural (number (finite (pos n))) = if leb n (2 ^ 53 - 1) then some n else none
safe_natural _ = none

abbrev pub is_v1 : {P : Type 0} → Json P → Bool
is_v1 (number (finite (pos n))) = n == protocol_v1
is_v1 _ = false

-- Every character is between a space and a tilde.
unfoldable pub is_printable : String → Bool
is_printable String.[] = true
is_printable (String.◌∷◌ c s) = not (ltb (code c) 32 || ltb 126 (code c)) && is_printable s

-- `validateRequestId` of a string
unfoldable pub is_request_id : String → Bool
unfolding is_printable
is_request_id s =
    not (ltb (units s) 1 || ltb request_id_max_length (units s)) && trim s == s && is_printable s

-- `validateRequestId`: `none` is an invalid id.
unfoldable pub validate_request_id : {P : Type 0} → Json P → Option (Option String)
unfolding is_request_id
validate_request_id undefined = some none
validate_request_id (string s) = if is_request_id s then some (some s) else none
validate_request_id _ = none

abbrev pub is_given : Option String → Bool
is_given none = false
is_given (some s) = not (s == "")

-- `isRecord` of the payload
abbrev pub payload_of : {P : Type 0} → Json P → Option P
payload_of (object p) = some p
payload_of _ = none

abbrev pub text_of : {P : Type 0} → Json P → Option String
text_of (string s) = some s
text_of _ = none

module _ {P : Type 0} where
  -- The last tests of `parseStrictV1`: timestamp, payload, request id. The request id is required
  -- by the type as it stands in the message.
  abbrev pub strict_fields :
      (raw_type parsed_type : String)
      → Option ℕ
      → Option P
      → Option (Option String)
      → ParseMessageResult P
  strict_fields raw_type parsed_type none payload id = refused invalid_timestamp
  strict_fields raw_type parsed_type (some timestamp) none id = refused invalid_payload
  strict_fields raw_type parsed_type (some timestamp) (some payload) none =
      refused invalid_request_id
  strict_fields raw_type parsed_type (some timestamp) (some payload) (some id) =
      if contains raw_type request_id_required_types && not (is_given id)
      then refused missing_request_id
      else accepted (record {
        version = protocol_v1;
        event_type = parsed_type;
        request_id = id;
        timestamp = timestamp;
        payload = payload;
      })

  unfoldable pub parse_strict_v1 : Fields P → (raw_type parsed_type : String) → ParseMessageResult P
  unfolding validate_request_id
  parse_strict_v1 f raw_type parsed_type =
      if is_v1 f.version
      then (if contains parsed_type allowed_types
          then strict_fields raw_type parsed_type (safe_natural f.timestamp) (payload_of f.payload)
              (validate_request_id f.request_id)
          else refused unsupported_type)
      else refused invalid_version

  -- The envelope of a message that is not parsed strictly: what is missing or wrong is filled in.
  abbrev pub loose_envelope : (empty : P) (now : ℕ) → Fields P → (parsed_type : String) → Envelope P
  loose_envelope empty now f parsed_type = record {
    version = protocol_v1;
    event_type = parsed_type;
    request_id = text_of f.request_id;
    timestamp = get_or (safe_natural f.timestamp) now;
    payload = get_or (payload_of f.payload) empty;
  }

  abbrev pub parse_typed :
      (empty : P) (strict : Bool) (now : ℕ) → Fields P → Option String → ParseMessageResult P
  parse_typed empty strict now f none = refused missing_type
  parse_typed empty strict now f (some type) =
      if trim type == ""
      then refused missing_type
      else if strict
      then parse_strict_v1 f type (trim type)
      else if type == trim type
      then accepted (loose_envelope empty now f (trim type))
      else refused invalid_type

  abbrev pub parse_fields :
      (empty : P) (strict : Bool) (now : ℕ) → Option (Parsed P) → ParseMessageResult P
  parse_fields empty strict now none = refused invalid_json
  parse_fields empty strict now (some not_record) = refused invalid_json_object
  parse_fields empty strict now (some (is_record f)) =
      parse_typed empty strict now f (text_of f.event_type)

  unfoldable pub parse_message :
      (json_parse : String → Option (Parsed P)) (empty : P) (strict : Bool) (now : ℕ)
      → String
      → ParseMessageResult P
  unfolding parse_strict_v1
  parse_message json_parse empty strict now raw =
      if strict && ltb max_v1_envelope_bytes (byte_length raw)
      then refused message_too_large
      else parse_fields empty strict now (json_parse raw)

  -- `envelope`, with the time that it reads
  abbrev pub envelope :
      (event_type : String) (payload : P) (request_id : Option String) (now : ℕ) → Envelope P
  envelope event_type payload request_id now = record {
    version = protocol_v1;
    event_type = event_type;
    request_id = request_id;
    timestamp = now;
    payload = payload;
  }

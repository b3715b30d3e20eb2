-- ===== src/Protocol/Strict.antt =====
-- What the strict parser of packages/commandrelay-protocol/src/index.ts accepts.
use command_relay.Common.{
  not, ℕ, ◌-◌, ◌^◌, ◌≤◌, String, Bool, true, false, ◌&&◌, Option, none, some, ltb, if◌then◌else◌,
  nat_eq, string_eq, contains, pos, finite, ◌≡◌, refl, ap, subst, arith, Bool-cases, inl, inr,
}
use mathlib.Core.Option.{some-injective}
use command_relay.Common.Text.{trim, byte_length}
use command_relay.Protocol.{
  allowed_types, request_id_required_types, max_v1_envelope_bytes, Json, undefined, number, string,
  Fields, Parsed, not_record, is_record, Envelope, ParseError, ParseMessageResult, refused,
  accepted, safe_natural, is_request_id, validate_request_id, is_given, payload_of, text_of,
  strict_fields, parse_strict_v1, parse_typed, parse_fields, parse_message,
}

-- What the parser promises of the envelope that it gives, where the type in the message was
-- `raw_type`.
pub record IsStrict {P : Type 0} (raw_type : String) (m : Envelope P) : Type 0 where
  pub versioned : m.version ≡ 1
  pub trimmed : m.event_type ≡ trim raw_type
  pub allowed : contains m.event_type allowed_types ≡ true
  pub safe_time : m.timestamp ≤ 2 ^ 53 - 1
  pub valid_id : (id : String) → m.request_id ≡ some id → is_request_id id ≡ true
  pub given_id : contains raw_type request_id_required_types ≡ true → is_given m.request_id ≡ true

accepted-injective :
    {P : Type 0} (a b : Envelope P) → Path (ParseMessageResult P) (accepted a) (accepted b) → a ≡ b
accepted-injective a b h = cc

-- A test of the parser that was passed.
passed_else :
    {P : Type 0} (b : Bool) (e : ParseError) (r : ParseMessageResult P) (m : Envelope P)
    → (if b then refused e else r) ≡ accepted m
    → (b ≡ false) × (r ≡ accepted m)
passed_else true e r m h = cc
passed_else false e r m h = (refl, h)

passed_then :
    {P : Type 0} (b : Bool) (e : ParseError) (r : ParseMessageResult P) (m : Envelope P)
    → (if b then r else refused e) ≡ accepted m
    → (b ≡ true) × (r ≡ accepted m)
passed_then true e r m h = (refl, h)
passed_then false e r m h = cc

not_over : (a b : ℕ) → (true && ltb a b) ≡ false → b ≤ a
not_over a b h = ground arith

given_of :
    (required given : Bool) → (required && not given) ≡ false → required ≡ true → given ≡ true
given_of required given h k = ground arith

safe_natural-le : {P : Type 0} (j : Json P) (n : ℕ) → safe_natural j ≡ some n → n ≤ 2 ^ 53 - 1
safe_natural-le (number (finite (pos k))) n h = ground arith
safe_natural-le _ n h = cc

validate_request_id-valid :
    {P : Type 0} (j : Json P) (id : String)
    → validate_request_id j ≡ some (some id)
    → is_request_id id ≡ true
unfolding validate_request_id
validate_request_id-valid undefined id h = cc
validate_request_id-valid (string s) id h = elim (Bool-cases (is_request_id s)) [
  | inl valid ↦
      subst (λ t. is_request_id t ≡ true)
        (some-injective s id (some-injective (some s) (some id) (ground arith))) valid
  | inr invalid ↦ ground (arith, invalid)
]
validate_request_id-valid _ id h = cc

module _ {P : Type 0} where
  strict_fields-IsStrict :
      (raw_type : String) (t : Option ℕ) (p : Option P) (i : Option (Option String))
      (m : Envelope P)
      → contains (trim raw_type) allowed_types ≡ true
      → ((n : ℕ) → t ≡ some n → n ≤ 2 ^ 53 - 1)
      → ((id : String) → i ≡ some (some id) → is_request_id id ≡ true)
      → strict_fields raw_type (trim raw_type) t p i ≡ accepted m
      → IsStrict raw_type m
  strict_fields-IsStrict r none p i m a f g h = cc
  strict_fields-IsStrict r (some t) none i m a f g h = cc
  strict_fields-IsStrict r (some t) (some p) none m a f g h = cc
  strict_fields-IsStrict r (some t) (some p) (some i) m a f g h =
      let (fine, same) = passed_else _ _ _ m h in
      subst (IsStrict r) (accepted-injective _ m same) (record {
        versioned = refl;
        trimmed = refl;
        allowed = a;
        safe_time = f t refl;
        valid_id = λ id e. g id (ap some e);
        given_id = λ k. given_of _ _ fine k;
      })

  parse_typed-IsStrict :
      (empty : P) (now : ℕ) (f : Fields P) (o : Option String) (m : Envelope P)
      → parse_typed empty true now f o ≡ accepted m
      → (raw_type : String) × (o ≡ some raw_type) × IsStrict raw_type m
  unfolding parse_strict_v1
  parse_typed-IsStrict empty now f none m h = cc
  parse_typed-IsStrict empty now f (some type) m h =
      let (_, strict) = passed_else _ _ _ m h in
      let (_, versioned) = passed_then _ _ _ m strict in
      let (allowed, rest) = passed_then _ _ _ m versioned in
      (
        type,
        refl,
        strict_fields-IsStrict type (safe_natural f.timestamp) (payload_of f.payload)
            (validate_request_id f.request_id) m allowed (λ n e. safe_natural-le f.timestamp n e)
            (λ id e. validate_request_id-valid f.request_id id e) rest,
      )

  parse_fields-IsStrict :
      (empty : P) (now : ℕ) (o : Option (Parsed P)) (m : Envelope P)
      → parse_fields empty true now o ≡ accepted m
      → (f : Fields P) × (raw_type : String) × (o ≡ some (is_record f))
        × (text_of f.event_type ≡ some raw_type)
        × IsStrict raw_type m
  parse_fields-IsStrict empty now none m h = cc
  parse_fields-IsStrict empty now (some not_record) m h = cc
  parse_fields-IsStrict empty now (some (is_record f)) m h =
      let (raw_type, e, k) = parse_typed-IsStrict empty now f (text_of f.event_type) m h in
      (f, raw_type, refl, e, k)

  module _ (json_parse : String → Option (Parsed P)) (empty : P) (now : ℕ) (raw : String) where
    -- An envelope that strict parsing gives has version 1, an allowed type without white space
    -- around it, a time that is a safe integer, and a valid request id where it has one. It has one
    -- if the type as it stands in the message requires one. The message has at most 64 KiB.
    pub parse_message-IsStrict :
        (m : Envelope P)
        → parse_message json_parse empty true now raw ≡ accepted m
        → (byte_length raw ≤ max_v1_envelope_bytes)
          × ((f : Fields P) × (raw_type : String) × (json_parse raw ≡ some (is_record f))
              × (text_of f.event_type ≡ some raw_type)
              × IsStrict raw_type m)
    unfolding parse_message
    parse_message-IsStrict m h =
        let (small, rest) = passed_else _ _ _ m h in
        (not_over _ _ small, parse_fields-IsStrict empty now (json_parse raw) m rest)

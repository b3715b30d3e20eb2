-- ===== src/Protocol/Accepts.antt =====
-- What the strict parser of packages/commandrelay-protocol/src/index.ts cannot refuse.
use command_relay.Common.{
  ℕ, ◌-◌, ◌^◌, ◌≤◌, String, true, false, not, ◌&&◌, Option, none, some, List, [], ◌∷◌, ltb, leb,
  ◌==◌, nat_eq, string_eq, eq_iff, contains, pos, finite, ◌≡◌, ◌≢◌, refl, subst, arith, All,
  Bool-cases, inl, inr,
}
use command_relay.Common.Text.{trim, trim_start, trim_end, is_space, byte_length}
use command_relay.Protocol.{
  allowed_types, request_id_required_types, max_v1_envelope_bytes, Json, undefined, number, string,
  object, Fields, Parsed, is_record, Envelope, accepted, is_request_id, validate_request_id,
  is_given, parse_strict_v1, parse_message, envelope,
}

abbrev id_field : {P : Type 0} → Option String → Json P
id_field none = undefined
id_field (some id) = string id

-- The fields of an envelope, where `undefined` ones are not written.
abbrev pub fields_of : {P : Type 0} → Envelope P → Fields P
fields_of m = record {
  version = number (finite (pos m.version));
  event_type = string m.event_type;
  request_id = id_field m.request_id;
  timestamp = number (finite (pos m.timestamp));
  payload = object m.payload;
}

validate-id_field :
    (P : Type 0) (o : Option String)
    → ((id : String) → o ≡ some id → is_request_id id ≡ true)
    → validate_request_id {P = P} (id_field o) ≡ some o
unfolding validate_request_id
validate-id_field P none h = refl
validate-id_field P (some id) h = rw (h id refl) refl

ltb-le : (a b : ℕ) → b ≤ a → ltb a b ≡ false
ltb-le a b h = ground arith

leb-le : (a b : ℕ) → a ≤ b → leb a b ≡ true
leb-le a b h = ground arith

-- An allowed type is not empty.
allowed-not_blank : (s : String) → contains s allowed_types ≡ true → (s == "") ≡ false
allowed-not_blank s h = elim (Bool-cases (s == "")) [
  | inl blank ↦
      absurd
        (true_is_not_false (subst (λ t. contains t allowed_types ≡ true) ((eq_iff s "").0 blank) h))
  | inr fine ↦ fine
]
  where
    true_is_not_false : contains "" allowed_types ≡ true → ⊥
    true_is_not_false e = cc

module _ {P : Type 0} (json_parse : String → Option (Parsed P)) (empty : P) (now : ℕ)
    (raw : String) where
  -- A message that holds the fields of an envelope that `envelope` built, and is not too long,
  -- parses to that envelope, if its type is allowed and trimmed, its time is a safe integer, and
  -- its request id is valid, and given where the type requires one.
  pub parse_message-envelope :
      (event_type : String) (payload : P) (request_id : Option String) (time : ℕ)
      → json_parse raw ≡ some (is_record (fields_of (envelope event_type payload request_id time)))
      → byte_length raw ≤ max_v1_envelope_bytes
      → trim event_type ≡ event_type
      → contains event_type allowed_types ≡ true
      → time ≤ 2 ^ 53 - 1
      → ((id : String) → request_id ≡ some id → is_request_id id ≡ true)
      → (contains event_type request_id_required_types && not (is_given request_id)) ≡ false
      → parse_message json_parse empty true now raw
        ≡ accepted (envelope event_type payload request_id time)
  unfolding parse_message parse_strict_v1
  parse_message-envelope event_type payload request_id time parsed small trimmed allowed safe valid
        given =
      rw (parsed, trimmed, allowed, validate-id_field P request_id valid)
        (simp
          (
            ltb-le max_v1_envelope_bytes (byte_length raw) small,
            allowed-not_blank event_type allowed,
            leb-le time (2 ^ 53 - 1) safe,
            given,
          )
          refl)

-- Every type that requires a request id is written without white space around it.
required-trimmed :
    (s : String) (types : List String)
    → All (λ t. trim t ≡ t) types
    → contains s types ≡ true
    → trim s ≡ s
required-trimmed s [] a h = cc
required-trimmed s (t ∷ types) (e, a) h = elim (Bool-cases (t == s)) [
  | inl same ↦ subst (λ u. trim u ≡ u) ((eq_iff t s).0 same) e
  | inr other ↦ required-trimmed s types a (ground arith)
]

required_types-trimmed : All (λ t. trim t ≡ t) request_id_required_types
unfolding trim trim_start trim_end is_space
required_types-trimmed =
    (refl, (refl, (refl, (refl, (refl, (refl, (refl, (refl, (refl, (refl, tt))))))))))

untrimmed-not_required : (s : String) → trim s ≢ s → contains s request_id_required_types ≡ false
untrimmed-not_required s h = elim (Bool-cases (contains s request_id_required_types)) [
  | inl required ↦
      absurd (h (required-trimmed s request_id_required_types required_types-trimmed required))
  | inr fine ↦ fine
]

module _ {P : Type 0} (json_parse : String → Option (Parsed P)) (empty : P) (now : ℕ)
    (raw : String) where
  -- White space around the type lifts the requirement of a request id: a message whose type is
  -- allowed but written with white space around it is accepted without a request id, whether or not
  -- the type requires one, if its other fields are fine.
  pub parse_message-untrimmed :
      (raw_type : String) (payload : P) (time : ℕ)
      → json_parse raw
        ≡ some (
            is_record (record {
              version = number (finite (pos 1));
              event_type = string raw_type;
              request_id = undefined;
              timestamp = number (finite (pos time));
              payload = object payload;
            }))
      → byte_length raw ≤ max_v1_envelope_bytes
      → trim raw_type ≢ raw_type
      → contains (trim raw_type) allowed_types ≡ true
      → time ≤ 2 ^ 53 - 1
      → parse_message json_parse empty true now raw
        ≡ accepted (envelope (trim raw_type) payload none time)
  unfolding parse_message parse_strict_v1 validate_request_id
  parse_message-untrimmed raw_type payload time parsed small untrimmed allowed safe = rw parsed (
      simp
        (
          ltb-le max_v1_envelope_bytes (byte_length raw) small,
          allowed,
          allowed-not_blank (trim raw_type) allowed,
          leb-le time (2 ^ 53 - 1) safe,
          untrimmed-not_required raw_type untrimmed,
        )
        refl)

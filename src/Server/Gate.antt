-- ===== src/Server/Gate.antt =====
-- When a message reaches the terminal: the guards of `handleClientMessage` on `tmux.sendInput`.
use command_relay.Common.{
  ◌≤◌, String, Bool, true, false, not, ◌&&◌, Option, none, some, List, [], ◌∷◌, ◌++◌, ltb,
  if◌then◌else◌, ◌≡◌, ◌≢◌, ◌↔◌, ◌==◌, refl, ap, arith, contains, string_eq, eq_iff, Option-cases,
  Bool-cases, inl, inr, length,
}
use command_relay.Common.Text.{byte_length}
use command_relay.Messages.{parse_non_empty_string}
use command_relay.InputPolicy.{is_input_allowed}
use command_relay.Ownership.{ClaimResult, claimed, refused}
use command_relay.Ownership.State.{OwnershipState, claim_pane_input_ownership}
use command_relay.RateLimiter.{consume}
use command_relay.Server.Effects.{Effect}
use command_relay.Server.Handler.{Config, MessageType, input, Payload, Context, Environment}
use command_relay.Server.Input.{
  text_of, override_requested, takeover_audit, after_claim, input_to, handle_input,
}
use command_relay.Server.Quiet.{typed, typed-handle_case_quiet}
use command_relay.Server.Dispatch.{handle_case, handle_client_message}

abbrev pub grants : Option ClaimResult → Bool
grants (some (refused _ _)) = false
grants _ = true

typed-takeover_audit :
    (p : String) (r : Option ClaimResult) (rest : List Effect)
    → typed (takeover_audit p r ++ rest) ≡ typed rest
typed-takeover_audit p (some (claimed true)) rest = refl
typed-takeover_audit p (some (claimed false)) rest = refl
typed-takeover_audit p (some (refused o b)) rest = refl
typed-takeover_audit p none rest = refl

-- What must hold for a text to be typed into a pane on behalf of a client.
pub record MayType (config : Config) (payload : Payload) (env : Environment) (c : Context)
    (pane_id text : String) : Type 0 where
  pub authenticated : c.client.authenticated ≡ true
  pub enabled : c.client.input_enabled ≡ true
  pub not_killed : config.global_input_disabled ≡ false
  pub within_rate : (consume c.client.id env.limiter_now c.input_limiter).1.allowed ≡ true
  pub named : parse_non_empty_string payload.pane_id ≡ some pane_id
  pub same_text : text_of payload.input_text ≡ text
  pub not_empty : text ≢ ""
  pub attached : contains pane_id c.client.attached_panes ≡ true
  pub fits : byte_length text ≤ config.max_input_bytes
  pub lane_granted :
      grants
        (claim_pane_input_ownership pane_id c.client.id
          (override_requested payload)
          config.allow_input_ownership_override
          env.lanes_now
          env.lanes_later
          c.lanes).1
      ≡ true

module _ (config : Config) (payload : Payload) (env : Environment) (c : Context) where
  typed-after_claim :
      (p t : String) (d : Context) (r : Option ClaimResult)
      → typed (after_claim config p t env d r).effects ≡ (if grants r then (p, t) ∷ [] else [])
  unfolding after_claim
  typed-after_claim p t d none = ground arith
  typed-after_claim p t d (some (refused o b)) = refl
  typed-after_claim p t d (some (claimed true)) = ground arith
  typed-after_claim p t d (some (claimed false)) = ground arith

  abbrev claim_of : String → Context → OwnershipState × Option ClaimResult
  claim_of p d =
      claim_pane_input_ownership p d.client.id (override_requested payload)
        config.allow_input_ownership_override env.lanes_now env.lanes_later d.lanes

  -- What `input_to` types, as a chain of its tests.
  abbrev typed_if : String → String → Context → List (String × String)
  typed_if q t d =
      if t == ""
      then []
      else if contains q d.client.attached_panes
      then (if ltb config.max_input_bytes (byte_length t)
          then []
          else if grants (claim_of q d).1
          then (q, t) ∷ []
          else [])
      else []

  typed-input_to-eq :
      (q : String) (d : Context)
      → typed (input_to config q payload env d).effects ≡ typed_if q (text_of payload.input_text) d
  unfolding input_to
  typed-input_to-eq q d = ground (
    arith,
    typed-after_claim q (text_of payload.input_text) (record d { lanes = (claim_of q d).0 })
        (claim_of q d).1,
  )

  typed_if_iff :
      (q p s t : String) (d : Context)
      → (typed_if q s d ≡ (p, t) ∷ []) ↔ (
          (q ≡ p)
          × (s ≡ t)
          × (t ≢ "")
          × (contains p d.client.attached_panes ≡ true)
          × (byte_length t ≤ config.max_input_bytes)
          × (grants (claim_of p d).1 ≡ true))
  typed_if_iff q p s t d = (λ h. ground (arith, eq_iff s ""), λ h. ground (arith, eq_iff s ""))

  length-typed_if : (q s : String) (d : Context) → length (typed_if q s d) ≤ 1
  length-typed_if q s d = ground arith

  abbrev typed_named : Option String → Context → List (String × String)
  typed_named none d = []
  typed_named (some q) d = typed_if q (text_of payload.input_text) d

  typed-handle_input-eq : typed (handle_input config payload env c).effects ≡ (
      if (consume c.client.id env.limiter_now c.input_limiter).1.allowed
      then (if c.client.input_enabled && not config.global_input_disabled
          then typed_named (parse_non_empty_string payload.pane_id) c
          else [])
      else [])
  unfolding handle_input is_input_allowed
  typed-handle_input-eq = elim (Option-cases (parse_non_empty_string payload.pane_id)) [
    | inl h ↦ rw (h, handle_input) (ground arith)
    | inr (q, h) ↦
        rw (h, handle_input)
          (ground (
            arith,
            typed-input_to-eq q (record c {
              input_limiter = (consume c.client.id env.limiter_now c.input_limiter).0;
            }),
          ))
  ]

  typed_named_iff :
      (o : Option String) (p t : String)
      → (typed_named o c ≡ (p, t) ∷ []) ↔ (
          (o ≡ some p)
          × (text_of payload.input_text ≡ t)
          × (t ≢ "")
          × (contains p c.client.attached_panes ≡ true)
          × (byte_length t ≤ config.max_input_bytes)
          × (grants (claim_of p c).1 ≡ true))
  typed_named_iff none p t = (λ h. cc, λ h. cc)
  typed_named_iff (some q) p t =
      let (to, from) = typed_if_iff q p (text_of payload.input_text) t c in
      (
        λ h. let (a, b, d, e, f, g) = to h in (ap some a, b, d, e, f, g),
        λ (a, b, d, e, f, g). from (cc a, b, d, e, f, g),
      )

  handle_input_iff :
      (p t : String)
      → c.client.authenticated ≡ true
      → (typed (handle_input config payload env c).effects ≡ (p, t) ∷ [])
        ↔ MayType config payload env c p t
  handle_input_iff p t known =
      let (to, from) = typed_named_iff (parse_non_empty_string payload.pane_id) p t in
      rw typed-handle_input-eq (
        λ h.
            let k = to (ground arith) in
            record {
              authenticated = known;
              enabled = ground arith;
              not_killed = ground arith;
              within_rate = ground arith;
              named = k.0;
              same_text = k.1;
              not_empty = k.2;
              attached = k.3;
              fits = k.4;
              lane_granted = k.5;
            },
        λ h.
            let k = from (h.named, h.same_text, h.not_empty, h.attached, h.fits, h.lane_granted) in
            simp (h.within_rate, h.enabled, h.not_killed) k,
      )

  length-typed-handle_input : length (typed (handle_input config payload env c).effects) ≤ 1
  length-typed-handle_input =
      rw typed-handle_input-eq (elim (Option-cases (parse_non_empty_string payload.pane_id)) [
        | inl h ↦ rw h (ground arith)
        | inr (q, h) ↦ rw h (ground (arith, length-typed_if q (text_of payload.input_text) c))
      ])

module _ (config : Config) (payload : Payload) (env : Environment) (c : Context) where
  typed-quiet :
      (type : MessageType)
      → type ≢ input
      → typed (handle_client_message config type payload env c).effects ≡ []
  unfolding handle_client_message
  typed-quiet type h = ground (arith, typed-handle_case_quiet config payload env c type h)

  gate-quiet :
      (type : MessageType) (p t : String)
      → type ≢ input
      → ((typed (handle_client_message config type payload env c).effects ≡ (p, t) ∷ [])
          ↔ ((type ≡ input) × MayType config payload env c p t))
        × (length (typed (handle_client_message config type payload env c).effects) ≤ 1)
  gate-quiet type p t h = rw (typed-quiet type h) ((λ k. cc, λ k. absurd (h k.0)), omega arith)

  gate-input :
      (p t : String)
      → ((typed (handle_client_message config input payload env c).effects ≡ (p, t) ∷ [])
          ↔ ((input ≡ input) × MayType config payload env c p t))
        × (length (typed (handle_client_message config input payload env c).effects) ≤ 1)
  unfolding handle_client_message handle_case
  gate-input p t = elim (Bool-cases c.client.authenticated) [
    | inl known ↦
        let (to, from) = handle_input_iff config payload env c p t known in
        simp known
          ((λ k. (refl, to k), λ k. from k.1), length-typed-handle_input config payload env c)
    | inr stranger ↦ simp stranger ((λ k. cc, λ k. cc (stranger, k.1.authenticated)), omega arith)
  ]

-- A message has a text typed into a pane exactly when it is an `input` message of an authenticated
-- client that meets every guard: input is enabled and not switched off globally, the rate limit
-- allows it, the pane is named and attached, the text is not empty and not too long, and the claim
-- of the pane's lane is not refused. No message types more than once.
pub gate_iff :
    (config : Config) (type : MessageType) (payload : Payload) (env : Environment) (c : Context)
    (p t : String)
    → ((typed (handle_client_message config type payload env c).effects ≡ (p, t) ∷ [])
        ↔ ((type ≡ input) × MayType config payload env c p t))
      × (length (typed (handle_client_message config type payload env c).effects) ≤ 1)
gate_iff config input payload env c p t = gate-input config payload env c p t
gate_iff config _ payload env c p t = gate-quiet config payload env c _ p t (λ e. cc)

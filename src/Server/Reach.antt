-- ===== src/Server/Reach.antt =====
-- Every sequence of connections, messages and closes that src/server/bridge-server.ts may serve.
use mathlib.Core.Path.{subst₂}
use command_relay.Common.{
  ◌⊎◌, ℕ, ◌≤◌, String, true, some, List, [], ◌∷◌, ◌++◌, length, ◌≡◌, ◌≢◌, ◌==◌, refl, ap, ◌∙◌,
  arith, string_eq, eq_iff, Option-cases, Bool-cases, inl, inr,
}
use command_relay.Common.Assoc.{get, set, get-set, get-delete}
use command_relay.RateLimiter.{consume}
use command_relay.Server.Effects.{Effect, types, sends}
use command_relay.Server.Handler.{
  message_type, Config, ClientState, MessageType, Payload, Context, Environment,
}
use command_relay.Protocol.{ParseMessageResult, refused, accepted}
use command_relay.Server.Dispatch.{handle_client_message, handle_parsed}
use command_relay.Server.Quiet.{typed}
use command_relay.Server.Gate.{gate_iff}
use command_relay.Server.Client.{IsWithinPolicy, message-IsWithinPolicy}
use command_relay.Server.{
  Bridge, new_client, on_connection, context_of, caught, store, on_message, on_close,
}

pub data Call : Type 0 where
  connects : (id : String) → Call
  messages : (id : String) (now : ℕ) → ParseMessageResult Payload → Environment → Call
  closes : (id : String) (lanes_now : ℕ) → Call

unfoldable pub step : Config → Call → Bridge → Bridge × List Effect
step config (connects id) b = (on_connection config id b, [])
step config (messages id now r env) b = on_message config id now r env b
step config (closes id lanes_now) b = (on_close config id lanes_now b, [])

unfoldable pub run : Config → List Call → Bridge → Bridge × List Effect
unfolding step
run config [] b = (b, [])
run config (k ∷ ks) b =
    let (b', es) = step config k b in let (b'', later) = run config ks b' in (b'', es ++ later)

abbrev pub AllWithinPolicy : Config → Bridge → Type 0
AllWithinPolicy config b =
    (id : String) (client : ClientState)
    → get id b.clients ≡ some client
    → IsWithinPolicy config client × (client.id ≡ id)

abbrev Fits : Config → String → ClientState → Type 0
Fits config id client = IsWithinPolicy config client × (client.id ≡ id)

get-set_cases :
    (id j : String) (new x : ClientState) (m : List (String × ClientState))
    → get j (set id new m) ≡ some x
    → ((id ≡ j) × (new ≡ x)) ⊎ (get j m ≡ some x)
get-set_cases id j new x m e = elim (Bool-cases (id == j)) [
  | inl same ↦ inl ((eq_iff id j).0 same, ground (arith, get-set id j new m))
  | inr other ↦ inr (ground (arith, get-set id j new m))
]

set-Fits :
    (config : Config) (id : String) (new : ClientState) (m : List (String × ClientState))
    → ((j : String) (x : ClientState) → get j m ≡ some x → Fits config j x)
    → Fits config id new
    → (j : String) (x : ClientState) → get j (set id new m) ≡ some x
    → Fits config j x
set-Fits config id new m h k j x e = elim (get-set_cases id j new x m e) [
  | inl (same, it) ↦ subst₂ (λ i y. Fits config i y) same it k
  | inr old ↦ h j x old
]

module _ (config : Config) where
  connection-AllWithinPolicy :
      (id : String) (b : Bridge)
      → AllWithinPolicy config b
      → AllWithinPolicy config (on_connection config id b)
  unfolding on_connection new_client
  connection-AllWithinPolicy id b h =
      set-Fits config id (new_client config id) b.clients h
        (record { kill_switch = λ e. cc; panes = omega arith }, refl)

  close-AllWithinPolicy :
      (id : String) (now : ℕ) (b : Bridge)
      → AllWithinPolicy config b
      → AllWithinPolicy config (on_close config id now b)
  unfolding on_close
  close-AllWithinPolicy id now b h j client e =
      h j client (ground (arith, get-delete id j b.clients))

  store-AllWithinPolicy :
      (id : String) (c : Context) (b : Bridge)
      → AllWithinPolicy config b
      → IsWithinPolicy config c.client
      → c.client.id ≡ id
      → AllWithinPolicy config (store config id c b)
  unfolding store
  store-AllWithinPolicy id c b h k s = set-Fits config id c.client b.clients h (k, s)

  -- A frame, parsed or not, keeps its client within policy.
  parsed-IsWithinPolicy :
      (r : ParseMessageResult Payload) (env : Environment) (c : Context)
      → IsWithinPolicy config c.client
      → IsWithinPolicy config (handle_parsed config r env c).context.client
        × ((handle_parsed config r env c).context.client.id ≡ c.client.id)
  parsed-IsWithinPolicy (refused e) env c h = (h, refl)
  parsed-IsWithinPolicy (accepted m) env c h =
      message-IsWithinPolicy config m.payload env c (message_type m.event_type) h

  message-AllWithinPolicy :
      (id : String) (now : ℕ) (r : ParseMessageResult Payload) (env : Environment) (b : Bridge)
      → AllWithinPolicy config b
      → AllWithinPolicy config (on_message config id now r env b).0
  unfolding on_message
  message-AllWithinPolicy id now r env b h = elim (Option-cases (get id b.clients)) [
    | inl e ↦ rw (e, on_message) h
    | inr (client, e) ↦
        let (fits, same) = h id client e in
        let (kept, id_kept) = parsed-IsWithinPolicy r env (context_of config b client) fits in
        rw (e, on_message)
          (elim (Bool-cases (consume id now b.message_limiter).1.allowed) [
            | inl allowed ↦ simp allowed (
                store-AllWithinPolicy id
                  (handle_parsed config r env (context_of config b client)).context
                  (record b { message_limiter = (consume id now b.message_limiter).0 }) h kept
                  (id_kept ∙ same))
            | inr limited ↦ simp limited h
          ])
  ]

  step-AllWithinPolicy :
      (k : Call) (b : Bridge)
      → AllWithinPolicy config b
      → AllWithinPolicy config (step config k b).0
  unfolding step
  step-AllWithinPolicy (connects id) b h = connection-AllWithinPolicy id b h
  step-AllWithinPolicy (messages id now r env) b h = message-AllWithinPolicy id now r env b h
  step-AllWithinPolicy (closes id now) b h = close-AllWithinPolicy id now b h

  -- Whatever clients connect, send and leave, every connected client stays within policy and is
  -- stored under its own id.
  pub run-AllWithinPolicy :
      (ks : List Call) (b : Bridge)
      → AllWithinPolicy config b
      → AllWithinPolicy config (run config ks b).0
  unfolding run
  run-AllWithinPolicy [] b h = h
  run-AllWithinPolicy (k ∷ ks) b h =
      run-AllWithinPolicy ks (step config k b).0 (step-AllWithinPolicy k b h)

typed-append : (xs ys : List Effect) → typed (xs ++ ys) ≡ typed xs ++ typed ys
typed-append [] ys = refl
typed-append (types p t ∷ xs) ys = ap (λ l. (p, t) ∷ l) (typed-append xs ys)
typed-append (sends r ∷ xs) ys = typed-append xs ys
typed-append (_ ∷ xs) ys = typed-append xs ys

-- A list of at most one entry that is no single entry is empty.
empty_of_no_single :
    (l : List (String × String)) → length l ≤ 1 → ((p t : String) → l ≢ (p, t) ∷ []) → l ≡ []
empty_of_no_single [] h k = refl
empty_of_no_single ((p, t) ∷ []) h k = absurd (k p t refl)
empty_of_no_single (x ∷ y ∷ l) h k = absurd (omega arith)

module _ (config : Config) (killed : config.global_input_disabled ≡ true) where
  typed-message_killed :
      (type : MessageType) (payload : Payload) (env : Environment) (c : Context)
      → typed (handle_client_message config type payload env c).effects ≡ []
  typed-message_killed type payload env c =
      empty_of_no_single _ (gate_iff config type payload env c "" "").1
        λ p t e. cc (killed, ((gate_iff config type payload env c p t).0.0 e).1.not_killed)

  typed-parsed_killed :
      (r : ParseMessageResult Payload) (env : Environment) (c : Context)
      → typed (handle_parsed config r env c).effects ≡ []
  typed-parsed_killed (refused e) env c = refl
  typed-parsed_killed (accepted m) env c =
      typed-message_killed (message_type m.event_type) m.payload env c

  typed-on_message_killed :
      (id : String) (now : ℕ) (r : ParseMessageResult Payload) (env : Environment) (b : Bridge)
      → typed (on_message config id now r env b).1 ≡ []
  unfolding on_message
  typed-on_message_killed id now r env b = elim (Option-cases (get id b.clients)) [
    | inl e ↦ rw (e, on_message)
    | inr (client, e) ↦
        rw (e, on_message)
          (ground (
            arith,
            typed-parsed_killed r env (context_of config b client),
            typed-append (handle_parsed config r env (context_of config b client)).effects
                (caught config (handle_parsed config r env (context_of config b client)).threw),
          ))
  ]

  -- Under the global kill switch nothing is ever typed, whatever clients connect and send.
  pub run-typed_killed : (ks : List Call) (b : Bridge) → typed (run config ks b).1 ≡ []
  unfolding run step
  run-typed_killed [] b = refl
  run-typed_killed (connects id ∷ ks) b = run-typed_killed ks (on_connection config id b)
  run-typed_killed (messages id now r env ∷ ks) b =
      rw (typed-append (on_message config id now r env b).1, typed-on_message_killed id now r env b)
        (run-typed_killed ks (on_message config id now r env b).0)
  run-typed_killed (closes id now ∷ ks) b = run-typed_killed ks (on_close config id now b)

-- ===== src/Server/Failures.antt =====
-- What the `attach` case of src/server/bridge-server.ts leaves behind when the capture fails.
use command_relay.Common.{
  String, true, false, not, ◌&&◌, Option, none, some, length, leb, string_eq, nat_eq, eq_iff,
  contains, contains-add, ◌≡◌, refl, ap, ◌∙◌, arith, JsNumber, finite,
}
use mathlib.Core.Option
use command_relay.Common.Assoc.{get}
use command_relay.Messages.{parse_non_empty_string, parse_optional_int}
use command_relay.Engine.{
  Engine, failed, subscribe, attach, attach_start, attach_watcher, attach_finish,
}
use command_relay.Server.Handler.{
  ClientState, Config, attach_pane, Payload, Context, Environment, attach_reply, attach_to,
  handle_attach,
}
use command_relay.Server.Dispatch.{handle_case, handle_client_message}
use command_relay.Server.Client.{client-attach_to}

-- The engine throws when the first capture of a pane fails.
attach-failed :
    (c p : String) (since : Option JsNumber) (e : Engine)
    → get p e.panes ≡ none
    → (attach c p since failed e).1 ≡ none
unfolding attach attach_start subscribe attach_watcher attach_finish
attach-failed c p since e h = rw (attach, attach_start, subscribe, h) (ground arith)

module _ (config : Config) (payload : Payload) (env : Environment) (c : Context)
    (known : c.client.authenticated ≡ true) where
  attach_to-threw :
      (p : String)
      → get p c.engine.panes ≡ none
      → env.capture ≡ failed
      → (attach_to config p payload env c).threw ≡ true
  unfolding attach_to attach_reply
  attach_to-threw p unwatched fails =
      rw
        (
          fails,
          attach-failed c.client.id p (Option.map finite (parse_optional_int payload.last_seq))
              c.engine unwatched,
        )
        refl

  -- An `attach` by an authenticated client of a pane that nobody watches, named and with room for it, throws when the capture
  -- fails, and leaves the pane among the client's attached panes.
  pub failed_attach-attached :
      (p : String)
      → parse_non_empty_string payload.pane_id ≡ some p
      → (not (contains p c.client.attached_panes)
          && leb config.max_attached_panes (length c.client.attached_panes))
        ≡ false
      → get p c.engine.panes ≡ none
      → env.capture ≡ failed
      → ((handle_client_message config attach_pane payload env c).threw ≡ true)
        × (contains p
              (handle_client_message config attach_pane payload env c).context.client.attached_panes
            ≡ true)
  unfolding handle_client_message handle_case handle_attach
  failed_attach-attached p named room unwatched fails = simp known (
      rw (named, handle_attach)
        (simp room (
          attach_to-threw p unwatched fails,
          ap (λ (x : ClientState). contains p x.attached_panes)
                (client-attach_to config payload env c p)
              ∙ ground (arith, contains-add p p c.client.attached_panes, eq_iff p p),
        )))

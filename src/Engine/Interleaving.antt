-- ===== src/Engine/Interleaving.antt =====
-- All interleavings of the engine's methods. Between the part of `attach` or `pollOnce` before an
-- `await` and the part after it, any other call may run.
use command_relay.Common.{
  ℕ, zero, suc, ◌<◌, String, Option, none, some, List, [], ◌∷◌, ◌++◌, map, ◌≡◌, refl, arith,
  JsNumber, pos,
}
use mathlib.Core.List.{foldl}
use command_relay.Engine.Watcher.{resume}
use command_relay.Engine.Delta.{apply_event}
use command_relay.Engine.History.{IsConsecutive}
use command_relay.Engine.Resume.{resume-screen}
use command_relay.Engine.{
  Engine, Output, on_output, Capture, create_engine, Attached, returned, awaits, attach_start,
  attach_finish, detach, detach_all, poll_start, poll_round, poll_stop,
}
use command_relay.Engine.Extends.{
  AllConsecutive, Extends, Extends-refl, Extends-trans, attach_start-Extends, attach_finish-Extends,
  detach-Extends, detach_all-Extends, poll_start-Extends, poll_round-Extends, poll_stop-Extends,
}

-- An `attach` that waits for its capture.
pub record Pending : Type 0 where
  pub client_id : String
  pub pane_id : String
  pub since_seq : Option JsNumber
  pub ref : ℕ

-- The engine, the attaches that wait, and the entries that a running poll has still to visit.
pub record World : Type 0 where
  pub engine : Engine
  pub pending : List Pending
  pub polling : List (String × ℕ)

abbrev pub new_world : Option ℕ → World
new_world m = record { engine = create_engine m; pending = []; polling = [] }

pub data Action : Type 0 where
  attaches : (client_id pane_id : String) → Option JsNumber → Action
  -- the capture of the waiting attach at that place arrives
  attach_captures : ℕ → Capture → Action
  detaches : (client_id pane_id : String) → Action
  detaches_all : (client_id : String) → Action
  polls : Action
  -- the capture that the running poll waits for arrives
  poll_captures : Capture → Action

abbrev pick : ℕ → List Pending → Option (Pending × List Pending)
pick i [] = none
pick zero (p ∷ ps) = some (p, ps)
pick (suc i) (p ∷ ps) = elim (pick i ps) [ none ↦ none | some (q, rest) ↦ some (q, p ∷ rest) ]

-- What an `attach` has sent, by whether it has returned.
abbrev outputs_of : String → Attached → List Output
outputs_of client_id (returned events _) = map (on_output client_id) events
outputs_of client_id (awaits _) = []

abbrev wait :
    (client_id pane_id : String) → Option JsNumber → Attached → List Pending → List Pending
wait client_id pane_id since (returned _ _) ps = ps
wait client_id pane_id since (awaits ref) ps =
    ps ++ record { client_id = client_id; pane_id = pane_id; since_seq = since; ref = ref } ∷ []

finish : World → Capture → Option (Pending × List Pending) → World × List Output
finish w capture none = (w, [])
finish w capture (some (p, rest)) =
    let (e, r) = attach_finish p.client_id p.pane_id p.since_seq p.ref capture w.engine in
    (
      record w { engine = e; pending = rest },
      elim r [ none ↦ [] | some (events, _) ↦ map (on_output p.client_id) events ],
    )

visit : World → Capture → List (String × ℕ) → World × List Output
visit w capture [] = (w, [])
visit w capture ((pane_id, ref) ∷ []) =
    let (e, sent) = poll_round pane_id ref capture w.engine in
    (record w { engine = poll_stop e; polling = [] }, sent)
visit w capture ((pane_id, ref) ∷ next ∷ rest) =
    let (e, sent) = poll_round pane_id ref capture w.engine in
    (record w { engine = e; polling = next ∷ rest }, sent)

begin_poll : World → Engine → Option (List (String × ℕ)) → World
begin_poll w e none = w
begin_poll w e (some entries) = record w { engine = e; polling = entries }

unfoldable pub act : Action → World → World × List Output
unfolding finish visit begin_poll
act (attaches c p since) w =
    let (e, r) = attach_start c p since w.engine in
    (record w { engine = e; pending = wait c p since r w.pending }, outputs_of c r)
act (attach_captures i capture) w = finish w capture (pick i w.pending)
act (detaches c p) w = (record w { engine = detach c p w.engine }, [])
act (detaches_all c) w = (record w { engine = detach_all c w.engine }, [])
act polls w = let (e, entries) = poll_start w.engine in (begin_poll w e entries, [])
act (poll_captures capture) w = visit w capture w.polling

unfoldable pub run : List Action → World → World × List Output
unfolding act
run [] w = (w, [])
run (a ∷ as') w = let (w', sent) = act a w in let (w'', later) = run as' w' in (w'', sent ++ later)

finish-Extends :
    (w : World) (r : Capture) (o : Option (Pending × List Pending))
    → Extends w.engine (finish w r o).0.engine
unfolding finish
finish-Extends w r none = Extends-refl w.engine
finish-Extends w r (some (p, rest)) =
    attach_finish-Extends p.client_id p.pane_id p.since_seq p.ref r w.engine

visit-Extends :
    (w : World) (r : Capture) (entries : List (String × ℕ))
    → Extends w.engine (visit w r entries).0.engine
unfolding visit
visit-Extends w r [] = Extends-refl w.engine
visit-Extends w r ((p, ref) ∷ []) =
    Extends-trans (poll_round-Extends p ref r w.engine)
      (poll_stop-Extends (poll_round p ref r w.engine).0)
visit-Extends w r ((p, ref) ∷ next ∷ rest) = poll_round-Extends p ref r w.engine

begin_poll-Extends :
    (w : World) (e : Engine) (o : Option (List (String × ℕ)))
    → Extends w.engine e
    → Extends w.engine (begin_poll w e o).engine
unfolding begin_poll
begin_poll-Extends w e none x = Extends-refl w.engine
begin_poll-Extends w e (some entries) x = x

act-Extends : (a : Action) (w : World) → Extends w.engine (act a w).0.engine
unfolding act
act-Extends (attaches c p since) w = attach_start-Extends c p since w.engine
act-Extends (attach_captures i r) w = finish-Extends w r (pick i w.pending)
act-Extends (detaches c p) w = detach-Extends c p w.engine
act-Extends (detaches_all c) w = detach_all-Extends c w.engine
act-Extends polls w =
    begin_poll-Extends w (poll_start w.engine).0 (poll_start w.engine).1
      (poll_start-Extends w.engine)
act-Extends (poll_captures r) w = visit-Extends w r w.polling

run-Extends : (actions : List Action) (w : World) → Extends w.engine (run actions w).0.engine
unfolding run
run-Extends [] w = Extends-refl w.engine
run-Extends (a ∷ actions) w = Extends-trans (act-Extends a w) (run-Extends actions (act a w).0)

-- However the methods interleave, from a new engine on, the history of every watcher is numbered
-- consecutively up to the last sequence number given, and is within its bound.
pub run-AllConsecutive :
    (m : Option ℕ) (actions : List Action)
    → AllConsecutive
        (create_engine m).max_history_events
        (run actions (new_world m)).0.engine.watchers
run-AllConsecutive m actions =
    (run-Extends actions (new_world m)).consecutive
      λ ref. record { numbered = refl; fits = omega arith }

-- Take a watcher that was made, with a consecutive history. However the methods interleave after a
-- client's screen showed its output, what it sends the client to resume brings the screen to the
-- latest output.
pub run-resume :
    (w : World) (actions : List Action) (ref : ℕ) (pane_id : String)
    → IsConsecutive w.engine.max_history_events (w.engine.watchers ref)
    → ref < w.engine.next_ref
    → let before = w.engine.watchers ref in
      let after = (run actions w).0.engine.watchers ref in
      foldl apply_event before.last_output (resume pane_id (pos before.stream_seq) after).0
      ≡ after.last_output
run-resume w actions ref pane_id c h =
    resume-screen w.engine.max_history_events c ((run-Extends actions w).evolves ref h) pane_id

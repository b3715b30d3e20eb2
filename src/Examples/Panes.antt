-- ===== src/Examples/Panes.antt =====
-- A pane of src/bridge/bridge-engine.ts at work: two retained events, numbered 5 and 6.
use command_relay.Common.{
  ℕ, ◌-◌, ◌≤◌, ◌<◌, true, false, none, some, List, [], ◌∷◌, ◌≡◌, ◌↔◌, refl, arith, pos,
}
use mathlib.Core.List.{foldl}
use command_relay.Engine.Watcher.{
  Text, Mode, snapshot, delta, PaneEvent, PaneWatcher, compute_delta, resume, has_gap, sort_by_seq,
  insert_by_seq,
}
use command_relay.Engine.{create_engine, captured, failed}
use command_relay.Engine.Delta.{apply_event}
use command_relay.Engine.History.{Run, base, IsConsecutive}
use command_relay.Engine.Resume.{resume-replay_iff, resume-Run}
use command_relay.Engine.Extends.{AllConsecutive}
use command_relay.Engine.Interleaving.{
  World, new_world, Action, attaches, attach_captures, detaches, polls, poll_captures, run,
  run-AllConsecutive, run-resume,
}

abbrev event : ℕ → Mode → Text → PaneEvent
event n mode chunk = record { mode = mode; pane_id = "%1"; chunk = chunk; stream_seq = n }

abbrev pub sample : PaneWatcher
sample = record {
  subscribers = "c" ∷ [];
  last_output = 10 ∷ 11 ∷ 12 ∷ [];
  stream_seq = 6;
  history = event 5 snapshot (10 ∷ 11 ∷ []) ∷ event 6 delta (12 ∷ []) ∷ [];
}

pub sample-IsConsecutive : IsConsecutive 2 sample
sample-IsConsecutive = record { numbered = (refl, (refl, refl)); fits = omega arith }

abbrev busy : World
busy = record {
  engine = record {
    max_history_events = 2;
    panes = ("%1", 0) ∷ [];
    watchers = λ ref. sample;
    next_ref = 1;
    timer_running = true;
    is_polling = false;
  };
  pending = [];
  polling = [];
}

-- A poll starts, another client leaves and one joins before its capture arrives.
abbrev crossing : List Action
crossing =
    polls
    ∷ detaches "c" "%1"
    ∷ attaches "d" "%2" none
    ∷ poll_captures (captured (10 ∷ 11 ∷ 12 ∷ 13 ∷ []))
    ∷ attach_captures 0 failed
    ∷ []

run-resume_example :
    foldl apply_event
      (10 ∷ 11 ∷ 12 ∷ [])
      (resume "%1" (pos 6) ((run crossing busy).0.engine.watchers 0)).0
    ≡ ((run crossing busy).0.engine.watchers 0).last_output
run-resume_example = run-resume busy crossing 0 "%1" sample-IsConsecutive (omega arith)

run-AllConsecutive_example :
    AllConsecutive
      (create_engine (some 2)).max_history_events
      (run
        (attaches "c" "%1" none ∷ attach_captures 0 (captured (10 ∷ [])) ∷ [])
        (new_world (some 2))).0.engine.watchers
run-AllConsecutive_example =
    run-AllConsecutive (some 2)
      (attaches "c" "%1" none ∷ attach_captures 0 (captured (10 ∷ [])) ∷ [])

resume-replay_iff_example :
    ((resume "%1" (pos 5) sample).1.replay_used ≡ true) ↔ ((base sample ≤ 5) × (5 < 6))
resume-replay_iff_example = resume-replay_iff 2 sample sample-IsConsecutive "%1" 5

sample-replays : (resume "%1" (pos 5) sample).1.replay_used ≡ true
unfolding resume has_gap sort_by_seq insert_by_seq
sample-replays = refl

resume-Run_example :
    Run 5 (resume "%1" (pos 5) sample).0 6 × ((resume "%1" (pos 5) sample).1.replayed_count ≡ 6 - 5)
resume-Run_example = resume-Run 2 sample sample-IsConsecutive "%1" 5 sample-replays

grows : compute_delta (10 ∷ []) (10 ∷ 11 ∷ []) ≡ some (delta, 11 ∷ [])
unfolding compute_delta
grows = refl

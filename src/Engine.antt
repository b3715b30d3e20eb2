-- ===== src/Engine.antt =====
-- src/bridge/bridge-engine.ts. The map of panes holds references into a store of watchers, because
-- `attach` and `pollOnce` keep a watcher across an `await` while other calls may replace the map's
-- entry. Each method is cut at its `await`: what runs before it, and what runs with the captured
-- output. The interval timer is a flag; `replayLines` and the interval are passed on, not stored.
pub mod Watcher
pub mod Delta
pub mod History
pub mod Retained
pub mod Resume
pub mod Extends
pub mod Interleaving
use command_relay.Common.{
  ℕ, zero, suc, ◌+◌, String, Bool, true, false, not, ◌&&◌, ◌||◌, Option, none, some, List, [], ◌∷◌,
  ◌++◌, map, ltb, leb, if◌then◌else◌, ◌==◌, nat_eq, string_eq, JsNumber, length, add, remove,
}
use command_relay.Common.Assoc.{get, set, delete}
use command_relay.Ownership.{sort}
use Watcher.{
  Text, Mode, snapshot, PaneEvent, ReplayMetadata, PaneWatcher, new_watcher, compute_delta,
  next_event, requested_last_seq, snapshot_event, metadata_of, resume,
}

pub record Engine : Type 0 where
  pub max_history_events : ℕ
  pub panes : List (String × ℕ)
  pub watchers : ℕ → PaneWatcher
  pub next_ref : ℕ
  pub timer_running : Bool
  pub is_polling : Bool

pub data Output : Type 0 where
  on_output : (client_id : String) → PaneEvent → Output
  on_error : (client_id pane_id : String) → Output

-- What `capturePane` gives back: its output, or a rejection.
pub data Capture : Type 0 where
  captured : Text → Capture
  failed : Capture

-- `maxHistoryEvents ?? 300`
abbrev pub create_engine : Option ℕ → Engine
create_engine max_history_events = record {
  max_history_events = elim max_history_events [ none ↦ 300 | some n ↦ n ];
  panes = [];
  watchers = λ ref. new_watcher;
  next_ref = 0;
  timer_running = false;
  is_polling = false;
}

-- A write to the watcher that a reference names.
abbrev pub write : ℕ → PaneWatcher → Engine → Engine
write ref w e = record e { watchers = λ r. if ref == r then w else e.watchers r }

unfoldable pub ensure_started : Engine → Engine
ensure_started e = record e { timer_running = true }

unfoldable pub stop_if_idle : Engine → Engine
stop_if_idle e =
    if ltb 0 (length e.panes) || not e.timer_running then e else record e { timer_running = false }

-- Finds the pane's watcher, or makes one, and adds the client.
unfoldable pub subscribe : (client_id pane_id : String) → Engine → Engine × ℕ
subscribe client_id pane_id e = elim (get pane_id e.panes) [
  | none ↦ (
    write e.next_ref (record new_watcher { subscribers = client_id ∷ [] })
        (record e { panes = set pane_id e.next_ref e.panes; next_ref = suc e.next_ref }),
    e.next_ref,
  )
  | some ref ↦
      let w = e.watchers ref in
      (write ref (record w { subscribers = add client_id w.subscribers }) e, ref)
]

-- `attach` up to its `await`: it has returned, or it waits for a capture with a watcher in hand.
pub data Attached : Type 0 where
  returned : List PaneEvent → ReplayMetadata → Attached
  awaits : (ref : ℕ) → Attached

unfoldable pub attach_watcher :
    (pane_id : String) → Option JsNumber → PaneWatcher → (ref : ℕ) → Attached
attach_watcher pane_id since_seq w ref =
    if ltb 0 w.stream_seq
    then elim (requested_last_seq since_seq) [
      | some requested ↦ let (events, meta) = resume pane_id requested w in returned events meta
      | none ↦ returned (snapshot_event pane_id w ∷ []) (metadata_of pane_id none w false false)
    ]
    else awaits ref

abbrev pub has_returned : Attached → Bool
has_returned (returned _ _) = true
has_returned (awaits _) = false

unfoldable pub attach_start :
    (client_id pane_id : String) → Option JsNumber → Engine → Engine × Attached
attach_start client_id pane_id since_seq e =
    let (e', ref) = subscribe client_id pane_id e in
    let r = attach_watcher pane_id since_seq (e'.watchers ref) ref in
    (if has_returned r then ensure_started e' else e', r)

-- The rest of `attach`, with what the capture gave: the client's events and metadata, or `none`
-- where the error is thrown on.
unfoldable pub attach_finish :
    (client_id pane_id : String)
    → Option JsNumber
    → (ref : ℕ) → Capture
    → Engine
    → Engine × Option (List PaneEvent × ReplayMetadata)
attach_finish client_id pane_id since_seq ref (captured text) e =
    let (w, event) =
      next_event e.max_history_events (record (e.watchers ref) { last_output = text }) pane_id
        snapshot text in
    (
      ensure_started (write ref w e),
      some (event ∷ [], metadata_of pane_id (requested_last_seq since_seq) w false false),
    )
attach_finish client_id pane_id since_seq ref failed e =
    let w = e.watchers ref in
    let rest = remove client_id w.subscribers in
    let e' = write ref (record w { subscribers = rest }) e in
    (
      stop_if_idle (
          if length rest == 0 && w.stream_seq == 0
          then record e' { panes = delete pane_id e'.panes }
          else e'),
      none,
    )

-- `attach` when nothing else runs during its capture.
unfoldable pub attach :
    (client_id pane_id : String)
    → Option JsNumber
    → Capture
    → Engine
    → Engine × Option (List PaneEvent × ReplayMetadata)
attach client_id pane_id since_seq capture e =
    let (e', r) = attach_start client_id pane_id since_seq e in
    elim r [
      | returned events meta ↦ (e', some (events, meta))
      | awaits ref ↦ attach_finish client_id pane_id since_seq ref capture e'
    ]

unfoldable pub detach : (client_id pane_id : String) → Engine → Engine
detach client_id pane_id e = elim (get pane_id e.panes) [
  | none ↦ e
  | some ref ↦
      let w = e.watchers ref in
      let rest = remove client_id w.subscribers in
      let e' = write ref (record w { subscribers = rest }) e in
      stop_if_idle (if length rest == 0 then record e' { panes = delete pane_id e'.panes } else e')
]

-- The loop of `detachAll` visits every key once; each round deletes at most its own key.
unfoldable pub detach_each : String → List (String × ℕ) → Engine → Engine
detach_each client_id [] e = e
detach_each client_id ((pane_id, _) ∷ entries) e =
    detach_each client_id entries (detach client_id pane_id e)

unfoldable pub detach_all : String → Engine → Engine
detach_all client_id e = detach_each client_id e.panes e

-- `pollOnce` up to its loop: the entries that it will visit, or `none` where it returns at once.
unfoldable pub poll_start : Engine → Engine × Option (List (String × ℕ))
poll_start e =
    if e.is_polling || length e.panes == 0
    then (e, none)
    else (record e { is_polling = true }, some e.panes)

-- One round of the loop after its capture.
unfoldable pub poll_round : (pane_id : String) (ref : ℕ) → Capture → Engine → Engine × List Output
poll_round pane_id ref (captured text) e =
    let w = e.watchers ref in
    elim (compute_delta w.last_output text) [
      | none ↦ (e, [])
      | some (mode, chunk) ↦
          let (w', event) =
            next_event e.max_history_events (record w { last_output = text }) pane_id mode chunk in
          (write ref w' e, map (λ client_id. on_output client_id event) w'.subscribers)
    ]
poll_round pane_id ref failed e =
    (e, map (λ client_id. on_error client_id pane_id) (e.watchers ref).subscribers)

unfoldable pub poll_stop : Engine → Engine
poll_stop e = record e { is_polling = false }

-- The loop when nothing else runs during the captures; `capture` answers for each pane.
unfoldable pub poll_loop :
    (capture : String → Capture) → List (String × ℕ) → Engine → Engine × List Output
poll_loop capture [] e = (poll_stop e, [])
poll_loop capture ((pane_id, ref) ∷ entries) e =
    let (e', sent) = poll_round pane_id ref (capture pane_id) e in
    let (e'', later) = poll_loop capture entries e' in (e'', sent ++ later)

unfoldable pub poll_once : (capture : String → Capture) → Engine → Engine × List Output
poll_once capture e =
    let (e', entries) = poll_start e in
    elim entries [ none ↦ (e', []) | some rows ↦ poll_loop capture rows e' ]

pub record ReplayOffsetRow : Type 0 where
  pub pane_id : String
  pub replay_offset : ℕ

-- `getReplayOffsetsSnapshot`; `before a b` is `a.localeCompare(b) <= 0`.
unfoldable pub get_replay_offsets_snapshot :
    (before : String → String → Bool) → Engine → List ReplayOffsetRow
get_replay_offsets_snapshot before e =
    sort (λ a b. before a.pane_id b.pane_id)
      (map
        (λ (entry : String × ℕ). record {
          pane_id = entry.0;
          replay_offset = (e.watchers entry.1).stream_seq;
        })
        e.panes)

-- `getStats`
unfoldable pub get_stats : Engine → ℕ × Bool
get_stats e = (length e.panes, e.timer_running)

-- ===== src/Engine/Watcher.antt =====
-- One watched pane of src/bridge/bridge-engine.ts: its event stream with bounded history, the
-- difference between two captures, and what a client that attaches is sent. Pane output is a list
-- of UTF-16 code units.
use command_relay.Common.{
  ℕ, zero, suc, String, Bool, true, false, not, Option, none, some, List, [], ◌∷◌, ◌++◌, ltb, leb,
  if◌then◌else◌, ◌==◌, nat_eq, list_eq, ℤ, pos, negsuc, JsNumber, finite, filter, length, tail,
  head?, get_last?,
}
use mathlib.Core.Option

abbrev pub Text : Type 0
Text = List ℕ

pub data Mode : Type 0 where
  snapshot delta : Mode

-- `BridgePaneEvent`
pub record PaneEvent : Type 0 where
  pub mode : Mode
  pub pane_id : String
  pub chunk : Text
  pub stream_seq : ℕ

-- `BridgeAttachReplayMetadata`
pub record ReplayMetadata : Type 0 where
  pub pane_id : String
  pub requested_last_seq : Option ℤ
  pub latest_seq : ℕ
  pub oldest_history_seq : Option ℕ
  pub latest_history_seq : Option ℕ
  pub replayed_count : ℕ
  pub replay_used : Bool
  pub fallback_to_snapshot : Bool
  pub replay_gap_detected : Bool

pub record PaneWatcher : Type 0 where
  pub subscribers : List String
  pub last_output : Text
  pub stream_seq : ℕ
  pub history : List PaneEvent

abbrev pub new_watcher : PaneWatcher
new_watcher = record { subscribers = []; last_output = []; stream_seq = 0; history = [] }

-- `startsWith`
abbrev pub starts_with : Text → Text → Bool
starts_with current [] = true
starts_with [] (_ ∷ _) = false
starts_with (c ∷ current) (p ∷ previous) = if c == p then starts_with current previous else false

-- `current.slice(previous.length)`
abbrev pub slice_from : Text → Text → Text
slice_from current [] = current
slice_from [] (_ ∷ _) = []
slice_from (_ ∷ current) (_ ∷ previous) = slice_from current previous

abbrev pub delta_chunk : Text → Option (Mode × Text)
delta_chunk [] = none
delta_chunk (c ∷ chunk) = some (delta, c ∷ chunk)

unfoldable pub compute_delta : (previous current : Text) → Option (Mode × Text)
compute_delta previous current =
    if current == previous
    then none
    else if starts_with current previous
    then delta_chunk (slice_from current previous)
    else some (snapshot, current)

-- `nextEvent`: the watcher is changed in place.
unfoldable pub next_event :
    (max_history_events : ℕ) → PaneWatcher → String → Mode → Text → PaneWatcher × PaneEvent
next_event max_history_events w pane_id mode chunk =
    let event : PaneEvent = record {
      mode = mode;
      pane_id = pane_id;
      chunk = chunk;
      stream_seq = suc w.stream_seq;
    } in
    let history = w.history ++ event ∷ [] in
    (
      record w {
        stream_seq = suc w.stream_seq;
        history = if ltb max_history_events (length history) then tail history else history;
      },
      event,
    )

-- `Number.isInteger(sinceSeq) ? Number(sinceSeq) : null`
abbrev pub requested_last_seq : Option JsNumber → Option ℤ
requested_last_seq (some (finite n)) = some n
requested_last_seq _ = none

-- `requested < seq` and `seq === requested + 1`
abbrev pub is_below : ℤ → ℕ → Bool
is_below (pos n) seq = ltb n seq
is_below (negsuc n) seq = true

abbrev pub is_next : ℤ → ℕ → Bool
is_next (pos n) seq = seq == suc n
is_next (negsuc zero) seq = seq == 0
is_next (negsuc (suc n)) seq = false

-- `[...history].sort((a, b) => a.streamSeq - b.streamSeq)`, a stable sort
unfoldable pub insert_by_seq : PaneEvent → List PaneEvent → List PaneEvent
insert_by_seq e [] = e ∷ []
insert_by_seq e (f ∷ fs) =
    if leb e.stream_seq f.stream_seq then e ∷ f ∷ fs else f ∷ insert_by_seq e fs

unfoldable pub sort_by_seq : List PaneEvent → List PaneEvent
unfolding insert_by_seq
sort_by_seq [] = []
sort_by_seq (e ∷ es) = insert_by_seq e (sort_by_seq es)

abbrev pub events_after : ℤ → List PaneEvent → List PaneEvent
events_after requested = filter (λ e. is_below requested e.stream_seq)

abbrev pub seq_of : PaneEvent → ℕ
seq_of e = e.stream_seq

-- `replayGapDetected`
unfoldable pub has_gap : ℤ → ℕ → List PaneEvent → Bool
has_gap requested stream_seq [] = is_below requested stream_seq
has_gap requested stream_seq (e ∷ _) = not (is_next requested e.stream_seq)

abbrev pub snapshot_event : String → PaneWatcher → PaneEvent
snapshot_event pane_id w = record {
  mode = snapshot;
  pane_id = pane_id;
  chunk = w.last_output;
  stream_seq = w.stream_seq;
}

-- The metadata of a return statement that replays nothing.
abbrev pub metadata_of : String → Option ℤ → PaneWatcher → (fallback gap : Bool) → ReplayMetadata
metadata_of pane_id requested w fallback gap =
    let by_seq = sort_by_seq w.history in
    record {
      pane_id = pane_id;
      requested_last_seq = requested;
      latest_seq = w.stream_seq;
      oldest_history_seq = Option.map seq_of (head? by_seq);
      latest_history_seq = Option.map seq_of (get_last? by_seq);
      replayed_count = 0;
      replay_used = false;
      fallback_to_snapshot = fallback;
      replay_gap_detected = gap;
    }

-- `replayed.length > 0 && !replayGapDetected`
abbrev pub can_replay : List PaneEvent → Bool → Bool
can_replay [] gap = false
can_replay (_ ∷ _) gap = not gap

-- The branch of `attach` for a pane with events and a client that names its last one: the events
-- that the client is sent, and the metadata.
unfoldable pub resume : String → ℤ → PaneWatcher → List PaneEvent × ReplayMetadata
unfolding has_gap sort_by_seq
resume pane_id requested w =
    let by_seq = sort_by_seq w.history in
    let replayed = events_after requested by_seq in
    let gap = has_gap requested w.stream_seq replayed in
    if can_replay replayed gap
    then (
      replayed,
      record (metadata_of pane_id (some requested) w false false) {
        replayed_count = length replayed;
        replay_used = true;
      },
    )
    else (snapshot_event pane_id w ∷ [], metadata_of pane_id (some requested) w true gap)

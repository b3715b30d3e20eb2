-- ===== src/Server/Sessions.antt =====
-- What `list_sessions` answers with: `groupSessionsByName` of src/server/bridge-server-utils.ts and
-- src/server/session-list-runtime-metadata.ts.
use Prim.Native.String
use command_relay.Common.{
  ℕ, String, Option, none, some, List, [], ◌∷◌, ◌++◌, map, if◌then◌else◌, ◌==◌, string_eq, get_or,
  contains, add,
}
use command_relay.Common.Assoc.{get, set}
use command_relay.Engine.{ReplayOffsetRow}
use command_relay.Ownership.{SnapshotRow}

-- A pane row of the runtime; a field is `none` where it is no string.
pub record PaneRow : Type 0 where
  pub session_name : Option String
  pub pane_id : Option String
  pub backend_id : Option String

pub record SessionBucket : Type 0 where
  pub session_name : String
  pub pane_ids : List String
  pub backend_id : Option String

-- `${backendId}:${sessionName}`
abbrev bucket_key : String → String → String
bucket_key backend_id session_name = String.◌++◌ backend_id (String.◌++◌ ":" session_name)

abbrev Buckets : Type 0
Buckets = List (String × SessionBucket)

-- One round of the loop: `sessionBucket.paneIds.push(paneId)`, or a new bucket.
unfoldable pub put_pane : (session_name pane_id backend_id : String) → Buckets → Buckets
put_pane session_name pane_id backend_id grouped =
    let key = bucket_key backend_id session_name in
    elim (get key grouped) [
      | some bucket ↦ set key (record bucket { pane_ids = bucket.pane_ids ++ pane_id ∷ [] }) grouped
      | none ↦
          set key
            (record {
              session_name = session_name;
              pane_ids = pane_id ∷ [];
              backend_id = if backend_id == "" then none else some backend_id;
            })
            grouped
    ]

unfoldable pub group_loop : List PaneRow → Buckets → Buckets
unfolding put_pane
group_loop [] grouped = grouped
group_loop (pane ∷ panes) grouped =
    let session_name = get_or pane.session_name "unknown" in
    let pane_id = get_or pane.pane_id "" in
    let backend_id = get_or pane.backend_id "" in
    group_loop panes
      (if pane_id == "" then grouped else put_pane session_name pane_id backend_id grouped)

unfoldable pub group_sessions_by_name : List PaneRow → List SessionBucket
unfolding group_loop
group_sessions_by_name panes = map (λ (e : String × SessionBucket). e.1) (group_loop panes [])

pub record RuntimePane : Type 0 where
  pub pane_id : String
  pub lane_owner_client_id : Option String
  pub replay_offset : ℕ

unfoldable pub lane_owners : List SnapshotRow → List (String × String) → List (String × String)
lane_owners [] m = m
lane_owners (row ∷ rows) m = lane_owners rows (set row.pane_id row.owner_client_id m)

unfoldable pub replay_offsets : List ReplayOffsetRow → List (String × ℕ) → List (String × ℕ)
replay_offsets [] m = m
replay_offsets (row ∷ rows) m = replay_offsets rows (set row.pane_id row.replay_offset m)

-- The loop over the panes: each non-empty id once, at its first row.
unfoldable pub pane_runtime :
    List (String × String)
    → List (String × ℕ)
    → List PaneRow
    → (seen : List String) → List RuntimePane
pane_runtime owners offsets [] seen = []
pane_runtime owners offsets (pane ∷ panes) seen =
    let pane_id = get_or pane.pane_id "" in
    let skip = pane_runtime owners offsets panes seen in
    let rest = pane_runtime owners offsets panes (add pane_id seen) in
    if pane_id == ""
    then skip
    else if contains pane_id seen
    then skip
    else record {
      pane_id = pane_id;
      lane_owner_client_id = get pane_id owners;
      replay_offset = get_or (get pane_id offsets) 0;
    }
      ∷ rest

-- `buildSessionListRuntimeMetadata`, its `panes`; the capabilities are passed through.
unfoldable pub build_session_list_runtime_metadata :
    List PaneRow → List SnapshotRow → List ReplayOffsetRow → List RuntimePane
unfolding lane_owners replay_offsets pane_runtime
build_session_list_runtime_metadata panes lanes offsets =
    pane_runtime (lane_owners lanes []) (replay_offsets offsets []) panes []

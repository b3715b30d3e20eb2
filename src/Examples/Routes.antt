-- ===== src/Examples/Routes.antt =====
-- The multiplexer of src/runtime/runtime-multiplexer.ts at work, over two backends.
use command_relay.Common.{
  map, String, true, none, some, [], ◌∷◌, All, ◌≡◌, ◌≢◌, ◌↔◌, refl, arith, string_eq,
}
use command_relay.Common.Text.{trim, trim_start, trim_end, is_space}
use command_relay.Multiplexer.{
  RuntimePane, Backend, ok, find_backend, has_delimiter, RuntimeMultiplexer, create_multiplexer,
  build_namespaced_pane_id, resolve_pane_target, list_panes, backend_panes, join,
}
use command_relay.Multiplexer.Listing.{row, sources}
use command_relay.Multiplexer.Routing.{resolve_pane_target_iff, IsRouted, list_panes-IsRouted}

abbrev pane : String → RuntimePane
pane id = record { pane_id = id; backend_id = none; raw_pane_id = none }

abbrev tmux : Backend
tmux = record { backend_id = "tmux"; is_available = some true; list_panes = some (pane "%1" ∷ []) }

abbrev cmux : Backend
cmux = record { backend_id = "cmux"; is_available = none; list_panes = none }

abbrev both_backends : RuntimeMultiplexer
both_backends = record { backends = tmux ∷ cmux ∷ []; should_namespace_pane_ids = true }

both_backends-created : create_multiplexer (tmux ∷ cmux ∷ []) ≡ ok both_backends
unfolding create_multiplexer trim trim_start trim_end is_space has_delimiter
both_backends-created = refl

resolve_pane_target_iff_example :
    (resolve_pane_target both_backends "tmux:%1" ≡ ok (tmux, "%1")) ↔ (
      (find_backend "tmux" (tmux ∷ cmux ∷ []) ≡ some tmux)
      × (◌≢◌ {A = String} "%1" "")
      × (◌≡◌ {A = String} "tmux:%1" (build_namespaced_pane_id "tmux" "%1")))
resolve_pane_target_iff_example =
    resolve_pane_target_iff (tmux ∷ cmux ∷ []) both_backends "tmux:%1" tmux "%1"
      both_backends-created (omega arith)

abbrev listed : RuntimePane
listed = record { pane_id = "tmux:%1"; backend_id = some "tmux"; raw_pane_id = some "%1" }

listed-panes : list_panes both_backends ≡ some (listed ∷ [])
unfolding list_panes backend_panes join
listed-panes = refl

list_panes-IsRouted_example :
    All (IsRouted both_backends) (listed ∷ [])
    × (map row (listed ∷ []) ≡ sources (tmux ∷ cmux ∷ []))
list_panes-IsRouted_example =
    list_panes-IsRouted (tmux ∷ cmux ∷ []) both_backends (listed ∷ []) both_backends-created
      (omega arith) listed-panes

-- ===== src/Multiplexer.antt =====
-- src/runtime/runtime-multiplexer.ts: one runtime out of several, with pane ids that name the
-- backend. A backend's answers are its fields; a call of a backend that rejects is `none`.
pub mod Ids
pub mod Validity
pub mod Listing
pub mod Routing
use Prim.Native.Char.{Char, code}
use Prim.Native.String
use mathlib.Core.Option
use command_relay.Common.{
  ℕ, String, Bool, true, false, ◌&&◌, ◌||◌, Option, none, some, List, [], ◌∷◌, ◌++◌, map, length,
  ltb, if◌then◌else◌, ◌==◌, nat_eq, string_eq, is_some, get_or,
}
use command_relay.Common.Text.{trim}

pub record RuntimePane : Type 0 where
  pub pane_id : String
  pub backend_id : Option String
  pub raw_pane_id : Option String

pub record Backend : Type 0 where
  pub backend_id : String
  pub is_available : Option Bool
  pub list_panes : Option (List RuntimePane)

pub data Failure : Type 0 where
  no_backend empty_backend_id : Failure
  delimiter_in_id duplicate_id unknown_backend : String → Failure
  not_namespaced : (pane_id : String) → Failure

pub data Result (A : Type 0) : Type 0 where
  failed : Failure → Result A
  ok : A → Result A

-- `includes(":")`
unfoldable pub has_delimiter : String → Bool
has_delimiter String.[] = false
has_delimiter (String.◌∷◌ c s) = code c == b':' || has_delimiter s

-- `this.backendById.get`
unfoldable pub find_backend : String → List Backend → Option Backend
find_backend id [] = none
find_backend id (b ∷ bs) = if b.backend_id == id then some b else find_backend id bs

-- `validateBackends`: `seen` are the backends of `backendById`.
unfoldable pub validate_backends : List Backend → (seen : List Backend) → Option Failure
unfolding find_backend has_delimiter
validate_backends [] seen = none
validate_backends (b ∷ bs) seen =
    if trim b.backend_id == ""
    then some empty_backend_id
    else if has_delimiter b.backend_id
    then some (delimiter_in_id b.backend_id)
    else if is_some (find_backend b.backend_id seen)
    then some (duplicate_id b.backend_id)
    else validate_backends bs (b ∷ seen)

pub record RuntimeMultiplexer : Type 0 where
  pub backends : List Backend
  pub should_namespace_pane_ids : Bool

-- The constructor throws what `validateBackends` throws.
abbrev pub checked : List Backend → Option Failure → Result RuntimeMultiplexer
checked bs (some failure) = failed failure
checked bs none = ok (record { backends = bs; should_namespace_pane_ids = ltb 1 (length bs) })

unfoldable pub create_multiplexer : List Backend → Result RuntimeMultiplexer
unfolding validate_backends
create_multiplexer bs =
    if length bs == 0 then failed no_backend else checked bs (validate_backends bs [])

-- `safeIsAvailable`
abbrev pub safe_is_available : Backend → Bool
safe_is_available b = get_or b.is_available false

unfoldable pub join : String → String → String
join String.[] raw = String.◌∷◌ ":" raw
join (String.◌∷◌ c s) raw = String.◌∷◌ c (join s raw)

-- `buildNamespacedPaneId`
abbrev pub build_namespaced_pane_id : (backend_id raw_pane_id : String) → String
build_namespaced_pane_id = join

abbrev pub add_before : Char → Option (String × String) → Option (String × String)
add_before c none = none
add_before c (some (before, after)) = some (String.◌∷◌ c before, after)

-- The text before and after the first delimiter.
unfoldable pub split_at_delimiter : String → Option (String × String)
split_at_delimiter String.[] = none
split_at_delimiter (String.◌∷◌ c s) =
    let rest = split_at_delimiter s in if code c == b':' then some ("", s) else add_before c rest

abbrev pub target_of :
    (backend_id raw_pane_id : String) → Option Backend → Result (Backend × String)
target_of backend_id raw_pane_id none = failed (unknown_backend backend_id)
target_of backend_id raw_pane_id (some b) = ok (b, raw_pane_id)

-- The tests of `resolvePaneTarget` on the two parts of the pane id.
abbrev pub resolve_parts :
    List Backend → (pane_id : String) → Option (String × String) → Result (Backend × String)
resolve_parts bs pane_id none = failed (not_namespaced pane_id)
resolve_parts bs pane_id (some (backend_id, raw_pane_id)) =
    if backend_id == "" || raw_pane_id == ""
    then failed (not_namespaced pane_id)
    else target_of backend_id raw_pane_id (find_backend backend_id bs)

-- `resolvePaneTarget`
unfoldable pub resolve_pane_target : RuntimeMultiplexer → String → Result (Backend × String)
unfolding split_at_delimiter find_backend
resolve_pane_target m pane_id =
    if m.should_namespace_pane_ids
    then resolve_parts m.backends pane_id (split_at_delimiter pane_id)
    else elim m.backends [ [] ↦ failed no_backend | b ∷ bs ↦ ok (b, pane_id) ]

abbrev namespaced : Backend → RuntimePane → RuntimePane
namespaced b pane = record {
  pane_id = build_namespaced_pane_id b.backend_id pane.pane_id;
  backend_id = some b.backend_id;
  raw_pane_id = some pane.pane_id;
}

-- What `listPanes` asks of one backend.
unfoldable pub backend_panes : (namespaces : Bool) → Backend → Option (List RuntimePane)
backend_panes namespaces b =
    if safe_is_available b
    then (if namespaces then Option.map (map (namespaced b)) b.list_panes else b.list_panes)
    else some []

-- `Promise.all` and `flat`: one rejection rejects the list.
abbrev pub both : Option (List RuntimePane) → Option (List RuntimePane) → Option (List RuntimePane)
both none _ = none
both (some panes) none = none
both (some panes) (some more) = some (panes ++ more)

unfoldable pub all_panes : (namespaces : Bool) → List Backend → Option (List RuntimePane)
unfolding backend_panes
all_panes namespaces [] = some []
all_panes namespaces (b ∷ bs) = both (backend_panes namespaces b) (all_panes namespaces bs)

unfoldable pub list_panes : RuntimeMultiplexer → Option (List RuntimePane)
unfolding all_panes
list_panes m = all_panes m.should_namespace_pane_ids m.backends

-- `isAvailable`
unfoldable pub is_available : List Backend → Bool
is_available [] = false
is_available (b ∷ bs) = safe_is_available b || is_available bs

-- `getBackendIds`
abbrev pub get_backend_ids : RuntimeMultiplexer → List String
get_backend_ids m = map (λ (b : Backend). b.backend_id) m.backends

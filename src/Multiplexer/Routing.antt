-- ===== src/Multiplexer/Routing.antt =====
-- Which backend a pane id of src/runtime/runtime-multiplexer.ts reaches.
use mathlib.Core.List.{Mem, mem-cons_self, mem-cons_of_mem}
use mathlib.Core.Option
use mathlib.Core.Option.{some-injective}
use command_relay.Common.{
  ◌<◌, String, true, ◌||◌, Option, none, some, List, [], ◌∷◌, ◌++◌, map, length, ◌==◌, string_eq,
  nat_eq, eq_iff, ◌≡◌, ◌≢◌, ◌↔◌, refl, ap, sym, ◌∙◌, subst, arith, All, All-append, Bool-cases, inl,
  inr,
}
use command_relay.Multiplexer.{
  RuntimePane, Backend, Failure, Result, failed, ok, find_backend, RuntimeMultiplexer,
  create_multiplexer, safe_is_available, join, build_namespaced_pane_id, split_at_delimiter,
  resolve_pane_target, namespaced, backend_panes, all_panes, list_panes,
}
use command_relay.Multiplexer.Ids.{split-join, join-split}
use command_relay.Multiplexer.{target_of, resolve_parts, not_namespaced, both}
use command_relay.Multiplexer.Listing.{row, sources, all_panes-rows}
use command_relay.Multiplexer.Validity.{IsRegistered, IsMultiplexer, create-IsMultiplexer}

find_sound :
    (id : String) (bs : List Backend) (b : Backend)
    → find_backend id bs ≡ some b
    → b.backend_id ≡ id
unfolding find_backend
find_sound id [] b h = cc
find_sound id (c ∷ bs) b h = ground (arith, eq_iff c.backend_id id, find_sound id bs b)

find-All :
    (P : Backend → Type 0) (id : String) (bs : List Backend) (b : Backend)
    → All P bs
    → find_backend id bs ≡ some b
    → P b
unfolding find_backend
find-All P id [] b a h = cc
find-All P id (c ∷ bs) b (p, a) h = elim (Bool-cases (c.backend_id == id)) [
  | inl same ↦ let it : some c ≡ some b = ground arith in subst P (some-injective c b it) p
  | inr other ↦ find-All P id bs b a (ground arith)
]

ok-injective : {A : Type 0} (a b : A) → Path (Result A) (ok a) (ok b) → a ≡ b
ok-injective a b h = cc

failed_is_not_ok : {A : Type 0} (f : Failure) (a : A) → ◌≢◌ {A = Result A} (failed f) (ok a)
failed_is_not_ok f a h = cc

target_of_sound :
    (bs : List Backend) (id rest : String) (o : Option Backend) (b : Backend) (raw : String)
    → find_backend id bs ≡ o
    → target_of id rest o ≡ ok (b, raw)
    → (find_backend b.backend_id bs ≡ some b) × (id ≡ b.backend_id) × (rest ≡ raw)
target_of_sound bs id rest none b raw f h = cc
target_of_sound bs id rest (some c) b raw f h =
    let pair = ok-injective (c, rest) (b, raw) h in
    let same : c ≡ b = ap (λ (x : Backend × String). x.0) pair in
    let id_same : id ≡ b.backend_id =
      sym (find_sound id bs c f) ∙ ap (λ (x : Backend). x.backend_id) same in
    (
      ap (λ i. find_backend i bs) (sym id_same) ∙ f ∙ ap some same,
      id_same,
      ap (λ (x : Backend × String). x.1) pair,
    )

resolve_parts_sound :
    (bs : List Backend) (p : String) (o : Option (String × String)) (b : Backend) (raw : String)
    → split_at_delimiter p ≡ o
    → resolve_parts bs p o ≡ ok (b, raw)
    → (find_backend b.backend_id bs ≡ some b) × (raw ≢ "") × (p ≡ join b.backend_id raw)
resolve_parts_sound bs p none b raw s h = cc
resolve_parts_sound bs p (some (id, rest)) b raw s h = elim (Bool-cases (id == "" || rest == "")) [
  | inl bad ↦
      absurd (failed_is_not_ok {A = Backend × String} (not_namespaced p) (b, raw) (ground arith))
  | inr good ↦
      let (found, id_same, same) =
        target_of_sound bs id rest (find_backend id bs) b raw refl (ground arith) in
      (
        found,
        λ e. ground (arith, eq_iff rest "", same),
        sym (join-split p id rest s).0
            ∙ ap (λ i. join i rest) id_same
            ∙ ap (join b.backend_id) same,
      )
]

-- A listed pane stands for one that an available backend of the multiplexer listed: it names that
-- backend and the id of the pane there, and its own id goes back to both.
abbrev pub IsRouted : RuntimeMultiplexer → RuntimePane → Type 0
IsRouted m pane =
    (b : Backend) × (source : RuntimePane) × (listed : List RuntimePane) × (find_backend
        b.backend_id m.backends
      ≡ some b)
    × (safe_is_available b ≡ true)
    × (b.list_panes ≡ some listed)
    × Mem source listed
    × (pane.backend_id ≡ some b.backend_id)
    × (pane.raw_pane_id ≡ some source.pane_id)
    × (source.pane_id ≢ "" → resolve_pane_target m pane.pane_id ≡ ok (b, source.pane_id))

module _ (m : RuntimeMultiplexer) (im : IsMultiplexer m) where
  resolve-join :
      (b : Backend) (raw : String)
      → find_backend b.backend_id m.backends ≡ some b
      → raw ≢ ""
      → resolve_pane_target m (join b.backend_id raw) ≡ ok (b, raw)
  unfolding resolve_pane_target
  resolve-join b raw found named =
      let valid =
        (find-All (IsRegistered m.backends) b.backend_id m.backends b im.registered found).valid in
      rw (im.namespaces, split-join b.backend_id raw valid.no_delimiter, found)
        (ground (arith, eq_iff b.backend_id "", eq_iff raw "", valid.not_empty, named))

  -- The parts that a pane id is taken apart into, and those that it is built of.
  reached_iff :
      (p : String) (b : Backend) (raw : String)
      → (resolve_pane_target m p ≡ ok (b, raw)) ↔ (
          (find_backend b.backend_id m.backends ≡ some b)
          × (raw ≢ "")
          × (p ≡ build_namespaced_pane_id b.backend_id raw))
  unfolding resolve_pane_target
  reached_iff p b raw = (
    λ h.
        resolve_parts_sound m.backends p (split_at_delimiter p) b raw refl
          (ground (arith, im.namespaces)),
    λ (found, named, e).
        subst (λ q. resolve_pane_target m q ≡ ok (b, raw)) (sym e) (resolve-join b raw found named),
  )

  -- Those of a part of what the backend listed.
  namespaced-IsRouted :
      (b : Backend) (listed : List RuntimePane)
      → IsRegistered m.backends b
      → safe_is_available b ≡ true
      → b.list_panes ≡ some listed
      → (panes : List RuntimePane) → ((pane : RuntimePane) → Mem pane panes → Mem pane listed)
      → All (IsRouted m) (map (namespaced b) panes)
  namespaced-IsRouted b listed r up all_ [] part = tt
  namespaced-IsRouted b listed r up all_ (pane ∷ panes) part = (
    (
      b,
      pane,
      listed,
      r.found,
      up,
      all_,
      part pane (mem-cons_self),
      refl,
      refl,
      λ named. resolve-join b pane.pane_id r.found named,
    ),
    namespaced-IsRouted b listed r up all_ panes
        (λ other there. part other (mem-cons_of_mem pane there)),
  )

  both-IsRouted :
      (o q : Option (List RuntimePane)) (panes : List RuntimePane)
      → ((l : List RuntimePane) → o ≡ some l → All (IsRouted m) l)
      → ((l : List RuntimePane) → q ≡ some l → All (IsRouted m) l)
      → both o q ≡ some panes
      → All (IsRouted m) panes
  both-IsRouted none q panes f g h = cc
  both-IsRouted (some x) none panes f g h = cc
  both-IsRouted (some x) (some y) panes f g h =
      subst (All (IsRouted m)) (some-injective (x ++ y) panes h)
        (All-append (IsRouted m) x y (f x refl) (g y refl))

  map-IsRouted :
      (b : Backend) (o : Option (List RuntimePane)) (panes : List RuntimePane)
      → IsRegistered m.backends b
      → safe_is_available b ≡ true
      → b.list_panes ≡ o
      → Option.map (map (namespaced b)) o ≡ some panes
      → All (IsRouted m) panes
  map-IsRouted b none panes r up all_ h = cc
  map-IsRouted b (some l) panes r up all_ h =
      subst (All (IsRouted m)) (some-injective _ panes h)
        (namespaced-IsRouted b l r up all_ l (λ pane there. there))

  backend_panes-IsRouted :
      (b : Backend) (panes : List RuntimePane)
      → IsRegistered m.backends b
      → backend_panes true b ≡ some panes
      → All (IsRouted m) panes
  unfolding backend_panes
  backend_panes-IsRouted b panes r h = elim (Bool-cases (safe_is_available b)) [
    | inl up ↦ map-IsRouted b b.list_panes panes r up refl (ground arith)
    | inr down ↦
        let nothing : Path (Option (List RuntimePane)) (some []) (some panes) = ground arith in
        subst (All (IsRouted m)) (some-injective [] panes nothing) tt
  ]

  all_panes-IsRouted :
      (bs : List Backend) (panes : List RuntimePane)
      → All (IsRegistered m.backends) bs
      → all_panes true bs ≡ some panes
      → All (IsRouted m) panes
  unfolding all_panes
  all_panes-IsRouted [] panes a h = subst (All (IsRouted m)) (some-injective [] panes h) tt
  all_panes-IsRouted (b ∷ bs) panes (r, a) h =
      both-IsRouted (backend_panes true b) (all_panes true bs) panes
        (λ l k. backend_panes-IsRouted b l r k) (λ l k. all_panes-IsRouted bs l a k) h

-- In a multiplexer that the constructor makes of two or more backends, a pane id reaches a backend
-- with a raw pane id exactly when it is what the multiplexer builds of the two, the backend is the
-- one with that id, and the raw pane id is not empty.
pub resolve_pane_target_iff :
    (bs : List Backend) (m : RuntimeMultiplexer) (p : String) (b : Backend) (raw : String)
    → (created : create_multiplexer bs ≡ ok m) → 1 < length bs
    → (resolve_pane_target m p ≡ ok (b, raw)) ↔ (
        (find_backend b.backend_id m.backends ≡ some b)
        × (raw ≢ "")
        × (p ≡ build_namespaced_pane_id b.backend_id raw))
resolve_pane_target_iff bs m p b raw created two =
    reached_iff m (create-IsMultiplexer bs m created two).1 p b raw

-- Over two or more backends that the constructor accepts, `list_panes`, where no backend's list is
-- rejected, gives a row for each pane that an available backend lists and no other, in the order
-- of the backends and of their lists. A row names the backend and the id of its pane there, and
-- its own id, unless that one is empty, reaches them both.
pub list_panes-IsRouted :
    (bs : List Backend) (m : RuntimeMultiplexer) (panes : List RuntimePane)
    → (created : create_multiplexer bs ≡ ok m) → 1 < length bs
    → list_panes m ≡ some panes
    → All (IsRouted m) panes × (map row panes ≡ sources bs)
unfolding list_panes
list_panes-IsRouted bs m panes created two h =
    let (same, im) = create-IsMultiplexer bs m created two in
    let all_ = ap (λ n. all_panes n m.backends) (sym im.namespaces) ∙ h in
    (
      all_panes-IsRouted m im m.backends panes im.registered all_,
      all_panes-rows m.backends panes all_ ∙ ap sources same,
    )

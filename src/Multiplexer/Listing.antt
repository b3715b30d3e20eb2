-- ===== src/Multiplexer/Listing.antt =====
-- Which panes src/runtime/runtime-multiplexer.ts lists: all that its available backends list.
use mathlib.Core.Option
use mathlib.Core.Option.{some-injective}
use command_relay.Common.{
  String, true, Option, none, some, List, [], ◌∷◌, ◌++◌, map, get_or, if◌then◌else◌, ◌≡◌, refl, sym,
  ap, ◌∙◌, arith, Bool-cases, inl, inr,
}
use command_relay.Multiplexer.{
  RuntimePane, Backend, safe_is_available, namespaced, backend_panes, both, all_panes,
}

-- The backend and the raw pane id that a row names.
abbrev pub row : RuntimePane → Option String × Option String
row pane = (pane.backend_id, pane.raw_pane_id)

-- The panes that a backend lists, if it is available.
abbrev pub listed_by : Backend → List RuntimePane
listed_by b = if safe_is_available b then get_or b.list_panes [] else []

abbrev pub row_in : Backend → RuntimePane → Option String × Option String
row_in b pane = (some b.backend_id, some pane.pane_id)

-- The rows of all backends, in their order.
abbrev pub sources : List Backend → List (Option String × Option String)
sources [] = []
sources (b ∷ bs) = map (row_in b) (listed_by b) ++ sources bs

map-append : (xs ys : List RuntimePane) → map row (xs ++ ys) ≡ map row xs ++ map row ys
map-append [] ys = refl
map-append (x ∷ xs) ys = ap (λ l. row x ∷ l) (map-append xs ys)

map-namespaced :
    (b : Backend) (panes : List RuntimePane)
    → map row (map (namespaced b) panes) ≡ map (row_in b) panes
map-namespaced b [] = refl
map-namespaced b (pane ∷ panes) = ap (λ l. row_in b pane ∷ l) (map-namespaced b panes)

listed-rows :
    (b : Backend) (o : Option (List RuntimePane)) (panes : List RuntimePane)
    → Option.map (map (namespaced b)) o ≡ some panes
    → map row panes ≡ map (row_in b) (get_or o [])
listed-rows b none panes h = cc
listed-rows b (some listed) panes h =
    ap (map row) (sym (some-injective _ panes h)) ∙ map-namespaced b listed

backend_panes-rows :
    (b : Backend) (panes : List RuntimePane)
    → backend_panes true b ≡ some panes
    → map row panes ≡ map (row_in b) (listed_by b)
unfolding backend_panes
backend_panes-rows b panes h = elim (Bool-cases (safe_is_available b)) [
  | inl up ↦
      listed-rows b b.list_panes panes (ground (arith, h))
      ∙ ap (λ c. map (row_in b) (if c then get_or b.list_panes [] else [])) (sym up)
  | inr down ↦
      let nothing : Path (Option (List RuntimePane)) (some []) (some panes) = ground (arith, h) in
      ap (map row) (sym (some-injective [] panes nothing))
      ∙ ap (λ c. map (row_in b) (if c then get_or b.list_panes [] else [])) (sym down)
]

both-rows :
    (o q : Option (List RuntimePane)) (panes : List RuntimePane)
    (xs ys : List (Option String × Option String))
    → ((l : List RuntimePane) → o ≡ some l → map row l ≡ xs)
    → ((l : List RuntimePane) → q ≡ some l → map row l ≡ ys)
    → both o q ≡ some panes
    → map row panes ≡ xs ++ ys
both-rows none q panes xs ys f g h = cc
both-rows (some x) none panes xs ys f g h = cc
both-rows (some x) (some y) panes xs ys f g h =
    ap (map row) (sym (some-injective (x ++ y) panes h))
    ∙ map-append x y
    ∙ ap (λ l. l ++ map row y) (f x refl)
    ∙ ap (λ l. xs ++ l) (g y refl)

pub all_panes-rows :
    (bs : List Backend) (panes : List RuntimePane)
    → all_panes true bs ≡ some panes
    → map row panes ≡ sources bs
unfolding all_panes
all_panes-rows [] panes h = ap (map row) (sym (some-injective [] panes h))
all_panes-rows (b ∷ bs) panes h =
    both-rows (backend_panes true b) (all_panes true bs) panes _ _ (λ l k. backend_panes-rows b l k)
      (λ l k. all_panes-rows bs l k) h

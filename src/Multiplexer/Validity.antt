-- ===== src/Multiplexer/Validity.antt =====
-- What the constructor of src/runtime/runtime-multiplexer.ts makes sure of.
use command_relay.Common.{
  ◌<◌, String, true, false, Option, none, some, List, [], ◌∷◌, length, string_eq, nat_eq, eq_iff,
  ◌≡◌, ◌≢◌, refl, ap, subst, arith, All, Option-cases, inl, inr,
}
use command_relay.Common.Text.{trim, trim_start, trim_end}
use command_relay.Multiplexer.{
  Backend, Failure, Result, ok, has_delimiter, find_backend, validate_backends, RuntimeMultiplexer,
  checked, create_multiplexer,
}

-- An id that the constructor accepts.
pub record IsBackendId (id : String) : Type 0 where
  pub not_empty : id ≢ ""
  pub no_delimiter : has_delimiter id ≡ false

trim-empty : trim "" ≡ ""
unfolding trim trim_start trim_end
trim-empty = refl

module _ {A : Type 0} {P Q : A → Type 0} (f : (a : A) → P a → Q a) where
  All-map : (xs : List A) → All P xs → All Q xs
  All-map [] h = tt
  All-map (x ∷ xs) (p, h) = (f x p, All-map xs h)

find-later :
    (b c : Backend) (seen : List Backend)
    → find_backend c.backend_id (b ∷ seen) ≡ none
    → find_backend c.backend_id seen ≡ none
unfolding find_backend
find-later b c seen h = ground arith

-- What the checks of one backend give.
validate-first :
    (b : Backend) (bs seen : List Backend)
    → validate_backends (b ∷ bs) seen ≡ none
    → IsBackendId b.backend_id
      × (find_backend b.backend_id seen ≡ none)
      × (validate_backends bs (b ∷ seen) ≡ none)
unfolding validate_backends
validate-first b bs seen h = (
  record {
    not_empty = λ e. ground (arith, ap trim e, trim-empty, eq_iff (trim b.backend_id) "");
    no_delimiter = ground arith;
  },
  elim (Option-cases (find_backend b.backend_id seen)) [
    | inl absent ↦ absent
    | inr (c, there) ↦ ground (arith, there)
  ],
  ground arith,
)

-- The backends that are still to be checked have ids that are not in use.
validate-absent :
    (bs seen : List Backend)
    → validate_backends bs seen ≡ none
    → All (λ (b : Backend). find_backend b.backend_id seen ≡ none) bs
validate-absent [] seen h = tt
validate-absent (b ∷ bs) seen h =
    let (_, absent, rest) = validate-first b bs seen h in
    (absent, All-map (λ c k. find-later b c seen k) bs (validate-absent bs (b ∷ seen) rest))

-- A backend that the constructor accepts, among all of them.
pub record IsRegistered (bs : List Backend) (b : Backend) : Type 0 where
  pub valid : IsBackendId b.backend_id
  pub found : find_backend b.backend_id bs ≡ some b

find-skip :
    (b c : Backend) (bs seen : List Backend)
    → find_backend c.backend_id (b ∷ seen) ≡ none
    → IsRegistered bs c
    → IsRegistered (b ∷ bs) c
unfolding find_backend
find-skip b c bs seen h r = record { valid = r.valid; found = ground (arith, r.found) }

All-map₂ :
    {A : Type 0} {P Q R : A → Type 0}
    → ((a : A) → P a → Q a → R a)
    → (xs : List A) → All P xs
    → All Q xs
    → All R xs
All-map₂ f [] h k = tt
All-map₂ f (x ∷ xs) (p, h) (q, k) = (f x p q, All-map₂ f xs h k)

validate-IsRegistered :
    (bs seen : List Backend) → validate_backends bs seen ≡ none → All (IsRegistered bs) bs
unfolding find_backend
validate-IsRegistered [] seen h = tt
validate-IsRegistered (b ∷ bs) seen h =
    let (valid, _, rest) = validate-first b bs seen h in
    (
      record { valid = valid; found = ground (arith, eq_iff b.backend_id b.backend_id) },
      All-map₂ (λ c k r. find-skip b c bs seen k r) bs (validate-absent bs (b ∷ seen) rest)
          (validate-IsRegistered bs (b ∷ seen) rest),
    )

-- A multiplexer over two or more backends, as the constructor makes it.
pub record IsMultiplexer (m : RuntimeMultiplexer) : Type 0 where
  pub namespaces : m.should_namespace_pane_ids ≡ true
  pub registered : All (IsRegistered m.backends) m.backends

ok-injective : {A : Type 0} (a b : A) → Path (Result A) (ok a) (ok b) → a ≡ b
ok-injective a b h = cc

checked-IsMultiplexer :
    (bs : List Backend) (m : RuntimeMultiplexer) (o : Option Failure)
    → validate_backends bs [] ≡ o
    → checked bs o ≡ ok m
    → 1 < length bs
    → (m.backends ≡ bs) × IsMultiplexer m
checked-IsMultiplexer bs m (some f) v h two = cc
checked-IsMultiplexer bs m none v h two =
    subst (λ n. (n.backends ≡ bs) × IsMultiplexer n) (ok-injective _ _ h)
      (refl, record { namespaces = ground arith; registered = validate-IsRegistered bs [] v })

-- Where the constructor accepts two or more backends, it keeps them in their order, pane ids are
-- namespaced, and every backend has a valid id under which it is the one that is found.
pub create-IsMultiplexer :
    (bs : List Backend) (m : RuntimeMultiplexer)
    → create_multiplexer bs ≡ ok m
    → 1 < length bs
    → (m.backends ≡ bs) × IsMultiplexer m
unfolding create_multiplexer
create-IsMultiplexer bs m h two =
    checked-IsMultiplexer bs m (validate_backends bs []) refl (ground arith) two

-- ===== src/Client/Counts.antt =====
-- How often requests wait at a client of packages/commandrelay-client/src/index.ts, and are settled.
use command_relay.Common.{
  ℕ, ◌+◌, ◌<◌, Bool, true, false, some, List, [], ◌∷◌, ◌++◌, String, ◌≡◌, refl, sym, ap, ◌∙◌, arith,
  inl, inr, Bool-cases, map, if◌then◌else◌, ◌==◌, nat_eq, string_eq,
}
use command_relay.Common.Assoc.{get, set, delete}
use command_relay.Client.{Effect, settled, rejected, Failure}

abbrev pub one_if : Bool → ℕ
one_if true = 1
one_if false = 0

abbrev pub settles : String → Effect → ℕ
settles id (settled request_id outcome) = one_if (request_id == id)
settles id _ = 0

-- How often a request is settled by effects, and how often it waits.
abbrev pub count_settled : String → List Effect → ℕ
count_settled id [] = 0
count_settled id (effect ∷ effects) = settles id effect + count_settled id effects

abbrev pub count_pending : String → List (String × List String) → ℕ
count_pending id [] = 0
count_pending id ((request_id, expected) ∷ pending) =
    one_if (request_id == id) + count_pending id pending

pub count_settled-append :
    (id : String) (xs ys : List Effect)
    → count_settled id (xs ++ ys) ≡ count_settled id xs + count_settled id ys
count_settled-append id [] ys = omega arith
count_settled-append id (x ∷ xs) ys = omega (arith, count_settled-append id xs ys)

pub count_settled-map :
    (id : String) (error : Failure) (pending : List (String × List String))
    → count_settled id
        (map (λ (entry : String × List String). settled entry.0 (rejected error)) pending)
      ≡ count_pending id pending
count_settled-map id error [] = refl
count_settled-map id error ((request_id, expected) ∷ pending) =
    omega (arith, count_settled-map id error pending)

pub count_pending-set :
    (id request_id : String) (expected : List String) (pending : List (String × List String))
    → count_pending request_id pending ≡ 0
    → count_pending id (set request_id expected pending)
      ≡ count_pending id pending + one_if (request_id == id)
count_pending-set id request_id expected [] h = omega arith
count_pending-set id request_id expected ((other, types) ∷ pending) h =
    elim (Bool-cases (other == request_id)) [
      | inl same ↦
          let no : one_if (other == request_id) ≡ 1 = ap one_if same in
          absurd (omega (arith, h, no))
      | inr new ↦
          let rest = count_pending-set id request_id expected pending (omega (arith, h)) in
          rw new (omega (arith, rest))
    ]

pub count_pending-delete :
    (id request_id : String) (pending : List (String × List String))
    → count_pending id (delete request_id pending)
      ≡ (if request_id == id then 0 else count_pending id pending)
count_pending-delete id request_id [] = ground arith
count_pending-delete id request_id ((other, types) ∷ pending) =
    let rest = count_pending-delete id request_id pending in
    elim (Bool-cases (other == request_id)) [
      | inl same ↦
          let equal = (string_eq.equals_iff other request_id).0 same in
          let moved : (other == id) ≡ (request_id == id) = ap (λ r. r == id) equal in
          rw (same, moved) (ground (arith, rest))
      | inr new ↦ elim (Bool-cases (request_id == id)) [
        | inl here ↦
            let equal = (string_eq.equals_iff request_id id).0 here in
            let apart : (other == id) ≡ false = sym (ap (λ r. other == r) equal) ∙ new in
            let none_left : count_pending id (delete request_id pending) ≡ 0 =
              rest ∙ ap (λ b. if b then 0 else count_pending id pending) here in
            rw (new, apart, here) (omega (arith, none_left))
        | inr elsewhere ↦
            let kept : count_pending id (delete request_id pending) ≡ count_pending id pending =
              rest ∙ ap (λ b. if b then 0 else count_pending id pending) elsewhere in
            rw (new, elsewhere) (omega (arith, kept))
      ]
    ]

pub get-count_pending :
    (request_id : String) (pending : List (String × List String)) (expected : List String)
    → get request_id pending ≡ some expected
    → 0 < count_pending request_id pending
get-count_pending request_id [] expected h = cc
get-count_pending request_id ((other, types) ∷ pending) expected h =
    elim (Bool-cases (other == request_id)) [
      | inl same ↦ let one : one_if (other == request_id) ≡ 1 = ap one_if same in omega (arith, one)
      | inr new ↦
          let rest =
            get-count_pending request_id pending expected
              (sym (ap (λ b. if b then some types else get request_id pending) new) ∙ h) in
          omega (arith, rest)
    ]

-- ===== src/Cache/Keys.antt =====
-- The store of a bounded cache as a Map: every key once, a use moves a key to the end, and the
-- bound drops the oldest keys.
use command_relay.Common.{
  ℕ, suc, ◌+◌, ◌≤◌, none, some, List, [], ◌∷◌, ◌++◌, length, length-append, ltb, Eq, nat_eq, ◌≡◌,
  refl, sym, ◌∙◌, arith, Option-cases, Bool-cases, inl, inr,
}
use command_relay.Common.Assoc.{get, set, delete, get-set, get-delete}
use command_relay.Cache.{keep_newest}

module _ {ℓ κ} {K : Type ℓ} {V : Type κ} ⦃e : Eq K⦄ where
  -- A Map holds every key once.
  abbrev pub HasUniqueKeys : List (K × V) → Type κ
  HasUniqueKeys [] = Unit
  HasUniqueKeys ((k, v) ∷ m) = (get k m ≡ none) × HasUniqueKeys m

  pub delete-absent : (k : K) (m : List (K × V)) → get k m ≡ none → delete k m ≡ m
  delete-absent k [] h = refl
  delete-absent k ((j, v) ∷ m) h = ground (arith, delete-absent k m)

  pub length-delete_unique :
      (k : K) (m : List (K × V)) → HasUniqueKeys m → length m ≤ suc (length (delete k m))
  length-delete_unique k [] u = omega arith
  length-delete_unique k ((j, v) ∷ m) (a, u) =
      ground (arith, delete-absent k m, length-delete_unique k m u, e.equals_iff j k)

  set-absent : (k : K) (v : V) (m : List (K × V)) → get k m ≡ none → set k v m ≡ m ++ (k, v) ∷ []
  set-absent k v [] h = refl
  set-absent k v ((j, w) ∷ m) h = ground (arith, set-absent k v m)

  get-delete-same : (k : K) (m : List (K × V)) → get k (delete k m) ≡ none
  get-delete-same k m = ground (arith, get-delete k k m, e.equals_iff k k)

  delete-HasUniqueKeys : (k : K) (m : List (K × V)) → HasUniqueKeys m → HasUniqueKeys (delete k m)
  delete-HasUniqueKeys k [] u = tt
  delete-HasUniqueKeys k ((j, v) ∷ m) (a, u) =
      ground (arith, delete-HasUniqueKeys k m u, get-delete k j m)

  append-HasUniqueKeys :
      (k : K) (v : V) (m : List (K × V))
      → get k m ≡ none
      → HasUniqueKeys m
      → HasUniqueKeys (m ++ (k, v) ∷ [])
  append-HasUniqueKeys k v [] h u = (refl, tt)
  append-HasUniqueKeys k v ((j, w) ∷ m) h (a, u) = ground (
    arith,
    append-HasUniqueKeys k v m,
    set-absent k v m,
    get-set k j v m,
    e.equals_iff k j,
    e.equals_iff j k,
  )

  -- What a use of a key does to the store: its entry becomes the newest.
  abbrev pub use_key : K → V → List (K × V) → List (K × V)
  use_key k v m = delete k m ++ (k, v) ∷ []

  pub use_key-HasUniqueKeys :
      (k : K) (v : V) (m : List (K × V)) → HasUniqueKeys m → HasUniqueKeys (use_key k v m)
  use_key-HasUniqueKeys k v m u =
      append-HasUniqueKeys k v (delete k m) (get-delete-same k m) (delete-HasUniqueKeys k m u)

  pub set-delete : (k : K) (v : V) (m : List (K × V)) → set k v (delete k m) ≡ use_key k v m
  set-delete k v m = set-absent k v (delete k m) (get-delete-same k m)

  pub keep-fits : (n : ℕ) (m : List (K × V)) → length m ≤ n → keep_newest n m ≡ m
  unfolding keep_newest
  keep-fits n [] h = refl
  keep-fits n (x ∷ m) h = ground arith

  pub length-keep-le : (n : ℕ) (m : List (K × V)) → length (keep_newest n m) ≤ n
  unfolding keep_newest
  length-keep-le n [] = omega arith
  length-keep-le n (x ∷ m) = ground (arith, length-keep-le n m)

  get-keep-none :
      (n : ℕ) (k : K) (m : List (K × V)) → get k m ≡ none → get k (keep_newest n m) ≡ none
  unfolding keep_newest
  get-keep-none n k [] h = refl
  get-keep-none n k ((j, v) ∷ m) h = ground (arith, get-keep-none n k m)

  pub keep-HasUniqueKeys :
      (n : ℕ) (m : List (K × V)) → HasUniqueKeys m → HasUniqueKeys (keep_newest n m)
  unfolding keep_newest
  keep-HasUniqueKeys n [] u = tt
  keep-HasUniqueKeys n ((j, v) ∷ m) (a, u) = ground (arith, keep-HasUniqueKeys n m u)

  -- Bounding the store before a use of a key makes no difference after it.
  pub keep-use_key :
      (n : ℕ) (k : K) (v : V) (m : List (K × V))
      → HasUniqueKeys m
      → keep_newest n (use_key k v (keep_newest n m)) ≡ keep_newest n (use_key k v m)
  unfolding keep_newest
  keep-use_key n k v [] u = refl
  keep-use_key n k v ((j, w) ∷ m) (a, u) = elim (Bool-cases (ltb n (length ((j, w) ∷ m)))) [
    | inl over ↦ rw over (
        ground (
          arith,
          keep-use_key n k v m u,
          length-append (delete k m) ((k, v) ∷ []),
          length-delete_unique k m u,
        ))
    | inr under ↦ rw under (ground arith)
  ]

  pub length-delete_present :
      (k : K) (v : V) (m : List (K × V)) → get k m ≡ some v → length (delete k m) + 1 ≤ length m
  length-delete_present k v [] h = cc
  length-delete_present k v ((j, w) ∷ m) h = elim (Option-cases (get k m)) [
    | inl absent ↦ ground (arith, delete-absent k m)
    | inr (x, there) ↦ ground (arith, length-delete_present k x m there)
  ]

  -- A use of a key that the bounded store holds stays within the bound.
  pub keep-use_key_present :
      (n : ℕ) (k : K) (v : V) (m : List (K × V))
      → HasUniqueKeys m
      → get k (keep_newest n m) ≡ some v
      → use_key k v (keep_newest n m) ≡ keep_newest n (use_key k v m)
  keep-use_key_present n k v m u h =
      sym (
        keep-fits n (use_key k v (keep_newest n m)) (
          omega (
            arith,
            length-append (delete k (keep_newest n m)) ((k, v) ∷ []),
            length-delete_present k v (keep_newest n m) h,
            length-keep-le n m,
          )))
      ∙ keep-use_key n k v m u

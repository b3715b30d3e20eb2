-- ===== src/Cache.antt =====
-- The bounded caches of packages/proxy-agent/src/bounded-agent-cache.ts and of
-- packages/proxy-undici/src/bounded-dispatcher-cache.ts, which are the same code. The store is a
-- Map in insertion order, oldest use first; a method returns the values that it hands to `onEvict`.
-- No stored value is `undefined`.
pub mod Keys
pub mod Recency
use command_relay.Common.{
  ℕ, suc, ◌-◌, ◌^◌, Bool, true, false, Option, none, some, List, [], ◌∷◌, ◌++◌, map, length, ltb,
  leb, if◌then◌else◌, Eq, ◌==◌, nat_eq, pos, JsNumber, finite,
}
use command_relay.Common.Assoc.{get, has, set, delete}

abbrev pub default_cache_entries : ℕ
default_cache_entries = 256

-- `normalizeCacheEntries`. A finite value is given by its floor, which is negative exactly where
-- the value is.
pub normalize_cache_entries : Option JsNumber → ℕ
normalize_cache_entries (some (finite (pos n))) =
    if leb n (2 ^ 53 - 1) then n else default_cache_entries
normalize_cache_entries _ = default_cache_entries

pub record BoundedCache {ℓ κ} (K : Type ℓ) (V : Type κ) : Type (ℓ ⊔ κ) where
  pub store : List (K × V)
  pub max_entries : ℕ

-- The earlier value of the key, unless it is the new one.
abbrev pub replaced {κ} : {V : Type κ} ⦃f : Eq V⦄ → V → Option V → List V
replaced value none = []
replaced value (some prior) = if prior == value then [] else prior ∷ []

module _ {ℓ κ} {K : Type ℓ} {V : Type κ} where
  abbrev pub create_cache : ℕ → BoundedCache K V
  create_cache max_entries = record { store = []; max_entries = max_entries }

  unfoldable pub clear_cache : BoundedCache K V → BoundedCache K V × List V
  clear_cache c = (record c { store = [] }, map (λ (entry : K × V). entry.1) c.store)

  -- The `while` loop of `set`: the entries that stay. The oldest key is the first one, and a Map
  -- holds it once.
  unfoldable pub keep_newest : ℕ → List (K × V) → List (K × V)
  keep_newest max_entries [] = []
  keep_newest max_entries (entry ∷ store) =
      let rest = keep_newest max_entries store in
      if ltb max_entries (length (entry ∷ store)) then rest else entry ∷ store

  -- The values that the loop evicts, oldest first.
  unfoldable pub evicted : ℕ → List (K × V) → List V
  evicted max_entries [] = []
  evicted max_entries (entry ∷ store) =
      let rest = evicted max_entries store in
      if ltb max_entries (length (entry ∷ store)) then entry.1 ∷ rest else []

module _ {ℓ κ} {K : Type ℓ} {V : Type κ} ⦃e : Eq K⦄ where
  -- A read moves its entry to the end.
  unfoldable pub get_entry : K → BoundedCache K V → BoundedCache K V × Option V
  get_entry key c = elim (get key c.store) [
    | none ↦ (c, none)
    | some value ↦ (record c { store = set key value (delete key c.store) }, some value)
  ]

  module _ ⦃f : Eq V⦄ where
    unfoldable pub set_entry : K → V → BoundedCache K V → BoundedCache K V × List V
    set_entry key value c =
        let store = set key value (if has key c.store then delete key c.store else c.store) in
        if c.max_entries == 0 then (c, []) else (
          record c { store = keep_newest c.max_entries store },
          replaced value (get key c.store) ++ evicted c.max_entries store,
        )

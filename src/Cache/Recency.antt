-- ===== src/Cache/Recency.antt =====
-- The caches hold the most recently used entries: the bounded store is always the newest part of
-- what a store without a bound would hold.
use command_relay.Common.{
  ℕ, zero, suc, ◌-◌, ◌≤◌, ◌<◌, map, append_assoc, Option, none, some, List, [], ◌∷◌, ◌++◌, length,
  ltb, if◌then◌else◌, Eq, ◌==◌, nat_eq, ◌≡◌, refl, sym, ap, ◌∙◌, arith, Option-cases, Bool-cases,
  inl, inr,
}
use command_relay.Common.Assoc.{get, has, set, delete}
use command_relay.Cache.{
  BoundedCache, create_cache, clear_cache, get_entry, keep_newest, evicted, replaced, set_entry,
}
use command_relay.Cache.Keys.{
  HasUniqueKeys, use_key, use_key-HasUniqueKeys, set-delete, delete-absent, length-keep-le,
  keep-use_key, keep-use_key_present,
}

pub data CacheCall {ℓ κ} (K : Type ℓ) (V : Type κ) : Type (ℓ ⊔ κ) where
  gets : K → CacheCall K V
  sets : K → V → CacheCall K V
  clears : CacheCall K V

module _ {ℓ κ} {K : Type ℓ} {V : Type κ} ⦃e : Eq K⦄ where
  abbrev pub touch : K → Option V → List (K × V) → List (K × V)
  touch k none m = m
  touch k (some v) m = use_key k v m

  touch-HasUniqueKeys :
      (k : K) (o : Option V) (m : List (K × V)) → HasUniqueKeys m → HasUniqueKeys (touch k o m)
  touch-HasUniqueKeys k none m u = u
  touch-HasUniqueKeys k (some v) m u = use_key-HasUniqueKeys k v m u

  abbrev pub skip : ℕ → List (K × V) → List (K × V)
  skip zero m = m
  skip (suc n) [] = []
  skip (suc n) (entry ∷ m) = skip n m

  -- The last `n` entries, or all of them where there are fewer.
  abbrev pub newest : ℕ → List (K × V) → List (K × V)
  newest n m = skip (length m - n) m

  -- The loop of `set` against the entries that are to stay.
  keep-newest : (n : ℕ) (m : List (K × V)) → keep_newest n m ≡ newest n m
  unfolding keep_newest
  keep-newest n [] = let none_over : 0 ≡ 0 - n = omega arith in ap (λ k. skip k []) none_over
  keep-newest n (entry ∷ m) =
      let all_ = length (entry ∷ m) in
      elim (Bool-cases (ltb n all_)) [
        | inl over ↦
            let more : all_ - n ≡ suc (length m - n) = ground arith in
            rw over (keep-newest n m ∙ sym (ap (λ k. skip k (entry ∷ m)) more))
        | inr under ↦
            let none_over : all_ - n ≡ 0 = ground arith in
            rw under (sym (ap (λ k. skip k (entry ∷ m)) none_over))
      ]

  -- The specification keeps every entry, in the order of last use, and sees the newest `n`.
  abbrev pub unbounded_step : ℕ → CacheCall K V → List (K × V) → List (K × V)
  unbounded_step n (gets k) m = touch k (get k (newest n m)) m
  unbounded_step n (sets k v) m = use_key k v m
  unbounded_step n clears m = []

  abbrev pub unbounded_run : ℕ → List (CacheCall K V) → List (K × V) → List (K × V)
  unbounded_run n [] m = m
  unbounded_run n (call ∷ calls) m = unbounded_run n calls (unbounded_step n call m)

  unbounded_step-HasUniqueKeys :
      (n : ℕ) (call : CacheCall K V) (m : List (K × V))
      → HasUniqueKeys m
      → HasUniqueKeys (unbounded_step n call m)
  unbounded_step-HasUniqueKeys n (gets k) m u = touch-HasUniqueKeys k (get k (newest n m)) m u
  unbounded_step-HasUniqueKeys n (sets k v) m u = use_key-HasUniqueKeys k v m u
  unbounded_step-HasUniqueKeys n clears m u = tt

  -- `set` on a Map after the old entry of the key, if any, is deleted.
  moved :
      (k : K) (v : V) (m : List (K × V))
      → set k v (if has k m then delete k m else m) ≡ use_key k v m
  moved k v m = elim (Option-cases (get k m)) [
    | inl absent ↦ rw absent (ap (set k v) (sym (delete-absent k m absent)) ∙ set-delete k v m)
    | inr (w, there) ↦ rw there (set-delete k v m)
  ]

  empty_of_length : (m : List (K × V)) → length m ≤ 0 → m ≡ []
  empty_of_length [] h = refl
  empty_of_length (x ∷ m) h = absurd (omega arith)

  keep-zero : (n : ℕ) (m : List (K × V)) → n ≡ 0 → keep_newest n m ≡ []
  keep-zero n m h = empty_of_length (keep_newest n m) (omega (arith, length-keep-le n m))

  abbrev pub values : List (K × V) → List V
  values = map (λ (entry : K × V). entry.1)

  evicted-keep : (n : ℕ) (m : List (K × V)) → evicted n m ++ values (keep_newest n m) ≡ values m
  unfolding evicted keep_newest
  evicted-keep n [] = refl
  evicted-keep n ((k, v) ∷ m) = elim (Bool-cases (ltb n (length ((k, v) ∷ m)))) [
    | inl over ↦ rw over (ap (λ l. v ∷ l) (evicted-keep n m))
    | inr under ↦ rw under refl
  ]

  module _ ⦃f : Eq V⦄ where
    abbrev pub cache_step : CacheCall K V → BoundedCache K V → BoundedCache K V
    cache_step (gets k) c = (get_entry k c).0
    cache_step (sets k v) c = (set_entry k v c).0
    cache_step clears c = (clear_cache c).0

    abbrev pub cache_run : List (CacheCall K V) → BoundedCache K V → BoundedCache K V
    cache_run [] c = c
    cache_run (call ∷ calls) c = cache_run calls (cache_step call c)

    store-get_entry :
        (k : K) (c : BoundedCache K V) (m : List (K × V))
        → HasUniqueKeys m
        → c.store ≡ keep_newest c.max_entries m
        → ((get_entry k c).0.store
            ≡ keep_newest c.max_entries (unbounded_step c.max_entries (gets k) m))
          × ((get_entry k c).0.max_entries ≡ c.max_entries)
    unfolding get_entry
    store-get_entry k c m u h = elim (Option-cases (get k c.store)) [
      | inl absent ↦
          rw (absent, get_entry)
            (h ∙ ap (λ o. keep_newest c.max_entries (touch k o m)) (sym (seen h ∙ absent)), refl)
      | inr (v, there) ↦
          rw (there, get_entry)
            (
              set-delete k v c.store
                  ∙ ap (use_key k v) h
                  ∙ keep-use_key_present c.max_entries k v m u (ap (get k) (sym h) ∙ there)
                  ∙ ap (λ o. keep_newest c.max_entries (touch k o m)) (sym (seen h ∙ there)),
              refl,
            )
    ]
      where
        seen :
            c.store ≡ keep_newest c.max_entries m → get k (newest c.max_entries m) ≡ get k c.store
        seen h = ap (get k) (sym (h ∙ keep-newest c.max_entries m))

    store-set_entry :
        (k : K) (v : V) (c : BoundedCache K V) (m : List (K × V))
        → HasUniqueKeys m
        → c.store ≡ keep_newest c.max_entries m
        → ((set_entry k v c).0.store ≡ keep_newest c.max_entries (use_key k v m))
          × ((set_entry k v c).0.max_entries ≡ c.max_entries)
    unfolding set_entry
    store-set_entry k v c m u h = elim (Bool-cases (c.max_entries == 0)) [
      | inl zero_entries ↦ simp zero_entries (
        h
            ∙ keep-zero c.max_entries m (ground arith)
            ∙ sym (keep-zero c.max_entries (use_key k v m) (ground arith)),
        refl,
      )
      | inr some_entries ↦ simp some_entries (
        ap (keep_newest c.max_entries) (moved k v c.store)
            ∙ ap (λ s. keep_newest c.max_entries (use_key k v s)) h
            ∙ keep-use_key c.max_entries k v m u,
        refl,
      )
    ]

    step-unbounded :
        (call : CacheCall K V) (c : BoundedCache K V) (m : List (K × V))
        → HasUniqueKeys m
        → c.store ≡ keep_newest c.max_entries m
        → ((cache_step call c).store
            ≡ keep_newest c.max_entries (unbounded_step c.max_entries call m))
          × ((cache_step call c).max_entries ≡ c.max_entries)
    unfolding clear_cache keep_newest
    step-unbounded (gets k) c m u h = store-get_entry k c m u h
    step-unbounded (sets k v) c m u h = store-set_entry k v c m u h
    step-unbounded clears c m u h = (refl, refl)

    run-unbounded :
        (calls : List (CacheCall K V)) (c : BoundedCache K V) (m : List (K × V))
        → HasUniqueKeys m
        → c.store ≡ keep_newest c.max_entries m
        → (cache_run calls c).store
          ≡ keep_newest c.max_entries (unbounded_run c.max_entries calls m)
    run-unbounded [] c m u h = h
    run-unbounded (call ∷ calls) c m u h =
        let (now, same) = step-unbounded call c m u h in
        let n = c.max_entries in
        run-unbounded calls (cache_step call c) (unbounded_step n call m)
          (unbounded_step-HasUniqueKeys n call m u)
          (now ∙ ap (λ b. keep_newest b (unbounded_step n call m)) (sym same))
        ∙ ap (λ b. keep_newest b (unbounded_run b calls (unbounded_step n call m))) same

    -- After any reads, writes and clears, a new cache holds the last entries, as many as its bound
    -- or all where there are fewer, of a store that never evicts and that orders its entries by
    -- their last write or successful read.
    pub cache_run-newest :
        (n : ℕ) (calls : List (CacheCall K V))
        → (cache_run calls (create_cache n)).store ≡ newest n (unbounded_run n calls [])
    unfolding keep_newest
    cache_run-newest n calls =
        run-unbounded calls (create_cache n) [] tt refl ∙ keep-newest n (unbounded_run n calls [])

    -- A `set` loses no value: what it evicts, followed by the values that stay, is the earlier value
    -- of the key where it differs, followed by the values of all other keys and the new one, in order.
    pub set_entry-values :
        (k : K) (v : V) (c : BoundedCache K V)
        → 0 < c.max_entries
        → (set_entry k v c).1 ++ values (set_entry k v c).0.store
          ≡ replaced v (get k c.store) ++ values (use_key k v c.store)
    unfolding set_entry
    set_entry-values k v c h = elim (Bool-cases (c.max_entries == 0)) [
      | inl zero_entries ↦ absurd (ground arith)
      | inr some_entries ↦ simp some_entries (
          append_assoc (replaced v (get k c.store)) _ _
          ∙ ap (λ l. replaced v (get k c.store) ++ l)
              (evicted-keep c.max_entries _ ∙ ap values (moved k v c.store)))
    ]

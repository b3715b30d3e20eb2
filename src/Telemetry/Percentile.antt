-- ===== src/Telemetry/Percentile.antt =====
-- src/telemetry/bridge-telemetry.ts: the percentiles of a snapshot are nearest ranks.
use command_relay.Common.{
  ℕ, zero, suc, ◌+◌, ◌-◌, ◌*◌, ◌/◌, ◌≤◌, ◌<◌, min, max, Bool, false, some, List, [], ◌∷◌, ◌++◌, ◌≡◌,
  refl, ap, subst, ◌∙◌, arith, inl, inr, Bool-cases, ◌==◌, nat_eq, leb, ltb, if◌then◌else◌, length,
  length-append, append_assoc,
}
use mathlib.Core.Option.{some-injective}
use command_relay.Telemetry.{
  LatencyWindow, LatencyMetricSnapshot, create_latency_window, record_value, insert, sort,
  get_elem?, percentile, recent, snapshot_latency,
}
use command_relay.Telemetry.Recent.{record_values, record_values-IsRecent}

-- How many samples pass a test.
abbrev pub count_if : (ℕ → Bool) → List ℕ → ℕ
count_if p [] = 0
count_if p (x ∷ xs) = (if p x then 1 else 0) + count_if p xs

count_if-append :
    (p : ℕ → Bool) (xs ys : List ℕ) → count_if p (xs ++ ys) ≡ count_if p xs + count_if p ys
count_if-append p [] ys = omega arith
count_if-append p (x ∷ xs) ys = omega (arith, count_if-append p xs ys)

count_if-insert :
    (p : ℕ → Bool) (x : ℕ) (xs : List ℕ) → count_if p (insert x xs) ≡ count_if p (x ∷ xs)
count_if-insert p x [] = refl
count_if-insert p x (y ∷ ys) = elim (Bool-cases (leb x y)) [
  | inl small ↦ rw small refl
  | inr large ↦ let rest = count_if-insert p x ys in rw large (omega (arith, rest))
]

count_if-sort : (p : ℕ → Bool) (xs : List ℕ) → count_if p (sort xs) ≡ count_if p xs
count_if-sort p [] = refl
count_if-sort p (x ∷ xs) = omega (arith, count_if-insert p x (sort xs), count_if-sort p xs)

length-insert : (x : ℕ) (xs : List ℕ) → length (insert x xs) ≡ suc (length xs)
length-insert x [] = refl
length-insert x (y ∷ ys) = elim (Bool-cases (leb x y)) [
  | inl small ↦ rw small refl
  | inr large ↦ let rest = length-insert x ys in rw large (omega (arith, rest))
]

length-sort : (xs : List ℕ) → length (sort xs) ≡ length xs
length-sort [] = refl
length-sort (x ∷ xs) = omega (arith, length-insert x (sort xs), length-sort xs)

abbrev AllFrom : ℕ → List ℕ → Type 0
AllFrom x [] = Unit
AllFrom x (y ∷ ys) = (x ≤ y) × AllFrom x ys

abbrev IsSorted : List ℕ → Type 0
IsSorted [] = Unit
IsSorted (x ∷ xs) = AllFrom x xs × IsSorted xs

AllFrom-insert : (x y : ℕ) (ys : List ℕ) → x ≤ y → AllFrom x ys → AllFrom x (insert y ys)
AllFrom-insert x y [] h k = (h, tt)
AllFrom-insert x y (z ∷ zs) h (k, ks) = elim (Bool-cases (leb y z)) [
  | inl small ↦ rw small (h, (k, ks))
  | inr large ↦ rw large (k, AllFrom-insert x y zs h ks)
]

AllFrom-le : (x y : ℕ) (ys : List ℕ) → x ≤ y → AllFrom y ys → AllFrom x ys
AllFrom-le x y [] h k = tt
AllFrom-le x y (z ∷ zs) h (k, ks) = (omega (arith, h, k), AllFrom-le x y zs h ks)

insert-IsSorted : (x : ℕ) (xs : List ℕ) → IsSorted xs → IsSorted (insert x xs)
insert-IsSorted x [] h = (tt, tt)
insert-IsSorted x (y ∷ ys) (h, k) = elim (Bool-cases (leb x y)) [
  | inl small ↦ let le : x ≤ y = ground arith in rw small ((le, AllFrom-le x y ys le h), (h, k))
  | inr large ↦ rw large (AllFrom-insert y x ys (ground arith) h, insert-IsSorted x ys k)
]

sort-IsSorted : (xs : List ℕ) → IsSorted (sort xs)
sort-IsSorted [] = tt
sort-IsSorted (x ∷ xs) = insert-IsSorted x (sort xs) (sort-IsSorted xs)

-- The place of a value among those that are no larger and those that are smaller.
abbrev pub at_most : ℕ → ℕ → Bool
at_most v x = leb x v

abbrev pub below : ℕ → ℕ → Bool
below v x = ltb x v

AllFrom-get_elem? : (x k v : ℕ) (xs : List ℕ) → AllFrom x xs → get_elem? k xs ≡ some v → x ≤ v
AllFrom-get_elem? x k v [] h e = cc
AllFrom-get_elem? x zero v (y ∷ ys) (h, hs) e = omega (arith, h, some-injective y v e)
AllFrom-get_elem? x (suc k) v (y ∷ ys) (h, hs) e = AllFrom-get_elem? x k v ys hs e

none_below : (v : ℕ) (xs : List ℕ) → AllFrom v xs → count_if (below v) xs ≡ 0
none_below v [] h = refl
none_below v (x ∷ xs) (h, hs) = ground (arith, none_below v xs hs)

get_elem?-rank :
    (k v : ℕ) (xs : List ℕ)
    → IsSorted xs
    → get_elem? k xs ≡ some v
    → (k < count_if (at_most v) xs) × (count_if (below v) xs ≤ k)
get_elem?-rank k v [] s e = cc
get_elem?-rank zero v (x ∷ xs) (f, s) e =
    let same = some-injective x v e in
    let clear = none_below v xs (AllFrom-le v x xs (omega (arith, same)) f) in
    ground (arith, same, clear)
get_elem?-rank (suc k) v (x ∷ xs) (f, s) e =
    let le = AllFrom-get_elem? x k v xs f e in
    let (many, few) = get_elem?-rank k v xs s e in ground (arith, le, many, few)

get_elem?-some : (k : ℕ) (xs : List ℕ) → k < length xs → (v : ℕ) × (get_elem? k xs ≡ some v)
get_elem?-some k [] h = absurd (omega (arith, h))
get_elem?-some zero (x ∷ xs) h = (x, refl)
get_elem?-some (suc k) (x ∷ xs) h = get_elem?-some k xs (omega (arith, h))

-- A nearest rank at `num / den`: at least that share of the samples is no larger, and less than
-- that share is smaller.
abbrev pub IsRank : (num den v : ℕ) → List ℕ → Type 0
IsRank num den v xs =
    (num * length xs ≤ den * count_if (at_most v) xs)
    × (den * count_if (below v) xs < num * length xs)

sorted-rank :
    (k : ℕ) (xs : List ℕ)
    → k < length xs
    → (v : ℕ) × (get_elem? k (sort xs) ≡ some v)
      × (k < count_if (at_most v) xs)
      × (count_if (below v) xs ≤ k)
sorted-rank k xs h =
    let (v, found) = get_elem?-some k (sort xs) (omega (arith, h, length-sort xs)) in
    let (many, few) = get_elem?-rank k v (sort xs) (sort-IsSorted xs) found in
    let many' = count_if-sort (at_most v) xs in
    let few' = count_if-sort (below v) xs in
    (v, found, omega (arith, many, many'), omega (arith, few, few'))

percentile-index :
    (num den k : ℕ) (xs : List ℕ)
    → 0 < length xs
    → max 0 (min (length xs - 1) ((length xs * num + (den - 1)) / den - 1)) ≡ k
    → percentile num den xs ≡ get_elem? k xs
unfolding percentile
percentile-index num den k [] h e = absurd (omega (arith, h))
percentile-index num den k (x ∷ xs) h e = ap (λ i. get_elem? i (x ∷ xs)) e

half-IsRank :
    (xs : List ℕ) → 0 < length xs → (v : ℕ) × (percentile 1 2 (sort xs) ≡ some v) × IsRank 1 2 v xs
half-IsRank xs h =
    let size = length-sort xs in
    let k = (length xs + 1) / 2 - 1 in
    let (v, found, many, few) = sorted-rank k xs (omega (arith, h)) in
    let at = percentile-index 1 2 k (sort xs) (omega (arith, size, h)) (omega (arith, size, h)) in
    (v, at ∙ found, (omega (arith, many, h), omega (arith, few, h)))

most-IsRank :
    (xs : List ℕ)
    → 0 < length xs
    → (v : ℕ) × (percentile 19 20 (sort xs) ≡ some v) × IsRank 19 20 v xs
most-IsRank xs h =
    let size = length-sort xs in
    let k = (length xs * 19 + 19) / 20 - 1 in
    let (v, found, many, few) = sorted-rank k xs (omega (arith, h)) in
    let at = percentile-index 19 20 k (sort xs) (omega (arith, size, h)) (omega (arith, size, h)) in
    (v, at ∙ found, (omega (arith, many, h), omega (arith, few, h)))

-- A rank does not depend on where the array begins.
IsRank-turned :
    (num den v : ℕ) (older newer : List ℕ)
    → IsRank num den v (newer ++ older)
    → IsRank num den v (older ++ newer)
IsRank-turned num den v older newer rank =
    let most = count_if-append (at_most v) newer older in
    let most' = count_if-append (at_most v) older newer in
    let few = count_if-append (below v) newer older in
    let few' = count_if-append (below v) older newer in
    let size = length-append newer older in
    let size' = length-append older newer in
    let same_most : count_if (at_most v) (newer ++ older) ≡ count_if (at_most v) (older ++ newer) =
      omega (arith, most, most') in
    let same_few : count_if (below v) (newer ++ older) ≡ count_if (below v) (older ++ newer) =
      omega (arith, few, few') in
    let same_size : length (newer ++ older) ≡ length (older ++ newer) =
      omega (arith, size, size') in
    (
      subst (λ n. num * n ≤ den * count_if (at_most v) (older ++ newer)) same_size
          (subst (λ n. num * length (newer ++ older) ≤ den * n) same_most rank.0),
      subst (λ n. den * count_if (below v) (older ++ newer) < num * n) same_size
          (subst (λ n. den * n < num * length (newer ++ older)) same_few rank.1),
    )

total_count-length :
    (window : LatencyWindow) (xs : List ℕ)
    → (record_values window xs).total_count ≡ window.total_count + length xs
unfolding record_values record_value create_latency_window
total_count-length window [] = omega arith
total_count-length window (x ∷ xs) = omega (arith, total_count-length (record_value window x) xs)

-- The percentiles that the snapshot shows.
abbrev pub HasRanks : LatencyMetricSnapshot → List ℕ → Type 0
HasRanks snapshot xs =
    ((v : ℕ) × (snapshot.p50_ms ≡ some v) × IsRank 1 2 v xs)
    × ((v : ℕ) × (snapshot.p95_ms ≡ some v) × IsRank 19 20 v xs)

-- After samples were recorded, the snapshot counts all of them, and its percentiles are nearest
-- ranks of the latest ones: of all, or of as many as the window takes.
pub snapshot_latency-HasRanks :
    (capacity : ℕ) (samples : List ℕ)
    → 0 < capacity
    → 0 < length samples
    → let snapshot = snapshot_latency (record_values (create_latency_window capacity) samples) in
      (snapshot.count ≡ length samples)
      × ((past : List ℕ) × (latest : List ℕ) × (samples ≡ past ++ latest)
          × (length latest ≡ min (length samples) capacity)
          × HasRanks snapshot latest)
unfolding snapshot_latency create_latency_window
snapshot_latency-HasRanks capacity samples h some_samples =
    let window = record_values (create_latency_window capacity) samples in
    let total : window.total_count ≡ length samples =
      total_count-length (create_latency_window capacity) samples ∙ omega arith in
    let counted : (window.total_count == 0) ≡ false = ground arith in
    let (past, older, newer, cut, kept, size) = record_values-IsRecent capacity samples h in
    let lengths = length-append newer older in
    let lengths' = length-append older newer in
    let size' = ap length kept in
    let filled : 0 < length (recent window) = omega (arith, size, h, some_samples) in
    let (p50, e50, r50) = half-IsRank (recent window) filled in
    let (p95, e95, r95) = most-IsRank (recent window) filled in
    rw (snapshot_latency, counted)
      (
        total,
        (
          past,
          older ++ newer,
          cut ∙ append_assoc past older newer,
          omega (arith, size, size', lengths, lengths'),
          (
            (p50, e50, IsRank-turned 1 2 p50 older newer (subst (IsRank 1 2 p50) kept r50)),
            (p95, e95, IsRank-turned 19 20 p95 older newer (subst (IsRank 19 20 p95) kept r95)),
          ),
        ),
      )

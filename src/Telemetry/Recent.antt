-- ===== src/Telemetry/Recent.antt =====
-- src/telemetry/bridge-telemetry.ts: the ring of a window holds the latest samples.
use command_relay.Common.{
  ℕ, zero, suc, ◌+◌, ◌%◌, ◌<◌, min, List, [], ◌∷◌, ◌++◌, ◌⊎◌, inl, inr, ◌≡◌, refl, sym, ap, subst,
  ◌∙◌, arith, append-nil, append_assoc, nat_eq, length, length-append,
}
use native.Mathlib.Nat.{mod-eq_of_lt, mod_self}
use command_relay.Telemetry.{
  LatencyWindow, zeros, create_latency_window, write_at, record_value, take, recent,
}

unfoldable pub record_values : LatencyWindow → List ℕ → LatencyWindow
unfolding record_value
record_values window [] = window
record_values window (x ∷ xs) = record_values (record_value window x) xs

-- The array is cut at the next place to write: what is before the cut is newer than what follows.
pub record IsRing (window : LatencyWindow) (capacity : ℕ) (samples : List ℕ) : Type 0 where
  newer : List ℕ
  oldest : ℕ
  older : List ℕ
  cut : window.values ≡ newer ++ oldest ∷ older
  here : window.write_index ≡ length newer
  whole : length window.values ≡ capacity
  held :
      ((window.size ≡ length newer) × (newer ≡ samples))
      ⊎ ((window.size ≡ capacity) × ((past : List ℕ) × (samples ≡ past ++ oldest ∷ older ++ newer)))

write_at-append :
    (value oldest : ℕ) (newer older : List ℕ)
    → write_at (length newer) value (newer ++ oldest ∷ older) ≡ newer ++ value ∷ older
write_at-append value oldest [] older = refl
write_at-append value oldest (x ∷ newer) older =
    ap (λ t. x ∷ t) (write_at-append value oldest newer older)

take-append : (s t : List ℕ) → take (length s) (s ++ t) ≡ s
take-append [] t = refl
take-append (x ∷ s) t = ap (λ u. x ∷ u) (take-append s t)

take-all : (s : List ℕ) → take (length s) s ≡ s
take-all [] = refl
take-all (x ∷ s) = ap (λ u. x ∷ u) (take-all s)

length-zeros : (n : ℕ) → length (zeros n) ≡ n
length-zeros zero = refl
length-zeros (suc n) = ap suc (length-zeros n)

snoc : (xs : List ℕ) (x : ℕ) → (y : ℕ) × (ys : List ℕ) × (xs ++ x ∷ [] ≡ y ∷ ys)
snoc [] x = (x, [], refl)
snoc (y ∷ xs) x = (y, xs ++ x ∷ [], refl)

-- The oldest sample held becomes the last one of the past.
moved :
    (past held newer : List ℕ) (oldest x : ℕ)
    → ((past ++ oldest ∷ held) ++ newer) ++ x ∷ []
      ≡ ((past ++ oldest ∷ []) ++ held) ++ (newer ++ x ∷ [])
moved past held newer oldest x =
    append_assoc (past ++ oldest ∷ held) newer (x ∷ [])
    ∙ ap (λ t. t ++ (newer ++ x ∷ [])) (sym (append_assoc past (oldest ∷ []) held))

-- A list of as many as its length is that list, also at a modulus.
around : (i n : ℕ) → i + 1 ≡ n → (i + 1) % n ≡ 0
around i n h = ap (λ k. k % n) h ∙ mod_self n

module _ (window : LatencyWindow) (capacity : ℕ) (samples : List ℕ) (x : ℕ) where
  written :
      (newer older : List ℕ) (oldest : ℕ)
      → window.values ≡ newer ++ oldest ∷ older
      → window.write_index ≡ length newer
      → (record_value window x).values ≡ newer ++ x ∷ older
  unfolding record_value
  written newer older oldest cut here =
      ap (λ i. write_at i x window.values) here
      ∙ ap (write_at (length newer) x) cut
      ∙ write_at-append x oldest newer older

  -- There is a place after the one that is written.
  step_inside :
      (newer os : List ℕ) (oldest o : ℕ)
      → window.values ≡ newer ++ oldest ∷ o ∷ os
      → window.write_index ≡ length newer
      → length window.values ≡ capacity
      → ((window.size ≡ length newer) × (newer ≡ samples))
        ⊎ ((window.size ≡ capacity)
            × ((past : List ℕ) × (samples ≡ past ++ oldest ∷ o ∷ os ++ newer)))
      → IsRing (record_value window x) capacity (samples ++ x ∷ [])
  unfolding record_value
  step_inside newer os oldest o cut here whole held =
      let len = ap length cut in
      let split = length-append newer (oldest ∷ o ∷ os) in
      let longer = length-append newer (x ∷ []) in
      let values' = written newer (o ∷ os) oldest cut here in
      let len' = ap length values' ∙ length-append newer (x ∷ o ∷ os) in
      record {
        newer = newer ++ x ∷ [];
        oldest = o;
        older = os;
        cut = values' ∙ sym (append_assoc newer (x ∷ []) (o ∷ os));
        here = mod-eq_of_lt (omega (arith, here, len, split)) ∙ omega (arith, here, longer);
        whole = omega (arith, len, split, len', whole);
        held = elim held [
          | inl (size, all) ↦
              inl (omega (arith, size, len, split, longer), ap (λ t. t ++ x ∷ []) all)
          | inr (size, (past, e)) ↦ inr (
            omega (arith, size, whole),
            (past ++ oldest ∷ [], ap (λ t. t ++ x ∷ []) e ∙ moved past (o ∷ os) newer oldest x),
          )
        ];
      }

  -- The last place is written, and the next one is the first.
  step_around :
      (newer : List ℕ) (oldest : ℕ)
      → window.values ≡ newer ++ oldest ∷ []
      → window.write_index ≡ length newer
      → length window.values ≡ capacity
      → ((window.size ≡ length newer) × (newer ≡ samples))
        ⊎ ((window.size ≡ capacity) × ((past : List ℕ) × (samples ≡ past ++ oldest ∷ [] ++ newer)))
      → IsRing (record_value window x) capacity (samples ++ x ∷ [])
  unfolding record_value
  step_around newer oldest cut here whole held =
      let len = ap length cut in
      let split = length-append newer (oldest ∷ []) in
      let values' = written newer [] oldest cut here in
      let len' = ap length values' ∙ length-append newer (x ∷ []) in
      let (y, ys, e) = snoc newer x in
      record {
        newer = [];
        oldest = y;
        older = ys;
        cut = values' ∙ e;
        here = around window.write_index _ (omega (arith, here, len, split));
        whole = omega (arith, len, split, len', whole);
        held = elim held [
          | inl (size, all) ↦ inr (
            omega (arith, size, len, split, whole),
            ([], ap (λ t. t ++ x ∷ []) (sym all) ∙ e ∙ sym (append-nil (y ∷ ys))),
          )
          | inr (size, (past, all)) ↦ inr (
            omega (arith, size, whole),
            (
              past ++ oldest ∷ [],
              ap (λ t. t ++ x ∷ []) all
                  ∙ append_assoc (past ++ oldest ∷ []) newer (x ∷ [])
                  ∙ ap (λ t. (past ++ oldest ∷ []) ++ t) e
                  ∙ sym (append-nil _),
            ),
          )
        ];
      }

step-IsRing :
    (window : LatencyWindow) (capacity : ℕ) (samples : List ℕ) (x : ℕ) (older newer : List ℕ)
    (oldest : ℕ)
    → window.values ≡ newer ++ oldest ∷ older
    → window.write_index ≡ length newer
    → length window.values ≡ capacity
    → ((window.size ≡ length newer) × (newer ≡ samples))
      ⊎ ((window.size ≡ capacity) × ((past : List ℕ) × (samples ≡ past ++ oldest ∷ older ++ newer)))
    → IsRing (record_value window x) capacity (samples ++ x ∷ [])
step-IsRing window capacity samples x [] newer oldest =
    step_around window capacity samples x newer oldest
step-IsRing window capacity samples x (o ∷ os) newer oldest =
    step_inside window capacity samples x newer os oldest o

record_value-IsRing :
    (window : LatencyWindow) (capacity : ℕ) (samples : List ℕ) (x : ℕ)
    → IsRing window capacity samples
    → IsRing (record_value window x) capacity (samples ++ x ∷ [])
record_value-IsRing window capacity samples x ring =
    step-IsRing window capacity samples x ring.older ring.newer ring.oldest ring.cut ring.here
      ring.whole ring.held

create-IsRing : (capacity : ℕ) → 0 < capacity → IsRing (create_latency_window capacity) capacity []
unfolding create_latency_window
create-IsRing zero h = absurd (omega (arith, h))
create-IsRing (suc n) h = record {
  newer = [];
  oldest = 0;
  older = zeros n;
  cut = refl;
  here = refl;
  whole = length-zeros (suc n);
  held = inl (refl, refl);
}

record_values-IsRing :
    (window : LatencyWindow) (capacity : ℕ) (samples more : List ℕ)
    → IsRing window capacity samples
    → IsRing (record_values window more) capacity (samples ++ more)
unfolding record_values
record_values-IsRing window capacity samples [] ring = rw (append-nil samples) ring
record_values-IsRing window capacity samples (x ∷ xs) ring =
    subst (IsRing (record_values (record_value window x) xs) capacity)
      (append_assoc samples (x ∷ []) xs)
      (record_values-IsRing (record_value window x) capacity (samples ++ x ∷ []) xs
        (record_value-IsRing window capacity samples x ring))

-- The samples end with these, up to the place where the array begins, and they are all of them
-- or as many as the window takes.
abbrev pub IsRecent : (recent : List ℕ) (capacity : ℕ) (samples : List ℕ) → Type 0
IsRecent recent capacity samples =
    (past : List ℕ) × (older : List ℕ) × (newer : List ℕ) × (samples ≡ past ++ older ++ newer)
    × (recent ≡ newer ++ older)
    × (length recent ≡ min (length samples) capacity)

ring-recent :
    (window : LatencyWindow) (capacity : ℕ) (samples : List ℕ)
    → IsRing window capacity samples
    → IsRecent (recent window) capacity samples
ring-recent window capacity samples ring = elim ring.held [
  | inl (size, all) ↦
      let kept : recent window ≡ ring.newer =
        ap (λ n. take n window.values) size
        ∙ ap (take (length ring.newer)) ring.cut
        ∙ take-append ring.newer (ring.oldest ∷ ring.older) in
      let len = ap length ring.cut ∙ length-append ring.newer (ring.oldest ∷ ring.older) in
      let whole = ring.whole in
      let size' = ap length kept in
      let size'' = ap length all in
      (
        [],
        [],
        ring.newer,
        sym all,
        kept ∙ sym (append-nil ring.newer),
        omega (arith, len, whole, size', size''),
      )
  | inr (size, (past, e)) ↦
      let kept : recent window ≡ ring.newer ++ ring.oldest ∷ ring.older =
        ap (λ n. take n window.values) (size ∙ sym ring.whole)
        ∙ take-all window.values
        ∙ ring.cut in
      let whole = ring.whole in
      let size' = ap length (kept ∙ sym ring.cut) in
      let sum = ap length e ∙ length-append (past ++ ring.oldest ∷ ring.older) ring.newer in
      let sum' = length-append past (ring.oldest ∷ ring.older) in
      let len = ap length ring.cut ∙ length-append ring.newer (ring.oldest ∷ ring.older) in
      (
        past,
        ring.oldest ∷ ring.older,
        ring.newer,
        e,
        kept,
        omega (arith, whole, size', sum, sum', len),
      )
]

-- A window that recorded samples holds the latest of them: all, or as many as it takes.
pub record_values-IsRecent :
    (capacity : ℕ) (samples : List ℕ)
    → 0 < capacity
    → IsRecent (recent (record_values (create_latency_window capacity) samples)) capacity samples
record_values-IsRecent capacity samples h =
    ring-recent (record_values (create_latency_window capacity) samples) capacity samples (
      record_values-IsRing (create_latency_window capacity) capacity [] samples
        (create-IsRing capacity h))

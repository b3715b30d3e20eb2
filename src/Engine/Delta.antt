-- ===== src/Engine/Delta.antt =====
-- What a client that applies an event sees: the difference of two captures gives the second back.
use command_relay.Common.{
  true, none, some, [], ◌∷◌, ◌++◌, nat_eq, list_eq, list_beq_iff, ◌≡◌, refl, arith, append-nil, ◌↔◌,
}
use command_relay.Engine.Watcher.{
  Text, Mode, snapshot, delta, PaneEvent, starts_with, slice_from, delta_chunk, compute_delta,
}

-- A client keeps the text of the pane: a snapshot replaces it, a delta is appended.
abbrev pub apply_chunk : Text → Mode → Text → Text
apply_chunk screen snapshot chunk = chunk
apply_chunk screen delta chunk = screen ++ chunk

abbrev pub apply_event : Text → PaneEvent → Text
apply_event screen e = apply_chunk screen e.mode e.chunk

append-slice_from :
    (current previous : Text)
    → starts_with current previous ≡ true
    → previous ++ slice_from current previous ≡ current
append-slice_from current [] h = refl
append-slice_from [] (p ∷ previous) h = cc
append-slice_from (c ∷ current) (p ∷ previous) h =
    ground (arith, append-slice_from current previous)

delta_chunk-some :
    (chunk : Text) (m : Mode) (c : Text)
    → delta_chunk chunk ≡ some (m, c)
    → (m ≡ delta) × (c ≡ chunk)
delta_chunk-some [] m c h = cc
delta_chunk-some (x ∷ xs) m c h = ground arith

delta_chunk-none : (chunk : Text) → delta_chunk chunk ≡ none → chunk ≡ []
delta_chunk-none [] h = refl
delta_chunk-none (x ∷ xs) h = cc

-- Where there is a difference, a client that holds the previous capture and applies it holds the
-- current one.
pub apply-compute_delta :
    (previous current : Text) (m : Mode) (chunk : Text)
    → compute_delta previous current ≡ some (m, chunk)
    → apply_chunk previous m chunk ≡ current
unfolding compute_delta
apply-compute_delta previous current m chunk h = ground (
  arith,
  append-slice_from current previous,
  delta_chunk-some (slice_from current previous) m chunk,
  list_beq_iff current previous,
)

-- No difference is reported exactly when the captures are equal.
pub compute_delta-none_iff :
    (previous current : Text) → (compute_delta previous current ≡ none) ↔ (current ≡ previous)
unfolding compute_delta
compute_delta-none_iff previous current = (
  λ h. ground (
    arith,
    append-slice_from current previous,
    delta_chunk-none (slice_from current previous),
    append-nil previous,
    list_beq_iff current previous,
  ),
  λ e. ground (arith, list_beq_iff current previous),
)

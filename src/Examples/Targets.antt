-- ===== src/Examples/Targets.antt =====
-- The parser of src/ssh/ssh-target.ts at work on `a@b`, where `::1` is the only address.
use command_relay.Common.{
  ℕ, true, some, List, [], ◌∷◌, if◌then◌else◌, ◌==◌, list_eq, list_beq_iff, ◌≡◌, ◌≢◌, refl, sym,
  subst, arith, Bool-cases, inl, inr,
}
use command_relay.Common.Text.{is_space}
use command_relay.Common.Units.{all}
use command_relay.SshTarget.{ParsedSshTarget, parsed, parse_ssh_target, are_labels}
use command_relay.SshTarget.Safe.{is_safe, written, parse_ssh_target_safe}

abbrev loopback : List ℕ
loopback = b':' ∷ b':' ∷ b'1' ∷ []

abbrev knows_loopback : List ℕ → ℕ
knows_loopback s = if s == loopback then 6 else 0

knows_loopback_safe : (s : List ℕ) → knows_loopback s ≢ 0 → all is_safe s ≡ true
knows_loopback_safe s h = elim (Bool-cases (s == loopback)) [
  | inl same ↦ subst (λ t. all is_safe t ≡ true) (sym ((list_beq_iff s loopback).0 same)) refl
  | inr other ↦ absurd (h (ground arith))
]

abbrev a_at_b : ParsedSshTarget
a_at_b = record { user = some (b'a' ∷ []); host = b'b' ∷ []; raw = b'a' ∷ b'@' ∷ b'b' ∷ [] }

a_at_b-parsed : parse_ssh_target knows_loopback a_at_b.raw ≡ parsed a_at_b
unfolding parse_ssh_target are_labels is_space
a_at_b-parsed = refl

-- The user may begin with a dash.
dash_user-parsed :
    parse_ssh_target knows_loopback (b'-' ∷ b'v' ∷ b'@' ∷ b'b' ∷ [])
    ≡ parsed (record {
      user = some (b'-' ∷ b'v' ∷ []);
      host = b'b' ∷ [];
      raw = b'-' ∷ b'v' ∷ b'@' ∷ b'b' ∷ [];
    })
unfolding parse_ssh_target are_labels is_space
dash_user-parsed = refl

parse_ssh_target_safe_example :
    (written a_at_b ≡ a_at_b.raw) × (a_at_b.raw ≡ a_at_b.raw) × (all is_safe a_at_b.raw ≡ true)
parse_ssh_target_safe_example =
    parse_ssh_target_safe knows_loopback knows_loopback_safe a_at_b.raw a_at_b a_at_b-parsed

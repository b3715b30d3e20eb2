-- ===== src/Proxy/Ports.antt =====
-- packages/proxy-core/src/index.ts: the ports that `parsePort` reads, against their decimal text.
use command_relay.Common.{
  ℕ, zero, suc, ◌+◌, ◌/◌, ◌%◌, ◌≤◌, ◌<◌, true, some, List, [], ◌∷◌, ◌≡◌, arith, Bool-cases, inl,
  inr, if_some, ltb, nat_eq,
}
use mathlib.Core.Option.{some-injective}
use command_relay.Common.Units.{number_from, digits_onto, decimal}
use command_relay.Proxy.{is_number, checked_port, parse_port}

digits_onto-digits :
    (fuel n : ℕ) (s : List ℕ) → is_number s ≡ true → is_number (digits_onto fuel n s) ≡ true
digits_onto-digits zero n s h = h
digits_onto-digits (suc fuel) n [] h = cc
digits_onto-digits (suc fuel) n (c ∷ s) h = elim (Bool-cases (ltb n 10)) [
  | inl small ↦ ground arith
  | inr large ↦
      let rest = digits_onto-digits fuel (n / 10) ((b'0' + n % 10) ∷ c ∷ s) (ground arith) in
      ground arith
]

digits_onto-number :
    (fuel n : ℕ) (s : List ℕ) → n < fuel → number_from 0 (digits_onto fuel n s) ≡ number_from n s
digits_onto-number zero n s h = omega arith
digits_onto-number (suc fuel) n s h = elim (Bool-cases (ltb n 10)) [
  | inl small ↦ ground arith
  | inr large ↦
      let rest = digits_onto-number fuel (n / 10) ((b'0' + n % 10) ∷ s) (ground arith) in
      ground arith
]

pub decimal-digits : (n : ℕ) → is_number (decimal n) ≡ true
unfolding decimal
decimal-digits n = elim (Bool-cases (ltb n 10)) [
  | inl small ↦ ground arith
  | inr large ↦
      let rest = digits_onto-digits n (n / 10) ((b'0' + n % 10) ∷ []) (ground arith) in ground arith
]

decimal-number : (n : ℕ) → number_from 0 (decimal n) ≡ n
unfolding decimal
decimal-number n = digits_onto-number (suc n) n [] (omega arith)

checked_port-some : (n : ℕ) → 0 < n → n ≤ 65535 → checked_port n ≡ some n
checked_port-some n low high = ground arith

checked_port-le : (n m : ℕ) → checked_port n ≡ some m → (0 < m) × (m ≤ 65535)
checked_port-le n m h = ground (arith, some-injective n m)

-- A port that is printed is read back.
pub parse_port-decimal : (n : ℕ) → 0 < n → n ≤ 65535 → parse_port (decimal n) ≡ some n
unfolding parse_port
parse_port-decimal n low high =
    rw (decimal-digits n, decimal-number n, parse_port) (checked_port-some n low high)

pub parse_port-le : (token : List ℕ) (n : ℕ) → parse_port token ≡ some n → (0 < n) × (n ≤ 65535)
unfolding parse_port
parse_port-le token n h =
    let (number, read) = if_some (is_number token) (checked_port (number_from 0 token)) n h in
    checked_port-le (number_from 0 token) n read

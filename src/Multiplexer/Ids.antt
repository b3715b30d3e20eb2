-- ===== src/Multiplexer/Ids.antt =====
-- Pane ids of src/runtime/runtime-multiplexer.ts: building one and taking it apart.
use Prim.Native.Char.{Char, code}
use command_relay.Common.{
  String, true, false, Option, none, some, ◌==◌, nat_eq, string_eq, ◌≡◌, refl, ap, subst, arith,
  Bool-cases, inl, inr,
}
use mathlib.Core.Option.{some-injective}
use text.Mathlib.TextEquality.{Char-path}
use command_relay.Multiplexer.{add_before, has_delimiter, join, split_at_delimiter}

pub split-join :
    (id raw : String) → has_delimiter id ≡ false → split_at_delimiter (join id raw) ≡ some (id, raw)
unfolding split_at_delimiter join has_delimiter
split-join String.[] raw h = refl
split-join (String.◌∷◌ c s) raw h = ground (arith, split-join s raw)

is_delimiter : (c : Char) → (code c == b':') ≡ true → ◌≡◌ {A = Char} ":" c
is_delimiter c h = Char-path ":" c (ground arith)

join-add_before :
    (c : Char) (s a b : String) (o : Option (String × String))
    → (code c == b':') ≡ false
    → ((x y : String) → o ≡ some (x, y) → (join x y ≡ s) × (has_delimiter x ≡ false))
    → add_before c o ≡ some (a, b)
    → (join a b ≡ String.◌∷◌ c s) × (has_delimiter a ≡ false)
unfolding join has_delimiter
join-add_before c s a b none n k h = cc
join-add_before c s a b (some (x, y)) n k h =
    let (joined, clean) = k x y refl in
    subst (λ (p : String × String). (join p.0 p.1 ≡ String.◌∷◌ c s) × (has_delimiter p.0 ≡ false))
      (some-injective _ _ h) (ap (λ t. String.◌∷◌ c t) joined, ground arith)

pub join-split :
    (s a b : String)
    → split_at_delimiter s ≡ some (a, b)
    → (join a b ≡ s) × (has_delimiter a ≡ false)
unfolding split_at_delimiter join has_delimiter
join-split String.[] a b h = cc
join-split (String.◌∷◌ c s) a b h = elim (Bool-cases (code c == b':')) [
  | inl here ↦
      let first : some ("", s) ≡ some (a, b) = ground arith in
      subst (λ (p : String × String). (join p.0 p.1 ≡ String.◌∷◌ c s) × (has_delimiter p.0 ≡ false))
        (some-injective _ _ first) (ap (λ d. String.◌∷◌ d s) (is_delimiter c here), refl)
  | inr there ↦
      join-add_before c s a b (split_at_delimiter s) there (λ x y. join-split s x y) (ground arith)
]

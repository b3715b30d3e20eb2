-- ===== src/SshTarget/Safe.antt =====
-- What an accepted target of src/ssh/ssh-target.ts is made of.
use command_relay.Common.{
  ℕ, suc, ◌⊎◌, Bool, true, false, ◌&&◌, ◌||◌, Option, none, some, List, [], ◌∷◌, ◌++◌,
  if◌then◌else◌, ◌==◌, nat_eq, length, tail, get_last?, head?, contains, ◌≡◌, ◌≢◌, refl, sym, ap,
  ◌∙◌, subst, arith, Bool-cases, inl, inr,
}
use mathlib.Core.Option.{some-injective}
use command_relay.Common.Text.{is_space}
use command_relay.Common.Units.{all, any, is_at, init, add_first}
use command_relay.SshTarget.{
  is_user_char, is_label_char, add_user, split_dots, are_labels, is_valid_hostname, empty_target,
  white_space, several_at, missing_user, bad_user, ParsedSshTarget, TargetError, TargetResult,
  rejected, parsed, split_at_sign, is_valid_ssh_host, parse_host, parse_parts, parse_ssh_target,
}

-- The characters of user names, host names and addresses, and the signs between them.
abbrev pub is_safe : ℕ → Bool
is_safe c = is_user_char c || c == b'@' || c == b'[' || c == b']' || c == b':' || c == b'%'

all-append : (p : ℕ → Bool) (s t : List ℕ) → all p s ≡ true → all p t ≡ true → all p (s ++ t) ≡ true
all-append p [] t h k = k
all-append p (c ∷ s) t h k = ground (arith, all-append p s t)

all-user : (s : List ℕ) → all is_user_char s ≡ true → all is_safe s ≡ true
all-user [] h = refl
all-user (c ∷ s) h = ground (arith, all-user s)

all-label : (s : List ℕ) → all is_label_char s ≡ true → all is_safe s ≡ true
all-label [] h = refl
all-label (c ∷ s) h = ground (arith, all-label s)

-- Every label of a list, by its characters.
abbrev all_labels : List (List ℕ) → Bool
all_labels [] = true
all_labels (l ∷ ls) = all is_label_char l && all_labels ls

are_labels-all : (ls : List (List ℕ)) → are_labels ls ≡ true → all_labels ls ≡ true
unfolding are_labels
are_labels-all [] h = refl
are_labels-all (l ∷ ls) h = ground (arith, are_labels-all ls)

add_first-labels :
    (c : ℕ) (ls : List (List ℕ))
    → all_labels (add_first c ls) ≡ true
    → (is_label_char c ≡ true) × (all_labels ls ≡ true)
add_first-labels c [] h = ground arith
add_first-labels c (l ∷ ls) h = ground arith

label_is_safe : (c : ℕ) → is_label_char c ≡ true → is_safe c ≡ true
label_is_safe c h = ground arith

split_dots_safe : (h : List ℕ) → all_labels (split_dots h) ≡ true → all is_safe h ≡ true
split_dots_safe [] e = refl
split_dots_safe (c ∷ s) e = elim (Bool-cases (c == b'.')) [
  | inl dot ↦ ground (arith, split_dots_safe s)
  | inr other ↦
      let (first, rest) = add_first-labels c (split_dots s) (ground arith) in
      ground (arith, label_is_safe c first, split_dots_safe s rest)
]

hostname_safe : (h : List ℕ) → is_valid_hostname h ≡ true → all is_safe h ≡ true
unfolding is_valid_hostname
hostname_safe h e = split_dots_safe h (are_labels-all (split_dots h) (ground arith))

-- Text that ends with `d` is what is before it, and `d`.
init_safe :
    (s : List ℕ)
    → is_at (get_last? s) b']' ≡ true
    → all is_safe (init s) ≡ true
    → all is_safe s ≡ true
init_safe [] e h = refl
init_safe (c ∷ []) e h = ground arith
init_safe (c ∷ d ∷ s) e h = ground (arith, init_safe (d ∷ s))

bracketed_safe :
    (h : List ℕ)
    → is_at (head? h) b'[' ≡ true
    → is_at (get_last? h) b']' ≡ true
    → all is_safe (init (tail h)) ≡ true
    → all is_safe h ≡ true
bracketed_safe [] a z e = refl
bracketed_safe (c ∷ []) a z e = ground arith
bracketed_safe (c ∷ d ∷ s) a z e = ground (arith, init_safe (d ∷ s))

passed_test :
    (b : Bool) (e : TargetError) (r : TargetResult) (t : ParsedSshTarget)
    → (if b then rejected e else r) ≡ parsed t
    → (b ≡ false) × (r ≡ parsed t)
passed_test true e r t h = cc
passed_test false e r t h = (refl, h)

passed_last :
    (b : Bool) (e : TargetError) (r : TargetResult) (t : ParsedSshTarget)
    → (if b then r else rejected e) ≡ parsed t
    → (b ≡ true) × (r ≡ parsed t)
passed_last true e r t h = (refl, h)
passed_last false e r t h = cc

parsed-injective : (a b : ParsedSshTarget) → Path TargetResult (parsed a) (parsed b) → a ≡ b
parsed-injective a b h = cc

-- The target as it is written: the user and `@`, if there is a user, and the host.
abbrev pub written : ParsedSshTarget → List ℕ
written t = elim t.user [ none ↦ t.host | some user ↦ user ++ b'@' ∷ t.host ]

add_user_joined :
    (c : ℕ) (s user host : List ℕ) (o : Option (List ℕ × List ℕ))
    → ((u h : List ℕ) → o ≡ some (u, h) → u ++ b'@' ∷ h ≡ s)
    → add_user c o ≡ some (user, host)
    → user ++ b'@' ∷ host ≡ c ∷ s
add_user_joined c s user host none k h = cc
add_user_joined c s user host (some (u, v)) k h =
    subst (λ (p : List ℕ × List ℕ). p.0 ++ b'@' ∷ p.1 ≡ c ∷ s) (some-injective _ _ h)
      (ap (λ l. c ∷ l) (k u v refl))

split_at_sign_joined :
    (s user host : List ℕ) → split_at_sign s ≡ some (user, host) → user ++ b'@' ∷ host ≡ s
unfolding split_at_sign
split_at_sign_joined [] user host h = cc
split_at_sign_joined (c ∷ s) user host h = elim (Bool-cases (c == b'@')) [
  | inl sign ↦
      let first : some ([], s) ≡ some (user, host) = ground arith in
      subst (λ (p : List ℕ × List ℕ). p.0 ++ b'@' ∷ p.1 ≡ c ∷ s) (some-injective _ _ first)
        (ground arith)
  | inr other ↦
      add_user_joined c s user host (split_at_sign s) (λ u v k. split_at_sign_joined s u v k)
        (ground arith)
]

bracket_parts :
    (a z n q r : Bool)
    → (a || z) ≡ true
    → (if a || z then a && z && n && q else r) ≡ true
    → (a ≡ true) × (z ≡ true) × (q ≡ true)
bracket_parts a z n q r h k = ground arith

plain_parts :
    (b colon four quad name r : Bool)
    → b ≡ false
    → (if b
        then r
        else if colon
        then false
        else if four
        then true
        else if quad
        then false
        else name)
      ≡ true
    → (four ≡ true) ⊎ (name ≡ true)
plain_parts b colon four quad name r h k = ground arith

module _ (is_ip : List ℕ → ℕ) (address : (s : List ℕ) → is_ip s ≢ 0 → all is_safe s ≡ true) where
  address_safe : (n : ℕ) (s : List ℕ) → (is_ip s == suc n) ≡ true → all is_safe s ≡ true
  address_safe n s h = address s (λ z. ground arith)

  host_safe : (h : List ℕ) → is_valid_ssh_host is_ip h ≡ true → all is_safe h ≡ true
  unfolding is_valid_ssh_host
  host_safe h e = elim (Bool-cases (is_at (head? h) b'[' || is_at (get_last? h) b']')) [
    | inl bracket ↦
        let (opened, closed, six) = bracket_parts _ _ _ _ _ bracket e in
        bracketed_safe h opened closed (address_safe 5 (init (tail h)) six)
    | inr plain ↦ elim (plain_parts _ _ _ _ _ _ plain e) [
      | inl four ↦ address_safe 3 h four
      | inr name ↦ hostname_safe h name
    ]
  ]

  parse_host_safe :
      (raw host : List ℕ) (user : Option (List ℕ)) (t : ParsedSshTarget)
      → parse_host is_ip raw user host ≡ parsed t
      → (t ≡ record { user = user; host = host; raw = raw }) × (all is_safe host ≡ true)
  parse_host_safe raw host user t h =
      let (_, rest) = passed_test _ _ _ t h in
      let (valid, same) = passed_last _ _ _ t rest in
      (sym (parsed-injective _ t same), host_safe host valid)

  parse_parts_safe :
      (raw : List ℕ) (o : Option (List ℕ × List ℕ)) (t : ParsedSshTarget)
      → split_at_sign raw ≡ o
      → parse_parts is_ip raw o ≡ parsed t
      → (written t ≡ raw) × (t.raw ≡ raw) × (all is_safe raw ≡ true)
  parse_parts_safe raw none t s h =
      let (same, safe) = parse_host_safe raw raw none t h in
      (ap written same, ap (λ (x : ParsedSshTarget). x.raw) same, safe)
  parse_parts_safe raw (some (user, host)) t s h =
      let (_, several) = passed_test (contains b'@' host) several_at _ t h in
      let (_, missing) = passed_test (length user == 0) missing_user _ t several in
      let (user_ok, rest) = passed_last (all is_user_char user) bad_user _ t missing in
      let (same, safe) = parse_host_safe raw host (some user) t rest in
      let joined = split_at_sign_joined raw user host s in
      (
        ap written same ∙ joined,
        ap (λ (x : ParsedSshTarget). x.raw) same,
        subst (λ l. all is_safe l ≡ true) joined
            (all-append is_safe user (b'@' ∷ host) (all-user user user_ok) safe),
      )

  -- An accepted target is read without loss, as the host, or as the user, an `@` and the host; and
  -- it is made of letters, digits and `._-@[]:%` only, if an address that `is_ip` accepts is.
  pub parse_ssh_target_safe :
      (raw : List ℕ) (t : ParsedSshTarget)
      → parse_ssh_target is_ip raw ≡ parsed t
      → (written t ≡ raw) × (t.raw ≡ raw) × (all is_safe raw ≡ true)
  unfolding parse_ssh_target
  parse_ssh_target_safe raw t h =
      let (_, nonempty) = passed_test (length raw == 0) empty_target _ t h in
      let (_, rest) = passed_test (any is_space raw) white_space _ t nonempty in
      parse_parts_safe raw (split_at_sign raw) t refl rest

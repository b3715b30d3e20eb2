-- ===== src/SshTarget.antt =====
-- src/ssh/ssh-target.ts: strict parsing of SSH targets and profile names. Text is a list of UTF-16
-- code units; `isIP` of node:net is a parameter.
pub mod Safe
use command_relay.Common.{
  ℕ, ◌<◌, Bool, true, false, not, ◌&&◌, ◌||◌, Option, none, some, List, [], ◌∷◌, ◌++◌, ltb, leb,
  if◌then◌else◌, ◌==◌, nat_eq, length, tail, get_last?, head?, contains,
}
use command_relay.Common.Text.{is_space, is_digit}
use command_relay.Common.Units.{all, any, is_at, init, split_units}

abbrev pub is_letter_or_digit : ℕ → Bool
is_letter_or_digit c = (leb b'A' c && leb c b'Z') || (leb b'a' c && leb c b'z') || is_digit c

-- `[A-Za-z0-9._-]`
abbrev pub is_user_char : ℕ → Bool
is_user_char c = is_letter_or_digit c || c == b'.' || c == b'_' || c == b'-'

-- `[A-Za-z0-9-]`
abbrev pub is_label_char : ℕ → Bool
is_label_char c = is_letter_or_digit c || c == b'-'

-- `split(".")`
abbrev pub split_dots : List ℕ → List (List ℕ)
split_dots s = split_units b'.' s

abbrev is_number : List ℕ → Bool
is_number [] = false
is_number (c ∷ s) = all is_digit (c ∷ s)

-- `/^\d+\.\d+\.\d+\.\d+$/`
abbrev is_dotted_quad : List (List ℕ) → Bool
is_dotted_quad (a ∷ b ∷ c ∷ d ∷ []) = is_number a && is_number b && is_number c && is_number d
is_dotted_quad _ = false

-- The loop of `isValidHostname`.
unfoldable pub are_labels : List (List ℕ) → Bool
are_labels [] = true
are_labels (l ∷ ls) =
    not (length l == 0 || ltb 63 (length l))
    && all is_label_char l
    && not (is_at (head? l) b'-' || is_at (get_last? l) b'-')
    && are_labels ls

unfoldable pub is_valid_hostname : List ℕ → Bool
unfolding are_labels
is_valid_hostname h =
    not (length h == 0 || ltb 253 (length h))
    && not (is_at (head? h) b'.' || is_at (get_last? h) b'.')
    && are_labels (split_dots h)

pub record ParsedSshTarget : Type 0 where
  pub user : Option (List ℕ)
  pub host : List ℕ
  pub raw : List ℕ

pub data TargetError : Type 0 where
  empty_target white_space several_at missing_user bad_user missing_host bad_host : TargetError

pub data TargetResult : Type 0 where
  rejected : TargetError → TargetResult
  parsed : ParsedSshTarget → TargetResult

abbrev pub add_user : ℕ → Option (List ℕ × List ℕ) → Option (List ℕ × List ℕ)
add_user c none = none
add_user c (some (user, host)) = some (c ∷ user, host)

-- The text before and after the first `@`.
unfoldable pub split_at_sign : List ℕ → Option (List ℕ × List ℕ)
split_at_sign [] = none
split_at_sign (c ∷ s) =
    let rest = split_at_sign s in if c == b'@' then some ([], s) else add_user c rest

module _ (is_ip : List ℕ → ℕ) where
  unfoldable pub is_valid_ssh_host : List ℕ → Bool
  unfolding is_valid_hostname
  is_valid_ssh_host h =
      if is_at (head? h) b'[' || is_at (get_last? h) b']'
      then is_at (head? h) b'['
        && is_at (get_last? h) b']'
        && ltb 0 (length (init (tail h)))
        && is_ip (init (tail h)) == 6
      else if any (λ c. c == b':') h
      then false
      else if is_ip h == 4
      then true
      else if is_dotted_quad (split_dots h)
      then false
      else is_valid_hostname h

  -- The checks of the host, after those of the user.
  abbrev pub parse_host : (raw : List ℕ) → Option (List ℕ) → List ℕ → TargetResult
  parse_host raw user host =
      if length host == 0
      then rejected missing_host
      else if is_valid_ssh_host host
      then parsed (record { user = user; host = host; raw = raw })
      else rejected bad_host

  abbrev pub parse_parts : (raw : List ℕ) → Option (List ℕ × List ℕ) → TargetResult
  parse_parts raw none = parse_host raw none raw
  parse_parts raw (some (user, host)) =
      if contains b'@' host
      then rejected several_at
      else if length user == 0
      then rejected missing_user
      else if all is_user_char user
      then parse_host raw (some user) host
      else rejected bad_user

  unfoldable pub parse_ssh_target : List ℕ → TargetResult
  unfolding is_valid_ssh_host split_at_sign
  parse_ssh_target raw =
      if length raw == 0
      then rejected empty_target
      else if any is_space raw
      then rejected white_space
      else parse_parts raw (split_at_sign raw)

-- `isValidSshProfileName`; the later tests of the source cannot fail after the pattern.
unfoldable pub is_valid_ssh_profile_name : List ℕ → Bool
unfolding is_space
is_valid_ssh_profile_name [] = false
is_valid_ssh_profile_name (c ∷ s) =
    is_letter_or_digit c
    && all is_user_char s
    && leb (length s) 127
    && not (any is_space (c ∷ s))
    && not (contains b'@' (c ∷ s))

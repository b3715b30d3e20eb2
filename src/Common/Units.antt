-- ===== src/Common/Units.antt =====
-- Text as its UTF-16 code units, where the program cuts it at a place or looks for a part of it.
-- A character of the source is its code here, and `toLowerCase` lowers the letters A to Z.
use Prim.Native.Nat.{ℕ, zero, suc, ◌+◌, ◌-◌, ◌*◌, ◌/◌, ◌%◌}
use mathlib.Core.Bool.{Bool, true, false, ◌&&◌, ◌||◌}
use mathlib.Core.Option.{Option, none, some}
use mathlib.Core.List.{List, [], ◌∷◌}
use command_relay.Common.Lists.{length, list_eq}
use command_relay.Common.Tests.{ℤ, pos, negsuc, ltb, leb, if◌then◌else◌, ◌==◌, nat_eq}
use command_relay.Common.Text.{is_space, is_digit, lower_code}

abbrev pub all : (ℕ → Bool) → List ℕ → Bool
all p [] = true
all p (c ∷ s) = p c && all p s

abbrev pub any : (ℕ → Bool) → List ℕ → Bool
any p [] = false
any p (c ∷ s) = p c || any p s

abbrev pub is_at : Option ℕ → ℕ → Bool
is_at none d = false
is_at (some c) d = c == d

-- `slice(0, -1)`
abbrev pub init : List ℕ → List ℕ
init [] = []
init (c ∷ []) = []
init (c ∷ d ∷ s) = c ∷ init (d ∷ s)

-- `trim`, by its two ends
unfoldable pub trim_left : List ℕ → List ℕ
unfolding is_space
trim_left [] = []
trim_left (c ∷ s) = let rest = trim_left s in if is_space c then rest else c ∷ s

abbrev pub keep_end : ℕ → List ℕ → List ℕ
keep_end c [] = if is_space c then [] else c ∷ []
keep_end c (d ∷ s) = c ∷ d ∷ s

unfoldable pub trim_right : List ℕ → List ℕ
unfolding is_space
trim_right [] = []
trim_right (c ∷ s) = keep_end c (trim_right s)

unfoldable pub trim_units : List ℕ → List ℕ
unfolding trim_left trim_right
trim_units s = trim_right (trim_left s)

unfoldable pub to_lower : List ℕ → List ℕ
unfolding lower_code
to_lower [] = []
to_lower (c ∷ s) = lower_code c ∷ to_lower s

abbrev pub starts_with : List ℕ → List ℕ → Bool
starts_with [] s = true
starts_with (c ∷ p) [] = false
starts_with (c ∷ p) (d ∷ s) = c == d && starts_with p s

abbrev pub drop : ℕ → List ℕ → List ℕ
drop zero s = s
drop (suc n) [] = []
drop (suc n) (c ∷ s) = drop n s

-- `s.endsWith(part)`
abbrev pub ends_with : (part : List ℕ) → List ℕ → Bool
ends_with part s = leb (length part) (length s) && drop (length s - length part) s == part

-- `s.includes(part)`
abbrev pub includes : List ℕ → List ℕ → Bool
includes part [] = starts_with part []
includes part (c ∷ s) = starts_with part (c ∷ s) || includes part s

abbrev pub add_before : ℕ → Option (List ℕ × List ℕ) → Option (List ℕ × List ℕ)
add_before c none = none
add_before c (some (before, after)) = some (c ∷ before, after)

-- The text before and after the first `d`.
abbrev pub cut : (d : ℕ) → List ℕ → Option (List ℕ × List ℕ)
cut d [] = none
cut d (c ∷ s) = let rest = cut d s in if c == d then some ([], s) else add_before c rest

abbrev pub count : ℕ → List ℕ → ℕ
count d [] = 0
count d (c ∷ s) = (if c == d then 1 else 0) + count d s

abbrev pub add_first : ℕ → List (List ℕ) → List (List ℕ)
add_first c [] = (c ∷ []) ∷ []
add_first c (l ∷ ls) = (c ∷ l) ∷ ls

-- `s.split(d)` for a character `d`
abbrev pub split_units : (d : ℕ) → List ℕ → List (List ℕ)
split_units d [] = [] ∷ []
split_units d (c ∷ s) = let rest = split_units d s in if c == d then [] ∷ rest else add_first c rest

-- `Number.parseInt(s, 10)` of text that begins with digits, after the digits read so far.
abbrev pub number_from : ℕ → List ℕ → ℕ
number_from n [] = n
number_from n (c ∷ s) =
    let more = number_from (n * 10 + (c - b'0')) s in if is_digit c then more else n

abbrev negate : ℕ → ℤ
negate n = elim n [ zero ↦ pos 0 | suc m ↦ negsuc m ]

abbrev unsigned : (ℕ → ℤ) → List ℕ → Option ℤ
unsigned sign [] = none
unsigned sign (c ∷ s) = if is_digit c then some (sign (number_from 0 (c ∷ s))) else none

abbrev signed : List ℕ → Option ℤ
signed [] = none
signed (c ∷ s) =
    if c == b'-'
    then unsigned negate s
    else if c == b'+'
    then unsigned pos s
    else unsigned pos (c ∷ s)

-- `Number.parseInt(s, 10)`; `none` is NaN. Digits past the range of a double are kept exactly.
unfoldable pub parse_int : List ℕ → Option ℤ
unfolding trim_left
parse_int s = signed (trim_left s)

-- A number as template literals write it; the fuel bounds the number of digits.
abbrev pub digits_onto : ℕ → ℕ → List ℕ → List ℕ
digits_onto zero n s = s
digits_onto (suc fuel) n s =
    let rest = digits_onto fuel (n / 10) ((b'0' + n % 10) ∷ s) in
    if ltb n 10 then (b'0' + n) ∷ s else rest

unfoldable pub decimal : ℕ → List ℕ
decimal n = digits_onto (suc n) n []

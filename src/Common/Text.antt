-- ===== src/Common/Text.antt =====
-- What the program uses of JavaScript's strings: `trim`, `toLowerCase` on ASCII, `parseInt`, and
-- the length of the UTF-8 encoding. A native string has no lone surrogates.
use Prim.Native.Nat.{ℕ, suc, ◌+◌, ◌-◌, ◌*◌}
use Prim.Native.Char.{Char, code}
use Prim.Native.String.{String}
use mathlib.Core.Bool.{Bool, ◌&&◌, ◌||◌}
use mathlib.Core.Option.{Option, none, some}
use mathlib.Core.List.{List, [], ◌∷◌}
use command_relay.Common.Tests.{ltb, leb, if◌then◌else◌, ◌==◌, nat_eq, ℤ, pos, negsuc}

abbrev pub codes : String → List ℕ
codes String.[] = []
codes (String.◌∷◌ c s) = code c ∷ codes s

-- White space and line terminators, as `trim`, `parseInt` and `\s` read them.
unfoldable pub is_space : ℕ → Bool
is_space c =
    (leb 9 c && leb c 13)
    || c == 32
    || c == 160
    || c == 5760
    || (leb 8192 c && leb c 8202)
    || c == 8232
    || c == 8233
    || c == 8239
    || c == 8287
    || c == 12288
    || c == 65279

unfoldable pub trim_start : String → String
unfolding is_space
trim_start String.[] = String.[]
trim_start (String.◌∷◌ c s) =
    let rest = trim_start s in if is_space (code c) then rest else String.◌∷◌ c s

abbrev cons_end : Char → String → String
cons_end c String.[] = if is_space (code c) then String.[] else String.◌∷◌ c String.[]
cons_end c (String.◌∷◌ d s) = String.◌∷◌ c (String.◌∷◌ d s)

unfoldable pub trim_end : String → String
unfolding is_space
trim_end String.[] = String.[]
trim_end (String.◌∷◌ c s) = cons_end c (trim_end s)

unfoldable pub trim : String → String
unfolding trim_start trim_end
trim s = trim_end (trim_start s)

abbrev pub is_digit : ℕ → Bool
is_digit c = leb b'0' c && leb c b'9'

-- The longest prefix of digits, after the digits read so far.
unfoldable pub parse_digits : ℕ → String → ℕ
parse_digits n String.[] = n
parse_digits n (String.◌∷◌ c s) =
    let more = parse_digits (n * 10 + (code c - b'0')) s in if is_digit (code c) then more else n

abbrev negate : ℕ → ℤ
negate n = elim n [ Prim.Native.Nat.zero ↦ pos 0 | suc m ↦ negsuc m ]

-- A number that must begin with a digit.
abbrev unsigned : (ℕ → ℤ) → String → Option ℤ
unsigned sign String.[] = none
unsigned sign (String.◌∷◌ c s) =
    if is_digit (code c) then some (sign (parse_digits 0 (String.◌∷◌ c s))) else none

abbrev signed : String → Option ℤ
signed String.[] = none
signed (String.◌∷◌ c s) =
    if code c == b'-'
    then unsigned negate s
    else if code c == b'+'
    then unsigned pos s
    else unsigned pos (String.◌∷◌ c s)

-- `Number.parseInt(s, 10)`; `none` is NaN. Digits past the range of a double are kept exactly.
unfoldable pub parse_int : String → Option ℤ
unfolding trim_start parse_digits
parse_int s = signed (trim_start s)

-- `toLowerCase` of the letters A to Z.
unfoldable pub lower_code : ℕ → ℕ
lower_code c = if leb b'A' c && leb c b'Z' then c + 32 else c

-- `Buffer.byteLength(s, "utf8")`
unfoldable pub byte_length : String → ℕ
byte_length String.[] = 0
byte_length (String.◌∷◌ c s) =
    (if ltb (code c) 128
      then 1
      else if ltb (code c) 2048
      then 2
      else if ltb (code c) 65536
      then 3
      else 4)
    + byte_length s

-- `s.length`, in UTF-16 code units
unfoldable pub units : String → ℕ
units String.[] = 0
units (String.◌∷◌ c s) = (if ltb (code c) 65536 then 1 else 2) + units s

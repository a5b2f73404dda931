-- ===== src/Prelude/Text.antt =====
-- Text as its bytes: decimal numbers (strconv), strings.Split on one byte, and comparison.
use Prim.Native.Nat.{ℕ, zero, suc, ◌+◌, ◌-◌, ◌*◌, ◌/◌, ◌%◌, ◌≤◌}
use Prim.Native.Char.{code}
use Prim.Native.String.{String}
use mathlib.Core.Path.{◌≡◌}
use mathlib.Core.Logic.{◌↔◌}
use mathlib.Core.Bool.{not, Bool, true, false, ◌&&◌, ◌||◌}
use mathlib.Core.Option.{Option, none, some}
use mathlib.Core.List.{List, [], ◌∷◌, ◌++◌}
use native.Mathlib.Omega.{arith}
use wfc_server.Prelude.Tests.{ltb, leb, ◌==◌, if◌then◌else◌}
use wfc_server.Prelude.Words.{Bytes}
use wfc_server.Prelude.Int.{ℤ, pos, negsuc}

-- The bytes of a literal, which is ASCII.
abbrev pub codes : String → Bytes
codes String.[] = []
codes (String.◌∷◌ c s) = code c ∷ codes s

unfoldable pub text_eq : Bytes → Bytes → Bool
text_eq [] [] = true
text_eq [] (y ∷ t) = false
text_eq (x ∷ s) [] = false
text_eq (x ∷ s) (y ∷ t) = x == y && text_eq s t

pub text_eq_iff : (s t : Bytes) → (text_eq s t ≡ true) ↔ (s ≡ t)
unfolding text_eq
text_eq_iff [] [] = ground arith
text_eq_iff [] (y ∷ t) = ground arith
text_eq_iff (x ∷ s) [] = ground arith
text_eq_iff (x ∷ s) (y ∷ t) = ground (arith, text_eq_iff s t)

-- strconv.Itoa of a number that is not negative. `n` rounds are more than its digits.
unfoldable pub itoa_loop : ℕ → ℕ → Bytes
itoa_loop zero n = []
itoa_loop (suc fuel) n =
    let front = itoa_loop fuel (n / 10) in
    if ltb n 10 then (b'0' + n) ∷ [] else front ++ (b'0' + n % 10) ∷ []

unfoldable pub itoa : ℕ → Bytes
unfolding itoa_loop
itoa n = itoa_loop (suc n) n

abbrev pub is_digit : ℕ → Bool
is_digit c = leb b'0' c && leb c b'9'

-- The digits of a text, behind those already read.
unfoldable pub parse_digits : ℕ → Bytes → Option ℕ
parse_digits acc [] = some acc
parse_digits acc (c ∷ s) =
    let rest = parse_digits (acc * 10 + (c - b'0')) s in if is_digit c then rest else none

abbrev in_range : ℕ → (ℕ → ℤ) → Option ℕ → Option ℤ
in_range limit sign none = none
in_range limit sign (some n) = if leb n limit then some (sign n) else none

abbrev negated : ℕ → ℤ
negated zero = pos 0
negated (suc n) = negsuc n

-- strconv.Atoi, which parses a 64-bit int: a sign may stand first, one digit at least follows.
unfoldable pub atoi : Bytes → Option ℤ
unfolding parse_digits
atoi [] = none
atoi (c ∷ []) = in_range 0x7fffffffffffffff pos (parse_digits 0 (c ∷ []))
atoi (c ∷ d ∷ s) =
    if c == b'-'
    then in_range 0x8000000000000000 negated (parse_digits 0 (d ∷ s))
    else if c == b'+'
    then in_range 0x7fffffffffffffff pos (parse_digits 0 (d ∷ s))
    else in_range 0x7fffffffffffffff pos (parse_digits 0 (c ∷ d ∷ s))

-- The digits of a text, as strconv.ParseUint reads them: it stops with a range error, here 2 ^ 64,
-- at the first digit that leaves 64 bits, even if no digit follows later.
unfoldable pub read_uint : ℕ → Bytes → Option ℕ
read_uint acc [] = some acc
read_uint acc (c ∷ s) =
    let n = acc * 10 + (c - b'0') in
    let rest = read_uint n s in
    if not (is_digit c)
    then none
    else if ltb n 0x10000000000000000
    then rest
    else some 0x10000000000000000

abbrev clamped : ℕ → (ℕ → ℤ) → Option ℕ → ℤ
clamped limit sign none = pos 0
clamped limit sign (some n) = if leb n limit then sign n else sign limit

-- The int that strconv.Atoi returns, with an error or without one: 0 where the text is no number,
-- and the nearest int where the number is out of range.
unfoldable pub atoi_value : Bytes → ℤ
unfolding read_uint
atoi_value [] = pos 0
atoi_value (c ∷ []) = clamped 0x7fffffffffffffff pos (read_uint 0 (c ∷ []))
atoi_value (c ∷ d ∷ s) =
    if c == b'-'
    then clamped 0x8000000000000000 negated (read_uint 0 (d ∷ s))
    else if c == b'+'
    then clamped 0x7fffffffffffffff pos (read_uint 0 (d ∷ s))
    else clamped 0x7fffffffffffffff pos (read_uint 0 (c ∷ d ∷ s))

-- strings.Contains for one byte.
unfoldable pub contains : Bytes → ℕ → Bool
contains [] c = false
contains (x ∷ s) c = x == c || contains s c

abbrev cons_first : ℕ → List Bytes → List Bytes
cons_first x [] = (x ∷ []) ∷ []
cons_first x (p ∷ ps) = (x ∷ p) ∷ ps

-- strings.Split on a separator of one byte.
unfoldable pub split : Bytes → ℕ → List Bytes
split [] c = [] ∷ []
split (x ∷ s) c = if x == c then [] ∷ split s c else cons_first x (split s c)

abbrev pub IsDigit : ℕ → Type 0
IsDigit c = (b'0' ≤ c) × (c ≤ b'9')

-- ===== src/Prelude/TextLaws.antt =====
-- What the functions of Prelude.Text promise: printing and parsing a number, and splitting.
use Prim.Native.Nat.{ℕ, zero, suc, ◌+◌, ◌-◌, ◌*◌, ◌/◌, ◌%◌, ◌≤◌, ◌<◌}
use mathlib.Core.Path.{◌≡◌, refl, ap, ◌∙◌}
use mathlib.Core.Logic.{◌≢◌, inl, inr}
use mathlib.Core.Bool.{false, ◌||◌}
use mathlib.Core.Option.{some}
use mathlib.Core.List.{[], ◌∷◌, ◌++◌}
use native.Mathlib.Omega.{arith}
use wfc_server.Prelude.Text.{
  itoa_loop, itoa, parse_digits, atoi, read_uint, atoi_value, contains, split, IsDigit,
}
use wfc_server.Prelude.Tests.{ltb→lt, ltb, Bool-cases}
use wfc_server.Prelude.Lists.{All, All-append}
use wfc_server.Prelude.Words.{Bytes}
use wfc_server.Prelude.Int.{pos}

itoa_loop-IsDigit : (fuel n : ℕ) → All IsDigit (itoa_loop fuel n)
unfolding itoa_loop
itoa_loop-IsDigit zero n = tt
itoa_loop-IsDigit (suc fuel) n = elim (Bool-cases (ltb n 10)) [
  | inl e ↦ rw e (omega (arith, ltb→lt n 10 e))
  | inr e ↦ rw e (
      All-append IsDigit (itoa_loop fuel (n / 10)) ((b'0' + n % 10) ∷ [])
        (itoa_loop-IsDigit fuel (n / 10)) (omega arith))
]

-- A number is written in digits alone.
pub itoa-IsDigit : (n : ℕ) → All IsDigit (itoa n)
unfolding itoa
itoa-IsDigit n = itoa_loop-IsDigit (suc n) n

parse_digits-snoc :
    (acc : ℕ) (s : Bytes) (k d : ℕ)
    → parse_digits acc s ≡ some k
    → d < 10
    → parse_digits acc (s ++ (b'0' + d) ∷ []) ≡ some (k * 10 + d)
unfolding parse_digits
parse_digits-snoc acc [] k d e h = ground arith
parse_digits-snoc acc (c ∷ s) k d e h =
    ground (arith, parse_digits-snoc (acc * 10 + (c - b'0')) s k d)

parse_digits-itoa_loop : (fuel n : ℕ) → n < fuel → parse_digits 0 (itoa_loop fuel n) ≡ some n
unfolding itoa_loop
parse_digits-itoa_loop zero n h = absurd (omega arith)
parse_digits-itoa_loop (suc fuel) n h = elim (Bool-cases (ltb n 10)) [
  | inl e ↦ rw e (unfold parse_digits in ground (arith, ltb→lt n 10 e))
  | inr e ↦ rw e (
      parse_digits-snoc 0 (itoa_loop fuel (n / 10)) (n / 10) (n % 10)
        (parse_digits-itoa_loop fuel (n / 10) (ground arith)) (omega arith)
      ∙ ap some (omega arith))
]

pub parse_digits-itoa : (n : ℕ) → parse_digits 0 (itoa n) ≡ some n
unfolding itoa
parse_digits-itoa n = parse_digits-itoa_loop (suc n) n (omega arith)

atoi_digits :
    (s : Bytes) (n : ℕ)
    → All IsDigit s
    → parse_digits 0 s ≡ some n
    → s ≢ []
    → n ≤ 0x7fffffffffffffff
    → atoi s ≡ some (pos n)
unfolding atoi
atoi_digits [] n h e ne l = absurd (ne refl)
atoi_digits (c ∷ []) n h e ne l = ground arith
atoi_digits (c ∷ d ∷ s) n h e ne l = ground arith

snoc-ne-nil : (s : Bytes) (d : ℕ) → s ++ d ∷ [] ≢ []
snoc-ne-nil [] d e = cc
snoc-ne-nil (x ∷ s) d e = cc

itoa-ne-nil : (n : ℕ) → itoa n ≢ []
unfolding itoa itoa_loop
itoa-ne-nil n e = ground (arith, snoc-ne-nil (itoa_loop n (n / 10)) (b'0' + n % 10))

-- strconv.Atoi reads what strconv.Itoa wrote.
pub atoi-itoa : (n : ℕ) → n ≤ 0x7fffffffffffffff → atoi (itoa n) ≡ some (pos n)
atoi-itoa n h = atoi_digits (itoa n) n (itoa-IsDigit n) (parse_digits-itoa n) (itoa-ne-nil n) h

parse_digits-le : (acc : ℕ) (s : Bytes) (n : ℕ) → parse_digits acc s ≡ some n → acc ≤ n
unfolding parse_digits
parse_digits-le acc [] n e = ground arith
parse_digits-le acc (c ∷ s) n e = ground (arith, parse_digits-le (acc * 10 + (c - b'0')) s n)

read_uint_digits :
    (acc : ℕ) (s : Bytes) (n : ℕ)
    → parse_digits acc s ≡ some n
    → n < 0x10000000000000000
    → read_uint acc s ≡ some n
unfolding parse_digits read_uint
read_uint_digits acc [] n e h = ground arith
read_uint_digits acc (c ∷ s) n e h =
    let next = acc * 10 + (c - b'0') in
    ground (arith, read_uint_digits next s n, parse_digits-le next s n)

atoi_value_digits :
    (s : Bytes) (n : ℕ)
    → All IsDigit s
    → read_uint 0 s ≡ some n
    → s ≢ []
    → n ≤ 0x7fffffffffffffff
    → atoi_value s ≡ pos n
unfolding atoi_value
atoi_value_digits [] n h e ne l = absurd (ne refl)
atoi_value_digits (c ∷ []) n h e ne l = ground arith
atoi_value_digits (c ∷ d ∷ s) n h e ne l = ground arith

pub atoi_value-itoa : (n : ℕ) → n ≤ 0x7fffffffffffffff → atoi_value (itoa n) ≡ pos n
atoi_value-itoa n h =
    atoi_value_digits (itoa n) n (itoa-IsDigit n)
      (read_uint_digits 0 (itoa n) n (parse_digits-itoa n) (omega arith)) (itoa-ne-nil n) h

-- No separator: one part.
pub split_whole : (s : Bytes) (c : ℕ) → contains s c ≡ false → split s c ≡ s ∷ []
unfolding split contains
split_whole [] c h = refl
split_whole (x ∷ s) c h = ground (arith, split_whole s c)

-- The part in front of the first separator comes first.
pub split-append :
    (s t : Bytes) (c : ℕ) → contains s c ≡ false → split (s ++ c ∷ t) c ≡ s ∷ split t c
unfolding split contains
split-append [] t c h = ground arith
split-append (x ∷ s) t c h = ground (arith, split-append s t c)

pub contains-append : (s t : Bytes) (c : ℕ) → contains (s ++ t) c ≡ contains s c || contains t c
unfolding contains
contains-append [] t c = refl
contains-append (x ∷ s) t c = ground (arith, contains-append s t c)

contains_digits : (s : Bytes) (c : ℕ) → All IsDigit s → ¬ IsDigit c → contains s c ≡ false
unfolding contains
contains_digits [] c h n = refl
contains_digits (x ∷ s) c h n = ground (arith, contains_digits s c h.1 n)

pub contains-itoa : (n c : ℕ) → ¬ IsDigit c → contains (itoa n) c ≡ false
contains-itoa n c h = contains_digits (itoa n) c (itoa-IsDigit n) h

-- ===== src/Prelude/Bits.antt =====
-- `|` of fields that do not overlap is their sum.
use Prim.Native.Nat.{
  ℕ, zero, suc, ◌+◌, ◌*◌, ◌/◌, ◌%◌, ◌^◌, ◌≤◌, ◌<◌, max, bit_or, digits, bit_or-bitwise,
}
use mathlib.Core.Path.{◌≡◌, refl, ap, ◌∙◌}
use native.Mathlib.Nat.{pow-suc}
use native.Mathlib.Omega.{arith}

abbrev or_digits : ℕ → ℕ → ℕ → ℕ
or_digits n a b = digits (λ c. c) max n a b

-- More rounds than digits change nothing.
or_digits_fuel : (n m a b : ℕ) → a ≤ n → a ≤ m → or_digits n a b ≡ or_digits m a b
or_digits_fuel zero zero a b p q = refl
or_digits_fuel zero (suc m) zero b p q = refl
or_digits_fuel zero (suc m) (suc a) b p q = absurd (omega arith)
or_digits_fuel (suc n) zero zero b p q = refl
or_digits_fuel (suc n) zero (suc a) b p q = absurd (omega arith)
or_digits_fuel (suc n) (suc m) zero b p q = refl
or_digits_fuel (suc n) (suc m) (suc a) b p q =
    omega (arith, or_digits_fuel n m (suc a / 2) (b / 2) (omega arith) (omega arith))

pub zero-bit_or : (b : ℕ) → bit_or 0 b ≡ b
zero-bit_or b = bit_or-bitwise 0 b

bit_or_halves : (a b : ℕ) → bit_or a b ≡ bit_or (a / 2) (b / 2) * 2 + max (a % 2) (b % 2)
bit_or_halves zero b = omega (arith, zero-bit_or b, zero-bit_or (b / 2))
bit_or_halves (suc a) b = omega (
  arith,
  bit_or-bitwise (suc a) b,
  bit_or-bitwise (suc a / 2) (b / 2),
  or_digits_fuel a (suc a / 2) (suc a / 2) (b / 2) (omega arith) (omega arith),
)

bit_or-zero_fuel : (n a : ℕ) → a ≤ n → bit_or a 0 ≡ a
bit_or-zero_fuel n zero h = refl
bit_or-zero_fuel zero (suc a) h = absurd (omega arith)
bit_or-zero_fuel (suc n) (suc a) h =
    omega (arith, bit_or_halves (suc a) 0, bit_or-zero_fuel n (suc a / 2) (omega arith))

double_pow : (k q : ℕ) → q * 2 ^ suc k ≡ q * 2 ^ k * 2
double_pow k q = omega (arith, ap (λ (p : ℕ). q * p) (pow-suc 2 k))

-- The upper field starts at bit k, the lower one ends below it.
pub bit_or_upper : (k q r : ℕ) → r < 2 ^ k → bit_or (q * 2 ^ k) r ≡ q * 2 ^ k + r
bit_or_upper zero q r h = ground (arith, bit_or-zero_fuel q q)
bit_or_upper (suc k) q r h =
    ground (
      arith,
      bit_or_halves (q * 2 ^ suc k) r,
      double_pow k q,
      bit_or_upper k q (r / 2),
      pow-suc 2 k,
    )

-- Four bytes, the first of them on top, each joined where it belongs.
pub bit_or_bytes :
    (a b c d : ℕ)
    → b < 256
    → c < 256
    → d < 256
    → bit_or (bit_or (bit_or (a * 0x1000000) (b * 0x10000)) (c * 0x100)) d
      ≡ a * 0x1000000 + b * 0x10000 + c * 0x100 + d
bit_or_bytes a b c d hb hc hd =
    ap (λ (v : ℕ). bit_or (bit_or v (c * 0x100)) d)
      (bit_or_upper 24 a (b * 0x10000) (omega arith) ∙ omega arith)
    ∙ ap (λ (v : ℕ). bit_or v d)
        (bit_or_upper 16 (a * 0x100 + b) (c * 0x100) (omega arith) ∙ omega arith)
    ∙ bit_or_upper 8 (a * 0x10000 + b * 0x100 + c) d (omega arith)
    ∙ omega arith

-- The same with the lower field in front.
pub bit_or_lower : (k q r : ℕ) → r < 2 ^ k → bit_or r (q * 2 ^ k) ≡ q * 2 ^ k + r
bit_or_lower zero q r h = ground (arith, zero-bit_or q)
bit_or_lower (suc k) q r h =
    ground (
      arith,
      bit_or_halves r (q * 2 ^ suc k),
      double_pow k q,
      bit_or_lower k q (r / 2),
      pow-suc 2 k,
    )

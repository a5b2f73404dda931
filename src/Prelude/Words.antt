-- ===== src/Prelude/Words.antt =====
-- Bytes and words: what encoding/binary reads from a byte slice and appends to one.
use wfc_server.Prelude.Lists.{length, drop, All, length-drop, All-drop}
use wfc_server.Prelude.Results.{Outcome, returns, panics}
use Prim.Native.Nat.{ℕ, zero, suc, ◌+◌, ◌*◌, ◌/◌, ◌%◌, ◌≤◌, ◌<◌}
use mathlib.Core.Path.{◌≡◌, refl, sym, ap, ◌∙◌}
use mathlib.Core.List.{List, [], ◌∷◌, ◌++◌}
use native.Mathlib.Omega.{arith}

abbrev pub Bytes : Type 0
Bytes = List ℕ

abbrev pub IsByte : ℕ → Type 0
IsByte b = b < 256

abbrev pub IsU16 : ℕ → Type 0
IsU16 v = v < 0x10000

abbrev pub IsU32 : ℕ → Type 0
IsU32 v = v < 0x100000000

-- binary.LittleEndian.Uint32 and binary.BigEndian.Uint32: a slice of under four bytes panics.
abbrev pub le32 : Bytes → Outcome ℕ
le32 (a ∷ b ∷ c ∷ d ∷ rest) = returns (a + b * 0x100 + c * 0x10000 + d * 0x1000000)
le32 _ = panics

abbrev pub be32 : Bytes → Outcome ℕ
be32 (a ∷ b ∷ c ∷ d ∷ rest) = returns (a * 0x1000000 + b * 0x10000 + c * 0x100 + d)
be32 _ = panics

-- The word at an offset, `binary.LittleEndian.Uint32(buffer[i : i+4])`.
unfoldable pub le32_at : Bytes → ℕ → Outcome ℕ
le32_at buffer i = le32 (drop i buffer)

unfoldable pub be32_at : Bytes → ℕ → Outcome ℕ
be32_at buffer i = be32 (drop i buffer)

-- The bytes that binary.LittleEndian.AppendUint32 and binary.BigEndian.AppendUint32 append.
unfoldable pub put_le32 : ℕ → Bytes
put_le32 v =
    (v % 0x100) ∷ (v / 0x100 % 0x100) ∷ (v / 0x10000 % 0x100) ∷ (v / 0x1000000 % 0x100) ∷ []

unfoldable pub put_be32 : ℕ → Bytes
put_be32 v =
    (v / 0x1000000 % 0x100) ∷ (v / 0x10000 % 0x100) ∷ (v / 0x100 % 0x100) ∷ (v % 0x100) ∷ []

-- The value of a word in range, and 0 out of range.
abbrev pub le_value : Bytes → ℕ
le_value (a ∷ b ∷ c ∷ d ∷ rest) = a + b * 0x100 + c * 0x10000 + d * 0x1000000
le_value _ = 0

abbrev pub be_value : Bytes → ℕ
be_value (a ∷ b ∷ c ∷ d ∷ rest) = a * 0x1000000 + b * 0x10000 + c * 0x100 + d
be_value _ = 0

unfoldable pub le_word : Bytes → ℕ → ℕ
le_word buffer i = le_value (drop i buffer)

unfoldable pub be_word : Bytes → ℕ → ℕ
be_word buffer i = be_value (drop i buffer)

-- Four bytes are enough for a word.
le32-value : (s : Bytes) → 4 ≤ length s → le32 s ≡ returns (le_value s)
le32-value [] h = absurd (omega arith)
le32-value (a ∷ []) h = absurd (omega arith)
le32-value (a ∷ b ∷ []) h = absurd (omega arith)
le32-value (a ∷ b ∷ c ∷ []) h = absurd (omega arith)
le32-value (a ∷ b ∷ c ∷ d ∷ s) h = refl

be32-value : (s : Bytes) → 4 ≤ length s → be32 s ≡ returns (be_value s)
be32-value [] h = absurd (omega arith)
be32-value (a ∷ []) h = absurd (omega arith)
be32-value (a ∷ b ∷ []) h = absurd (omega arith)
be32-value (a ∷ b ∷ c ∷ []) h = absurd (omega arith)
be32-value (a ∷ b ∷ c ∷ d ∷ s) h = refl

-- A read within the buffer returns.
pub le32_at-word : (s : Bytes) (i : ℕ) → i + 4 ≤ length s → le32_at s i ≡ returns (le_word s i)
unfolding le32_at le_word
le32_at-word s i h = le32-value (drop i s) (omega (arith, length-drop i s))

pub be32_at-word : (s : Bytes) (i : ℕ) → i + 4 ≤ length s → be32_at s i ≡ returns (be_word s i)
unfolding be32_at be_word
be32_at-word s i h = be32-value (drop i s) (omega (arith, length-drop i s))

-- What AppendUint32 appends is read back.
pub le_sum :
    (v : ℕ)
    → IsU32 v
    → v % 0x100
        + v / 0x100 % 0x100 * 0x100
        + v / 0x10000 % 0x100 * 0x10000
        + v / 0x1000000 % 0x100 * 0x1000000
      ≡ v
le_sum v h = omega arith

pub be_sum :
    (v : ℕ)
    → IsU32 v
    → v / 0x1000000 % 0x100 * 0x1000000
        + v / 0x10000 % 0x100 * 0x10000
        + v / 0x100 % 0x100 * 0x100
        + v % 0x100
      ≡ v
be_sum v h = omega arith

pub le_word-lt : (s : Bytes) (i : ℕ) → All IsByte s → IsU32 (le_word s i)
unfolding le_word
le_word-lt s i h = go (drop i s) (All-drop IsByte i s h)
  where
    go : (t : Bytes) → All IsByte t → IsU32 (le_value t)
    go [] h = omega arith
    go (a ∷ []) h = omega arith
    go (a ∷ b ∷ []) h = omega arith
    go (a ∷ b ∷ c ∷ []) h = omega arith
    go (a ∷ b ∷ c ∷ d ∷ t) h = omega arith

-- Appending the word that stands in front of the rest gives the bytes back.
put_le32-value : (t : Bytes) → All IsByte t → 4 ≤ length t → put_le32 (le_value t) ++ drop 4 t ≡ t
unfolding put_le32
put_le32-value [] h l = absurd (omega arith)
put_le32-value (a ∷ []) h l = absurd (omega arith)
put_le32-value (a ∷ b ∷ []) h l = absurd (omega arith)
put_le32-value (a ∷ b ∷ c ∷ []) h l = absurd (omega arith)
put_le32-value (a ∷ b ∷ c ∷ d ∷ t) h l = ground arith

put_be32-value : (t : Bytes) → All IsByte t → 4 ≤ length t → put_be32 (be_value t) ++ drop 4 t ≡ t
unfolding put_be32
put_be32-value [] h l = absurd (omega arith)
put_be32-value (a ∷ []) h l = absurd (omega arith)
put_be32-value (a ∷ b ∷ []) h l = absurd (omega arith)
put_be32-value (a ∷ b ∷ c ∷ []) h l = absurd (omega arith)
put_be32-value (a ∷ b ∷ c ∷ d ∷ t) h l = ground arith

drop-drop_four : (i : ℕ) (s : Bytes) → drop 4 (drop i s) ≡ drop (suc (suc (suc (suc i)))) s
drop-drop_four zero s = refl
drop-drop_four (suc i) [] = refl
drop-drop_four (suc i) (x ∷ s) = drop-drop_four i s

pub put_le32-word :
    (s : Bytes) (i : ℕ)
    → All IsByte s
    → i + 4 ≤ length s
    → put_le32 (le_word s i) ++ drop (suc (suc (suc (suc i)))) s ≡ drop i s
unfolding le_word
put_le32-word s i h l =
    ap (◌++◌ (put_le32 (le_value (drop i s)))) (sym (drop-drop_four i s))
    ∙ put_le32-value (drop i s) (All-drop IsByte i s h) (omega (arith, length-drop i s))

pub put_be32-word :
    (s : Bytes) (i : ℕ)
    → All IsByte s
    → i + 4 ≤ length s
    → put_be32 (be_word s i) ++ drop (suc (suc (suc (suc i)))) s ≡ drop i s
unfolding be_word
put_be32-word s i h l =
    ap (◌++◌ (put_be32 (be_value (drop i s)))) (sym (drop-drop_four i s))
    ∙ put_be32-value (drop i s) (All-drop IsByte i s h) (omega (arith, length-drop i s))

-- The same, with the offset behind the word written in any way.
pub put_le32-word_to :
    (s : Bytes) (i j : ℕ)
    → All IsByte s
    → i + 4 ≤ length s
    → j ≡ i + 4
    → put_le32 (le_word s i) ++ drop j s ≡ drop i s
put_le32-word_to s i j h l e =
    ap (λ (k : ℕ). put_le32 (le_word s i) ++ drop k s) {x = j} {y = suc (suc (suc (suc i)))}
      (omega arith)
    ∙ put_le32-word s i h l

pub put_be32-word_to :
    (s : Bytes) (i j : ℕ)
    → All IsByte s
    → i + 4 ≤ length s
    → j ≡ i + 4
    → put_be32 (be_word s i) ++ drop j s ≡ drop i s
put_be32-word_to s i j h l e =
    ap (λ (k : ℕ). put_be32 (be_word s i) ++ drop k s) {x = j} {y = suc (suc (suc (suc i)))}
      (omega arith)
    ∙ put_be32-word s i h l

-- ===== src/FriendCode/Profile.antt =====
-- The profile ID that a friend code of common/friend_code.go holds.
use wfc_server.Prelude.{
  ℕ, ◌≡◌, ◌∙◌, ap, ◌+◌, ◌*◌, ◌/◌, ◌%◌, ◌<◌, inl, inr, ◌||◌, Bool, true, false, [], ◌∷◌, ◌++◌, ◌==◌,
  returns, Bool-cases, arith,
}
use wfc_server.Prelude.Words.{Bytes, put_le32}
use wfc_server.Prelude.Text.{codes}
use wfc_server.Prelude.Bits.{bit_or_lower}
use Prim.Native.Nat.{bit_or}
use wfc_server.FriendCode.{
  CrcType, crc8, get_crc_type, code_buffer, check_bits, calc_friend_code, letter_type, has_start,
}

check_bits-block :
    (md5 : Bytes → ℕ) (kind : CrcType) (buffer : Bytes)
    → (md5 buffer < 0x100)
    → (k : ℕ) × (k < 0x80) × (check_bits md5 kind buffer ≡ k * 0x100000000)
unfolding check_bits
check_bits-block md5 CrcType.crc_8 buffer h = (crc8 buffer % 0x80, omega arith, omega arith)
check_bits-block md5 CrcType.md_5 buffer h = (md5 buffer / 2, omega arith, omega arith)

get_crc_type-returns :
    (c : ℕ) (rest : Bytes)
    → (kind : CrcType) × (reverse : Bool) × (get_crc_type (c ∷ rest) ≡ returns (kind, reverse))
unfolding get_crc_type
get_crc_type-returns c rest =
    let rsb = has_start (codes "RSB") (c ∷ rest) || has_start (codes "RPB") (c ∷ rest) in
    let hdm = has_start (codes "HDM") (c ∷ rest) || has_start (codes "WDM") (c ∷ rest) in
    elim (Bool-cases rsb) [
      | inl brawl ↦ (CrcType.crc_8, false, ground arith)
      | inr other ↦ elim (Bool-cases hdm) [
        | inl reversed ↦ (CrcType.crc_8, true, ground arith)
        | inr rest_of ↦ (letter_type c, false, ground arith)
      ]
    ]

-- For a 32-bit profile ID, a game ID of four letters or more, and an MD5 whose first byte is a
-- byte, CalcFriendCode returns a code below 2 ^ 39 whose lower 32 bits are the profile ID.
pub calc_friend_code-profile :
    (md5 : Bytes → ℕ) (pid g₀ g₁ g₂ g₃ : ℕ) (rest : Bytes)
    → ((buffer : Bytes) → md5 buffer < 0x100)
    → pid < 0x100000000
    → (code : ℕ) × (calc_friend_code md5 pid (g₀ ∷ g₁ ∷ g₂ ∷ g₃ ∷ rest) ≡ returns code)
      × (code < 0x8000000000)
      × (code % 0x100000000 ≡ pid)
unfolding calc_friend_code code_buffer
calc_friend_code-profile md5 pid g₀ g₁ g₂ g₃ rest is_byte small =
    let (kind, reverse, found) = get_crc_type-returns g₀ (g₁ ∷ g₂ ∷ g₃ ∷ rest) in
    let buffer = put_le32 pid ++ (g₃ ∷ g₂ ∷ g₁ ∷ g₀ ∷ []) in
    let (k, below, bits) = check_bits-block md5 kind buffer (is_byte buffer) in
    let joined : bit_or pid (check_bits md5 kind buffer) ≡ k * 0x100000000 + pid =
      ap (bit_or pid) bits ∙ bit_or_lower 32 k pid small in
    elim (Bool-cases (pid == 0)) [
      | inl zero_pid ↦ (0, ground arith, ground arith, ground arith)
      | inr valid ↦ (
        bit_or pid (check_bits md5 kind buffer),
        ground arith,
        omega (arith, joined),
        omega (arith, joined),
      )
    ]

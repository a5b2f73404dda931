-- ===== src/FriendCode.antt =====
-- common/friend_code.go: CalcFriendCode. MD5 is a parameter: the first byte of its digest. A text is
-- its bytes, and a game ID that is too short panics.
mod Profile
mod Examples
use wfc_server.Prelude.{
  ℕ, zero, suc, ◌+◌, ◌-◌, ◌*◌, ◌/◌, ◌%◌, Bool, true, false, ◌||◌, Option, none, some, List, [], ◌∷◌,
  ◌++◌, leb, ◌==◌, if◌then◌else◌, get_elem?, Outcome, returns, panics, ◌>>=◌,
}
use wfc_server.Prelude.Words.{Bytes, put_le32}
use wfc_server.Prelude.Text.{codes, text_eq}
use Prim.Native.Nat.{bit_or, bit_xor}

-- The inner loop of crc8Table: `n` rounds of a shift, with 0x07 where the top bit falls out.
unfoldable pub crc8_rounds : ℕ → ℕ → ℕ
crc8_rounds zero crc = crc
crc8_rounds (suc n) crc =
    crc8_rounds n (if leb 0x80 crc then bit_xor (crc * 2 % 0x100) 0x07 else crc * 2 % 0x100)

-- crc8, each entry of crc8Table worked out when it is asked for.
unfoldable pub crc8_loop : ℕ → Bytes → ℕ
crc8_loop crc [] = crc
crc8_loop crc (b ∷ bytes) = crc8_loop (crc8_rounds 8 (bit_xor crc b)) bytes

unfoldable pub crc8 : Bytes → ℕ
crc8 bytes = crc8_loop 0 bytes

pub data CrcType : Type 0 where
  crc_8 : CrcType
  md_5 : CrcType

unfoldable pub has_start : Bytes → Bytes → Bool
has_start [] s = true
has_start (c ∷ w) [] = false
has_start (c ∷ w) (d ∷ s) = if c == d then has_start w s else false

-- The switch on the first letter.
unfoldable pub letter_type : ℕ → CrcType
letter_type c =
    if c == b'R' || c == b'S' || c == b'H' || c == b'W' || c == b'X' || c == b'Y'
    then CrcType.md_5
    else CrcType.crc_8

-- getCRCType: the checksum, and whether the digits are reversed.
unfoldable pub get_crc_type : Bytes → Outcome (CrcType × Bool)
get_crc_type game_id =
    if has_start (codes "RSB") game_id || has_start (codes "RPB") game_id
    then returns (CrcType.crc_8, false)
    else if has_start (codes "HDM") game_id || has_start (codes "WDM") game_id
    then returns (CrcType.crc_8, true)
    else (elim (get_elem? game_id 0) [ none ↦ panics | some c ↦ returns (letter_type c, false) ])

-- The profile ID, and the first four letters of the game ID the other way round.
unfoldable pub code_buffer : ℕ → Bytes → Outcome Bytes
code_buffer pid (g₀ ∷ g₁ ∷ g₂ ∷ g₃ ∷ rest) = returns (put_le32 pid ++ (g₃ ∷ g₂ ∷ g₁ ∷ g₀ ∷ []))
code_buffer pid game_id = panics

-- The checksum's seven bits, above the 32 of the profile ID: `& 0x7f` and `<< 32`, or `& 0xfe` and
-- `<< 31`.
unfoldable pub check_bits : (Bytes → ℕ) → CrcType → Bytes → ℕ
check_bits md5 CrcType.crc_8 buffer = crc8 buffer % 0x80 * 0x100000000
check_bits md5 CrcType.md_5 buffer = md5 buffer / 2 * 2 * 0x80000000

-- CalcFriendCode
unfoldable pub calc_friend_code : (Bytes → ℕ) → ℕ → Bytes → Outcome ℕ
calc_friend_code md5 pid game_id = if pid == 0 then returns 0 else (do
  buffer ← code_buffer pid game_id
  (kind, reverse) ← get_crc_type game_id
  returns (bit_or pid (check_bits md5 kind buffer)))

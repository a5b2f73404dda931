-- ===== src/FriendCode/Examples.antt =====
-- Tests of the friend codes, and the theorem on one.
use wfc_server.Prelude.{ℕ, ◌≡◌, refl, ◌+◌, ◌*◌, ◌%◌, ◌<◌, [], ◌∷◌, returns, arith}
use wfc_server.Prelude.Words.{Bytes}
use wfc_server.Prelude.Text.{codes}
use wfc_server.FriendCode.{
  crc8, crc8_loop, crc8_rounds, calc_friend_code, code_buffer, check_bits, get_crc_type, has_start,
  letter_type,
}
use wfc_server.FriendCode.Profile.{calc_friend_code-profile}

test_crc8 : crc8 (codes "123456789") ≡ 0xF4
unfolding crc8 crc8_loop crc8_rounds
test_crc8 = refl

-- A checksum in place of MD5.
abbrev first_byte : Bytes → ℕ
first_byte buffer = 0xAB

test_calc_friend_code :
    calc_friend_code first_byte 600000000 (codes "RMCE") ≡ returns (0x55 * 0x100000000 + 600000000)
unfolding calc_friend_code code_buffer check_bits get_crc_type has_start letter_type
test_calc_friend_code = refl

calc_friend_code-profile_example :
    (code : ℕ) × (calc_friend_code first_byte 600000000 (b'R' ∷ b'M' ∷ b'C' ∷ b'E' ∷ [])
      ≡ returns code)
    × (code < 0x8000000000)
    × (code % 0x100000000 ≡ 600000000)
calc_friend_code-profile_example =
    calc_friend_code-profile first_byte 600000000 b'R' b'M' b'C' b'E' [] (λ buffer. omega arith)
      (omega arith)

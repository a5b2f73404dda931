-- ===== src/MarioKartWii/Examples.antt =====
-- The checks of common/mario_kart_wii.go on small files.
use wfc_server.Prelude.{
  ℕ, zero, suc, ◌+◌, ◌<◌, ◌≤◌, ◌≡◌, refl, Bool, true, false, none, some, [], ◌∷◌, ◌++◌, ◌&&◌, ltb,
  length, get_elem?, returns, Returns, arith, Bool-cases,
}
use wfc_server.Prelude.Words.{Bytes, be32_at}
use wfc_server.Prelude.Text.{codes, text_eq}
use wfc_server.MarioKartWii.Yaz1.{
  byte_at, long_copy, copy_length, copy_token, token, token_loop, block, round, verdict,
  verify_loop, verify_yaz1_data,
}
use wfc_server.MarioKartWii.Total.{verify_yaz1_data-returns}
use wfc_server.MarioKartWii.Decoder.{decompress}
use wfc_server.MarioKartWii.Verified.{HasShortCopies}
use wfc_server.MarioKartWii.Accepted.{decompress-verify_yaz1_data, verify_yaz1_data-overrun}
use wfc_server.MarioKartWii.Bits.{
  gather, get_bits, lap_bits, get_minutes, get_seconds, get_milliseconds, get_course, get_vehicle,
  get_character, get_controller, is_compressed, get_lap_count, is_valid_course, is_valid_character,
  is_valid_vehicle, is_valid_controller,
}
use wfc_server.MarioKartWii.Ghost.{
  crc_bits, crc_loop, rfl_calculate_crc, slice, has_header, lap_time, lap_loop, total_score,
  is_expected, has_scores, has_setup, has_mii, get_compressed_data, is_used_up, has_stream,
  is_rkgd_file_valid,
}
use wfc_server.MarioKartWii.Checked.{is_rkgd_file_valid-Returns}
use wfc_server.MarioKartWii.Contents.{packed, stream_of, is_rkgd_file_valid-decompress}

-- A byte, and a copy of it eighteen times.
abbrev run_of_ones : Bytes
run_of_ones = 0x80 ∷ 1 ∷ 0 ∷ 0 ∷ 0 ∷ []

abbrev all_small : Bytes → Bool
all_small [] = true
all_small (b ∷ bytes) = ltb b 0xEE && all_small bytes

get_elem?-all_small :
    (szs : Bytes) (k b : ℕ) → all_small szs ≡ true → get_elem? szs k ≡ some b → b < 0xEE
get_elem?-all_small [] k b small e = ground arith
get_elem?-all_small (c ∷ szs) zero b small e = ground arith
get_elem?-all_small (c ∷ szs) (suc k) b small e =
    get_elem?-all_small szs k b (ground (arith, Bool-cases (ltb c 0xEE))) e

all_small-HasShortCopies : (szs : Bytes) → all_small szs ≡ true → HasShortCopies szs
unfolding HasShortCopies
all_small-HasShortCopies szs small k first third e low f =
    get_elem?-all_small szs (suc (suc k)) third small f

verify_yaz1_data_ones : verify_yaz1_data run_of_ones 19 0 ≡ returns (some (true, 5))
unfolding verify_yaz1_data verify_loop round verdict block token_loop token copy_token copy_length
    long_copy byte_at
verify_yaz1_data_ones = refl

verify_yaz1_data_ends : verify_yaz1_data run_of_ones 20 0 ≡ returns (some (false, 5))
unfolding verify_yaz1_data verify_loop round verdict block token_loop token copy_token copy_length
    long_copy byte_at
verify_yaz1_data_ends = refl

verify_yaz1_data-returns_example :
    (r : Bool × ℕ) × (verify_yaz1_data run_of_ones 20 0 ≡ returns (some r))
verify_yaz1_data-returns_example = verify_yaz1_data-returns run_of_ones 20 0

decompress-verify_yaz1_data_example :
    (out : Bytes) × (decompress run_of_ones 19 ≡ some (5, out))
    × (length out ≡ 19)
    × (5 ≤ length run_of_ones)
decompress-verify_yaz1_data_example =
    decompress-verify_yaz1_data run_of_ones 19 5 (all_small-HasShortCopies run_of_ones refl)
      verify_yaz1_data_ones

verify_yaz1_data-overrun_example :
    (verify_yaz1_data (0x80 ∷ 1 ∷ 0 ∷ 0 ∷ 0xF0 ∷ []) 3 0 ≡ returns (some (true, 5)))
    × ((out : Bytes) × (decompress (0x80 ∷ 1 ∷ 0 ∷ 0 ∷ 0xF0 ∷ []) 3 ≡ some (5, out))
        × (length out ≡ 3 + 0x100))
verify_yaz1_data-overrun_example = verify_yaz1_data-overrun 1 0xF0 (omega arith) (omega arith)

abbrev zeros : ℕ → Bytes
zeros zero = []
zeros (suc n) = 0 ∷ zeros n

-- A ghost of three laps of twenty seconds, with the run of ones as its stream.
abbrev ghost : Bytes
ghost =
    codes "RKGD"
    ++ 0x02
      ∷ 0
      ∷ 0
      ∷ 0
      ∷ 0
      ∷ 0
      ∷ 0
      ∷ 0
      ∷ 0x08
      ∷ 0
      ∷ 0
      ∷ 0
      ∷ 3
      ∷ 0
      ∷ 0x50
      ∷ 0
      ∷ 0
      ∷ 0x50
      ∷ 0
      ∷ 0
      ∷ 0x50
      ∷ 0
      ∷ zeros 0x72
    ++ codes "Yaz1"
    ++ 0 ∷ 0 ∷ 0 ∷ 19 ∷ zeros 8
    ++ run_of_ones
    ++ zeros 4

abbrev no_crc32 : Bytes → ℕ
no_crc32 bytes = 0

is_rkgd_file_valid-ghost : is_rkgd_file_valid no_crc32 ghost (some 0) (some 60000) ≡ returns true
unfolding is_rkgd_file_valid slice has_header has_scores has_setup has_mii has_stream is_compressed
    get_lap_count lap_loop lap_time total_score get_minutes get_seconds get_milliseconds lap_bits
    get_bits gather get_course get_vehicle get_character get_controller is_valid_course
    is_valid_character is_valid_vehicle is_valid_controller is_expected rfl_calculate_crc crc_loop
    crc_bits get_compressed_data is_used_up be32_at verify_yaz1_data verify_loop round verdict block
    token_loop token copy_token copy_length long_copy byte_at text_eq
is_rkgd_file_valid-ghost = refl

is_rkgd_file_valid-Returns_example : Returns (is_rkgd_file_valid no_crc32 ghost (some 1) none)
is_rkgd_file_valid-Returns_example = is_rkgd_file_valid-Returns no_crc32 ghost (some 1) none

is_rkgd_file_valid-decompress_example :
    (size : ℕ) × (n : ℕ) × (out : Bytes) × (be32_at (packed ghost) 4 ≡ returns size)
    × (decompress (stream_of ghost) size ≡ some (n, out))
    × (length out ≡ size)
    × (length (packed ghost) ≤ n + 0x13)
is_rkgd_file_valid-decompress_example =
    is_rkgd_file_valid-decompress no_crc32 ghost (some 0) (some 60000)
      (all_small-HasShortCopies (stream_of ghost) refl) is_rkgd_file_valid-ghost

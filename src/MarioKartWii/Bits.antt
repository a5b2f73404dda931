-- ===== src/MarioKartWii/Bits.antt =====
-- The bit fields of a ghost file in common/mario_kart_wii.go: GetBits and what reads by it. A read
-- out of range panics.
use wfc_server.Prelude.{
  ℕ, zero, suc, ◌+◌, ◌-◌, ◌*◌, ◌/◌, ◌%◌, ◌^◌, Bool, false, ◌||◌, ltb, leb, ◌==◌, if◌then◌else◌,
  Outcome, returns, ◌>>=◌,
}
use wfc_server.Prelude.Words.{Bytes}
use wfc_server.MarioKartWii.Yaz1.{byte_at}
use Prim.Native.Nat.{bit_or}

-- The loop of GetBits: `count` bytes are left, from the index on.
unfoldable pub gather : ℕ → Bytes → ℕ → ℕ → Outcome ℕ
gather zero rkgd index value = returns value
gather (suc count) rkgd index value = byte_at rkgd index >>= λ b.
    gather count rkgd (suc index) (bit_or value (b * 2 ^ (count * 8) % 0x100000000))

-- GetBits
unfoldable pub get_bits : Bytes → ℕ → ℕ → ℕ → Outcome ℕ
get_bits rkgd byte_offset bit_offset bit_length = if bit_length == 0 then returns 0 else (do
  let bit_index = bit_offset % 8
  value ← gather ((bit_length + bit_index + 7) / 8) rkgd (byte_offset + bit_offset / 8) 0
  returns (value / 2 ^ ((8 - (bit_index + bit_length) % 8) % 8) % 2 ^ bit_length))

-- GetMinutes, GetSeconds and GetMilliseconds share the choice of the lap's three bytes.
unfoldable pub lap_bits : Bytes → ℕ → ℕ → ℕ → ℕ → ℕ → Outcome ℕ
lap_bits rkgd lap total_byte total_bit lap_bit size =
    if lap == 0
    then get_bits rkgd total_byte total_bit size
    else if ltb lap 1 || ltb 5 lap
    then returns 0
    else get_bits rkgd (0x11 + (lap - 1) * 3) lap_bit size

unfoldable pub get_minutes : Bytes → ℕ → Outcome ℕ
get_minutes rkgd lap = lap_bits rkgd lap 0x04 0 0 7

unfoldable pub get_seconds : Bytes → ℕ → Outcome ℕ
get_seconds rkgd lap = lap_bits rkgd lap 0x04 7 7 7

unfoldable pub get_milliseconds : Bytes → ℕ → Outcome ℕ
get_milliseconds rkgd lap = lap_bits rkgd lap 0x05 6 14 10

unfoldable pub get_course : Bytes → Outcome ℕ
get_course rkgd = get_bits rkgd 0x07 0 6

unfoldable pub get_vehicle : Bytes → Outcome ℕ
get_vehicle rkgd = get_bits rkgd 0x08 0 6

unfoldable pub get_character : Bytes → Outcome ℕ
get_character rkgd = get_bits rkgd 0x08 6 6

unfoldable pub get_controller : Bytes → Outcome ℕ
get_controller rkgd = get_bits rkgd 0x0B 4 4

unfoldable pub is_compressed : Bytes → Outcome Bool
is_compressed rkgd = do flag ← get_bits rkgd 0x0C 4 1; returns (flag == 1)

unfoldable pub get_lap_count : Bytes → Outcome ℕ
get_lap_count rkgd = get_bits rkgd 0x10 0 8

-- The four IsValid methods, for numbers that are not negative.
unfoldable pub is_valid_course : ℕ → Bool
is_valid_course course = leb course 0x1F

unfoldable pub is_valid_character : ℕ → Bool
is_valid_character character =
    if character == 0x1C || character == 0x1D || character == 0x22 || character == 0x23
    then false
    else leb character 0x27

unfoldable pub is_valid_vehicle : ℕ → Bool
is_valid_vehicle vehicle = leb vehicle 0x23

unfoldable pub is_valid_controller : ℕ → Bool
is_valid_controller controller = leb controller 3

-- ===== src/MarioKartWii/Ghost.antt =====
-- IsRKGDFileValid of common/mario_kart_wii.go, and RFLCalculateCRC of common/mii.go. The checksum
-- CRC-32 is a parameter. What the code only logs, with no return, decides nothing: the classes of
-- weight, the two sizes in the header and the padding of the stream.
use wfc_server.Prelude.{
  ℕ, zero, suc, ◌+◌, ◌-◌, ◌*◌, ◌%◌, Bool, true, false, not, ◌&&◌, ◌||◌, Option, none, some, [], ◌∷◌,
  ltb, leb, ◌==◌, if◌then◌else◌, length, take, drop, Outcome, returns, panics, ◌>>=◌,
}
use wfc_server.Prelude.Words.{Bytes, be32_at}
use wfc_server.Prelude.Text.{codes, text_eq}
use wfc_server.MarioKartWii.Yaz1.{verify_yaz1_data}
use wfc_server.MarioKartWii.Bits.{
  get_minutes, get_seconds, get_milliseconds, get_course, get_vehicle, get_character,
  get_controller, get_bits, is_compressed, get_lap_count, is_valid_course, is_valid_character,
  is_valid_vehicle, is_valid_controller,
}
use Prim.Native.Nat.{bit_xor}

-- The inner loop of RFLCalculateCRC, over the bits that are left of a byte.
unfoldable pub crc_bits : ℕ → ℕ → ℕ → ℕ
crc_bits zero crc val = crc
crc_bits (suc bits) crc val =
    let shifted = crc * 2 % 0x10000 in
    let divided = if leb 0x8000 crc then bit_xor shifted 0x1021 else shifted in
    crc_bits bits (if leb 0x80 val then bit_xor divided 1 else divided) (val * 2 % 0x100)

unfoldable pub crc_loop : ℕ → Bytes → ℕ
crc_loop crc [] = crc
crc_loop crc (val ∷ bytes) = crc_loop (crc_bits 8 crc val) bytes

unfoldable pub rfl_calculate_crc : Bytes → ℕ
rfl_calculate_crc mii = crc_loop 0 mii

-- A check that has to hold before the rest counts: `if !ok { return false }`.
infixr 6 ◌and_then◌
abbrev pub ◌and_then◌ : Outcome Bool → Outcome Bool → Outcome Bool
panics and_then rest = panics
returns ok and_then rest = if ok then rest else returns false

-- A slice expression `bytes[low:high]`, of bytes whose capacity is their length: it panics unless
-- low is at most high and high at most the length.
unfoldable pub slice : Bytes → ℕ → ℕ → Outcome Bytes
slice bytes low high =
    if ltb high low || ltb (length bytes) high
    then panics
    else returns (take (high - low) (drop low bytes))

-- The length, the magic and the checksum.
unfoldable pub has_header : (Bytes → ℕ) → Bytes → Outcome Bool
has_header crc32 rkgd =
    if ltb (length rkgd) 0xA0 || ltb 0x2800 (length rkgd) then returns false else (do
      magic ← slice rkgd 0 4
      if not (text_eq magic (codes "RKGD")) then returns false else (do
        expected ← be32_at rkgd (length rkgd - 4)
        body ← slice rkgd 0 (length rkgd - 4)
        returns (crc32 body == expected)))

-- One lap: its time in milliseconds, if it is neither zero nor out of range.
unfoldable pub lap_time : Bytes → ℕ → Outcome (Option ℕ)
lap_time rkgd lap = do
  m ← get_minutes rkgd lap
  s ← get_seconds rkgd lap
  ms ← get_milliseconds rkgd lap
  returns (
      if m * 60000 + s * 1000 + ms == 0
      then none
      else if ltb 5 m || ltb 59 s || ltb 999 ms
      then none
      else some (m * 60000 + s * 1000 + ms))

-- The loop over the laps that are left; lap 0 is the whole race and does not count.
unfoldable pub lap_loop : ℕ → Bytes → ℕ → ℕ → Outcome (Option ℕ)
lap_loop zero rkgd lap score = returns (some score)
lap_loop (suc rounds) rkgd lap score = elim (lap_time rkgd lap) [
  | panics ↦ panics
  | returns t ↦ elim t [
    | none ↦ returns none
    | some time ↦ lap_loop rounds rkgd (suc lap) (if ltb 0 lap then score + time else score)
  ]
]

-- GetTime of lap 0, which the loop has checked.
unfoldable pub total_score : Bytes → Outcome ℕ
total_score rkgd = do
  m ← get_minutes rkgd 0
  s ← get_seconds rkgd 0
  ms ← get_milliseconds rkgd 0
  returns (m * 60000 + s * 1000 + ms)

-- An expected value, where none is -1.
unfoldable pub is_expected : Option ℕ → ℕ → Bool
is_expected none v = true
is_expected (some e) v = v == e

unfoldable pub has_scores : Bytes → Option ℕ → Outcome Bool
has_scores rkgd expected_score = do
  lap_count ← get_lap_count rkgd
  if not (lap_count == 3) then returns false else (do
    laps ← lap_loop (suc lap_count) rkgd 0 0
    total ← total_score rkgd
    returns (elim laps [
      | none ↦ false
      | some score ↦
          is_expected expected_score total && not (ltb (score + 1) total || ltb (total + 1) score)
    ]))

unfoldable pub has_setup : Bytes → Option ℕ → Outcome Bool
has_setup rkgd expected_course = do
  course ← get_course rkgd
  character ← get_character rkgd
  vehicle ← get_vehicle rkgd
  controller ← get_controller rkgd
  returns (
      is_expected expected_course course
      && is_valid_course course
      && is_valid_character character
      && is_valid_vehicle vehicle
      && is_valid_controller controller)

-- rkgd[0x3C : 0x3C+0x4C]
unfoldable pub has_mii : Bytes → Outcome Bool
has_mii rkgd = do mii ← slice rkgd 0x3C (0x3C + 0x4C); returns (rfl_calculate_crc mii == 0)

-- GetCompressedData, rkgd[0x8C : len(rkgd)-4]
unfoldable pub get_compressed_data : Bytes → Outcome Bytes
get_compressed_data rkgd = slice rkgd 0x8C (length rkgd - 4)

-- The end of the stream: at most three bytes may follow what was used.
unfoldable pub is_used_up : Bytes → Option (Bool × ℕ) → Outcome Bool
is_used_up szs none = panics
is_used_up szs (some (valid, consumed)) =
    if not valid then returns false else returns (not (ltb (consumed + 3) (length szs - 0x10)))

-- The stream: the two sizes in the header and the padding are read too, and only logged.
unfoldable pub has_stream : Bytes → Outcome Bool
has_stream rkgd = do
  szs ← get_compressed_data rkgd
  magic ← slice szs 0 4
  if not (text_eq magic (codes "Yaz1")) then returns false else (do
    decomp_size ← be32_at szs 4
    input_data_length ← get_bits rkgd 0x0E 0 16
    compressed_size ← be32_at rkgd 0x88
    padding ← slice szs 8 0x10
    stream ← slice szs 0x10 (length szs)
    result ← verify_yaz1_data stream decomp_size 0
    is_used_up szs result)

-- IsRKGDFileValid
unfoldable pub is_rkgd_file_valid : (Bytes → ℕ) → Bytes → Option ℕ → Option ℕ → Outcome Bool
is_rkgd_file_valid crc32 rkgd expected_course expected_score =
    has_header crc32 rkgd
    and_then has_scores rkgd expected_score
    and_then has_setup rkgd expected_course
    and_then has_mii rkgd
    and_then is_compressed rkgd
    and_then has_stream rkgd

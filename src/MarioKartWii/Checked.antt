-- ===== src/MarioKartWii/Checked.antt =====
-- IsRKGDFileValid of common/mario_kart_wii.go: it returns on every file.
use wfc_server.Prelude.{
  ℕ, zero, suc, ◌+◌, ◌-◌, ◌*◌, ◌/◌, ◌%◌, ◌^◌, ◌≤◌, ◌≡◌, refl, inl, inr, Bool, true, false, not,
  ◌||◌, Option, none, some, ltb, ◌==◌, if◌then◌else◌, length, take, drop, length-take, length-drop,
  Outcome, returns, panics, ◌>>=◌, Returns, Bool-cases, Option-cases, arith,
}
use Prim.Native.Nat.{bit_or}
use wfc_server.Prelude.Words.{Bytes, be32_at-word, be_word}
use wfc_server.Prelude.Text.{codes, text_eq}
use wfc_server.MarioKartWii.Yaz1.{byte_at, verify_yaz1_data}
use wfc_server.MarioKartWii.Total.{byte_at-returns, verify_yaz1_data-returns}
use wfc_server.MarioKartWii.Bits.{
  gather, get_bits, lap_bits, get_minutes, get_seconds, get_milliseconds, get_course, get_vehicle,
  get_character, get_controller, is_compressed, get_lap_count,
}
use wfc_server.MarioKartWii.Ghost.{
  ◌and_then◌, slice, has_header, lap_time, lap_loop, total_score, has_scores, has_setup, has_mii,
  get_compressed_data, is_used_up, has_stream, is_rkgd_file_valid,
}

-- Calls that return, put together.
Returns-bind {ℓ κ} :
    {A : Type ℓ} {B : Type κ} (m : Outcome A) (f : A → Outcome B)
    → Returns m
    → ((a : A) → Returns (f a))
    → Returns (m >>= f)
Returns-bind (returns a) f h k = k a
Returns-bind panics f (a, e) k = ground arith

Returns-if {ℓ} :
    {A : Type ℓ} (b : Bool) (x y : Outcome A) → Returns x → Returns y → Returns (if b then x else y)
Returns-if true x y h k = h
Returns-if false x y h k = k

-- A slice that is in range.
pub slice-Returns :
    (bytes : Bytes) (low high : ℕ)
    → low ≤ high
    → high ≤ length bytes
    → (part : Bytes) × (slice bytes low high ≡ returns part) × (length part ≡ high - low)
unfolding slice
slice-Returns bytes low high up within =
    let part = take (high - low) (drop low bytes) in
    (
      part,
      ground arith,
      omega (arith, length-take (high - low) (drop low bytes), length-drop low bytes),
    )

slice-Returns_bare :
    (bytes : Bytes) (low high : ℕ)
    → low ≤ high
    → high ≤ length bytes
    → Returns (slice bytes low high)
slice-Returns_bare bytes low high up within =
    let (part, e, size) = slice-Returns bytes low high up within in (part, e)

gather-Returns :
    (count : ℕ) (rkgd : Bytes) (index value : ℕ)
    → index + count ≤ length rkgd
    → Returns (gather count rkgd index value)
unfolding gather
gather-Returns zero rkgd index value h = (value, refl)
gather-Returns (suc count) rkgd index value h =
    Returns-bind (byte_at rkgd index) _ (byte_at-returns rkgd index (omega arith)) λ b.
      gather-Returns count rkgd (suc index) (bit_or value (b * 2 ^ (count * 8) % 0x100000000))
        (omega arith)

get_bits-Returns :
    (rkgd : Bytes) (byte_offset bit_offset bit_length : ℕ)
    → byte_offset + bit_offset / 8 + (bit_length + bit_offset % 8 + 7) / 8 ≤ length rkgd
    → Returns (get_bits rkgd byte_offset bit_offset bit_length)
unfolding get_bits
get_bits-Returns rkgd byte_offset bit_offset bit_length h =
    Returns-if (bit_length == 0) _ _ (0, refl)
      (Returns-bind
        (gather ((bit_length + bit_offset % 8 + 7) / 8) rkgd (byte_offset + bit_offset / 8) 0) _
        (gather-Returns ((bit_length + bit_offset % 8 + 7) / 8) rkgd (byte_offset + bit_offset / 8)
          0 h)
        (λ value.
          (value / 2 ^ ((8 - (bit_offset % 8 + bit_length) % 8) % 8) % 2 ^ bit_length, refl)))

module _ (rkgd : Bytes) (long : 0xA0 ≤ length rkgd) where
  lap_bits-Returns :
      (lap total_byte total_bit lap_bit size : ℕ)
      → total_byte + total_bit / 8 + (size + total_bit % 8 + 7) / 8 ≤ 0xA0
      → 0x11 + 12 + lap_bit / 8 + (size + lap_bit % 8 + 7) / 8 ≤ 0xA0
      → Returns (lap_bits rkgd lap total_byte total_bit lap_bit size)
  unfolding lap_bits
  lap_bits-Returns lap total_byte total_bit lap_bit size h k = elim (Bool-cases (lap == 0)) [
    | inl total ↦
        rw (total, lap_bits) (get_bits-Returns rkgd total_byte total_bit size (omega arith))
    | inr one ↦ elim (Bool-cases (ltb lap 1 || ltb 5 lap)) [
      | inl outside ↦ rw (one, outside, lap_bits) (0, refl)
      | inr inside ↦
          let near : lap ≤ 5 = ground arith in
          rw (one, inside, lap_bits)
            (get_bits-Returns rkgd (0x11 + (lap - 1) * 3) lap_bit size (omega arith))
    ]
  ]

  lap_time-Returns : (lap : ℕ) → Returns (lap_time rkgd lap)
  unfolding lap_time get_minutes get_seconds get_milliseconds
  lap_time-Returns lap =
      Returns-bind _ _ (lap_bits-Returns lap 0x04 0 0 7 (omega arith) (omega arith)) λ m.
        Returns-bind _ _ (lap_bits-Returns lap 0x04 7 7 7 (omega arith) (omega arith)) λ s.
          Returns-bind _ _ (lap_bits-Returns lap 0x05 6 14 10 (omega arith) (omega arith))
            λ ms. (_, refl)

  lap_loop-Returns : (rounds lap score : ℕ) → Returns (lap_loop rounds rkgd lap score)
  unfolding lap_loop
  lap_loop-Returns zero lap score = (some score, refl)
  lap_loop-Returns (suc rounds) lap score =
      let (t, e) = lap_time-Returns lap in
      elim (Option-cases t) [
        | inl refused ↦ (none, ground arith)
        | inr (time, counted) ↦
            let (r, f) =
              lap_loop-Returns rounds (suc lap) (if ltb 0 lap then score + time else score) in
            (r, ground arith)
      ]

  has_scores-Returns : (expected : Option ℕ) → Returns (has_scores rkgd expected)
  unfolding has_scores total_score get_lap_count get_minutes get_seconds get_milliseconds
  has_scores-Returns expected =
      Returns-bind _ _ (get_bits-Returns rkgd 0x10 0 8 (omega arith)) λ count.
        Returns-if (not (count == 3)) _ _ (false, refl)
          (Returns-bind _ _ (lap_loop-Returns (suc count) 0 0) λ laps.
            Returns-bind _ _
              (Returns-bind _ _ (lap_bits-Returns 0 0x04 0 0 7 (omega arith) (omega arith)) λ m.
                Returns-bind _ _ (lap_bits-Returns 0 0x04 7 7 7 (omega arith) (omega arith)) λ s.
                  Returns-bind _ _ (lap_bits-Returns 0 0x05 6 14 10 (omega arith) (omega arith))
                    λ ms. (_, refl))
              λ total. (_, refl))

  has_setup-Returns : (expected : Option ℕ) → Returns (has_setup rkgd expected)
  unfolding has_setup get_course get_character get_vehicle get_controller
  has_setup-Returns expected =
      Returns-bind _ _ (get_bits-Returns rkgd 0x07 0 6 (omega arith)) λ course.
        Returns-bind _ _ (get_bits-Returns rkgd 0x08 6 6 (omega arith)) λ character.
          Returns-bind _ _ (get_bits-Returns rkgd 0x08 0 6 (omega arith)) λ vehicle.
            Returns-bind _ _ (get_bits-Returns rkgd 0x0B 4 4 (omega arith)) λ controller. (_, refl)

  is_compressed-Returns : Returns (is_compressed rkgd)
  unfolding is_compressed
  is_compressed-Returns =
      Returns-bind _ _ (get_bits-Returns rkgd 0x0C 4 1 (omega arith)) λ flag. (_, refl)

  -- rkgd[0x8C : len(rkgd)-4] is taken.
  get_compressed_data-Returns :
      (szs : Bytes) × (get_compressed_data rkgd ≡ returns szs) × (length szs ≡ length rkgd - 0x90)
  unfolding get_compressed_data
  get_compressed_data-Returns =
      let (szs, e, size) = slice-Returns rkgd 0x8C (length rkgd - 4) (omega arith) (omega arith) in
      (szs, e, omega arith)

  is_used_up-Returns : (szs : Bytes) (r : Bool × ℕ) → Returns (is_used_up szs (some r))
  unfolding is_used_up
  is_used_up-Returns szs (valid, consumed) =
      Returns-if (not valid) _ _ (false, refl) (not (ltb (consumed + 3) (length szs - 0x10)), refl)

  stream-Returns :
      (szs : Bytes) (announced : ℕ)
      → 0x10 ≤ length szs
      → Returns (
          slice szs 0x10 (length szs) >>= λ stream.
          verify_yaz1_data stream announced 0 >>= λ result. is_used_up szs result)
  stream-Returns szs announced large =
      Returns-bind _ _ (slice-Returns_bare szs 0x10 (length szs) large (omega arith)) λ stream.
        let (r, e) = verify_yaz1_data-returns stream announced 0 in rw e (is_used_up-Returns szs r)

  has_stream-Returns : Returns (has_stream rkgd)
  unfolding has_stream
  has_stream-Returns =
      let (szs, e, size) = get_compressed_data-Returns in
      rw (e, has_stream)
        (Returns-bind _ _ (slice-Returns_bare szs 0 4 (omega arith) (omega arith)) λ magic.
          Returns-if (not (text_eq magic (codes "Yaz1"))) _ _ (false, refl)
            (Returns-bind _ _ (be_word szs 4, be32_at-word szs 4 (omega arith))
              λ announced. Returns-bind _ _ (get_bits-Returns rkgd 0x0E 0 16 (omega arith)) λ input.
                Returns-bind _ _ (be_word rkgd 0x88, be32_at-word rkgd 0x88 (omega arith))
                  λ packed.
                    Returns-bind _ _ (slice-Returns_bare szs 8 0x10 (omega arith) (omega arith))
                      λ padding. stream-Returns szs announced (omega arith)))

and_then-Returns :
    (check rest : Outcome Bool)
    → Returns check
    → (check ≡ returns true → Returns rest)
    → Returns (check and_then rest)
and_then-Returns panics rest (b, e) k = ground arith
and_then-Returns (returns true) rest h k = k refl
and_then-Returns (returns false) rest h k = (false, refl)

has_header-long :
    (crc32 : Bytes → ℕ) (rkgd : Bytes) → has_header crc32 rkgd ≡ returns true → 0xA0 ≤ length rkgd
unfolding has_header
has_header-long crc32 rkgd h =
    elim (Bool-cases (ltb (length rkgd) 0xA0 || ltb 0x2800 (length rkgd))) [
      | inl refused ↦ ground arith
      | inr fits ↦ ground arith
    ]

has_header-Returns : (crc32 : Bytes → ℕ) (rkgd : Bytes) → Returns (has_header crc32 rkgd)
unfolding has_header
has_header-Returns crc32 rkgd =
    elim (Bool-cases (ltb (length rkgd) 0xA0 || ltb 0x2800 (length rkgd))) [
      | inl refused ↦ rw (refused, has_header) (false, refl)
      | inr fits ↦
          let word = be32_at-word rkgd (length rkgd - 4) (ground arith) in
          rw (fits, has_header)
            (Returns-bind _ _ (slice-Returns_bare rkgd 0 4 (omega arith) (ground arith)) λ magic.
              Returns-if (not (text_eq magic (codes "RKGD"))) _ _ (false, refl)
                (Returns-bind _ _ (be_word rkgd (length rkgd - 4), word)
                  λ expected.
                    Returns-bind _ _
                      (slice-Returns_bare rkgd 0 (length rkgd - 4) (omega arith) (omega arith))
                      λ body. (_, refl)))
    ]

-- IsRKGDFileValid returns on every file, whatever its bytes and its length: it reads nothing
-- outside the file and its loops end.
pub is_rkgd_file_valid-Returns :
    (crc32 : Bytes → ℕ) (rkgd : Bytes) (expected_course expected_score : Option ℕ)
    → Returns (is_rkgd_file_valid crc32 rkgd expected_course expected_score)
unfolding is_rkgd_file_valid has_mii
is_rkgd_file_valid-Returns crc32 rkgd expected_course expected_score =
    and_then-Returns _ _ (has_header-Returns crc32 rkgd) λ h.
      let long = has_header-long crc32 rkgd h in
      and_then-Returns _ _ (has_scores-Returns rkgd long expected_score) λ scores.
        and_then-Returns _ _ (has_setup-Returns rkgd long expected_course) λ setup.
          and_then-Returns _ _
            (Returns-bind _ _ (slice-Returns_bare rkgd 0x3C 0x88 (omega arith) (omega arith))
              λ mii. (_, refl))
            λ mii.
              and_then-Returns _ _ (is_compressed-Returns rkgd long)
                λ packed. has_stream-Returns rkgd long

-- ===== src/MarioKartWii/Contents.antt =====
-- IsRKGDFileValid of common/mario_kart_wii.go: what the stream of an accepted file decompresses to.
use wfc_server.Prelude.{
  ℕ, ◌+◌, ◌-◌, ◌≤◌, ◌≡◌, sym, ap, ◌∙◌, length-drop, zero, suc, [], ◌∷◌, if◌then◌else◌, ◌>>=◌, refl,
  inl, inr, Bool, true, false, not, Option, some, length, take, drop, Outcome, returns, panics,
  Bool-cases, arith,
}
use wfc_server.Prelude.Words.{Bytes, be32_at}
use wfc_server.Prelude.Text.{codes, text_eq}
use wfc_server.MarioKartWii.Total.{verify_yaz1_data-returns}
use wfc_server.MarioKartWii.Yaz1.{verify_yaz1_data}
use wfc_server.MarioKartWii.Decoder.{decompress}
use wfc_server.MarioKartWii.Verified.{HasShortCopies}
use wfc_server.MarioKartWii.Accepted.{decompress-verify_yaz1_data}
use wfc_server.MarioKartWii.Bits.{get_bits, is_compressed}
use wfc_server.MarioKartWii.Ghost.{
  ◌and_then◌, has_header, slice, has_scores, has_setup, has_mii, get_compressed_data, is_used_up,
  has_stream, is_rkgd_file_valid,
}

and_then-true :
    (check rest : Outcome Bool)
    → (check and_then rest) ≡ returns true
    → (check ≡ returns true) × (rest ≡ returns true)
and_then-true panics rest h = ground arith
and_then-true (returns true) rest h = (refl, h)
and_then-true (returns false) rest h = ground arith

-- The stream of the file with its header, and the part that is compressed.
abbrev pub packed : Bytes → Bytes
packed rkgd = take (length rkgd - 0x90) (drop 0x8C rkgd)

abbrev pub stream_of : Bytes → Bytes
stream_of rkgd = drop 0x10 (packed rkgd)

slice-returns :
    (bytes part : Bytes) (low high : ℕ)
    → slice bytes low high ≡ returns part
    → part ≡ take (high - low) (drop low bytes)
unfolding slice
slice-returns bytes part low high e = ground arith

get_compressed_data-packed :
    (rkgd szs : Bytes) → get_compressed_data rkgd ≡ returns szs → szs ≡ packed rkgd
unfolding get_compressed_data
get_compressed_data-packed rkgd szs e =
    let shape : szs ≡ take (length rkgd - 4 - 0x8C) (drop 0x8C rkgd) =
      slice-returns rkgd szs 0x8C (length rkgd - 4) e in
    let size : length rkgd - 4 - 0x8C ≡ length rkgd - 0x90 = omega arith in
    shape ∙ ap (λ n. take n (drop 0x8C rkgd)) size

take_all : (bytes : Bytes) (n : ℕ) → length bytes ≤ n → take n bytes ≡ bytes
take_all [] zero h = refl
take_all [] (suc n) h = refl
take_all (b ∷ bytes) zero h = ground arith
take_all (b ∷ bytes) (suc n) h = ap (◌∷◌ b) (take_all bytes n (omega arith))

slice_rest :
    (bytes part : Bytes) (low : ℕ)
    → slice bytes low (length bytes) ≡ returns part
    → part ≡ drop low bytes
slice_rest bytes part low e =
    slice-returns bytes part low (length bytes) e
    ∙ take_all (drop low bytes) (length bytes - low) (omega (arith, length-drop low bytes))

bind-true {ℓ} :
    {A : Type ℓ} (m : Outcome A) (f : A → Outcome Bool)
    → (m >>= f) ≡ returns true
    → (a : A) × (m ≡ returns a) × (f a ≡ returns true)
bind-true panics f h = ground arith
bind-true (returns a) f h = (a, refl, h)

if-true :
    (b : Bool) (rest : Outcome Bool)
    → (if not b then returns false else rest) ≡ returns true
    → rest ≡ returns true
if-true true rest h = h
if-true false rest h = ground arith

-- What a decoder makes of the stream.
abbrev IsDecompressed : Bytes → Bytes → Type 0
IsDecompressed szs stream =
    (size : ℕ) × (n : ℕ) × (out : Bytes) × (be32_at szs 4 ≡ returns size)
    × (decompress stream size ≡ some (n, out))
    × (length out ≡ size)
    × (length szs ≤ n + 0x13)

used_up-decompress :
    (szs stream : Bytes) (size : ℕ)
    → HasShortCopies stream
    → be32_at szs 4 ≡ returns size
    → (verify_yaz1_data stream size 0 >>= λ result. is_used_up szs result) ≡ returns true
    → IsDecompressed szs stream
unfolding is_used_up
used_up-decompress szs stream size short e h =
    let ((valid, n), f) = verify_yaz1_data-returns stream size 0 in
    elim (Bool-cases valid) [
      | inl good ↦
          let (out, g, whole, within) =
            decompress-verify_yaz1_data stream size n short (ground arith) in
          (size, n, out, e, g, whole, ground arith)
      | inr bad ↦ ground arith
    ]

has_stream-decompress :
    (rkgd : Bytes)
    → HasShortCopies (stream_of rkgd)
    → has_stream rkgd ≡ returns true
    → IsDecompressed (packed rkgd) (stream_of rkgd)
unfolding has_stream
has_stream-decompress rkgd short h =
    let (szs, e, h₁) = bind-true (get_compressed_data rkgd) _ h in
    let (magic, e₂, h₂) = bind-true (slice szs 0 4) _ h₁ in
    let h₃ = if-true (text_eq magic (codes "Yaz1")) _ h₂ in
    let (size, e₄, h₄) = bind-true (be32_at szs 4) _ h₃ in
    let (input, e₅, h₅) = bind-true (get_bits rkgd 0x0E 0 16) _ h₄ in
    let (announced, e₆, h₆) = bind-true (be32_at rkgd 0x88) _ h₅ in
    let (padding, e₇, h₇) = bind-true (slice szs 8 0x10) _ h₆ in
    let (stream, e₈, h₈) = bind-true (slice szs 0x10 (length szs)) _ h₇ in
    let is_szs = get_compressed_data-packed rkgd szs e in
    let is_stream : stream ≡ stream_of rkgd =
      slice_rest szs stream 0x10 e₈ ∙ ap (drop 0x10) is_szs in
    rw (sym is_stream, sym is_szs) (used_up-decompress szs stream size (rw is_stream short) e₄ h₈)

-- A file that IsRKGDFileValid accepts, and in whose stream no byte that may be the third of a long
-- copy is 0xEE or more: the stream decompresses to exactly the size that it announces, and at most
-- three bytes follow what the decoder reads.
pub is_rkgd_file_valid-decompress :
    (crc32 : Bytes → ℕ) (rkgd : Bytes) (expected_course expected_score : Option ℕ)
    → HasShortCopies (stream_of rkgd)
    → is_rkgd_file_valid crc32 rkgd expected_course expected_score ≡ returns true
    → (size : ℕ) × (n : ℕ) × (out : Bytes) × (be32_at (packed rkgd) 4 ≡ returns size)
      × (decompress (stream_of rkgd) size ≡ some (n, out))
      × (length out ≡ size)
      × (length (packed rkgd) ≤ n + 0x13)
unfolding is_rkgd_file_valid
is_rkgd_file_valid-decompress crc32 rkgd expected_course expected_score short h =
    let (header, h₁) = and_then-true (has_header crc32 rkgd) _ h in
    let (scores, h₂) = and_then-true (has_scores rkgd expected_score) _ h₁ in
    let (setup, h₃) = and_then-true (has_setup rkgd expected_course) _ h₂ in
    let (mii, h₄) = and_then-true (has_mii rkgd) _ h₃ in
    let (packed, stream) = and_then-true (is_compressed rkgd) _ h₄ in
    has_stream-decompress rkgd short stream

-- ===== src/MarioKartWii/Accepted.antt =====
-- VerifyYaz1Data of common/mario_kart_wii.go: an accepted stream, against the decoder.
use wfc_server.Prelude.{
  ℕ, zero, suc, ◌+◌, ◌-◌, ◌*◌, ◌%◌, ◌<◌, ◌≤◌, ◌≡◌, refl, inl, inr, true, some, leb, ◌==◌, [], ◌∷◌,
  length, returns, Bool-cases, Outcome-cases, arith,
}
use wfc_server.Prelude.Lists.{get_elem?-some}
use wfc_server.Prelude.Words.{Bytes}
use wfc_server.MarioKartWii.Yaz1.{
  Progress, byte_at, long_copy, copy_length, copy_token, token, token_loop, block, round, verdict,
  verify_loop, verify_yaz1_data,
}
use wfc_server.MarioKartWii.Decoder.{
  copy_back, read_copy, read_token, read_tokens, read_stream, decompress,
}
use wfc_server.MarioKartWii.Total.{Progress-cases}
use wfc_server.MarioKartWii.Verified.{
  HasShortCopies, byte_at-get_elem?, length-copy_back, read_tokens-token_loop,
}

-- The flags of as many bytes as there are rounds.
abbrev IsAllBytes : ℕ → ℕ → Type 0
IsAllBytes zero flags = Unit
IsAllBytes (suc rounds) flags = (leb 0x80 flags ≡ true) × IsAllBytes rounds (flags * 2 % 0x100)

read_tokens-bytes :
    (rounds : ℕ) (szs : Bytes) (expected flags i : ℕ) (out : Bytes)
    → IsAllBytes rounds flags
    → i + rounds ≤ length szs
    → length out + rounds ≤ expected
    → (out' : Bytes) × (read_tokens rounds szs expected flags i out ≡ some (i + rounds, out'))
      × (length out' ≡ length out + rounds)
unfolding read_tokens read_token
read_tokens-bytes zero szs expected flags i out ones inside room = (out, ground arith, omega arith)
read_tokens-bytes (suc rounds) szs expected flags i out (one, ones) inside room =
    let (b, e) = get_elem?-some szs i (omega arith) in
    let (out', f, grown) =
      read_tokens-bytes rounds szs expected (flags * 2 % 0x100) (suc i) (b ∷ out) ones (omega arith)
        (omega arith) in
    elim (Bool-cases (leb expected (length (b ∷ out)))) [
      | inl enough ↦ (b ∷ out, ground arith, ground arith)
      | inr more ↦ (out', ground arith, omega arith)
    ]

-- From a state that leads to an acceptance, the index is inside and the size is not exceeded.
verify_loop-accepts :
    (fuel : ℕ) (szs : Bytes) (expected i decoded n : ℕ)
    → verify_loop fuel szs expected i decoded ≡ returns (some (true, n))
    → (i ≤ length szs) × (decoded ≤ expected)
unfolding verify_loop verdict
verify_loop-accepts zero szs expected i decoded n h = ground arith
verify_loop-accepts (suc fuel) szs expected i decoded n h =
    elim (Bool-cases (leb expected decoded)) [
      | inl done ↦ ground arith
      | inr more ↦ elim (Bool-cases (leb (length szs) i)) [
        | inl ended ↦ ground arith
        | inr left ↦ (ground arith, ground arith)
      ]
    ]

module _ (szs : Bytes) (short : HasShortCopies szs) where
  read_tokens-block :
      (expected flags i j total : ℕ) (out : Bytes)
      → block szs expected flags i (length out) ≡ returns (Progress.advanced j total)
      → j ≤ length szs
      → total ≤ expected
      → (out' : Bytes) × (read_tokens 8 szs expected flags i out ≡ some (j, out'))
        × (length out' ≡ total)
  unfolding block
  read_tokens-block expected flags i j total out h inside room = elim (Bool-cases (flags == 0xFF)) [
    | inl bytes ↦
        let (out', f, grown) =
          read_tokens-bytes 8 szs expected 0xFF i out
            (refl, (refl, (refl, (refl, (refl, (refl, (refl, (refl, tt)))))))) (ground arith)
            (ground arith) in
        (out', ground arith, ground arith)
    | inr mixed ↦
        read_tokens-token_loop szs short 8 expected flags i j total out (ground arith) inside
  ]

  read_stream-verify_loop :
      (fuel expected i n : ℕ) (out : Bytes)
      → verify_loop fuel szs expected i (length out) ≡ returns (some (true, n))
      → (out' : Bytes) × (read_stream fuel szs expected i out ≡ some (n, out'))
        × (length out' ≡ expected)
        × (n ≤ length szs)
  unfolding verify_loop verdict read_stream round
  read_stream-verify_loop zero expected i n out h = ground arith
  read_stream-verify_loop (suc fuel) expected i n out h =
      elim (Bool-cases (leb expected (length out))) [
        | inl done ↦ (out, ground arith, ground arith, ground arith)
        | inr more ↦ elim (Outcome-cases (byte_at szs i)) [
          | inl stuck ↦ ground arith
          | inr (flags, e) ↦ elim (Outcome-cases (block szs expected flags (suc i) (length out))) [
            | inl stuck ↦ ground arith
            | inr (p, f) ↦ elim (Progress-cases p) [
              | inl (k, stop) ↦ ground arith
              | inr (j, total, step) ↦
                  let onward : verify_loop fuel szs expected j total ≡ returns (some (true, n)) =
                    ground arith in
                  let (inside, room) = verify_loop-accepts fuel szs expected j total n onward in
                  let (out₁, g, grown) =
                    read_tokens-block expected flags (suc i) j total out (ground arith) inside
                      room in
                  let (out', k, whole, within) =
                    read_stream-verify_loop fuel expected j n out₁ (rw grown onward) in
                  let at_flags = byte_at-get_elem? szs i flags e in
                  (out', ground arith, whole, within)
            ]
          ]
        ]
      ]

-- When VerifyYaz1Data accepts a stream in which no byte that may be the third of a long copy is
-- 0xEE or more, the decoder reads exactly the bytes that it counted, all of them in the stream, and
-- writes exactly as many bytes as were announced.
pub decompress-verify_yaz1_data :
    (szs : Bytes) (expected n : ℕ)
    → HasShortCopies szs
    → verify_yaz1_data szs expected 0 ≡ returns (some (true, n))
    → (out : Bytes) × (decompress szs expected ≡ some (n, out))
      × (length out ≡ expected)
      × (n ≤ length szs)
unfolding verify_yaz1_data decompress
decompress-verify_yaz1_data szs expected n short h =
    read_stream-verify_loop szs short (suc (suc (length szs))) expected 0 n [] h

overrun-accepted :
    (x c : ℕ)
    → 0xEF ≤ c
    → c < 0x100
    → verify_loop 7 (0x80 ∷ x ∷ 0 ∷ 0 ∷ c ∷ []) (c - 0xED) 0 0 ≡ returns (some (true, 5))
unfolding verify_loop round block token_loop token copy_token copy_length long_copy byte_at verdict
overrun-accepted x c low high = ground arith

overrun-decoded :
    (x c : ℕ) (out : Bytes)
    → 0xEF ≤ c
    → c < 0x100
    → copy_back (c + 0x12) 0 (x ∷ []) ≡ some out
    → length out ≡ c + 0x13
    → read_stream 7 (0x80 ∷ x ∷ 0 ∷ 0 ∷ c ∷ []) (c - 0xED) 0 [] ≡ some (5, out)
unfolding read_stream read_tokens read_token read_copy
overrun-decoded x c out low high e grown = ground arith

-- For a third byte c of 0xEF or more, VerifyYaz1Data accepts a stream of one byte and a long copy
-- with the announced size c - 0xED, and the decoder writes 256 bytes more than that.
pub verify_yaz1_data-overrun :
    (x c : ℕ)
    → 0xEF ≤ c
    → c < 0x100
    → let szs = 0x80 ∷ x ∷ 0 ∷ 0 ∷ c ∷ [] in
      (verify_yaz1_data szs (c - 0xED) 0 ≡ returns (some (true, 5)))
      × ((out : Bytes) × (decompress szs (c - 0xED) ≡ some (5, out))
          × (length out ≡ c - 0xED + 0x100))
unfolding verify_yaz1_data decompress
verify_yaz1_data-overrun x c low high =
    let (out, e, grown) = length-copy_back (c + 0x12) 0 (x ∷ []) (omega arith) in
    (
      overrun-accepted x c low high,
      (out, overrun-decoded x c out low high e (omega arith), omega arith),
    )

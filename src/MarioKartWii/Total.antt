-- ===== src/MarioKartWii/Total.antt =====
-- VerifyYaz1Data of common/mario_kart_wii.go returns: no read is out of range, and the loop ends.
use wfc_server.Prelude.{
  ℕ, zero, suc, ◌+◌, ◌*◌, ◌/◌, ◌%◌, ◌<◌, ◌≤◌, ◌≡◌, refl, ◌⊎◌, inl, inr, Bool, false, some, ltb, leb,
  ◌==◌, length, returns, Bool-cases, arith,
}
use wfc_server.Prelude.Lists.{get_elem?-some}
use wfc_server.Prelude.Words.{Bytes}
use wfc_server.MarioKartWii.Yaz1.{
  Progress, byte_at, long_copy, copy_length, copy_token, token, token_loop, block, round, verdict,
  verify_loop, verify_yaz1_data,
}

pub byte_at-returns : (szs : Bytes) (i : ℕ) → i < length szs → (b : ℕ) × (byte_at szs i ≡ returns b)
unfolding byte_at
byte_at-returns szs i h = let (b, e) = get_elem?-some szs i h in (b, ground arith)

-- A step that goes on has moved from the index.
abbrev pub IsPast : ℕ → Progress → Type 0
IsPast i (Progress.stopped j) = Unit
IsPast i (Progress.advanced j total) = i < j

pub Progress-cases :
    (p : Progress)
    → ((j : ℕ) × (p ≡ Progress.stopped j))
      ⊎ ((j : ℕ) × (total : ℕ) × (p ≡ Progress.advanced j total))
Progress-cases (Progress.stopped j) = inl (j, refl)
Progress-cases (Progress.advanced j total) = inr (j, total, refl)

pub IsPast-advanced :
    (i j total : ℕ) (p : Progress) → p ≡ Progress.advanced j total → IsPast i p → i < j
IsPast-advanced i j total (Progress.stopped k) e h = ground arith
IsPast-advanced i j total (Progress.advanced k n) e h = ground arith

module _ (szs : Bytes) where
  long_copy-IsPast :
      (k i decoded : ℕ)
      → k < i
      → (p : Progress) × (long_copy szs i decoded ≡ returns p) × IsPast k p
  unfolding long_copy
  long_copy-IsPast k i decoded past = elim (Bool-cases (leb (length szs) i)) [
    | inl ended ↦ (Progress.stopped i, ground arith, tt)
    | inr more ↦
        let (b, e) = byte_at-returns szs i (ground arith) in
        (Progress.advanced (suc i) (decoded + (b + 0x12) % 0x100), ground arith, omega arith)
  ]

  copy_length-IsPast :
      (high k i decoded : ℕ)
      → k < i
      → (p : Progress) × (copy_length szs high i decoded ≡ returns p) × IsPast k p
  unfolding copy_length
  copy_length-IsPast high k i decoded past = elim (Bool-cases (high + 2 == 2)) [
    | inl long ↦ let (p, e, moved) = long_copy-IsPast k i decoded past in (p, ground arith, moved)
    | inr short ↦ (Progress.advanced i (decoded + (high + 2)), ground arith, past)
  ]

  copy_token-IsPast :
      (i decoded : ℕ) → (p : Progress) × (copy_token szs i decoded ≡ returns p) × IsPast i p
  unfolding copy_token
  copy_token-IsPast i decoded = elim (Bool-cases (leb (length szs) (suc i))) [
    | inl ended ↦ (Progress.stopped i, ground arith, tt)
    | inr more ↦
        let (first, e) = byte_at-returns szs i (ground arith) in
        let (second, f) = byte_at-returns szs (suc i) (ground arith) in
        elim (Bool-cases (ltb decoded (suc (first % 0x10 * 0x100 + second)))) [
          | inl before ↦ (Progress.stopped (suc (suc i)), ground arith, tt)
          | inr within ↦
              let (p, g, moved) =
                copy_length-IsPast (first / 0x10) i (suc (suc i)) decoded (omega arith) in
              (p, ground arith, moved)
        ]
  ]

  pub token-IsPast :
      (flags i decoded : ℕ) → (p : Progress) × (token szs flags i decoded ≡ returns p) × IsPast i p
  unfolding token
  token-IsPast flags i decoded = elim (Bool-cases (ltb flags 0x80)) [
    | inl copy ↦ let (p, e, moved) = copy_token-IsPast i decoded in (p, ground arith, moved)
    | inr byte ↦ (Progress.advanced (suc i) (suc decoded), ground arith, omega arith)
  ]

  token_loop-IsPast :
      (rounds expected flags k i decoded : ℕ)
      → k < i
      → (p : Progress) × (token_loop rounds szs expected flags i decoded ≡ returns p) × IsPast k p
  unfolding token_loop
  token_loop-IsPast zero expected flags k i decoded past = (Progress.advanced i decoded, refl, past)
  token_loop-IsPast (suc rounds) expected flags k i decoded past =
      let (p, e, moved) = token-IsPast flags i decoded in
      elim (Progress-cases p) [
        | inl (j, stop) ↦ (Progress.stopped j, ground arith, tt)
        | inr (j, total, step) ↦ elim (Bool-cases (leb expected total)) [
          | inl enough ↦ (
            Progress.advanced j total,
            ground arith,
            omega (arith, IsPast-advanced i j total p step moved),
          )
          | inr more ↦
              let near : i < j = IsPast-advanced i j total p step moved in
              let (q, f, further) =
                token_loop-IsPast rounds expected (flags * 2 % 0x100) k j total (omega arith) in
              (q, ground arith, further)
        ]
      ]

  round-IsPast :
      (expected i decoded : ℕ)
      → i < length szs
      → (p : Progress) × (round szs expected i decoded ≡ returns p) × IsPast i p
  unfolding round block
  round-IsPast expected i decoded h =
      let (flags, e) = byte_at-returns szs i h in
      elim (Bool-cases (flags == 0xFF)) [
        | inl bytes ↦ (Progress.advanced (suc i + 8) (decoded + 8), ground arith, omega arith)
        | inr mixed ↦
            let (p, f, moved) =
              token_loop-IsPast 8 expected flags i (suc i) decoded (omega arith) in
            (p, ground arith, moved)
      ]

  verify_loop-returns :
      (fuel expected i decoded : ℕ)
      → 1 ≤ fuel
      → length szs + 2 ≤ i + fuel
      → (r : Bool × ℕ) × (verify_loop fuel szs expected i decoded ≡ returns (some r))
  unfolding verify_loop
  verify_loop-returns zero expected i decoded h k = absurd (omega arith)
  verify_loop-returns (suc fuel) expected i decoded h k = elim (Bool-cases (leb expected decoded)) [
    | inl done ↦ (verdict szs expected i decoded, ground arith)
    | inr more ↦ elim (Bool-cases (leb (length szs) i)) [
      | inl ended ↦ ((false, i), ground arith)
      | inr left ↦
          let (p, e, moved) = round-IsPast expected i decoded (ground arith) in
          elim (Progress-cases p) [
            | inl (j, stop) ↦ ((false, j), ground arith)
            | inr (j, total, step) ↦
                let near : i < j = IsPast-advanced i j total p step moved in
                let small : i < length szs = ground arith in
                let (r, f) =
                  verify_loop-returns fuel expected j total (omega arith) (omega arith) in
                (r, ground arith)
          ]
    ]
  ]

-- VerifyYaz1Data returns for every stream, announced size and count of bytes to start from: it
-- reads no byte behind the end, and its loop ends.
pub verify_yaz1_data-returns :
    (szs : Bytes) (expected decoded : ℕ)
    → (r : Bool × ℕ) × (verify_yaz1_data szs expected decoded ≡ returns (some r))
unfolding verify_yaz1_data
verify_yaz1_data-returns szs expected decoded =
    verify_loop-returns szs (suc (suc (length szs))) expected 0 decoded (omega arith) (omega arith)

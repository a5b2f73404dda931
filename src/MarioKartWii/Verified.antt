-- ===== src/MarioKartWii/Verified.antt =====
-- What VerifyYaz1Data of common/mario_kart_wii.go accepts, against the decoder.
use wfc_server.Prelude.{
  ℕ, zero, suc, ◌+◌, ◌*◌, ◌/◌, ◌%◌, ◌<◌, ◌≤◌, ◌≡◌, refl, inl, inr, some, ltb, leb, ◌∷◌, length,
  get_elem?, returns, Bool-cases, Option-cases, Outcome-cases, arith,
}
use wfc_server.Prelude.Lists.{get_elem?-some}
use wfc_server.Prelude.Words.{Bytes}
use wfc_server.MarioKartWii.Yaz1.{
  Progress, byte_at, long_copy, copy_length, copy_token, token, token_loop,
}
use wfc_server.MarioKartWii.Decoder.{copy_back, read_copy, read_token, read_tokens}
use wfc_server.MarioKartWii.Total.{Progress-cases, token-IsPast, IsPast-advanced}

-- No long copy takes 256 bytes or more: two bytes behind one that may start a long copy there is
-- none of 0xEE or more.
unfoldable pub HasShortCopies : Bytes → Type 0
HasShortCopies szs =
    (k first third : ℕ)
    → get_elem? szs k ≡ some first
    → first < 0x10
    → get_elem? szs (suc (suc k)) ≡ some third
    → third < 0xEE

pub length-copy_back :
    (n distance : ℕ) (out : Bytes)
    → distance < length out
    → (out' : Bytes) × (copy_back n distance out ≡ some out') × (length out' ≡ n + length out)
unfolding copy_back
length-copy_back zero distance out h = (out, refl, omega arith)
length-copy_back (suc n) distance out h =
    let (b, e) = get_elem?-some out distance h in
    let (out', f, grown) = length-copy_back n distance (b ∷ out) (omega arith) in
    (out', ground arith, omega arith)

pub byte_at-get_elem? :
    (szs : Bytes) (i b : ℕ) → byte_at szs i ≡ returns b → get_elem? szs i ≡ some b
unfolding byte_at
byte_at-get_elem? szs i b h = elim (Option-cases (get_elem? szs i)) [
  | inl gone ↦ ground arith
  | inr (c, e) ↦ ground arith
]

module _ (szs : Bytes) (short : HasShortCopies szs) where
  -- A copy that the checks let through is one that the decoder makes, of the same length.
  read_copy-copy_length :
      (first second i j total : ℕ) (out : Bytes)
      → get_elem? szs i ≡ some first
      → first % 0x10 * 0x100 + second < length out
      → copy_length szs (first / 0x10) (suc (suc i)) (length out)
        ≡ returns (Progress.advanced j total)
      → (out' : Bytes) × (read_copy first second szs (suc (suc i)) out ≡ some (j, out'))
        × (length out' ≡ total)
  unfolding copy_length long_copy read_copy HasShortCopies
  read_copy-copy_length first second i j total out at_first within h =
      elim (Bool-cases (ltb first 0x10)) [
        | inl long ↦ elim (Outcome-cases (byte_at szs (suc (suc i)))) [
          | inl stuck ↦ ground arith
          | inr (third, e) ↦
              let at_third = byte_at-get_elem? szs (suc (suc i)) third e in
              let small : third < 0xEE = short i first third at_first (ground arith) at_third in
              let (out', f, grown) =
                length-copy_back (third + 0x12) (first % 0x10 * 0x100 + second) out within in
              (out', ground arith, ground arith)
        ]
        | inr brief ↦
            let (out', f, grown) =
              length-copy_back (first / 0x10 + 2) (first % 0x10 * 0x100 + second) out within in
            (out', ground arith, ground arith)
      ]

  read_token-token :
      (flags i j total : ℕ) (out : Bytes)
      → token szs flags i (length out) ≡ returns (Progress.advanced j total)
      → j ≤ length szs
      → (out' : Bytes) × (read_token (leb 0x80 flags) szs i out ≡ some (j, out'))
        × (length out' ≡ total)
  unfolding token copy_token read_token
  read_token-token flags i j total out h inside = elim (Bool-cases (leb 0x80 flags)) [
    | inl byte ↦
        let (b, e) = get_elem?-some szs i (ground arith) in (b ∷ out, ground arith, ground arith)
    | inr copy ↦ elim (Outcome-cases (byte_at szs i)) [
      | inl stuck ↦ ground arith
      | inr (first, e) ↦ elim (Outcome-cases (byte_at szs (suc i))) [
        | inl stuck ↦ ground arith
        | inr (second, f) ↦
            let at_first = byte_at-get_elem? szs i first e in
            let at_second = byte_at-get_elem? szs (suc i) second f in
            let (out', g, grown) =
              read_copy-copy_length first second i j total out at_first (ground arith)
                (ground arith) in
            (out', ground arith, grown)
      ]
    ]
  ]

  -- Tokens never go back.
  token_loop-forward :
      (rounds expected flags i decoded j total : ℕ)
      → token_loop rounds szs expected flags i decoded ≡ returns (Progress.advanced j total)
      → i ≤ j
  unfolding token_loop
  token_loop-forward zero expected flags i decoded j total h = ground arith
  token_loop-forward (suc rounds) expected flags i decoded j total h =
      let (p, e, moved) = token-IsPast szs flags i decoded in
      elim (Progress-cases p) [
        | inl (k, stop) ↦ ground arith
        | inr (k, now, step) ↦
            let near : i < k = IsPast-advanced i k now p step moved in
            elim (Bool-cases (leb expected now)) [
              | inl enough ↦ ground arith
              | inr more ↦
                  let later : k ≤ j =
                    token_loop-forward rounds expected (flags * 2 % 0x100) k now j total
                      (ground arith) in
                  omega arith
            ]
      ]

  pub read_tokens-token_loop :
      (rounds expected flags i j total : ℕ) (out : Bytes)
      → token_loop rounds szs expected flags i (length out) ≡ returns (Progress.advanced j total)
      → j ≤ length szs
      → (out' : Bytes) × (read_tokens rounds szs expected flags i out ≡ some (j, out'))
        × (length out' ≡ total)
  unfolding token_loop read_tokens
  read_tokens-token_loop zero expected flags i j total out h inside =
      (out, ground arith, ground arith)
  read_tokens-token_loop (suc rounds) expected flags i j total out h inside =
      let (p, e, moved) = token-IsPast szs flags i (length out) in
      elim (Progress-cases p) [
        | inl (k, stop) ↦ ground arith
        | inr (k, now, step) ↦ elim (Bool-cases (leb expected now)) [
          | inl enough ↦
              let (out', f, grown) =
                read_token-token flags i k now out (ground arith) (ground arith) in
              (out', ground arith, ground arith)
          | inr more ↦
              let tail : token_loop rounds szs expected (flags * 2 % 0x100) k now
                  ≡ returns (Progress.advanced j total) =
                ground arith in
              let later : k ≤ j =
                token_loop-forward rounds expected (flags * 2 % 0x100) k now j total tail in
              let (out₁, f, grown) =
                read_token-token flags i k now out (ground arith) (omega arith) in
              let (out', g, grown') =
                read_tokens-token_loop rounds expected (flags * 2 % 0x100) k j total out₁
                  (rw grown tail) inside in
              (out', ground arith, grown')
        ]
      ]

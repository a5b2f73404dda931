-- ===== src/MarioKartWii/Yaz1.antt =====
-- VerifyYaz1Data of common/mario_kart_wii.go. An index into the slice is a number, and a read out of
-- range panics. The outer loop takes fuel: `none` says that the fuel ran out.
use wfc_server.Prelude.{
  ℕ, zero, suc, ◌+◌, ◌*◌, ◌/◌, ◌%◌, Bool, true, false, Option, none, some, ltb, leb, ◌==◌,
  if◌then◌else◌, length, get_elem?, Outcome, returns, panics, ◌>>=◌,
}
use wfc_server.Prelude.Words.{Bytes}

unfoldable pub byte_at : Bytes → ℕ → Outcome ℕ
byte_at szs i = elim (get_elem? szs i) [ none ↦ panics | some b ↦ returns b ]

-- A token of the stream: the checks stop at an index, or go on with one and a count of bytes that
-- the tokens so far stand for.
pub data Progress : Type 0 where
  stopped : ℕ → Progress
  advanced : ℕ → ℕ → Progress

-- The long form of a copy: its length is a byte, which wraps.
unfoldable pub long_copy : Bytes → ℕ → ℕ → Outcome Progress
long_copy szs i decoded = if leb (length szs) i then returns (Progress.stopped i) else (do
  long ← byte_at szs i
  returns (Progress.advanced (suc i) (decoded + (long + 0x12) % 0x100)))

-- The length of a copy, and the index behind it.
unfoldable pub copy_length : Bytes → ℕ → ℕ → ℕ → Outcome Progress
copy_length szs high i decoded =
    if high + 2 == 2
    then long_copy szs i decoded
    else returns (Progress.advanced i (decoded + (high + 2)))

-- A copy from behind: `(szsData[i] & 0x0F) << 8 | szsData[i+1]` is a sum, as the second is a byte.
unfoldable pub copy_token : Bytes → ℕ → ℕ → Outcome Progress
copy_token szs i decoded = if leb (length szs) (suc i) then returns (Progress.stopped i) else (do
  first ← byte_at szs i
  second ← byte_at szs (suc i)
  if ltb decoded (suc (first % 0x10 * 0x100 + second))
      then returns (Progress.stopped (suc (suc i)))
      else copy_length szs (first / 0x10) (suc (suc i)) decoded)

-- One round of the inner loop: the top bit of the flags tells a byte from a copy.
unfoldable pub token : Bytes → ℕ → ℕ → ℕ → Outcome Progress
token szs flags i decoded =
    if ltb flags 0x80
    then copy_token szs i decoded
    else returns (Progress.advanced (suc i) (suc decoded))

-- The rounds that are left of the inner loop.
unfoldable pub token_loop : ℕ → Bytes → ℕ → ℕ → ℕ → ℕ → Outcome Progress
token_loop zero szs expected flags i decoded = returns (Progress.advanced i decoded)
token_loop (suc rounds) szs expected flags i decoded = token szs flags i decoded >>= λ p. elim p [
  | Progress.stopped j ↦ returns (Progress.stopped j)
  | Progress.advanced j total ↦
      let rest = token_loop rounds szs expected (flags * 2 % 0x100) j total in
      if leb expected total then returns (Progress.advanced j total) else rest
]

-- What follows the byte of flags: eight bytes at once, or the inner loop.
unfoldable pub block : Bytes → ℕ → ℕ → ℕ → ℕ → Outcome Progress
block szs expected flags i decoded =
    if flags == 0xFF
    then returns (Progress.advanced (i + 8) (decoded + 8))
    else token_loop 8 szs expected flags i decoded

-- The two tests behind the loop.
unfoldable pub verdict : Bytes → ℕ → ℕ → ℕ → Bool × ℕ
verdict szs expected i decoded =
    if ltb expected decoded
    then (false, i)
    else if ltb (length szs) i
    then (false, i)
    else (true, i)

-- The byte of flags and what follows it.
unfoldable pub round : Bytes → ℕ → ℕ → ℕ → Outcome Progress
round szs expected i decoded = do flags ← byte_at szs i; block szs expected flags (suc i) decoded

unfoldable pub verify_loop : ℕ → Bytes → ℕ → ℕ → ℕ → Outcome (Option (Bool × ℕ))
verify_loop zero szs expected i decoded = returns none
verify_loop (suc fuel) szs expected i decoded =
    let go_on : Outcome (Option (Bool × ℕ)) = elim (round szs expected i decoded) [
      | panics ↦ panics
      | returns p ↦ elim p [
        | Progress.stopped j ↦ returns (some (false, j))
        | Progress.advanced j total ↦ verify_loop fuel szs expected j total
      ]
    ] in
    if leb expected decoded
    then returns (some (verdict szs expected i decoded))
    else if leb (length szs) i
    then returns (some (false, i))
    else go_on

-- VerifyYaz1Data. Each round of the outer loop takes a byte of the slice, so two rounds more than
-- bytes are enough.
unfoldable pub verify_yaz1_data : Bytes → ℕ → ℕ → Outcome (Option (Bool × ℕ))
verify_yaz1_data szs expected decoded = verify_loop (suc (suc (length szs))) szs expected 0 decoded

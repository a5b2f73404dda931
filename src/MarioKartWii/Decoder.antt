-- ===== src/MarioKartWii/Decoder.antt =====
-- What a Yaz1 stream stands for, apart from any check: the bytes that a decoder writes which stops
-- between two tokens once it has written as many as were announced. A copy of the long form has
-- 0x12 bytes more than its third byte says, up to 273. `none`: a read before the start of the
-- output or behind the end of the stream.
use wfc_server.Prelude.{
  ℕ, zero, suc, ◌+◌, ◌*◌, ◌/◌, ◌%◌, Bool, true, false, Option, none, some, [], ◌∷◌, ltb, leb,
  if◌then◌else◌, length, get_elem?,
}
use wfc_server.Prelude.Words.{Bytes}

-- The output so far is kept with its last byte first, so that a distance is an index.
unfoldable pub copy_back : ℕ → ℕ → Bytes → Option Bytes
copy_back zero distance out = some out
copy_back (suc n) distance out = elim (get_elem? out distance) [
  | none ↦ none
  | some b ↦ copy_back n distance (b ∷ out)
]

-- A token: the index behind it, and the output with its bytes.
unfoldable pub read_copy : ℕ → ℕ → Bytes → ℕ → Bytes → Option (ℕ × Bytes)
read_copy first second stream i out =
    let distance = first % 0x10 * 0x100 + second in
    if ltb first 0x10
    then (elim (get_elem? stream i) [
      | none ↦ none
      | some third ↦ elim (copy_back (third + 0x12) distance out) [
        | none ↦ none
        | some out' ↦ some (suc i, out')
      ]
    ])
    else (elim (copy_back (first / 0x10 + 2) distance out) [
      | none ↦ none
      | some out' ↦ some (i, out')
    ])

unfoldable pub read_token : Bool → Bytes → ℕ → Bytes → Option (ℕ × Bytes)
read_token true stream i out = elim (get_elem? stream i) [
  | none ↦ none
  | some b ↦ some (suc i, b ∷ out)
]
read_token false stream i out = elim (get_elem? stream i) [
  | none ↦ none
  | some first ↦ elim (get_elem? stream (suc i)) [
    | none ↦ none
    | some second ↦ read_copy first second stream (suc (suc i)) out
  ]
]

-- The tokens of a byte of flags, its top bit first.
unfoldable pub read_tokens : ℕ → Bytes → ℕ → ℕ → ℕ → Bytes → Option (ℕ × Bytes)
read_tokens zero stream size flags i out = some (i, out)
read_tokens (suc bits) stream size flags i out = elim (read_token (leb 0x80 flags) stream i out) [
  | none ↦ none
  | some r ↦
      let rest = read_tokens bits stream size (flags * 2 % 0x100) r.0 r.1 in
      if leb size (length r.1) then some r else rest
]

unfoldable pub read_stream : ℕ → Bytes → ℕ → ℕ → Bytes → Option (ℕ × Bytes)
read_stream zero stream size i out = none
read_stream (suc fuel) stream size i out =
    let rest : Option (ℕ × Bytes) = elim (get_elem? stream i) [
      | none ↦ none
      | some flags ↦ elim (read_tokens 8 stream size flags (suc i) out) [
        | none ↦ none
        | some r ↦ read_stream fuel stream size r.0 r.1
      ]
    ] in
    if leb size (length out) then some (i, out) else rest

unfoldable pub decompress : Bytes → ℕ → Option (ℕ × Bytes)
decompress stream size = read_stream (suc (suc (length stream))) stream size 0 []

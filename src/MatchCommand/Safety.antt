-- ===== src/MatchCommand/Safety.antt =====
-- DecodeMatchCommand reads no byte outside the buffer.
use wfc_server.Prelude.{
  ℕ, zero, suc, ◌+◌, ◌*◌, ◌/◌, ◌≤◌, ◌≡◌, refl, ◌⊎◌, ◌≢◌, panics, true, List, [], ◌∷◌, length,
  returns, arith,
}
use wfc_server.Prelude.Words.{Bytes, le_word, le32_at-word, be32_at-word}
use wfc_server.MatchCommand.{known_version}
use wfc_server.MatchCommand.DecodeReservation.{
  decode_reservation, decode_reservation_3, decode_reservation_11, decode_reservation_90,
}
use wfc_server.MatchCommand.DecodeResvOk.{
  read_words, decode_resv_ok, decode_resv_ok_list, decode_resv_ok_90, decode_resv_ok_3,
  decode_resv_ok_11,
}
use wfc_server.MatchCommand.Decode.{
  decode_match_command, decode_case, decode_resv_deny, decode_empty, decode_tell_addr,
  decode_server_close_client, decode_poll_to_ack, decode_suspend_match,
}

decode_reservation_3-ne-panics :
    (t p : ℕ) (b : Bytes) → 0x0C ≤ length b → decode_reservation_3 t p b ≢ panics
unfolding decode_reservation_3
decode_reservation_3-ne-panics t p b h e = ground (arith, be32_at-word b 0x04)

decode_reservation_11-ne-panics :
    (t p : ℕ) (b : Bytes) → 0x14 ≤ length b → decode_reservation_11 t p b ≢ panics
unfolding decode_reservation_11
decode_reservation_11-ne-panics t p b h e =
    ground (arith, le32_at-word b 0x0C, be32_at-word b 0x04, le32_at-word b 0x10)

decode_reservation_90-ne-panics :
    (t p : ℕ) (b : Bytes) → 0x24 ≤ length b → decode_reservation_90 t p b ≢ panics
unfolding decode_reservation_90
decode_reservation_90-ne-panics t p b h e = ground (
  arith,
  le32_at-word b 0x10,
  le32_at-word b 0x18,
  be32_at-word b 0x04,
  be32_at-word b 0x0C,
  le32_at-word b 0x14,
  le32_at-word b 0x1C,
  le32_at-word b 0x20,
)

decode_reservation-ne-panics :
    (v : ℕ) (b : Bytes) → known_version v ≡ true → decode_reservation v b ≢ panics
unfolding decode_reservation
decode_reservation-ne-panics v b k e = ground (
  arith,
  le32_at-word b 0x00,
  le32_at-word b 0x08,
  decode_reservation_3-ne-panics (le_word b 0) (le_word b 8) b,
  decode_reservation_11-ne-panics (le_word b 0) (le_word b 8) b,
  decode_reservation_90-ne-panics (le_word b 0) (le_word b 8) b,
)

-- The words that the loop reads, as a value.
unfoldable pub words : ℕ → Bytes → ℕ → List ℕ
words zero b i = []
words (suc n) b i = le_word b i ∷ words n b (i + 4)

pub read_words-words :
    (n : ℕ) (b : Bytes) (i : ℕ) → i + 4 * n ≤ length b → read_words n b i ≡ returns (words n b i)
unfolding read_words words
read_words-words zero b i h = refl
read_words-words (suc n) b i h =
    ground (arith, le32_at-word b i, read_words-words n b (i + 4) (omega arith))

decode_resv_ok_3-ne-panics :
    (n : ℕ) (pids : List ℕ) (i port : ℕ) (b : Bytes)
    → i + 4 ≤ length b
    → decode_resv_ok_3 n pids i port b ≢ panics
unfolding decode_resv_ok_3
decode_resv_ok_3-ne-panics n pids i port b h e = ground (arith, be32_at-word b i)

decode_resv_ok_11-ne-panics :
    (n : ℕ) (pids : List ℕ) (i port : ℕ) (b : Bytes)
    → i + 0x18 ≤ length b
    → decode_resv_ok_11 n pids i port b ≢ panics
unfolding decode_resv_ok_11
decode_resv_ok_11-ne-panics n pids i port b h e = ground (
  arith,
  le32_at-word b (i + 0x08),
  le32_at-word b (i + 0x14),
  le32_at-word b (i + 0x0C),
  be32_at-word b i,
  le32_at-word b (i + 0x10),
)

decode_resv_ok_list-ne-panics :
    (v : ℕ) (b : Bytes) → (v ≡ 3) ⊎ (v ≡ 11) → decode_resv_ok_list v b ≢ panics
unfolding decode_resv_ok_list
decode_resv_ok_list-ne-panics v b h e =
    let n = le_word b 0 in
    let i = 0x04 + n * 4 in
    ground (
      arith,
      le32_at-word b 0x00,
      read_words-words n b 0x04,
      le32_at-word b (i + 0x04),
      decode_resv_ok_3-ne-panics n (words n b 4) i (le_word b (i + 4)) b,
      decode_resv_ok_11-ne-panics n (words n b 4) i (le_word b (i + 4)) b,
    )

decode_resv_ok_90-ne-panics : (v : ℕ) (b : Bytes) → decode_resv_ok_90 v b ≢ panics
unfolding decode_resv_ok_90
decode_resv_ok_90-ne-panics v b e = ground (
  arith,
  le32_at-word b 0x00,
  le32_at-word b 0x04,
  le32_at-word b 0x08,
  be32_at-word b 0x0C,
  le32_at-word b 0x10,
  be32_at-word b 0x14,
  le32_at-word b 0x18,
  le32_at-word b 0x1C,
  le32_at-word b 0x20,
  le32_at-word b 0x24,
  le32_at-word b 0x28,
  le32_at-word b 0x2C,
  le32_at-word b 0x30,
)

decode_resv_ok-ne-panics : (v : ℕ) (b : Bytes) → decode_resv_ok v b ≢ panics
unfolding decode_resv_ok
decode_resv_ok-ne-panics v b e =
    ground (arith, decode_resv_ok_list-ne-panics v b, decode_resv_ok_90-ne-panics v b)

decode_resv_deny-ne-panics : (v : ℕ) (b : Bytes) → decode_resv_deny v b ≢ panics
unfolding decode_resv_deny
decode_resv_deny-ne-panics v b e = ground (arith, le32_at-word b 0)

decode_empty-ne-panics : (c v : ℕ) (b : Bytes) → decode_empty c v b ≢ panics
unfolding decode_empty
decode_empty-ne-panics c v b e = ground arith

decode_tell_addr-ne-panics : (v : ℕ) (b : Bytes) → decode_tell_addr v b ≢ panics
unfolding decode_tell_addr
decode_tell_addr-ne-panics v b e = ground (arith, le32_at-word b 4, be32_at-word b 0)

decode_server_close_client-ne-panics : (v : ℕ) (b : Bytes) → decode_server_close_client v b ≢ panics
unfolding decode_server_close_client
decode_server_close_client-ne-panics v b e = ground (arith, read_words-words (length b / 4) b 0)

decode_poll_to_ack-ne-panics : (v : ℕ) (b : Bytes) → decode_poll_to_ack v b ≢ panics
unfolding decode_poll_to_ack
decode_poll_to_ack-ne-panics v b e = ground arith

decode_suspend_match-ne-panics : (v : ℕ) (b : Bytes) → decode_suspend_match v b ≢ panics
unfolding decode_suspend_match
decode_suspend_match-ne-panics v b e =
    ground (arith, le32_at-word b 0, le32_at-word b 4, le32_at-word b 8, le32_at-word b 12)

-- For every command, buffer and version DecodeMatchCommand comes back: no length that a client
-- sends makes it read outside the buffer.
pub decode_match_command-ne-panics :
    (command : ℕ) (buffer : Bytes) (version : ℕ)
    → decode_match_command command buffer version ≢ panics
unfolding decode_match_command decode_case
decode_match_command-ne-panics c b v e = ground (
  arith,
  decode_reservation-ne-panics v b,
  decode_resv_ok-ne-panics v b,
  decode_resv_deny-ne-panics v b,
  decode_empty-ne-panics 4 v b,
  decode_empty-ne-panics 5 v b,
  decode_empty-ne-panics 0x11 v b,
  decode_tell_addr-ne-panics v b,
  decode_server_close_client-ne-panics v b,
  decode_poll_to_ack-ne-panics v b,
  decode_suspend_match-ne-panics v b,
)

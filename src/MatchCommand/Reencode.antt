-- ===== src/MatchCommand/Reencode.antt =====
-- Encoding what DecodeMatchCommand returned: SendClientMessage of qr2/message.go decodes and
-- re-encodes each match command that it passes on.
use wfc_server.Prelude.{
  ℕ, ◌+◌, ◌*◌, ◌/◌, ◌%◌, ◌≤◌, ◌≡◌, refl, ◌∙◌, ap, sym, Bool, true, false, ◌&&◌, ◌||◌, some, [],
  ◌++◌, ◌==◌, length, drop, All, returns, arith, append-nil,
}
use wfc_server.Prelude.Words.{
  Bytes, IsByte, put_le32, le_word, le32_at-word, be32_at-word, put_le32-word, put_be32-word,
}
use wfc_server.MatchCommand.{
  MatchCommandData, bare_command, known_version, match_reservation, match_resv_deny,
}
use wfc_server.MatchCommand.DecodeReservation.{
  decode_reservation, decode_reservation_3, decode_reservation_11, decode_reservation_90,
}
use wfc_server.MatchCommand.DecodeResvOk.{
  decode_resv_ok, decode_resv_ok_list, decode_resv_ok_90, decode_resv_ok_3, decode_resv_ok_11,
}
use wfc_server.MatchCommand.Decode.{
  decode_match_command, decode_case, reason_string, decode_resv_deny, decode_empty,
  decode_tell_addr, decode_server_close_client, decode_poll_to_ack, decode_suspend_match,
}
use wfc_server.MatchCommand.Encode.{
  encode_reservation, encode_resv_ok, encode_resv_ok_list, encode_resv_ok_90, put_words,
  encode_resv_deny, encode_tell_addr, encode_server_close_client, encode_suspend_match, encode_case,
  encode_match_command,
}
use wfc_server.MatchCommand.Safety.{words, read_words-words}
use wfc_server.MatchCommand.Layout.{
  flag-ne_zero, nil_of_length, drop-length, length-words, layout_3, layout_11, layout_90,
  layout_resv_ok_90, put_words-words, layout_list_3, layout_list_11,
}

-- The two kinds of message that the encoder does not give back: an 8-byte reservation of version 3,
-- whose second word the decoder skips, and a denial that has nothing but its reason.
abbrev pub is_lossy : ℕ → Bytes → ℕ → Bool
is_lossy command buffer version =
    (command == match_reservation && version == 3 && length buffer == 8)
    || (command == match_resv_deny && length buffer == 4)

module _ (b : Bytes) (h : All IsByte b) (al : length b % 4 ≡ 0) (d : MatchCommandData) where
  reencode_3 :
      0x0C ≤ length b
      → decode_reservation_3 (le_word b 0) (le_word b 8) b ≡ returns (some d)
      → (d.version ≡ 3) × (encode_reservation 3 d.reservation ≡ returns (some b))
  unfolding decode_reservation_3 encode_reservation
  reencode_3 l e = ground (arith, layout_3 b h l, be32_at-word b 0x04)

  reencode_11 :
      0x14 ≤ length b
      → decode_reservation_11 (le_word b 0) (le_word b 8) b ≡ returns (some d)
      → (d.version ≡ 11) × (encode_reservation 11 d.reservation ≡ returns (some b))
  unfolding decode_reservation_11 encode_reservation
  reencode_11 l e = ground (
    arith,
    layout_11 b h l,
    flag-ne_zero (le_word b 0x0C),
    le32_at-word b 0x0C,
    be32_at-word b 0x04,
    le32_at-word b 0x10,
  )

  reencode_90 :
      0x24 ≤ length b
      → decode_reservation_90 (le_word b 0) (le_word b 8) b ≡ returns (some d)
      → (d.version ≡ 90) × (encode_reservation 90 d.reservation ≡ returns (some b))
  unfolding decode_reservation_90 encode_reservation
  reencode_90 l e = ground (
    arith,
    layout_90 b h l,
    flag-ne_zero (le_word b 0x18),
    le32_at-word b 0x10,
    le32_at-word b 0x18,
    be32_at-word b 0x04,
    be32_at-word b 0x0C,
    le32_at-word b 0x14,
    le32_at-word b 0x1C,
    le32_at-word b 0x20,
  )

  -- Version 3 with under 12 bytes: the match type alone.
  reencode_short : length b ≡ 4 → put_le32 (le_word b 0) ≡ b
  reencode_short l =
      sym (append-nil (put_le32 (le_word b 0)))
      ∙ ap (◌++◌ (put_le32 (le_word b 0))) (sym (drop-length b 4 (omega arith)))
      ∙ put_le32-word b 0 h (omega arith)

  reencode_reservation :
      (v : ℕ)
      → known_version v ≡ true
      → is_lossy match_reservation b v ≡ false
      → decode_reservation v b ≡ returns (some d)
      → (d.version ≡ v) × (encode_reservation v d.reservation ≡ returns (some b))
  unfolding decode_reservation encode_reservation
  reencode_reservation v k nl e = ground (
    arith,
    reencode_3,
    reencode_11,
    reencode_90,
    reencode_short,
    le32_at-word b 0,
    le32_at-word b 8,
  )

  reencode_resv_ok_90 :
      decode_resv_ok_90 90 b ≡ returns (some d)
      → (d.version ≡ 90) × (encode_resv_ok 90 d.resv_ok ≡ returns (some b))
  unfolding decode_resv_ok_90 encode_resv_ok encode_resv_ok_90
  reencode_resv_ok_90 e = ground (
    arith,
    layout_resv_ok_90 b h,
    le32_at-word b 0x00,
    le32_at-word b 0x04,
    le32_at-word b 0x08,
    be32_at-word b 0x0C,
    le32_at-word b 0x10,
    be32_at-word b 0x14,
    le32_at-word b 0x18,
    le32_at-word b 0x1C,
    le32_at-word b 0x20,
    le32_at-word b 0x24,
    le32_at-word b 0x28,
    le32_at-word b 0x2C,
    le32_at-word b 0x30,
  )

  reencode_list_3 :
      decode_resv_ok_list 3 b ≡ returns (some d)
      → (d.version ≡ 3) × (encode_resv_ok 3 d.resv_ok ≡ returns (some b))
  unfolding decode_resv_ok_list decode_resv_ok_3 encode_resv_ok encode_resv_ok_list
  reencode_list_3 e =
      let n = le_word b 0 in
      let i = 0x04 + n * 4 in
      ground (
        arith,
        le32_at-word b 0x00,
        read_words-words n b 0x04,
        le32_at-word b (i + 0x04),
        be32_at-word b i,
        layout_list_3 b h n i refl refl,
        length-words n b 4,
      )

  reencode_list_11 :
      decode_resv_ok_list 11 b ≡ returns (some d)
      → (d.version ≡ 11) × (encode_resv_ok 11 d.resv_ok ≡ returns (some b))
  unfolding decode_resv_ok_list decode_resv_ok_11 encode_resv_ok encode_resv_ok_list
  reencode_list_11 e =
      let n = le_word b 0 in
      let i = 0x04 + n * 4 in
      ground (
        arith,
        le32_at-word b 0x00,
        read_words-words n b 0x04,
        le32_at-word b (i + 0x04),
        le32_at-word b (i + 0x08),
        le32_at-word b (i + 0x14),
        le32_at-word b (i + 0x0C),
        be32_at-word b i,
        le32_at-word b (i + 0x10),
        layout_list_11 b h n i refl refl,
        length-words n b 4,
        flag-ne_zero (le_word b (i + 0x08)),
      )

  reencode_resv_ok :
      (v : ℕ)
      → known_version v ≡ true
      → decode_resv_ok v b ≡ returns (some d)
      → (d.version ≡ v) × (encode_resv_ok v d.resv_ok ≡ returns (some b))
  unfolding decode_resv_ok
  reencode_resv_ok v k e = ground (arith, reencode_list_3, reencode_list_11, reencode_resv_ok_90)

  reencode_resv_deny :
      (v : ℕ)
      → is_lossy match_resv_deny b v ≡ false
      → decode_resv_deny v b ≡ returns (some d)
      → (d.version ≡ v) × (encode_resv_deny d.resv_deny ≡ returns (some b))
  unfolding decode_resv_deny encode_resv_deny
  reencode_resv_deny v nl e = ground (arith, le32_at-word b 0, put_le32-word b 0 h)

  reencode_empty : (c v : ℕ) → decode_empty c v b ≡ returns (some d) → (d.version ≡ v) × (b ≡ [])
  unfolding decode_empty
  reencode_empty c v e = ground (arith, nil_of_length b)

  reencode_tell_addr :
      (v : ℕ)
      → decode_tell_addr v b ≡ returns (some d)
      → (d.version ≡ v) × (encode_tell_addr d.tell_addr ≡ returns (some b))
  unfolding decode_tell_addr encode_tell_addr
  reencode_tell_addr v e = ground (
    arith,
    le32_at-word b 4,
    be32_at-word b 0,
    put_be32-word b 0 h,
    put_le32-word b 4 h,
    drop-length b 8,
    append-nil (put_le32 (le_word b 4)),
  )

  reencode_server_close_client :
      (v : ℕ)
      → decode_server_close_client v b ≡ returns (some d)
      → (d.version ≡ v) × (encode_server_close_client d.server_close_client ≡ returns (some b))
  unfolding decode_server_close_client encode_server_close_client
  reencode_server_close_client v e =
      let n = length b / 4 in
      ground (
        arith,
        read_words-words n b 0,
        put_words-words b h n 0 (4 * n),
        drop-length b (4 * n),
        append-nil (put_words (words n b 0)),
      )

  reencode_poll_to_ack :
      (v : ℕ) → decode_poll_to_ack v b ≡ returns (some d) → (d.version ≡ v) × (d.other ≡ b)
  unfolding decode_poll_to_ack
  reencode_poll_to_ack v e = ground arith

  reencode_suspend_match :
      (v : ℕ)
      → decode_suspend_match v b ≡ returns (some d)
      → (d.version ≡ v) × (encode_suspend_match d.suspend_match ≡ returns (some b))
  unfolding decode_suspend_match encode_suspend_match
  reencode_suspend_match v e = ground (
    arith,
    le32_at-word b 0,
    le32_at-word b 4,
    le32_at-word b 8,
    le32_at-word b 12,
    put_le32-word b 0 h,
    put_le32-word b 4 h,
    put_le32-word b 8 h,
    put_le32-word b 12 h,
    drop-length b 8,
    drop-length b 16,
    append-nil (put_le32 (le_word b 4)),
    append-nil (put_le32 (le_word b 12)),
  )

-- Every match command that the server accepts, but for the two lossy kinds, is passed on as it
-- came: encoding the decoded data gives the buffer back, byte for byte, and never panics.
pub encode-decode :
    (command : ℕ) (b : Bytes) (version : ℕ) (d : MatchCommandData)
    → All IsByte b
    → is_lossy command b version ≡ false
    → decode_match_command command b version ≡ returns (some d)
    → encode_match_command command d ≡ returns (some b)
unfolding decode_match_command decode_case encode_match_command encode_case
encode-decode c b v d h nl e = ground (
  arith,
  reencode_reservation b h (ground arith) d v,
  reencode_resv_ok b h (ground arith) d v,
  reencode_resv_deny b h (ground arith) d v,
  reencode_empty b h (ground arith) d 4 v,
  reencode_empty b h (ground arith) d 5 v,
  reencode_empty b h (ground arith) d 0x11 v,
  reencode_tell_addr b h (ground arith) d v,
  reencode_server_close_client b h (ground arith) d v,
  reencode_poll_to_ack b h (ground arith) d v,
  reencode_suspend_match b h (ground arith) d v,
)

-- A RESV_DENY that has four bytes, its reason alone, is accepted under every known version, and
-- what the server passes on has no byte left of it.
pub encode-decode_deny :
    (b : Bytes) (version : ℕ)
    → length b ≡ 4
    → known_version version ≡ true
    → (d : MatchCommandData) × (decode_match_command match_resv_deny b version ≡ returns (some d))
      × (encode_match_command match_resv_deny d ≡ returns (some []))
unfolding decode_match_command decode_case encode_match_command encode_case decode_resv_deny
    encode_resv_deny
encode-decode_deny b v l k = (
  record (bare_command v match_resv_deny) {
    resv_deny = some (record {
      reason = le_word b 0;
      reason_string = reason_string (le_word b 0);
      reason_specified = false;
      user_data = drop 4 b;
    });
  },
  ground (arith, le32_at-word b 0),
  ground (arith, drop-length b 4),
)

-- ===== src/MatchCommand/DecodeReservation.antt =====
-- Case MatchReservation of DecodeMatchCommand in common/match_command.go.
use wfc_server.Prelude.{
  ℕ, true, not, ◌&&◌, ◌||◌, some, ltb, ◌==◌, if◌then◌else◌, length, drop, returns, ◌>>=◌,
}
use wfc_server.Prelude.Words.{Bytes, le32_at, be32_at}
use wfc_server.MatchCommand.{
  MatchCommandDataReservation, Decoded, refused, bare_command, zero_reservation, match_reservation,
}

abbrev pub accepted_reservation : ℕ → MatchCommandDataReservation → Decoded
accepted_reservation version r =
    returns (some (record (bare_command version match_reservation) { reservation = some r }))

-- The tail of case MatchReservation, by version.
unfoldable pub decode_reservation_3 : ℕ → ℕ → Bytes → Decoded
decode_reservation_3 match_type public_port buffer = do
  public_ip ← be32_at buffer 0x04
  accepted_reservation 3 (record zero_reservation {
    match_type = match_type;
    has_public_ip = true;
    public_ip = public_ip;
    public_port = public_port;
    user_data = drop 0x0C buffer;
  })

unfoldable pub decode_reservation_11 : ℕ → ℕ → Bytes → Decoded
decode_reservation_11 match_type public_port buffer = do
  is_friend_value ← le32_at buffer 0x0C
  if ltb 1 is_friend_value then refused else do
    public_ip ← be32_at buffer 0x04
    local_player_count ← le32_at buffer 0x10
    accepted_reservation 11 (record zero_reservation {
      match_type = match_type;
      has_public_ip = true;
      public_ip = public_ip;
      public_port = public_port;
      is_friend = not (is_friend_value == 0);
      local_player_count = local_player_count;
      user_data = drop 0x14 buffer;
    })

unfoldable pub decode_reservation_90 : ℕ → ℕ → Bytes → Decoded
decode_reservation_90 match_type public_port buffer = do
  local_port ← le32_at buffer 0x10
  if ltb 0xffff local_port then refused else do
    is_friend_value ← le32_at buffer 0x18
    if ltb 1 is_friend_value then refused else do
      public_ip ← be32_at buffer 0x04
      local_ip ← be32_at buffer 0x0C
      unknown ← le32_at buffer 0x14
      local_player_count ← le32_at buffer 0x1C
      resv_check_value ← le32_at buffer 0x20
      accepted_reservation 90 (record {
        match_type = match_type;
        has_public_ip = true;
        public_ip = public_ip;
        public_port = public_port;
        local_ip = local_ip;
        local_port = local_port;
        unknown = unknown;
        is_friend = not (is_friend_value == 0);
        local_player_count = local_player_count;
        resv_check_value = resv_check_value;
        user_data = drop 0x24 buffer;
      })

unfoldable pub decode_reservation : ℕ → Bytes → Decoded
decode_reservation version buffer =
    if version == 3 && ltb (length buffer) 0x04
    then refused
    else if (version == 11 && ltb (length buffer) 0x14)
        || (version == 90 && ltb (length buffer) 0x24)
    then refused
    else do
      match_type ← le32_at buffer 0x00
      if ltb 3 match_type
          then refused
          else if version == 3 && ltb (length buffer) 0x0C
          then accepted_reservation 3 (record zero_reservation { match_type = match_type })
          else do
            public_port ← le32_at buffer 0x08
            if ltb 0xffff public_port
                then refused
                else if version == 3
                then decode_reservation_3 match_type public_port buffer
                else if version == 11
                then decode_reservation_11 match_type public_port buffer
                else if version == 90
                then decode_reservation_90 match_type public_port buffer
                else refused

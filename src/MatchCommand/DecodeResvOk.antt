-- ===== src/MatchCommand/DecodeResvOk.antt =====
-- Case MatchResvOK of DecodeMatchCommand in common/match_command.go.
use wfc_server.Prelude.{
  ℕ, zero, suc, ◌+◌, ◌*◌, ◌%◌, not, ◌&&◌, ◌||◌, some, List, [], ◌∷◌, ltb, ◌==◌, if◌then◌else◌,
  length, drop, Outcome, returns, ◌>>=◌,
}
use wfc_server.Prelude.Words.{Bytes, le32_at, be32_at}
use wfc_server.MatchCommand.{
  MatchCommandDataResvOk, Decoded, refused, bare_command, zero_resv_ok, match_resv_ok,
}

abbrev pub accepted_resv_ok : ℕ → MatchCommandDataResvOk → Decoded
accepted_resv_ok version r =
    returns (some (record (bare_command version match_resv_ok) { resv_ok = some r }))

-- The loop that reads `count` words from an offset on.
unfoldable pub read_words : ℕ → Bytes → ℕ → Outcome (List ℕ)
read_words zero buffer i = returns []
read_words (suc count) buffer i = do
  pid ← le32_at buffer i
  pids ← read_words count buffer (i + 4)
  returns (pid ∷ pids)

-- The tail of case MatchResvOK for version 11, behind the profile IDs.
unfoldable pub decode_resv_ok_11 : ℕ → List ℕ → ℕ → ℕ → Bytes → Decoded
decode_resv_ok_11 client_count profile_ids index public_port buffer = do
  is_friend_value ← le32_at buffer (index + 0x08)
  if ltb 1 is_friend_value then refused else do
    max_players ← le32_at buffer (index + 0x14)
    sender_aid ← le32_at buffer (index + 0x0C)
    public_ip ← be32_at buffer index
    group_id ← le32_at buffer (index + 0x10)
    accepted_resv_ok 11 (record zero_resv_ok {
      max_players = max_players;
      sender_aid = sender_aid;
      public_ip = public_ip;
      public_port = public_port;
      group_id = group_id;
      client_count = client_count;
      profile_ids = profile_ids;
      is_friend = not (is_friend_value == 0);
      user_data = drop (index + 0x18) buffer;
    })

unfoldable pub decode_resv_ok_3 : ℕ → List ℕ → ℕ → ℕ → Bytes → Decoded
decode_resv_ok_3 client_count profile_ids index public_port buffer = do
  public_ip ← be32_at buffer index
  accepted_resv_ok 3 (record zero_resv_ok {
    public_ip = public_ip;
    public_port = public_port;
    client_count = client_count;
    profile_ids = profile_ids;
    user_data = drop (index + 0x8) buffer;
  })

-- The sizes are computed in uint32, so they are reduced; `||` makes the first test first.
unfoldable pub decode_resv_ok_list : ℕ → Bytes → Decoded
decode_resv_ok_list version buffer = if ltb (length buffer) 0xC then refused else do
  client_count ← le32_at buffer 0x00
  if version == 3
        && (ltb 29 client_count || ltb (length buffer) ((0x0C + client_count * 0x4) % 0x100000000))
      then refused
      else if version == 11
          && (ltb 24 client_count
              || ltb (length buffer) ((0x20 + client_count * 0x4) % 0x100000000))
      then refused
      else do
        profile_ids ← read_words client_count buffer 0x04
        let index = 0x04 + client_count * 4
        public_port ← le32_at buffer (index + 0x04)
        if ltb 0xffff public_port
            then refused
            else if version == 3
            then decode_resv_ok_3 client_count profile_ids index public_port buffer
            else if version == 11
            then decode_resv_ok_11 client_count profile_ids index public_port buffer
            else refused

unfoldable pub decode_resv_ok_90 : ℕ → Bytes → Decoded
decode_resv_ok_90 version buffer = if ltb (length buffer) 0x34 then refused else do
  public_port ← le32_at buffer 0x10
  if ltb 0xffff public_port then refused else do
    local_port ← le32_at buffer 0x18
    if ltb 0xffff local_port then refused else do
      max_players ← le32_at buffer 0x00
      sender_aid ← le32_at buffer 0x04
      profile_id ← le32_at buffer 0x08
      public_ip ← be32_at buffer 0x0C
      local_ip ← be32_at buffer 0x14
      unknown ← le32_at buffer 0x1C
      local_player_count ← le32_at buffer 0x20
      group_id ← le32_at buffer 0x24
      receiver_new_aid ← le32_at buffer 0x28
      client_count ← le32_at buffer 0x2C
      resv_check_value ← le32_at buffer 0x30
      accepted_resv_ok version (record zero_resv_ok {
        max_players = max_players;
        sender_aid = sender_aid;
        profile_id = profile_id;
        public_ip = public_ip;
        public_port = public_port;
        local_ip = local_ip;
        local_port = local_port;
        unknown = unknown;
        local_player_count = local_player_count;
        group_id = group_id;
        receiver_new_aid = receiver_new_aid;
        client_count = client_count;
        resv_check_value = resv_check_value;
        user_data = drop 0x34 buffer;
      })

unfoldable pub decode_resv_ok : ℕ → Bytes → Decoded
decode_resv_ok version buffer =
    if version == 3 || version == 11
    then decode_resv_ok_list version buffer
    else decode_resv_ok_90 version buffer

-- ===== src/MatchCommand/RoundTripResvOk.antt =====
-- Decoding the RESV_OK messages that EncodeMatchCommand wrote.
use wfc_server.Prelude.{
  ℕ, ◌+◌, ◌*◌, ◌%◌, ◌≤◌, ◌≡◌, refl, false, some, List, [], ◌∷◌, ◌++◌, length, length-append, drop,
  returns, arith,
}
use wfc_server.Prelude.Words.{
  Bytes, IsU16, IsU32, put_le32, put_be32, le_sum, be_sum, le_word, be_word, le32_at-word,
  be32_at-word,
}
use wfc_server.MatchCommand.{
  MatchCommandData, MatchCommandDataResvOk, bare_command, refused, match_resv_ok,
}
use wfc_server.MatchCommand.DecodeResvOk.{decode_resv_ok, decode_resv_ok_list, decode_resv_ok_90}
use wfc_server.MatchCommand.Decode.{decode_match_command, decode_case}
use wfc_server.MatchCommand.Encode.{
  flag, encode_resv_ok, encode_resv_ok_list, encode_resv_ok_90, encode_match_command, encode_case,
  put_words,
}

-- What the wire format of version 90 can hold: no profile IDs and no friend flag.
pub record IsResvOk90 (r : MatchCommandDataResvOk) : Type 0 where
  pub max_players : IsU32 r.max_players
  pub sender_aid : IsU32 r.sender_aid
  pub profile_id : IsU32 r.profile_id
  pub public_ip : IsU32 r.public_ip
  pub public_port : IsU16 r.public_port
  pub local_ip : IsU32 r.local_ip
  pub local_port : IsU16 r.local_port
  pub unknown : IsU32 r.unknown
  pub local_player_count : IsU32 r.local_player_count
  pub group_id : IsU32 r.group_id
  pub receiver_new_aid : IsU32 r.receiver_new_aid
  pub client_count : IsU32 r.client_count
  pub resv_check_value : IsU32 r.resv_check_value
  pub profile_ids : r.profile_ids ≡ []
  pub is_friend : r.is_friend ≡ false
  pub aligned : length r.user_data % 4 ≡ 0

abbrev message_90 : MatchCommandDataResvOk → Bytes
message_90 r =
    put_le32 r.max_players
    ++ (put_le32 r.sender_aid
        ++ (put_le32 r.profile_id
            ++ (put_be32 r.public_ip
                ++ (put_le32 r.public_port
                    ++ (put_be32 r.local_ip
                        ++ (put_le32 r.local_port
                            ++ (put_le32 r.unknown
                                ++ (put_le32 r.local_player_count
                                    ++ (put_le32 r.group_id
                                        ++ (put_le32 r.receiver_new_aid
                                            ++ (put_le32 r.client_count
                                                ++ (put_le32 r.resv_check_value
                                                    ++ r.user_data))))))))))))

record Reads90 (r : MatchCommandDataResvOk) (m : Bytes) : Type 0 where
  size : length m ≡ 0x34 + length r.user_data
  max_players : le_word m 0x00 ≡ r.max_players
  sender_aid : le_word m 0x04 ≡ r.sender_aid
  profile_id : le_word m 0x08 ≡ r.profile_id
  public_ip : be_word m 0x0C ≡ r.public_ip
  public_port : le_word m 0x10 ≡ r.public_port
  local_ip : be_word m 0x14 ≡ r.local_ip
  local_port : le_word m 0x18 ≡ r.local_port
  unknown : le_word m 0x1C ≡ r.unknown
  local_player_count : le_word m 0x20 ≡ r.local_player_count
  group_id : le_word m 0x24 ≡ r.group_id
  receiver_new_aid : le_word m 0x28 ≡ r.receiver_new_aid
  client_count : le_word m 0x2C ≡ r.client_count
  resv_check_value : le_word m 0x30 ≡ r.resv_check_value
  user_data : drop 0x34 m ≡ r.user_data

message-Reads90 : (r : MatchCommandDataResvOk) → IsResvOk90 r → Reads90 r (message_90 r)
unfolding le_word be_word put_le32 put_be32
message-Reads90 r w = record {
  size = omega arith;
  max_players = le_sum _ w.max_players;
  sender_aid = le_sum _ w.sender_aid;
  profile_id = le_sum _ w.profile_id;
  public_ip = be_sum _ w.public_ip;
  public_port = le_sum _ (omega arith);
  local_ip = be_sum _ w.local_ip;
  local_port = le_sum _ (omega arith);
  unknown = le_sum _ w.unknown;
  local_player_count = le_sum _ w.local_player_count;
  group_id = le_sum _ w.group_id;
  receiver_new_aid = le_sum _ w.receiver_new_aid;
  client_count = le_sum _ w.client_count;
  resv_check_value = le_sum _ w.resv_check_value;
  user_data = refl;
}

abbrev pub with_resv_ok : ℕ → MatchCommandDataResvOk → MatchCommandData
with_resv_ok v r = record (bare_command v match_resv_ok) { resv_ok = some r }

decode-Reads90 :
    (r : MatchCommandDataResvOk)
    → IsResvOk90 r
    → (m : Bytes) → Reads90 r m
    → decode_resv_ok_90 90 m ≡ returns (some (with_resv_ok 90 r))
unfolding decode_resv_ok_90
decode-Reads90 r w m t = ground (
  arith,
  le32_at-word m 0x00,
  le32_at-word m 0x04,
  le32_at-word m 0x08,
  be32_at-word m 0x0C,
  le32_at-word m 0x10,
  be32_at-word m 0x14,
  le32_at-word m 0x18,
  le32_at-word m 0x1C,
  le32_at-word m 0x20,
  le32_at-word m 0x24,
  le32_at-word m 0x28,
  le32_at-word m 0x2C,
  le32_at-word m 0x30,
)

-- A version 90 RESV_OK whose fields fit the wire format is encoded, and the decoder reads the same
-- data back from the message.
pub decode-encode_resv_ok :
    (r : MatchCommandDataResvOk)
    → IsResvOk90 r
    → (m : Bytes) × (encode_match_command match_resv_ok (with_resv_ok 90 r) ≡ returns (some m))
      × (decode_match_command match_resv_ok m 90 ≡ returns (some (with_resv_ok 90 r)))
unfolding encode_match_command encode_case encode_resv_ok encode_resv_ok_90 decode_match_command
    decode_case decode_resv_ok
decode-encode_resv_ok r w =
    let t = message-Reads90 r w in
    (
      message_90 r,
      ground (arith, t.size),
      ground (arith, t.size, decode-Reads90 r w (message_90 r) t),
    )

length-put_words : (pids : List ℕ) → length (put_words pids) ≡ 4 * length pids
unfolding put_words put_le32
length-put_words [] = omega arith
length-put_words (p ∷ pids) = omega (arith, length-put_words pids)

-- Fixed-size parts of a version 11 message that has no user data.
abbrev message_11 : MatchCommandDataResvOk → Bytes
message_11 r =
    put_le32 r.client_count
    ++ (put_words r.profile_ids
        ++ (put_be32 r.public_ip
            ++ (put_le32 r.public_port
                ++ (put_le32 (flag r.is_friend)
                    ++ (put_le32 r.sender_aid
                        ++ (put_le32 r.group_id ++ (put_le32 r.max_players ++ [])))))))

length-message_11 :
    (r : MatchCommandDataResvOk) → length (message_11 r) ≡ 0x1C + 4 * length r.profile_ids
unfolding put_le32 put_be32
length-message_11 r =
    omega (arith, length-put_words r.profile_ids, length-append (put_words r.profile_ids))

le_word-message_11 :
    (r : MatchCommandDataResvOk) → r.client_count ≤ 24 → le_word (message_11 r) 0 ≡ r.client_count
unfolding le_word put_le32
le_word-message_11 r h = le_sum r.client_count (omega arith)

-- EncodeMatchCommand writes a version 11 RESV_OK that has no user data, and whose client count is the
-- number of its profile IDs and at most 24, and DecodeMatchCommand refuses the message.
pub decode_refuses_bare_resv_ok :
    (r : MatchCommandDataResvOk)
    → r.client_count ≤ 24
    → r.client_count ≡ length r.profile_ids
    → r.user_data ≡ []
    → (m : Bytes) × (encode_match_command match_resv_ok (with_resv_ok 11 r) ≡ returns (some m))
      × (decode_match_command match_resv_ok m 11 ≡ refused)
unfolding encode_match_command encode_case encode_resv_ok encode_resv_ok_list decode_match_command
    decode_case decode_resv_ok decode_resv_ok_list
decode_refuses_bare_resv_ok r h n e = (
  message_11 r,
  ground (arith, length-message_11 r),
  ground (arith, length-message_11 r, le_word-message_11 r h, le32_at-word (message_11 r) 0),
)

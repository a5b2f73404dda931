-- ===== src/MatchCommand/Examples.antt =====
-- Runs of the match command codec, and its theorems at concrete inputs.
use wfc_server.Prelude.{◌≡◌, ◌≢◌, refl, true, some, [], ◌∷◌, returns, panics, arith}
use wfc_server.Prelude.Words.{Bytes, le32_at, be32_at, put_le32, put_be32}
use wfc_server.MatchCommand.{
  MatchCommandData, MatchCommandDataReservation, MatchCommandDataResvOk, bare_command, refused,
  zero_resv_ok, match_reservation, match_resv_ok, match_resv_deny, match_tell_addr,
}
use wfc_server.MatchCommand.Decode.{decode_match_command, decode_case, decode_tell_addr}
use wfc_server.MatchCommand.Encode.{encode_match_command, encode_case, encode_tell_addr}
use wfc_server.MatchCommand.Safety.{decode_match_command-ne-panics}
use wfc_server.MatchCommand.Reencode.{encode-decode, encode-decode_deny}
use wfc_server.MatchCommand.RoundTrip.{with_reservation, decode-encode_reservation}
use wfc_server.MatchCommand.RoundTripResvOk.{
  with_resv_ok, decode-encode_resv_ok, decode_refuses_bare_resv_ok,
}

-- TELL_ADDR of 192.168.0.2, port 2025.
abbrev tell : Bytes
tell = 192 ∷ 168 ∷ 0 ∷ 2 ∷ 0xe9 ∷ 7 ∷ 0 ∷ 0 ∷ []

abbrev told : MatchCommandData
told = record (bare_command 90 match_tell_addr) {
  tell_addr = some (record { local_ip = 0xc0a80002; local_port = 2025 });
}

decode_tell : decode_match_command match_tell_addr tell 90 ≡ returns (some told)
unfolding decode_match_command decode_case decode_tell_addr le32_at be32_at
decode_tell = refl

encode_told : encode_match_command match_tell_addr told ≡ returns (some tell)
unfolding encode_match_command encode_case encode_tell_addr put_le32 put_be32
encode_told = refl

decode_match_command-ne-panics_example :
    decode_match_command match_resv_ok (3 ∷ 0 ∷ 0 ∷ 0 ∷ []) 11 ≢ panics
decode_match_command-ne-panics_example =
    decode_match_command-ne-panics match_resv_ok (3 ∷ 0 ∷ 0 ∷ 0 ∷ []) 11

encode-decode_example : encode_match_command match_tell_addr told ≡ returns (some tell)
encode-decode_example = encode-decode match_tell_addr tell 90 told (omega arith) refl decode_tell

encode-decode_deny_example :
    (d : MatchCommandData) × (decode_match_command match_resv_deny (0x10 ∷ 0 ∷ 0 ∷ 0 ∷ []) 90
      ≡ returns (some d))
    × (encode_match_command match_resv_deny d ≡ returns (some []))
encode-decode_deny_example = encode-decode_deny (0x10 ∷ 0 ∷ 0 ∷ 0 ∷ []) 90 refl refl

abbrev asking : MatchCommandDataReservation
asking = record {
  match_type = 3;
  has_public_ip = true;
  public_ip = 0x01020304;
  public_port = 60000;
  local_ip = 0xc0a80002;
  local_port = 2025;
  unknown = 7;
  is_friend = true;
  local_player_count = 2;
  resv_check_value = 0x12345678;
  user_data = 1 ∷ 2 ∷ 3 ∷ 4 ∷ [];
}

decode-encode_reservation_example :
    (m : Bytes) × (encode_match_command match_reservation (with_reservation asking)
      ≡ returns (some m))
    × (decode_match_command match_reservation m 90 ≡ returns (some (with_reservation asking)))
decode-encode_reservation_example = decode-encode_reservation asking (record {
  match_type = omega arith;
  has_public_ip = refl;
  public_ip = omega arith;
  public_port = omega arith;
  local_ip = omega arith;
  local_port = omega arith;
  unknown = omega arith;
  local_player_count = omega arith;
  resv_check_value = omega arith;
  aligned = refl;
})

abbrev answer : MatchCommandDataResvOk
answer = record zero_resv_ok { max_players = 12; public_ip = 0x01020304; public_port = 60000 }

decode-encode_resv_ok_example :
    (m : Bytes) × (encode_match_command match_resv_ok (with_resv_ok 90 answer) ≡ returns (some m))
    × (decode_match_command match_resv_ok m 90 ≡ returns (some (with_resv_ok 90 answer)))
decode-encode_resv_ok_example = decode-encode_resv_ok answer (record {
  max_players = omega arith;
  sender_aid = omega arith;
  profile_id = omega arith;
  public_ip = omega arith;
  public_port = omega arith;
  local_ip = omega arith;
  local_port = omega arith;
  unknown = omega arith;
  local_player_count = omega arith;
  group_id = omega arith;
  receiver_new_aid = omega arith;
  client_count = omega arith;
  resv_check_value = omega arith;
  profile_ids = refl;
  is_friend = refl;
  aligned = refl;
})

abbrev listed : MatchCommandDataResvOk
listed = record zero_resv_ok { client_count = 2; profile_ids = 600000001 ∷ 600000002 ∷ [] }

decode_refuses_bare_resv_ok_example :
    (m : Bytes) × (encode_match_command match_resv_ok (with_resv_ok 11 listed) ≡ returns (some m))
    × (decode_match_command match_resv_ok m 11 ≡ refused)
decode_refuses_bare_resv_ok_example = decode_refuses_bare_resv_ok listed (omega arith) refl refl

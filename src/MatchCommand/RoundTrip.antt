-- ===== src/MatchCommand/RoundTrip.antt =====
-- Decoding what EncodeMatchCommand wrote.
use wfc_server.Prelude.{
  ◌+◌, ◌%◌, ◌≤◌, ◌≡◌, refl, Bool, true, false, not, some, ◌++◌, ◌==◌, length, drop, returns, arith,
}
use wfc_server.Prelude.Words.{
  Bytes, IsU16, IsU32, put_le32, put_be32, le_sum, be_sum, le_word, be_word, le32_at-word,
  be32_at-word,
}
use wfc_server.MatchCommand.{
  MatchCommandData, MatchCommandDataReservation, bare_command, match_reservation,
}
use wfc_server.MatchCommand.DecodeReservation.{decode_reservation, decode_reservation_90}
use wfc_server.MatchCommand.Decode.{decode_match_command, decode_case}
use wfc_server.MatchCommand.Encode.{
  flag, encode_reservation_tail, encode_reservation, encode_match_command, encode_case,
}

-- What the wire format of version 90 can hold.
pub record IsReservation90 (r : MatchCommandDataReservation) : Type 0 where
  pub match_type : r.match_type ≤ 3
  pub has_public_ip : r.has_public_ip ≡ true
  pub public_ip : IsU32 r.public_ip
  pub public_port : IsU16 r.public_port
  pub local_ip : IsU32 r.local_ip
  pub local_port : IsU16 r.local_port
  pub unknown : IsU32 r.unknown
  pub local_player_count : IsU32 r.local_player_count
  pub resv_check_value : IsU32 r.resv_check_value
  pub aligned : length r.user_data % 4 ≡ 0

flag-bool : (f : Bool) → not (flag f == 0) ≡ f
flag-bool true = refl
flag-bool false = refl

flag-le : (f : Bool) → flag f ≤ 1
flag-le f = ground arith

abbrev message_90 : MatchCommandDataReservation → Bytes
message_90 r =
    put_le32 r.match_type
    ++ (put_be32 r.public_ip ++ (put_le32 r.public_port ++ encode_reservation_tail 90 r))

record Reads90 (r : MatchCommandDataReservation) (m : Bytes) : Type 0 where
  size : length m ≡ 0x24 + length r.user_data
  match_type : le_word m 0x00 ≡ r.match_type
  public_ip : be_word m 0x04 ≡ r.public_ip
  public_port : le_word m 0x08 ≡ r.public_port
  local_ip : be_word m 0x0C ≡ r.local_ip
  local_port : le_word m 0x10 ≡ r.local_port
  unknown : le_word m 0x14 ≡ r.unknown
  is_friend : le_word m 0x18 ≡ flag r.is_friend
  local_player_count : le_word m 0x1C ≡ r.local_player_count
  resv_check_value : le_word m 0x20 ≡ r.resv_check_value
  user_data : drop 0x24 m ≡ r.user_data

message-Reads90 : (r : MatchCommandDataReservation) → IsReservation90 r → Reads90 r (message_90 r)
unfolding le_word be_word put_le32 put_be32
message-Reads90 r w = record {
  size = omega arith;
  match_type = le_sum _ (omega arith);
  public_ip = be_sum _ w.public_ip;
  public_port = le_sum _ (omega arith);
  local_ip = be_sum _ w.local_ip;
  local_port = le_sum _ (omega arith);
  unknown = le_sum _ w.unknown;
  is_friend = le_sum _ (omega (arith, flag-le r.is_friend));
  local_player_count = le_sum _ w.local_player_count;
  resv_check_value = le_sum _ w.resv_check_value;
  user_data = refl;
}

decode-Reads90 :
    (r : MatchCommandDataReservation)
    → IsReservation90 r
    → (m : Bytes) → Reads90 r m
    → decode_reservation 90 m
      ≡ returns (some (record (bare_command 90 match_reservation) { reservation = some r }))
unfolding decode_reservation decode_reservation_90
decode-Reads90 r w m t = ground (
  arith,
  flag-bool r.is_friend,
  flag-le r.is_friend,
  le32_at-word m 0,
  le32_at-word m 8,
  le32_at-word m 0x10,
  le32_at-word m 0x18,
  be32_at-word m 0x04,
  be32_at-word m 0x0C,
  le32_at-word m 0x14,
  le32_at-word m 0x1C,
  le32_at-word m 0x20,
)

abbrev pub with_reservation : MatchCommandDataReservation → MatchCommandData
with_reservation r = record (bare_command 90 match_reservation) { reservation = some r }

-- A version 90 reservation whose fields fit the wire format is encoded, and the decoder reads the
-- same reservation back from the message.
pub decode-encode_reservation :
    (r : MatchCommandDataReservation)
    → IsReservation90 r
    → (m : Bytes) × (encode_match_command match_reservation (with_reservation r) ≡ returns (some m))
      × (decode_match_command match_reservation m 90 ≡ returns (some (with_reservation r)))
unfolding encode_match_command encode_case encode_reservation decode_match_command decode_case
decode-encode_reservation r w =
    let t = message-Reads90 r w in
    (
      message_90 r,
      ground (arith, t.size),
      ground (arith, t.size, decode-Reads90 r w (message_90 r) t),
    )

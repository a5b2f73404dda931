-- ===== src/MatchCommand.antt =====
-- common/match_command.go: the match commands that DWC clients exchange through the server.
-- The data of a command; a nil pointer is `none`. Decoding, encoding and their laws are below.
use wfc_server.Prelude.{ℕ, Bool, true, false, Option, none, List, [], Outcome, returns, ◌==◌, ◌||◌}
use wfc_server.Prelude.Words.{Bytes}
use Prim.Native.String.{String}
pub mod Decode
pub mod DecodeReservation
pub mod DecodeResvOk
pub mod Encode
pub mod Safety
pub mod Layout
pub mod Reencode
pub mod RoundTrip
pub mod RoundTripResvOk
mod Examples

pub record MatchCommandDataReservation : Type 0 where
  pub match_type : ℕ
  pub has_public_ip : Bool
  pub public_ip : ℕ
  pub public_port : ℕ
  pub local_ip : ℕ
  pub local_port : ℕ
  pub unknown : ℕ
  pub is_friend : Bool
  pub local_player_count : ℕ
  pub resv_check_value : ℕ
  pub user_data : Bytes

pub record MatchCommandDataResvOk : Type 0 where
  pub max_players : ℕ
  pub sender_aid : ℕ
  pub profile_id : ℕ
  pub public_ip : ℕ
  pub public_port : ℕ
  pub local_ip : ℕ
  pub local_port : ℕ
  pub unknown : ℕ
  pub local_player_count : ℕ
  pub group_id : ℕ
  pub receiver_new_aid : ℕ
  pub client_count : ℕ
  pub resv_check_value : ℕ
  pub profile_ids : List ℕ
  pub is_friend : Bool
  pub user_data : Bytes

pub record MatchCommandDataResvDeny : Type 0 where
  pub reason : ℕ
  pub reason_string : String
  pub reason_specified : Bool
  pub user_data : Bytes

pub record MatchCommandDataTellAddr : Type 0 where
  pub local_ip : ℕ
  pub local_port : ℕ

pub record MatchCommandDataServerCloseClient : Type 0 where
  pub profile_ids : List ℕ

pub record MatchCommandDataSuspendMatch : Type 0 where
  pub host_profile_id : ℕ
  pub is_host_flag : ℕ
  pub short : Bool
  pub suspend_value : ℕ
  pub client_aid_value : ℕ

pub record MatchCommandData : Type 0 where
  pub version : ℕ
  pub command : ℕ
  pub reservation : Option MatchCommandDataReservation
  pub resv_ok : Option MatchCommandDataResvOk
  pub resv_deny : Option MatchCommandDataResvDeny
  pub tell_addr : Option MatchCommandDataTellAddr
  pub server_close_client : Option MatchCommandDataServerCloseClient
  pub suspend_match : Option MatchCommandDataSuspendMatch
  pub other : Bytes

abbrev pub match_reservation : ℕ
match_reservation = 0x01

abbrev pub match_resv_ok : ℕ
match_resv_ok = 0x02

abbrev pub match_resv_deny : ℕ
match_resv_deny = 0x03

abbrev pub match_resv_wait : ℕ
match_resv_wait = 0x04

abbrev pub match_resv_cancel : ℕ
match_resv_cancel = 0x05

abbrev pub match_tell_addr : ℕ
match_tell_addr = 0x06

abbrev pub match_server_close_client : ℕ
match_server_close_client = 0x10

abbrev pub match_poll_timeout : ℕ
match_poll_timeout = 0x11

abbrev pub match_poll_to_ack : ℕ
match_poll_to_ack = 0x12

abbrev pub match_suspend_match : ℕ
match_suspend_match = 0x82

-- The fields that a composite literal leaves out are zero.
abbrev pub bare_command : ℕ → ℕ → MatchCommandData
bare_command version command = record {
  version = version;
  command = command;
  reservation = none;
  resv_ok = none;
  resv_deny = none;
  tell_addr = none;
  server_close_client = none;
  suspend_match = none;
  other = [];
}

abbrev pub zero_reservation : MatchCommandDataReservation
zero_reservation = record {
  match_type = 0;
  has_public_ip = false;
  public_ip = 0;
  public_port = 0;
  local_ip = 0;
  local_port = 0;
  unknown = 0;
  is_friend = false;
  local_player_count = 0;
  resv_check_value = 0;
  user_data = [];
}

abbrev pub zero_resv_ok : MatchCommandDataResvOk
zero_resv_ok = record {
  max_players = 0;
  sender_aid = 0;
  profile_id = 0;
  public_ip = 0;
  public_port = 0;
  local_ip = 0;
  local_port = 0;
  unknown = 0;
  local_player_count = 0;
  group_id = 0;
  receiver_new_aid = 0;
  client_count = 0;
  resv_check_value = 0;
  profile_ids = [];
  is_friend = false;
  user_data = [];
}

-- The result (data, ok) of DecodeMatchCommand; a read past the end of the buffer panics.
abbrev pub Decoded : Type 0
Decoded = Outcome (Option MatchCommandData)

-- `break`: no case returned a command.
abbrev pub refused : Decoded
refused = returns none

-- The matching versions that the server knows.
abbrev pub known_version : ℕ → Bool
known_version version = version == 3 || version == 11 || version == 90

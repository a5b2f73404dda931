-- ===== src/ClientMessage/Examples.antt =====
-- A message of one client to another, and the theorem on it.
use wfc_server.Prelude.{
  ℕ, zero, suc, ◌≤◌, ◌≡◌, refl, ◌⊎◌, true, false, none, some, [], ◌∷◌, length, returns,
}
use wfc_server.Prelude.Words.{Bytes, le32_at, be32_at}
use wfc_server.Prelude.NatMap.{lookup}
use wfc_server.Prelude.Text.{codes, text_eq, itoa, itoa_loop}
use wfc_server.Prelude.TextMap.{write, named, field}
use wfc_server.MatchCommand.{bare_command}
use wfc_server.MatchCommand.Decode.{decode_match_command, decode_case, decode_empty}
use wfc_server.MatchCommand.Encode.{encode_match_command, encode_case}
use wfc_server.Qr2.{Session, LoginInfo, Group, Fields, set_session, data_of, dwc_pid}
use wfc_server.Qr2.Profile.{set_profile_id}
use wfc_server.ClientMessage.{
  Relay, Delivery, index, find_receiver, has_device, is_reachable, is_natneg, is_match,
}
use wfc_server.ClientMessage.Checks.{
  check_command, new_header, reencode, read_header, check_match, check_header, check_message,
}
use wfc_server.ClientMessage.Process.{
  process_command, count_packet, process_client_message, deliver, send_client_message,
}
use wfc_server.ClientMessage.Delivered.{IsCookie, IsMagic, IsFrom, send_client_message-IsFrom}

abbrev fields_of : Bytes → Fields
fields_of pid = (dwc_pid, pid) ∷ (codes "gamename", codes "mariokartwii") ∷ []

abbrev session : ℕ → ℕ → Fields → Session
session port n data_map = record {
  session_id = n;
  search_id = n;
  addr = record { a = 1; b = 2; c = 3; d = 4; port = port };
  challenge = [];
  authenticated = true;
  login = some n;
  exploit_received = false;
  last_keep_alive = 0;
  endianness = 1;
  fields = data_map;
  packet_count = 0;
  reservation_id = 0;
  group_pointer = none;
  group_name = [];
}

abbrev session_at : ℕ → Session
session_at zero = session 100 0 (fields_of (codes "7"))
session_at (suc n) = session 200 1 (fields_of (codes "8"))

abbrev info : ℕ → LoginInfo
info n = record {
  profile_id = n;
  game_code = codes "RMCE";
  in_game_name = [];
  console_friend_code = 0;
  friend_key_game = codes "RMCJ";
  gp_public_ip = codes "1.2.3.4:5";
  needs_exploit = false;
  device_authenticated = true;
  restricted = false;
  open_host = false;
  session = some 0;
}

abbrev group : ℕ → Group
group n = record {
  group_id = 0;
  group_name = [];
  game_name = [];
  match_type = [];
  mkw_region = [];
  last_join_index = 0;
  server = none;
  players = [];
}

-- The sender is at 1.2.3.4:100, the receiver at 1.2.3.4:200.
abbrev relay : Relay
relay = record {
  qr2 = record {
    session_at = session_at;
    login_at = info;
    group_at = group;
    next = 2;
    sessions = (429513638660, 0) ∷ (859010368260, 1) ∷ [];
    session_by_search_id = (5, 0) ∷ (6, 1) ∷ [];
    logins = (7, 0) ∷ (8, 1) ∷ [];
    groups = [];
    gp_errors = [];
  };
  reservation_at = λ p. bare_command 0 0;
}

-- The cancelling of a reservation, by the profile 7.
abbrev cancel : Bytes
cancel =
    0xBB ∷ 0x49 ∷ 0xCC ∷ 0x4D ∷ 90 ∷ 0 ∷ 0 ∷ 0 ∷ 5 ∷ 0 ∷ 100 ∷ 0 ∷ 1 ∷ 2 ∷ 3 ∷ 4 ∷ 7 ∷ 0 ∷ 0 ∷ 0
    ∷ []

abbrev sent : Delivery
sent = record {
  receiver = 1;
  session_id = 1;
  packet_count = 1;
  addr = record { a = 1; b = 2; c = 3; d = 4; port = 200 };
  payload = cancel;
}

send_client_message-cancel :
    send_client_message [] (codes "1.2.3.4:9") 859010368260 cancel relay
    ≡ returns (some (some sent, count_packet 1 relay))
unfolding send_client_message find_receiver is_reachable has_device data_of field named text_eq
    lookup check_message is_natneg is_match read_header le32_at be32_at index check_header
    set_profile_id itoa itoa_loop check_match decode_match_command check_command reencode
    encode_match_command new_header process_client_message process_command count_packet set_session
    write deliver decode_case decode_empty encode_case
send_client_message-cancel = refl

send_client_message-IsFrom_example :
    (find_receiver 859010368260 relay.qr2 ≡ some 1)
    × (is_reachable 1 relay.qr2 ≡ true)
    × (((cancel ≡ cancel) × IsCookie cancel)
        ⊎ (IsMagic cancel
            × (length cancel ≤ 0x94)
            × IsFrom false 1 (codes "1.2.3.4:9") cancel relay.qr2 cancel))
send_client_message-IsFrom_example =
    send_client_message-IsFrom [] (codes "1.2.3.4:9") 859010368260 cancel relay
      (count_packet 1 relay) sent send_client_message-cancel

-- ===== src/MatchCommand/Decode.antt =====
-- DecodeMatchCommand of common/match_command.go, one function for each case of its switch.
use wfc_server.Prelude.{
  ℕ, ◌/◌, ◌%◌, true, false, not, some, ltb, leb, ◌==◌, if◌then◌else◌, length, drop, returns, ◌>>=◌,
}
use wfc_server.Prelude.Words.{Bytes, le32_at, be32_at}
use wfc_server.MatchCommand.{
  Decoded, refused, known_version, bare_command, match_reservation, match_resv_ok, match_resv_deny,
  match_resv_wait, match_resv_cancel, match_tell_addr, match_server_close_client,
  match_poll_timeout, match_poll_to_ack, match_suspend_match,
}
use wfc_server.MatchCommand.DecodeReservation.{decode_reservation}
use wfc_server.MatchCommand.DecodeResvOk.{read_words, decode_resv_ok}
use Prim.Native.String.{String}

-- A key that the map lacks gives the empty string.
unfoldable pub reason_string : ℕ → String
reason_string reason =
    if reason == 0x00
    then "Unspecified reason."
    else if reason == 0x10
    then "Game server is fully occupied."
    else if reason == 0x11
    then "This Domain is already closed."
    else if reason == 0x12
    then "The condition was not satisfied."
    else if reason == 0x13
    then "This Domain is already locked."
    else if reason == 0x14
    then "It tried to go to the client for the reservation."
    else if reason == 0x15
    then "It is a reservation to the friend who doesn't exist in the list."
    else if reason == 0x16
    then "It was rejected by the attempt callback."
    else if reason == 0x17
    then "The reservation came from a different other host."
    else if reason == 0x18
    then "Illegal mesh reservation."
    else ""

abbrev accepted_resv_deny : ℕ → ℕ → Bytes → Bytes → Decoded
accepted_resv_deny version reason user_data buffer = returns (
    some (record (bare_command version match_resv_deny) {
      resv_deny = some (record {
        reason = reason;
        reason_string = reason_string reason;
        reason_specified = ltb 0x04 (length buffer);
        user_data = user_data;
      });
    }))

unfoldable pub decode_resv_deny : ℕ → Bytes → Decoded
decode_resv_deny version buffer =
    if leb 0x04 (length buffer)
    then (do
      reason ← le32_at buffer 0x00
      accepted_resv_deny version reason (drop 0x04 buffer) buffer)
    else accepted_resv_deny version 0 buffer buffer

-- Cases MatchResvWait, MatchResvCancel and MatchPollTimeout: no data is allowed.
unfoldable pub decode_empty : ℕ → ℕ → Bytes → Decoded
decode_empty command version buffer =
    if length buffer == 0x00 then returns (some (bare_command version command)) else refused

unfoldable pub decode_tell_addr : ℕ → Bytes → Decoded
decode_tell_addr version buffer =
    if length buffer == 0x08
    then (do
      local_port ← le32_at buffer 0x04
      if ltb 0xffff local_port then refused else do
        local_ip ← be32_at buffer 0x00
        returns (
            some (record (bare_command version match_tell_addr) {
              tell_addr = some (record { local_ip = local_ip; local_port = local_port });
            })))
    else refused

unfoldable pub decode_server_close_client : ℕ → Bytes → Decoded
decode_server_close_client version buffer =
    if ltb 0x80 (length buffer)
    then refused
    else if not (length buffer % 4 == 0)
    then refused
    else do
      pids ← read_words (length buffer / 4) buffer 0
      returns (
          some (record (bare_command version match_server_close_client) {
            server_close_client = some (record { profile_ids = pids });
          }))

unfoldable pub decode_poll_to_ack : ℕ → Bytes → Decoded
decode_poll_to_ack version buffer =
    if length buffer == 0x04
    then returns (some (record (bare_command version match_poll_to_ack) { other = buffer }))
    else refused

unfoldable pub decode_suspend_match : ℕ → Bytes → Decoded
decode_suspend_match version buffer =
    if length buffer == 0x08
    then (do
      host_profile_id ← le32_at buffer 0x00
      is_host_flag ← le32_at buffer 0x04
      returns (
          some (record (bare_command version match_suspend_match) {
            suspend_match = some (record {
              host_profile_id = host_profile_id;
              is_host_flag = is_host_flag;
              short = true;
              suspend_value = 0;
              client_aid_value = 0;
            });
          })))
    else if length buffer == 0x10
    then (do
      host_profile_id ← le32_at buffer 0x00
      is_host_flag ← le32_at buffer 0x04
      suspend_value ← le32_at buffer 0x08
      client_aid_value ← le32_at buffer 0x0C
      returns (
          some (record (bare_command version match_suspend_match) {
            suspend_match = some (record {
              host_profile_id = host_profile_id;
              is_host_flag = is_host_flag;
              short = false;
              suspend_value = suspend_value;
              client_aid_value = client_aid_value;
            });
          })))
    else refused

-- The switch on the command.
unfoldable pub decode_case : ℕ → Bytes → ℕ → Decoded
decode_case command buffer version =
    if command == match_reservation
    then decode_reservation version buffer
    else if command == match_resv_ok
    then decode_resv_ok version buffer
    else if command == match_resv_deny
    then decode_resv_deny version buffer
    else if command == match_resv_wait
    then decode_empty match_resv_wait version buffer
    else if command == match_resv_cancel
    then decode_empty match_resv_cancel version buffer
    else if command == match_tell_addr
    then decode_tell_addr version buffer
    else if command == match_server_close_client
    then decode_server_close_client version buffer
    else if command == match_poll_timeout
    then decode_empty match_poll_timeout version buffer
    else if command == match_poll_to_ack
    then decode_poll_to_ack version buffer
    else if command == match_suspend_match
    then decode_suspend_match version buffer
    else returns (some (record (bare_command version command) { other = buffer }))

-- `len(buffer) & 3` is the remainder by 4.
unfoldable pub decode_match_command : ℕ → Bytes → ℕ → Decoded
decode_match_command command buffer version =
    if not (known_version version)
    then refused
    else if not (length buffer % 4 == 0)
    then refused
    else decode_case command buffer version

-- ===== src/MatchCommand/Encode.antt =====
-- EncodeMatchCommand of common/match_command.go, one function for each case of its switch.
-- A nil pointer panics where the source dereferences it; (message, ok) is an `Option`.
use wfc_server.Prelude.{
  ℕ, ◌%◌, Bool, not, ◌&&◌, ◌||◌, Option, none, some, List, [], ◌∷◌, ◌++◌, ◌==◌, if◌then◌else◌,
  length, Outcome, returns, panics,
}
use wfc_server.Prelude.Words.{Bytes, put_le32, put_be32}
use wfc_server.MatchCommand.{
  MatchCommandData, MatchCommandDataReservation, MatchCommandDataResvOk, MatchCommandDataResvDeny,
  MatchCommandDataTellAddr, MatchCommandDataServerCloseClient, MatchCommandDataSuspendMatch,
  match_reservation, match_resv_ok, match_resv_deny, match_resv_wait, match_resv_cancel,
  match_tell_addr, match_server_close_client, match_poll_timeout, match_poll_to_ack,
  match_suspend_match, known_version,
}

abbrev pub Encoded : Type 0
Encoded = Outcome (Option Bytes)

-- A message whose length is no multiple of four is refused.
abbrev pub aligned : Bytes → Encoded
aligned message = returns (if length message % 4 == 0 then some message else none)

abbrev pub flag : Bool → ℕ
flag b = if b then 1 else 0

abbrev pub encode_reservation_tail : ℕ → MatchCommandDataReservation → Bytes
encode_reservation_tail version r =
    if version == 11
    then put_le32 (flag r.is_friend) ++ (put_le32 r.local_player_count ++ r.user_data)
    else if version == 90
    then put_be32 r.local_ip
      ++ (put_le32 r.local_port
          ++ (put_le32 r.unknown
              ++ (put_le32 (flag r.is_friend)
                  ++ (put_le32 r.local_player_count
                      ++ (put_le32 r.resv_check_value ++ r.user_data)))))
    else r.user_data

unfoldable pub encode_reservation : ℕ → Option MatchCommandDataReservation → Encoded
encode_reservation version none = panics
encode_reservation version (some r) =
    if version == 3 && not r.has_public_ip
    then returns (some (put_le32 r.match_type))
    else aligned (
        put_le32 r.match_type
        ++ (put_be32 r.public_ip ++ (put_le32 r.public_port ++ encode_reservation_tail version r)))

unfoldable pub put_words : List ℕ → Bytes
put_words [] = []
put_words (pid ∷ pids) = put_le32 pid ++ put_words pids

unfoldable pub encode_resv_ok_list : ℕ → MatchCommandDataResvOk → Encoded
encode_resv_ok_list version r =
    if not (r.client_count == length r.profile_ids)
    then returns none
    else aligned (
        put_le32 r.client_count
        ++ (put_words r.profile_ids
            ++ (put_be32 r.public_ip
                ++ (put_le32 r.public_port
                    ++ (if version == 3
                        then r.user_data
                        else put_le32 (flag r.is_friend)
                          ++ (put_le32 r.sender_aid
                              ++ (put_le32 r.group_id
                                  ++ (put_le32 r.max_players ++ r.user_data))))))))

unfoldable pub encode_resv_ok_90 : MatchCommandDataResvOk → Encoded
encode_resv_ok_90 r = aligned (
    put_le32 r.max_players
    ++ (put_le32 r.sender_aid
        ++ (put_le32 r.profile_id
            ++ (put_be32 r.public_ip
                ++ (put_le32 r.public_port
                    ++ (put_be32 r.local_ip
                        ++ (put_le32 r.local_port
                            ++ (put_le32 r.unknown
                                ++ (put_le32 r.local_player_count
                                    ++ (put_le32 r.group_id
                                        ++ (put_le32 r.receiver_new_aid
                                            ++ (put_le32 r.client_count
                                                ++ (put_le32 r.resv_check_value
                                                    ++ r.user_data)))))))))))))

unfoldable pub encode_resv_ok : ℕ → Option MatchCommandDataResvOk → Encoded
encode_resv_ok version none = panics
encode_resv_ok version (some r) =
    if version == 3 || version == 11 then encode_resv_ok_list version r else encode_resv_ok_90 r

unfoldable pub encode_resv_deny : Option MatchCommandDataResvDeny → Encoded
encode_resv_deny none = panics
encode_resv_deny (some r) =
    if not r.reason_specified
    then returns (some r.user_data)
    else aligned (put_le32 r.reason ++ r.user_data)

unfoldable pub encode_tell_addr : Option MatchCommandDataTellAddr → Encoded
encode_tell_addr none = panics
encode_tell_addr (some t) = returns (some (put_be32 t.local_ip ++ put_le32 t.local_port))

unfoldable pub encode_server_close_client : Option MatchCommandDataServerCloseClient → Encoded
encode_server_close_client none = panics
encode_server_close_client (some c) = returns (some (put_words c.profile_ids))

unfoldable pub encode_suspend_match : Option MatchCommandDataSuspendMatch → Encoded
encode_suspend_match none = panics
encode_suspend_match (some m) = returns (
    some (
      put_le32 m.host_profile_id
      ++ (put_le32 m.is_host_flag
          ++ (if m.short then [] else put_le32 m.suspend_value ++ put_le32 m.client_aid_value))))

-- The switch on the command.
unfoldable pub encode_case : ℕ → MatchCommandData → Encoded
encode_case command d =
    if command == match_reservation
    then encode_reservation d.version d.reservation
    else if command == match_resv_ok
    then encode_resv_ok d.version d.resv_ok
    else if command == match_resv_deny
    then encode_resv_deny d.resv_deny
    else if command == match_resv_wait
    then returns (some [])
    else if command == match_resv_cancel
    then returns (some [])
    else if command == match_tell_addr
    then encode_tell_addr d.tell_addr
    else if command == match_server_close_client
    then encode_server_close_client d.server_close_client
    else if command == match_poll_timeout
    then returns (some [])
    else if command == match_poll_to_ack
    then returns (some d.other)
    else if command == match_suspend_match
    then encode_suspend_match d.suspend_match
    else returns (some d.other)

unfoldable pub encode_match_command : ℕ → MatchCommandData → Encoded
encode_match_command command d =
    if not (known_version d.version) then returns none else encode_case command d

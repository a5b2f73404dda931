-- ===== src/ClientMessage/Process.antt =====
-- qr2/message.go: processClientMessage, and SendClientMessage around it.
use wfc_server.Prelude.{
  ℕ, suc, ◌%◌, Bool, true, false, not, ◌&&◌, ◌||◌, Option, none, some, List, [], ◌∷◌, ◌++◌, ltb,
  ◌==◌, if◌then◌else◌, Outcome, returns, panics, ◌>>=◌,
}
use wfc_server.Prelude.Words.{Bytes}
use wfc_server.Prelude.Text.{codes}
use wfc_server.Prelude.TextMap.{write}
use wfc_server.MatchCommand.{
  MatchCommandData, match_reservation, match_resv_ok, match_resv_deny, match_resv_wait,
  match_tell_addr,
}
use wfc_server.Qr2.{State, set_session}
use wfc_server.Qr2.Groups.{process_resv_ok, process_tell_addr, same_group}
use wfc_server.Qr2.Reservation.{Verdict, check_reservation_allowed}
use wfc_server.ClientMessage.{Relay, Delivery, Checked, find_receiver, is_reachable}
use wfc_server.ClientMessage.Checks.{check_message}

-- gpErrorCallback for a player that is restricted.
unfoldable pub kick_restricted : ℕ → State → State
kick_restricted p s = elim (s.session_at p).login [
  | none ↦ s
  | some l ↦
      if (s.login_at l).restricted
      then record s {
        gp_errors = s.gp_errors ++ ((s.login_at l).profile_id, codes "restricted_join") ∷ [];
      }
      else s
]

-- A reservation in processClientMessage.
unfoldable pub process_reservation : ℕ → ℕ → MatchCommandData → Relay → Outcome Relay
process_reservation sender receiver d t = elim d.reservation [
  | none ↦ panics
  | some r ↦ returns (elim (check_reservation_allowed sender receiver r.match_type t.qr2) [
    | Verdict.ok ↦ record t {
      qr2 =
          set_session sender
            (λ x. record x { reservation_id = (t.qr2.session_at receiver).search_id }) t.qr2;
      reservation_at = write sender d t.reservation_at;
    }
    | Verdict.restricted_join ↦ record t {
      qr2 = kick_restricted receiver (kick_restricted sender t.qr2);
    }
    | Verdict.unknown ↦ t
  ])
]

-- The answer to a reservation whose version fits: processResvOK, or the end of a reservation that
-- is denied or waits. `none`: the random names run out.
unfoldable pub process_answer : List Bytes → ℕ → ℕ → Checked → Relay → Outcome (Option Relay)
process_answer draws sender receiver c t =
    let held = t.reservation_at receiver in
    if c.command == match_resv_ok
    then (elim held.reservation [
      | none ↦ panics
      | some r ↦ elim c.match_data.resv_ok [
        | none ↦ panics
        | some o ↦
            returns
              (elim (process_resv_ok draws c.match_data.version r.local_player_count o.group_id
                o.local_player_count sender receiver t.qr2) [
                  | none ↦ none
                  | some done ↦ some (record t { qr2 = done.1 })
                ])
      ]
    ])
    else if (t.qr2.session_at receiver).reservation_id == (t.qr2.session_at sender).search_id
    then returns (
        some (record t { qr2 = set_session receiver (λ x. record x { reservation_id = 0 }) t.qr2 }))
    else returns (some t)

unfoldable pub has_reservation : ℕ → ℕ → Relay → Bool
has_reservation sender receiver t =
    (t.qr2.session_at receiver).reservation_id == (t.qr2.session_at sender).search_id
    && (elim (t.reservation_at receiver).reservation [ none ↦ false | some r ↦ true ])

-- The part of processClientMessage that depends on the command. What it refuses leaves the state as
-- it is, and the message goes out all the same.
unfoldable pub process_command : List Bytes → ℕ → Checked → Relay → Outcome (Option Relay)
process_command draws receiver c t =
    if c.command == match_reservation
    then (do t' ← process_reservation c.sender receiver c.match_data t; returns (some t'))
    else if c.command == match_resv_ok
        || c.command == match_resv_deny
        || c.command == match_resv_wait
    then if not (has_reservation c.sender receiver t)
        && not (
            same_group (t.qr2.session_at receiver).group_pointer
              (t.qr2.session_at c.sender).group_pointer)
      then returns (some t)
      else if not ((t.reservation_at receiver).version == c.match_data.version)
      then returns (some t)
      else process_answer draws c.sender receiver c t
    else if c.command == match_tell_addr
    then returns (some (record t { qr2 = process_tell_addr c.sender receiver t.qr2 }))
    else returns (some t)

-- One packet more for the receiver.
unfoldable pub count_packet : ℕ → Relay → Relay
count_packet receiver t = record t {
  qr2 =
      set_session receiver (λ x. record x { packet_count = suc x.packet_count % 0x100000000 })
        t.qr2;
}

-- processClientMessage; `none` for the message is a NATNEG cookie.
unfoldable pub process_client_message :
    List Bytes → ℕ → Option Checked → Relay → Outcome (Option Relay)
process_client_message draws receiver none t = returns (some (count_packet receiver t))
process_client_message draws receiver (some c) t =
    process_command draws receiver c (count_packet receiver t)

-- What goes out of a checked message.
abbrev pub payload_of : Bytes → Option Checked → Bytes
payload_of message none = message
payload_of message (some c) = c.bytes

unfoldable pub deliver : ℕ → Bytes → State → Option Relay → Option (Option Delivery × Relay)
deliver receiver payload s none = none
deliver receiver payload s (some t) =
    let x = s.session_at receiver in
    some (
      (elim (t.qr2.session_at receiver).login [
        | none ↦ none
        | some l ↦ some (record {
          receiver = receiver;
          session_id = x.session_id;
          packet_count = suc x.packet_count % 0x100000000;
          addr = x.addr;
          payload = payload;
        })
      ]),
      t,
    )

-- SendClientMessage, up to the packet that it goes on sending. `none`: the random names run out.
unfoldable pub send_client_message :
    List Bytes → Bytes → ℕ → Bytes → Relay → Outcome (Option (Option Delivery × Relay))
send_client_message draws sender_ip dest message t = elim (find_receiver dest t.qr2) [
  | none ↦ returns (some (none, t))
  | some receiver ↦ if not (is_reachable receiver t.qr2) then returns (some (none, t)) else (do
    (checked, s) ← check_message (ltb dest 0x1000000) sender_ip receiver message t.qr2
    let t' = record t { qr2 = s }
    elim checked [
      | none ↦ returns (some (none, t'))
      | some c ↦ (do
        t'' ← process_client_message draws receiver c t'
        returns (deliver receiver (payload_of message c) s t''))
    ])
]

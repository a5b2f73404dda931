-- ===== src/Qr2/Reservation.antt =====
-- qr2/group.go: the check of a reservation, and the report of a NAT negotiation.
use wfc_server.Prelude.{
  ℕ, suc, not, ◌&&◌, ◌||◌, none, some, [], ◌∷◌, ◌==◌, if◌then◌else◌, Outcome, returns, ◌>>=◌,
}
use wfc_server.Prelude.Words.{Bytes}
use wfc_server.Prelude.Int.{pos, negsuc}
use wfc_server.Prelude.NatMap.{lookup, is_some}
use wfc_server.Prelude.Text.{codes, text_eq, itoa, atoi_value}
use wfc_server.IpAddress.{make_lookup_addr}
use wfc_server.Qr2.{State, set_data, data_of, dwc_mtype}
use wfc_server.Qr2.Profile.{set_profile_id}
use wfc_server.Qr2.Groups.{same_group, set_conn}

-- The answers "", "ok" and "restricted_join".
pub data Verdict : Type 0 where
  unknown : Verdict
  ok : Verdict
  restricted_join : Verdict

-- What the restricted players are let into.
unfoldable pub check_destination : State → ℕ → Verdict
check_destination s destination = elim (s.session_at destination).group_pointer [
  | none ↦
      let mtype = data_of s destination dwc_mtype in
      if not (text_eq mtype (b'2' ∷ [])) && not (text_eq mtype (b'3' ∷ []))
      then Verdict.restricted_join
      else Verdict.ok
  | some g ↦
      if not (text_eq (s.group_at g).match_type (codes "private"))
      then Verdict.restricted_join
      else Verdict.ok
]

-- checkReservationAllowed
unfoldable pub check_reservation_allowed : ℕ → ℕ → ℕ → State → Verdict
check_reservation_allowed sender destination join_type s = elim (s.session_at sender).login [
  | none ↦ Verdict.unknown
  | some l ↦ elim (s.session_at destination).login [
    | none ↦ Verdict.unknown
    | some m ↦
        if not (s.login_at l).restricted && not (s.login_at m).restricted
        then Verdict.ok
        else if not (join_type == 2) && not (join_type == 3)
        then Verdict.restricted_join
        else check_destination s destination
  ]
]

-- CheckGPReservationAllowed
unfoldable pub check_gp_reservation_allowed : ℕ → ℕ → ℕ → ℕ → State → Outcome (Verdict × State)
check_gp_reservation_allowed sender_ip sender_pid dest_pid join_type s =
    elim (lookup sender_ip s.sessions) [
      | none ↦ returns (Verdict.unknown, s)
      | some from_session ↦ elim (lookup dest_pid s.logins) [
        | none ↦ returns (Verdict.unknown, s)
        | some to_login ↦ elim (s.login_at to_login).session [
          | none ↦ returns (Verdict.unknown, s)
          | some to_session ↦ do
            (valid, s') ← set_profile_id from_session (itoa sender_pid) [] s
            if not valid || not (is_some (s'.session_at from_session).login)
                then returns (Verdict.unknown, s')
                else returns (check_reservation_allowed from_session to_session join_type s', s')
        ]
      ]
    ]

-- The int of strconv.Atoi, whose error is ignored, one more, and strconv.Itoa: an int wraps.
unfoldable pub increment : Bytes → Bytes
increment s = elim (atoi_value s) [
  | pos n ↦ if n == 0x7fffffffffffffff then b'-' ∷ itoa 0x8000000000000000 else itoa (suc n)
  | negsuc n ↦ if n == 0 then b'0' ∷ [] else b'-' ∷ itoa n
]

abbrev pub conn_fail : Bytes
conn_fail = codes "+conn_fail"

unfoldable pub count_failures : ℕ → ℕ → State → State
count_failures p q s =
    let fail₁ = increment (data_of s p conn_fail) in
    let fail₂ = increment (data_of s q conn_fail) in
    set_data q conn_fail fail₂ (set_data p conn_fail fail₁ s)

-- The effect of a report on two sessions.
unfoldable pub report_pair : ℕ → ℕ → ℕ → State → State
report_pair result p q s =
    let s' = set_conn (if result == 1 then b'2' ∷ [] else b'3' ∷ []) p q s in
    if result == 1 then s' else count_failures p q s'

-- ProcessNATNEGReport
unfoldable pub process_natneg_report : ℕ → Bytes → Bytes → State → Outcome State
process_natneg_report result ip₁ ip₂ s = do
  key₁ ← make_lookup_addr ip₁
  key₂ ← make_lookup_addr ip₂
  returns (elim (lookup key₁ s.sessions) [
    | none ↦ s
    | some p ↦ elim (lookup key₂ s.sessions) [
      | none ↦ s
      | some q ↦
          if same_group (s.session_at p).group_pointer (s.session_at q).group_pointer
          then report_pair result p q s
          else s
    ]
  ])

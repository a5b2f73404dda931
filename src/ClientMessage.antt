-- ===== src/ClientMessage.antt =====
-- qr2/message.go: SendClientMessage and processClientMessage, from the message of a client to what
-- goes out to the other one. `none` is a message that is refused. The reservations that a session
-- keeps stand beside the state of qr2. Sending, waiting for the acknowledgement and the log are left
-- out, and so are the locks.
pub mod Checks
pub mod Process
pub mod Owned
pub mod Delivered
mod Examples
use wfc_server.Prelude.{
  ℕ, zero, suc, ◌+◌, ◌*◌, ◌/◌, ◌%◌, Bool, true, false, not, ◌&&◌, ◌||◌, Option, none, some, List,
  [], ◌∷◌, ◌++◌, ltb, leb, ◌==◌, if◌then◌else◌, length, get_elem?, take, drop, Outcome, returns,
  panics, ◌>>=◌,
}
use wfc_server.Prelude.Words.{Bytes, le32_at, be32_at, put_be32}
use wfc_server.Prelude.NatMap.{lookup}
use wfc_server.Prelude.Text.{codes, text_eq, itoa}
use wfc_server.Prelude.TextMap.{Memory, write}
use wfc_server.IpAddress.{UdpAddr, host_of}
use wfc_server.MatchCommand.{
  MatchCommandData, MatchCommandDataReservation, MatchCommandDataResvOk, match_reservation,
  match_resv_ok, match_resv_deny, match_resv_wait, match_tell_addr,
}
use wfc_server.MatchCommand.Decode.{decode_match_command}
use wfc_server.MatchCommand.Encode.{encode_match_command}
use wfc_server.Qr2.{State, set_session, data_of, dwc_pid}
use wfc_server.Qr2.Profile.{set_profile_id}
use wfc_server.Qr2.Groups.{process_resv_ok, process_tell_addr, same_group}
use wfc_server.Qr2.Reservation.{Verdict, check_reservation_allowed}

-- The state of qr2, and the Reservation of each session.
pub record Relay : Type 0 where
  pub qr2 : State
  pub reservation_at : Memory MatchCommandData

-- What goes out: the session that it is for, with the fields of its header.
pub record Delivery : Type 0 where
  pub receiver : ℕ
  pub session_id : ℕ
  pub packet_count : ℕ
  pub addr : UdpAddr
  pub payload : Bytes

-- A message that is checked: who sent it, what it says, and its bytes.
pub record Checked : Type 0 where
  pub sender : ℕ
  pub command : ℕ
  pub match_data : MatchCommandData
  pub bytes : Bytes

-- `if !ok { return }`
abbrev pub only_if {ℓ} : {A : Type ℓ} → Bool → Outcome (Option A) → Outcome (Option A)
only_if ok rest = if ok then rest else returns none

unfoldable pub index : Bytes → ℕ → Outcome ℕ
index message i = elim (get_elem? message i) [ none ↦ panics | some b ↦ returns b ]

-- A search ID, or an address.
unfoldable pub find_receiver : ℕ → State → Option ℕ
find_receiver dest s =
    if ltb dest 0x1000000 then lookup dest s.session_by_search_id else lookup dest s.sessions

unfoldable pub has_device : ℕ → State → Bool
has_device p s = elim (s.session_at p).login [
  | none ↦ false
  | some l ↦ (s.login_at l).device_authenticated
]

-- The checks of the receiver.
unfoldable pub is_reachable : ℕ → State → Bool
is_reachable p s =
    (s.session_at p).authenticated && not (text_eq (data_of s p dwc_pid) []) && has_device p s

unfoldable pub is_natneg : Bytes → Bool
is_natneg message = text_eq (take 2 message) (0xFD ∷ 0xFC ∷ [])

unfoldable pub is_match : Bytes → Bool
is_match message =
    text_eq (take 4 message) (0xBB ∷ 0x49 ∷ 0xCC ∷ 0x4D ∷ [])
    || text_eq (take 4 message) (codes "SBCM")

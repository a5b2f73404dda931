-- ===== src/Gpcm.antt =====
-- gpcm/: the sessions of the presence server, and what they send. A pointer to a session is a
-- number, and memory says what it refers to. A message is its type, its sender and its text, as it
-- stands before it is printed; a reply with an error is the error's name. The locks and the log are
-- left out: a handler runs under the lock.
pub mod FriendLists
pub mod Friends
pub mod Status
pub mod Counts
pub mod Parting
pub mod Logout
pub mod Shrinking
pub mod OpenHost
pub mod Befriending
pub mod Sound
pub mod Kept
pub mod Reachable
pub mod Run
pub mod Closing
mod Examples
use wfc_server.Prelude.{
  ℕ, zero, suc, ◌+◌, Bool, true, false, Option, none, some, List, [], ◌∷◌, ◌++◌, leb, if◌then◌else◌,
}
use wfc_server.Prelude.Words.{Bytes}
use wfc_server.Prelude.Text.{parse_digits}
use wfc_server.Prelude.NatMap.{lookup}
use wfc_server.Prelude.TextMap.{Memory, write}
use wfc_server.Qr2.{State}

-- LinkStage of database/user.go.
pub data LinkStage : Type 0 where
  ls_none : LinkStage
  ls_started : LinkStage
  ls_friended : LinkStage
  ls_finished : LinkStage

-- The fields of GameSpySession, and of its User, that friends and messages depend on.
pub record GameSpySession : Type 0 where
  pub profile_id : ℕ
  pub gsbr_code : Bytes
  pub open_host : Bool
  pub restricted : Bool
  pub link_stage : LinkStage
  pub logged_in : Bool
  pub game_name : Bytes
  pub game_code : Bytes
  pub unit_code : ℕ
  pub status_set : Bool
  pub status : Bytes
  pub loc_string : Bytes
  pub friend_list : List ℕ
  pub auth_friend_list : List ℕ
  pub recv_status_from_list : List ℕ
  pub qr2_ip : ℕ
  pub needs_exploit : Bool

pub data GpError : Type 0 where
  err_add_friend : GpError
  err_add_friend_bad_new : GpError
  err_delete_friend : GpError
  err_auth_add_bad_from : GpError

-- What a handler sends: a message to a session at once, one into its write buffer, a reply with an
-- error, or a kick of a profile.
pub data Sent : Type 0 where
  message : (to : ℕ) → (msg_type : Bytes) → (from : ℕ) → (msg : Bytes) → Sent
  buffered : (to : ℕ) → (msg_type : Bytes) → (from : ℕ) → (msg : Bytes) → Sent
  replied : (to : ℕ) → GpError → Sent
  kicked : (profile_id : ℕ) → (reason : Bytes) → Sent

-- The package's variables, memory, what was sent so far, and the state of qr2.
pub record Presence : Type 0 where
  pub player_at : Memory GameSpySession
  pub players : List (ℕ × ℕ)
  pub sent : List Sent
  pub qr2 : State

-- A write through a pointer.
unfoldable pub set_player : ℕ → (GameSpySession → GameSpySession) → Presence → Presence
set_player g f s = record s { player_at = write g (f (s.player_at g)) s.player_at }

unfoldable pub send : Sent → Presence → Presence
send e s = record s { sent = s.sent ++ e ∷ [] }

-- `session, ok := sessions[id]; ok && session.LoggedIn`
unfoldable pub online : ℕ → Presence → Option ℕ
online id s = elim (lookup id s.players) [
  | none ↦ none
  | some q ↦ if (s.player_at q).logged_in then some q else none
]

abbrev bounded : Option ℕ → Option ℕ
bounded none = none
bounded (some n) = if leb n 0xFFFFFFFF then some n else none

-- strconv.ParseUint with base 10 and 32 bits.
unfoldable pub parse_uint32 : Bytes → Option ℕ
unfolding parse_digits
parse_uint32 [] = none
parse_uint32 (c ∷ s) = bounded (parse_digits 0 (c ∷ s))

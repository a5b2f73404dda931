-- ===== src/Qr2.antt =====
-- qr2/session.go, qr2/logins.go and qr2/group.go: the sessions, the logins and the groups, with the
-- pointers between them. A pointer is a number, memory says what it refers to, and `next` is the
-- first one that is not in use. The locks, the log and the messages that wait for an
-- acknowledgement are left out: a handler runs under the lock from its start to its end.
pub mod Host
pub mod HostChoice
pub mod Remove
pub mod Departure
pub mod Removal
pub mod Profile
pub mod Groups
pub mod Membership
pub mod Joining
pub mod Reservation
pub mod Restricted
pub mod NatnegReport
pub mod Claim
pub mod Logout
pub mod Linked
pub mod LinkedRuns
mod Examples
use wfc_server.Prelude.{
  ℕ, ◌+◌, Bool, true, false, Option, none, some, List, [], ◌∷◌, ◌++◌, ◌==◌, ◌&&◌, not,
  if◌then◌else◌,
}
use wfc_server.Prelude.Words.{Bytes}
use wfc_server.Prelude.Int.{ℤ}
use wfc_server.Prelude.Text.{codes}
use wfc_server.Prelude.TextMap.{Memory, write, field, set_named}
use wfc_server.IpAddress.{UdpAddr}

-- A session's Data, map[string]string, which is the field `fields` here.
abbrev pub Fields : Type 0
Fields = List (Bytes × Bytes)

-- Session, without the mutex and the waker of its messages, and without the reservation that
-- qr2/message.go keeps in it.
pub record Session : Type 0 where
  pub session_id : ℕ
  pub search_id : ℕ
  pub addr : UdpAddr
  pub challenge : Bytes
  pub authenticated : Bool
  pub login : Option ℕ
  pub exploit_received : Bool
  pub last_keep_alive : ℕ
  pub endianness : ℕ
  pub fields : Fields
  pub packet_count : ℕ
  pub reservation_id : ℕ
  pub group_pointer : Option ℕ
  pub group_name : Bytes

pub record LoginInfo : Type 0 where
  pub profile_id : ℕ
  pub game_code : Bytes
  pub in_game_name : Bytes
  pub console_friend_code : ℕ
  pub friend_key_game : Bytes
  pub gp_public_ip : Bytes
  pub needs_exploit : Bool
  pub device_authenticated : Bool
  pub restricted : Bool
  pub open_host : Bool
  pub session : Option ℕ

-- Group, without its time of creation. `players` lists the keys of the map in the order in which
-- `range` visits them.
pub record Group : Type 0 where
  pub group_id : ℕ
  pub group_name : Bytes
  pub game_name : Bytes
  pub match_type : Bytes
  pub mkw_region : Bytes
  pub last_join_index : ℕ
  pub server : Option ℕ
  pub players : List ℕ

-- The package's variables, memory, and the errors handed to gpErrorCallback.
pub record State : Type 0 where
  pub session_at : Memory Session
  pub login_at : Memory LoginInfo
  pub group_at : Memory Group
  pub next : ℕ
  pub sessions : List (ℕ × ℕ)
  pub session_by_search_id : List (ℕ × ℕ)
  pub logins : List (ℕ × ℕ)
  pub groups : List (Bytes × ℕ)
  pub gp_errors : List (ℕ × Bytes)

-- Writes through pointers.
unfoldable pub set_session : ℕ → (Session → Session) → State → State
set_session p f s = record s { session_at = write p (f (s.session_at p)) s.session_at }

unfoldable pub set_login : ℕ → (LoginInfo → LoginInfo) → State → State
set_login p f s = record s { login_at = write p (f (s.login_at p)) s.login_at }

unfoldable pub set_group : ℕ → (Group → Group) → State → State
set_group p f s = record s { group_at = write p (f (s.group_at p)) s.group_at }

-- session.Data[name] and session.Data[name] = value
unfoldable pub data_of : State → ℕ → Bytes → Bytes
data_of s p name = field name (s.session_at p).fields

abbrev pub with_data : (Fields → Fields) → Session → Session
with_data f x = record x { fields = f x.fields }

unfoldable pub set_data : ℕ → Bytes → Bytes → State → State
set_data p name value s = set_session p (with_data (set_named name value)) s

unfoldable pub is_at : Option ℕ → ℕ → Bool
is_at none p = false
is_at (some q) p = q == p

unfoldable pub has : ℕ → List ℕ → Bool
has p [] = false
has p (q ∷ ps) = if q == p then true else has p ps

-- delete(players, p)
unfoldable pub without : ℕ → List ℕ → List ℕ
without p [] = []
without p (q ∷ ps) = if q == p then without p ps else q ∷ without p ps

unfoldable pub has_prefix : Bytes → Bytes → Bool
has_prefix [] s = true
has_prefix (c ∷ w) [] = false
has_prefix (c ∷ w) (d ∷ s) = c == d && has_prefix w s

-- The names of fields, each a literal of the source.
abbrev pub joinindex : Bytes
joinindex = codes "+joinindex"

abbrev pub conn : Bytes
conn = codes "+conn_"

abbrev pub conn_of : State → ℕ → Bytes
conn_of s p = conn ++ data_of s p joinindex

abbrev pub dwc_pid : Bytes
dwc_pid = codes "dwc_pid"

abbrev pub dwc_mtype : Bytes
dwc_mtype = codes "dwc_mtype"

abbrev pub dwc_hoststate : Bytes
dwc_hoststate = codes "dwc_hoststate"

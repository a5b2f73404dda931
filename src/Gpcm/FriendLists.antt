-- ===== src/Gpcm/FriendLists.antt =====
-- The lists of profile IDs in gpcm/friend.go, and the handlers that only walk along one. An index
-- of -1 is none.
use wfc_server.Prelude.{
  ℕ, zero, suc, ◌-◌, Bool, true, false, not, ◌&&◌, Option, none, some, List, [], ◌∷◌, ◌++◌, ltb,
  ◌==◌, if◌then◌else◌, length, get_elem?, take, drop,
}
use wfc_server.Prelude.Words.{Bytes}
use wfc_server.Prelude.Text.{codes}
use wfc_server.Qr2.{has_prefix}
use wfc_server.Gpcm.{GameSpySession, Sent, Presence, set_player, send, online}

-- isFriendAdded and isFriendAuthorized, on their list.
unfoldable pub is_listed : ℕ → List ℕ → Bool
is_listed profile_id [] = false
is_listed profile_id (stored ∷ list) =
    if stored == profile_id then true else is_listed profile_id list

-- getAuthorizedFriendIndex and getFriendIndex, on their list.
unfoldable pub index_of : ℕ → List ℕ → Option ℕ
index_of profile_id [] = none
index_of profile_id (stored ∷ list) =
    if stored == profile_id
    then some 0
    else (elim (index_of profile_id list) [ none ↦ none | some i ↦ some (suc i) ])

-- array[index] = value
unfoldable pub set_elem : ℕ → ℕ → List ℕ → List ℕ
set_elem index value [] = []
set_elem zero value (x ∷ xs) = value ∷ xs
set_elem (suc index) value (x ∷ xs) = x ∷ set_elem index value xs

-- removeFromUint32Array: out of bounds the array stays.
unfoldable pub remove_from_uint32_array : List ℕ → Option ℕ → List ℕ
remove_from_uint32_array array none = array
remove_from_uint32_array array (some index) =
    if not (ltb index (length array)) then array else (elim (get_elem? array (length array - 1)) [
      | none ↦ array
      | some last ↦ take (length array - 1) (set_elem index last array)
    ])

abbrev pub is_friend_added : ℕ → ℕ → Presence → Bool
is_friend_added g profile_id s = is_listed profile_id (s.player_at g).friend_list

abbrev pub is_friend_authorized : ℕ → ℕ → Presence → Bool
is_friend_authorized g profile_id s = is_listed profile_id (s.player_at g).auth_friend_list

-- removeFromUint32Array(&g.AuthFriendList, g.getAuthorizedFriendIndex(profileId))
unfoldable pub unauthorize : ℕ → GameSpySession → GameSpySession
unauthorize profile_id x = record x {
  auth_friend_list =
      remove_from_uint32_array x.auth_friend_list (index_of profile_id x.auth_friend_list);
}

unfoldable pub authorize : ℕ → GameSpySession → GameSpySession
authorize profile_id x = record x { auth_friend_list = x.auth_friend_list ++ profile_id ∷ [] }

abbrev pub log_out_message : Bytes
log_out_message = codes "|s|0|ss|Offline|ls||ip|0|p|0|qm|0"

abbrev pub bm1_auth_message : Bytes
bm1_auth_message = codes "I have authorized your request to add me to your list"

unfoldable pub record_status_sent : ℕ → GameSpySession → GameSpySession
record_status_sent sender x =
    if is_listed sender x.recv_status_from_list
    then x
    else record x { recv_status_from_list = x.recv_status_from_list ++ sender ∷ [] }

-- The text of a location that is too long for Mario Kart Wii.
unfoldable pub is_blocked : GameSpySession → GameSpySession → Bool
is_blocked to from =
    to.needs_exploit && has_prefix (codes "RMC") to.game_code && ltb 0x14 (length from.loc_string)

-- `if session.isFriendAuthorized(g.User.ProfileId)`, the removal and the message, in
-- sendLogoutStatus and openHostDisabled.
unfoldable pub part_from : ℕ → ℕ → Presence → Presence
part_from g id s = elim (online id s) [
  | none ↦ s
  | some q ↦
      let me = (s.player_at g).profile_id in
      if is_friend_authorized q me s
      then send (Sent.message q (codes "100") me log_out_message) (set_player q (unauthorize me) s)
      else s
]

-- What `range g.AuthFriendList` sees once the list has changed: the array keeps its length, the
-- list stands at its front, and behind the list what stood there before.
unfoldable pub overlay : List ℕ → List ℕ → List ℕ
overlay list array = list ++ drop (length list) array

-- The rounds that are left of the loop of sendLogoutStatus, from the index on.
unfoldable pub logout_loop : ℕ → ℕ → ℕ → List ℕ → Presence → Presence
logout_loop zero index g array s = s
logout_loop (suc rounds) index g array s = elim (get_elem? array index) [
  | none ↦ s
  | some id ↦
      let s' = part_from g id s in
      logout_loop rounds (suc index) g (overlay (s'.player_at g).auth_friend_list array) s'
]

-- sendLogoutStatus
unfoldable pub send_logout_status : ℕ → Presence → Presence
send_logout_status g s =
    let array = (s.player_at g).auth_friend_list in logout_loop (length array) 0 g array s

-- The rounds that are left of the loop of openHostDisabled, from the index on. A mutual friend ends
-- the loop.
unfoldable pub disable_loop : ℕ → ℕ → ℕ → List ℕ → Presence → Presence
disable_loop zero index g array s = s
disable_loop (suc rounds) index g array s = elim (get_elem? array index) [
  | none ↦ s
  | some id ↦
      let s' = part_from g id (set_player g (unauthorize id) s) in
      let rest =
        disable_loop rounds (suc index) g (overlay (s'.player_at g).auth_friend_list array) s' in
      if is_friend_added g id s then s else rest
]

-- openHostDisabled
unfoldable pub open_host_disabled : ℕ → Presence → Presence
open_host_disabled g s =
    let array = (s.player_at g).auth_friend_list in disable_loop (length array) 0 g array s

-- ===== src/Gpcm/Friends.antt =====
-- The handlers of gpcm/friend.go, and the end of a connection in gpcm/main.go.
use wfc_server.Prelude.{
  ℕ, Bool, not, ◌&&◌, ◌||◌, none, some, [], ◌∷◌, ◌++◌, ltb, ◌==◌, if◌then◌else◌, length, Outcome,
  returns, panics,
}
use wfc_server.Prelude.Words.{Bytes}
use wfc_server.Prelude.Text.{codes, text_eq}
use wfc_server.Gpcm.{
  LinkStage, GameSpySession, GpError, Sent, Presence, set_player, send, online, parse_uint32,
}
use wfc_server.Gpcm.FriendLists.{
  is_listed, is_friend_added, is_friend_authorized, index_of, remove_from_uint32_array, unauthorize,
  authorize, bm1_auth_message, log_out_message, record_status_sent, is_blocked,
}

-- handleFriendBot
unfoldable pub befriend_bot : LinkStage → LinkStage
befriend_bot LinkStage.ls_started = LinkStage.ls_friended
befriend_bot stage = stage

unfoldable pub handle_friend_bot : GameSpySession → GameSpySession
handle_friend_bot x = record x { link_stage = befriend_bot x.link_stage }

-- isBm1AuthMessageNeeded
unfoldable pub is_bm1_auth_message_needed : GameSpySession → Bool
is_bm1_auth_message_needed x =
    x.unit_code == 0
    || x.unit_code == 0xFF
    || text_eq x.game_name (codes "jissenpachwii")
    || text_eq x.game_name (codes "drmariowii")
    || text_eq x.game_name (codes "pokebattlewii")

-- The status of `from` for the session `to`, if its location is not held back.
unfoldable pub give_status : ℕ → ℕ → Presence → Presence
give_status from to s =
    let sender = s.player_at from in
    if is_blocked (s.player_at to) sender
    then s
    else send (Sent.message to (codes "100") sender.profile_id sender.status)
        (set_player to (record_status_sent sender.profile_id) s)

-- sendFriendStatus
unfoldable pub send_friend_status : ℕ → ℕ → Presence → Presence
send_friend_status g profile_id s =
    let given : Presence = elim (online profile_id s) [
      | none ↦ s
      | some q ↦ if is_friend_added q (s.player_at g).profile_id s then give_status g q s else s
    ] in
    if not (is_friend_authorized g profile_id s) then s else given

-- The second half of exchangeFriendStatus: the status of the other, for the sender.
unfoldable pub take_status : ℕ → ℕ → ℕ → Presence → Presence
take_status g profile_id q s =
    if is_friend_added g profile_id s && is_friend_authorized g profile_id s
    then if is_blocked (s.player_at g) (s.player_at q)
      then s
      else send (Sent.buffered g (codes "100") profile_id (s.player_at q).status)
          (set_player g (record_status_sent profile_id) s)
    else s

-- exchangeFriendStatus: a status that is held back ends it.
unfoldable pub exchange_friend_status : ℕ → ℕ → Presence → Presence
exchange_friend_status g profile_id s = elim (online profile_id s) [
  | none ↦ s
  | some q ↦
      let me = (s.player_at g).profile_id in
      if is_friend_added q me s && is_friend_authorized q me s
      then if is_blocked (s.player_at q) (s.player_at g)
        then s
        else take_status g profile_id q (give_status g q s)
      else take_status g profile_id q s
]

-- The end of addFriend: the messages of a friendship that is mutual now.
unfoldable pub greet : ℕ → ℕ → Presence → Presence
greet g q s =
    let me = (s.player_at g).profile_id in
    let other = (s.player_at q).profile_id in
    let s₁ = send (Sent.buffered g (codes "4") other []) s in
    let s₂ =
      if is_bm1_auth_message_needed (s.player_at g)
      then send (Sent.buffered g (codes "1") other bm1_auth_message) s₁
      else s₁ in
    let s₃ = send (Sent.message q (codes "4") me []) s₂ in
    let s₄ =
      if is_bm1_auth_message_needed (s.player_at q)
      then send (Sent.message q (codes "1") me bm1_auth_message) s₃
      else s₃ in
    let s₅ =
      if is_friend_added q me s && not (s.player_at g).open_host
      then send_friend_status g other s₄
      else s₂ in
    send_friend_status q me s₅

-- The part of addFriend behind the checks of the destination.
unfoldable pub befriend : ℕ → ℕ → ℕ → Bool → Presence → Presence
befriend g q new_profile_id authorized s =
    let me = (s.player_at g).profile_id in
    greet g q (
      if authorized
      then s
      else set_player q (authorize me) (set_player g (authorize new_profile_id) s))

-- `if !g.isFriendAdded(newProfileId)`, and the append.
unfoldable pub add_to_list : ℕ → GameSpySession → GameSpySession
add_to_list profile_id x =
    if is_listed profile_id x.friend_list
    then x
    else record x { friend_list = x.friend_list ++ profile_id ∷ [] }

-- addFriend, from the lock on.
unfoldable pub add_locked : ℕ → ℕ → Presence → Presence
add_locked g new_profile_id s =
    let authorized = is_friend_authorized g new_profile_id s in
    let s' = set_player g (add_to_list new_profile_id) s in
    let added : Presence = elim (online new_profile_id s') [
      | none ↦ s'
      | some q ↦
          let other = s'.player_at q in
          if not (text_eq other.game_name (s'.player_at g).game_name)
          then s'
          else if not other.open_host && not (is_friend_added q (s'.player_at g).profile_id s')
          then s'
          else befriend g q new_profile_id authorized s'
    ] in
    if not (s.player_at g).open_host && authorized then s else added

-- addFriend. Its log slices GsbrCode, which panics on a code of under four bytes.
unfoldable pub add_friend : Bytes → ℕ → Bytes → Presence → Outcome Presence
add_friend friend_bot_pid g text s =
    let s' = if text_eq text friend_bot_pid then set_player g handle_friend_bot s else s in
    elim (parse_uint32 text) [
      | none ↦ returns (send (Sent.replied g GpError.err_add_friend) s')
      | some new_profile_id ↦
          if new_profile_id == (s'.player_at g).profile_id
          then returns (send (Sent.replied g GpError.err_add_friend_bad_new) s')
          else if ltb (length (s'.player_at g).gsbr_code) 4
          then panics
          else returns (add_locked g new_profile_id s')
    ]

-- removeFriend, from the lock on.
unfoldable pub drop_from_list : ℕ → GameSpySession → GameSpySession
drop_from_list profile_id x = record x {
  friend_list = remove_from_uint32_array x.friend_list (index_of profile_id x.friend_list);
}

unfoldable pub remove_locked : ℕ → ℕ → Presence → Presence
remove_locked g profile_id s =
    let s₁ = set_player g (drop_from_list profile_id) s in
    let s₂ = set_player g (unauthorize profile_id) s₁ in
    let me = (s.player_at g).profile_id in
    let told : Presence = elim (online profile_id s₂) [
      | none ↦ s₂
      | some q ↦
          if is_friend_authorized q me s₂
          then send (Sent.message q (codes "100") me log_out_message) s₂
          else s₂
    ] in
    if (s.player_at g).open_host then s₁ else told

-- removeFriend
unfoldable pub remove_friend : ℕ → Bytes → Presence → Outcome Presence
remove_friend g text s = elim (parse_uint32 text) [
  | none ↦ returns (send (Sent.replied g GpError.err_delete_friend) s)
  | some profile_id ↦
      if ltb (length (s.player_at g).gsbr_code) 4
      then panics
      else returns (remove_locked g profile_id s)
]

-- authAddFriend
unfoldable pub auth_add_friend : ℕ → Bytes → Presence → Presence
auth_add_friend g text s = elim (parse_uint32 text) [
  | none ↦ send (Sent.replied g GpError.err_auth_add_bad_from) s
  | some profile_id ↦
      if not (is_friend_authorized g profile_id s)
      then send (Sent.replied g GpError.err_auth_add_bad_from) s
      else exchange_friend_status g profile_id s
]

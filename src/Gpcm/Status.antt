-- ===== src/Gpcm/Status.antt =====
-- The open host of gpcm/friend.go and gpcm/profile.go, the status of gpcm/friend.go, and the end of
-- a connection in gpcm/main.go.
use wfc_server.Prelude.{
  ℕ, Bool, true, false, not, ◌&&◌, Option, none, some, List, [], ◌∷◌, ◌++◌, ◌==◌, if◌then◌else◌,
  Outcome, returns, ◌>>=◌,
}
use wfc_server.Prelude.Words.{Bytes}
use wfc_server.Prelude.NatMap.{delete}
use wfc_server.Prelude.Text.{codes, text_eq}
use wfc_server.Qr2.Groups.{process_gp_status_update}
use wfc_server.Qr2.Remove.{logout, set_login_open_host}
use wfc_server.Gpcm.{Sent, Presence, set_player, send}
use wfc_server.Gpcm.FriendLists.{
  is_friend_added, is_friend_authorized, authorize, bm1_auth_message, send_logout_status,
  open_host_disabled,
}
use wfc_server.Gpcm.Friends.{is_bm1_auth_message_needed, send_friend_status}

-- One session that openHostEnabled looks at.
unfoldable pub open_to : Bool → ℕ → ℕ → Presence → Presence
open_to send_status g q s =
    let x = s.player_at q in
    let me = (s.player_at g).profile_id in
    let s₁ = set_player g (authorize x.profile_id) (set_player q (authorize me) s) in
    let s₂ = send (Sent.message q (codes "4") me []) s₁ in
    let s₃ =
      if is_bm1_auth_message_needed x
      then send (Sent.message q (codes "1") me bm1_auth_message) s₂
      else s₂ in
    if x.logged_in && is_friend_added q me s && not (is_friend_authorized q me s)
    then if send_status then send_friend_status q me s₃ else s₃
    else s

-- openHostEnabled, over the sessions in the order in which `range` visits them.
unfoldable pub open_host_enabled : Bool → ℕ → List ℕ → Presence → Presence
open_host_enabled send_status g [] s = s
open_host_enabled send_status g (q ∷ order) s =
    open_host_enabled send_status g order (open_to send_status g q s)

unfoldable pub send_statuses : ℕ → List ℕ → Presence → Presence
send_statuses g [] s = s
send_statuses g (profile_id ∷ list) s = send_statuses g list (send_friend_status g profile_id s)

-- setStatus, behind the call of qr2: `order` is how `range` visits the sessions.
unfoldable pub set_status_locked : ℕ → List ℕ → Bytes → Bytes → Bytes → Presence → Presence
set_status_locked g order status statstring locstring s =
    let text =
      codes "|s|"
      ++ status
      ++ codes "|ss|"
      ++ statstring
      ++ codes "|ls|"
      ++ locstring
      ++ codes "|ip|0|p|0|qm|0" in
    let x = s.player_at g in
    let s₁ =
      if text_eq status (codes "3") && x.restricted
      then send (Sent.kicked x.profile_id (codes "restricted_join")) s
      else s in
    let s₂ = set_player g (λ y. record y { loc_string = locstring; status = text }) s₁ in
    let s₃ = if not x.status_set && x.open_host then open_host_enabled false g order s₂ else s₂ in
    let s₄ = set_player g (λ y. record y { status_set = true }) s₃ in
    send_statuses g (s₄.player_at g).auth_friend_list s₄

-- setStatus. A text that is missing is empty.
unfoldable pub set_status : ℕ → List ℕ → Bytes → Bytes → Bytes → Presence → Outcome Presence
set_status g order status statstring locstring s =
    let x = s.player_at g in
    process_gp_status_update x.profile_id x.qr2_ip status s.qr2 >>= λ r.
    returns (set_status_locked g order status statstring locstring (record s { qr2 = r.1 }))

-- The open host switch in updateProfile, before qr2 is told: `text` is the value of wl:oh.
unfoldable pub switch_open_host : ℕ → List ℕ → Bytes → Presence → Presence
switch_open_host g order text s =
    let is_open = (s.player_at g).open_host in
    let enabled = not (text_eq text (codes "0")) in
    if not is_open && enabled
    then open_host_enabled true g order s
    else if is_open && not enabled
    then open_host_disabled g s
    else s

-- updateProfile, where `text` is the value of wl:oh, if there is one. The names in it, and the
-- database, are left out.
unfoldable pub update_profile : ℕ → List ℕ → Option Bytes → Presence → Presence
update_profile g order none s = s
update_profile g order (some text) s =
    let enabled = not (text_eq text (codes "0")) in
    let s₁ = switch_open_host g order text s in
    let me = (s₁.player_at g).profile_id in
    set_player g (λ x. record x { open_host = enabled })
      (record s₁ { qr2 = set_login_open_host me enabled s₁.qr2 })

-- qr2.ProcessGPStatusUpdate with status 0, if the session has a QR2 address.
unfoldable pub leave_qr2 : ℕ → Presence → Outcome Presence
leave_qr2 g s =
    let x = s.player_at g in
    if x.qr2_ip == 0
    then returns s
    else (process_gp_status_update x.profile_id x.qr2_ip (codes "0") s.qr2 >>= λ r.
        returns (record s { qr2 = r.1 }))

-- CloseConnection of a session, less the kick that it leaves to a timer.
unfoldable pub close_connection : ℕ → Presence → Outcome Presence
close_connection g s =
    let x = s.player_at g in
    if x.logged_in
    then (do
      q ← logout x.profile_id s.qr2
      s₁ ← leave_qr2 g (record s { qr2 = q })
      let s₂ = send_logout_status g s₁
      let s₃ = set_player g (λ y. record y { logged_in = false }) s₂
      returns (record s₃ { players = delete x.profile_id s₃.players }))
    else returns s

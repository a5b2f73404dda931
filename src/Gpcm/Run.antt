-- ===== src/Gpcm/Run.antt =====
-- gpcm/: what holds after any handlers of the friend lists, in any order.
use wfc_server.Prelude.{
  ℕ, ◌≡◌, ◌≢◌, refl, inl, inr, true, false, Option, none, some, List, ltb, ◌==◌, if◌then◌else◌,
  length, returns, Bool-cases, Option-cases, Outcome-cases, arith,
}
use wfc_server.Prelude.Words.{Bytes}
use wfc_server.Prelude.Text.{codes, text_eq}
use wfc_server.Prelude.NatMap.{delete, lookup-delete}
use wfc_server.Qr2.{State}
use wfc_server.Qr2.Groups.{process_gp_status_update}
use wfc_server.Qr2.Remove.{logout}
use wfc_server.Gpcm.{GameSpySession, GpError, Sent, Presence, set_player, send, parse_uint32}
use wfc_server.Gpcm.FriendLists.{send_logout_status, open_host_disabled}
use wfc_server.Gpcm.Friends.{
  handle_friend_bot, add_locked, add_friend, remove_locked, remove_friend, auth_add_friend,
}
use wfc_server.Gpcm.Status.{
  set_status_locked, set_status, switch_open_host, update_profile, leave_qr2, close_connection,
}
use wfc_server.Gpcm.Sound.{IsSoundSession, IsSound, set_player-IsSound}
use wfc_server.Gpcm.Kept.{send-IsSound, if-IsSound, IsSound-session, exchange_friend_status-IsSound}
use wfc_server.Gpcm.Reachable.{
  add_locked-IsSound, remove_locked-IsSound, logout_loop-IsSound, disable_loop-IsSound,
  open_host_enabled-IsSound, send_statuses-IsSound,
}

-- A change that leaves the ID and the lists of a session alone.
abbrev IsListless : (GameSpySession → GameSpySession) → Type 0
IsListless f =
    (x : GameSpySession)
    → ((f x).profile_id ≡ x.profile_id)
      × ((f x).friend_list ≡ x.friend_list)
      × ((f x).auth_friend_list ≡ x.auth_friend_list)
      × ((f x).recv_status_from_list ≡ x.recv_status_from_list)

listless-IsSoundSession :
    (f : GameSpySession → GameSpySession) (x : GameSpySession)
    → IsListless f
    → IsSoundSession x
    → IsSoundSession (f x)
unfolding IsSoundSession
listless-IsSoundSession f x listless (a, b, c, d) =
    let (named, friends, auth, recv) = listless x in
    (rw (named, friends) a, rw (named, auth) b, (λ p. rw friends (c p)), (λ p. rw recv (d p)))

listless-IsSound :
    (g : ℕ) (f : GameSpySession → GameSpySession) (s : Presence)
    → IsListless f
    → IsSound s
    → IsSound (set_player g f s)
listless-IsSound g f s listless h =
    set_player-IsSound g f s (listless (s.player_at g)).0
      (listless-IsSoundSession f (s.player_at g) listless (IsSound-session s g h)) h

qr2-IsSound : (q : State) (s : Presence) → IsSound s → IsSound (record s { qr2 = q })
unfolding IsSound
qr2-IsSound q s h = h

-- The handlers that take a packet of a session, and the end of its connection.
pub data Step (bot : Bytes) : Presence → Presence → Type 0 where
  added :
      (g : ℕ) (text : Bytes) (s s' : Presence)
      → add_friend bot g text s ≡ returns s'
      → Step bot s s'
  removed :
      (g : ℕ) (text : Bytes) (s s' : Presence) → remove_friend g text s ≡ returns s' → Step bot s s'
  answered : (g : ℕ) (text : Bytes) (s : Presence) → Step bot s (auth_add_friend g text s)
  changed :
      (g : ℕ) (order : List ℕ) (status stat loc : Bytes) (s s' : Presence)
      → set_status g order status stat loc s ≡ returns s'
      → Step bot s s'
  updated :
      (g : ℕ) (order : List ℕ) (text : Option Bytes) (s : Presence)
      → Step bot s (update_profile g order text s)
  closed : (g : ℕ) (s s' : Presence) → close_connection g s ≡ returns s' → Step bot s s'

pub data Run (bot : Bytes) : Presence → Presence → Type 0 where
  done : (s : Presence) → Run bot s s
  then_step : (s₁ s₂ s₃ : Presence) → Run bot s₁ s₂ → Step bot s₂ s₃ → Run bot s₁ s₃

handle_friend_bot-IsListless : IsListless handle_friend_bot
unfolding handle_friend_bot
handle_friend_bot-IsListless x = (refl, refl, refl, refl)

add_friend-IsSound :
    (bot : Bytes) (g : ℕ) (text : Bytes) (s s' : Presence)
    → IsSound s
    → add_friend bot g text s ≡ returns s'
    → IsSound s'
unfolding add_friend
add_friend-IsSound bot g text s s' h e =
    let s₁ = if text_eq text bot then set_player g handle_friend_bot s else s in
    let h₁ : IsSound s₁ =
      if-IsSound (text_eq text bot) _ s
        (listless-IsSound g handle_friend_bot s handle_friend_bot-IsListless h) h in
    elim (Option-cases (parse_uint32 text)) [
      | inl bad ↦
          let result : s' ≡ send (Sent.replied g GpError.err_add_friend) s₁ = ground (arith, bad) in
          rw result (send-IsSound _ s₁ h₁)
      | inr (new, good) ↦ elim (Bool-cases (new == (s₁.player_at g).profile_id)) [
        | inl self ↦
            let result : s' ≡ send (Sent.replied g GpError.err_add_friend_bad_new) s₁ =
              ground (arith, good) in
            rw result (send-IsSound _ s₁ h₁)
        | inr other ↦
            let apart : new ≢ (s₁.player_at g).profile_id = ground arith in
            let result : s' ≡ add_locked g new s₁ =
              ground (arith, good, Bool-cases (ltb (length (s₁.player_at g).gsbr_code) 4)) in
            rw result (add_locked-IsSound g new s₁ apart h₁)
      ]
    ]

remove_friend-IsSound :
    (g : ℕ) (text : Bytes) (s s' : Presence)
    → IsSound s
    → remove_friend g text s ≡ returns s'
    → IsSound s'
unfolding remove_friend
remove_friend-IsSound g text s s' h e = elim (Option-cases (parse_uint32 text)) [
  | inl bad ↦
      let result : s' ≡ send (Sent.replied g GpError.err_delete_friend) s = ground (arith, bad) in
      rw result (send-IsSound _ s h)
  | inr (id, good) ↦
      let result : s' ≡ remove_locked g id s =
        ground (arith, good, Bool-cases (ltb (length (s.player_at g).gsbr_code) 4)) in
      rw result (remove_locked-IsSound g id s h)
]

auth_add_friend-IsSound :
    (g : ℕ) (text : Bytes) (s : Presence) → IsSound s → IsSound (auth_add_friend g text s)
unfolding auth_add_friend
auth_add_friend-IsSound g text s h = elim (Option-cases (parse_uint32 text)) [
  | inl bad ↦ rw (bad, auth_add_friend) (send-IsSound _ s h)
  | inr (id, good) ↦
      rw (good, auth_add_friend)
        (if-IsSound _ _ _ (send-IsSound _ s h) (exchange_friend_status-IsSound g id s h))
]

set_status_locked-IsSound :
    (g : ℕ) (order : List ℕ) (status stat loc : Bytes) (s : Presence)
    → IsSound s
    → IsSound (set_status_locked g order status stat loc s)
unfolding set_status_locked
set_status_locked-IsSound g order status stat loc s h =
    let h₁ = if-IsSound _ _ s (send-IsSound _ s h) h in
    let h₂ = listless-IsSound g _ _ (λ x. (refl, refl, refl, refl)) h₁ in
    let h₃ = if-IsSound _ _ _ (open_host_enabled-IsSound false g order _ h₂) h₂ in
    let h₄ = listless-IsSound g _ _ (λ x. (refl, refl, refl, refl)) h₃ in
    send_statuses-IsSound g _ _ h₄

set_status-IsSound :
    (g : ℕ) (order : List ℕ) (status stat loc : Bytes) (s s' : Presence)
    → IsSound s
    → set_status g order status stat loc s ≡ returns s'
    → IsSound s'
unfolding set_status
set_status-IsSound g order status stat loc s s' h e =
    elim (Outcome-cases
      (process_gp_status_update (s.player_at g).profile_id (s.player_at g).qr2_ip status s.qr2)) [
        | inl stuck ↦ ground (arith, stuck)
        | inr (r, went) ↦
            let result : s' ≡ set_status_locked g order status stat loc (record s { qr2 = r.1 }) =
              ground (arith, went) in
            rw result (set_status_locked-IsSound g order status stat loc _ (qr2-IsSound r.1 s h))
      ]

open_host_disabled-IsSound : (g : ℕ) (s : Presence) → IsSound s → IsSound (open_host_disabled g s)
unfolding open_host_disabled
open_host_disabled-IsSound g s h = disable_loop-IsSound _ 0 g _ s h

update_profile-IsSound :
    (g : ℕ) (order : List ℕ) (text : Option Bytes) (s : Presence)
    → IsSound s
    → IsSound (update_profile g order text s)
unfolding update_profile switch_open_host
update_profile-IsSound g order none s h = h
update_profile-IsSound g order (some text) s h =
    let h₁ =
      if-IsSound _ _ _ (open_host_enabled-IsSound true g order s h)
        (if-IsSound _ _ s (open_host_disabled-IsSound g s h) h) in
    listless-IsSound g _ _ (λ x. (refl, refl, refl, refl)) (qr2-IsSound _ _ h₁)

leave_qr2-IsSound : (g : ℕ) (s s' : Presence) → IsSound s → leave_qr2 g s ≡ returns s' → IsSound s'
unfolding leave_qr2
leave_qr2-IsSound g s s' h e = elim (Bool-cases ((s.player_at g).qr2_ip == 0)) [
  | inl unset ↦ let result : s' ≡ s = ground arith in rw result h
  | inr set ↦
      elim (Outcome-cases (
        process_gp_status_update (s.player_at g).profile_id (s.player_at g).qr2_ip (codes "0")
          s.qr2)) [
            | inl stuck ↦ ground (arith, stuck)
            | inr (r, went) ↦
                let result : s' ≡ record s { qr2 = r.1 } = ground (arith, went) in
                rw result (qr2-IsSound r.1 s h)
          ]
]

delete-IsSound :
    (id : ℕ) (s : Presence) → IsSound s → IsSound (record s { players = delete id s.players })
unfolding IsSound
delete-IsSound id s (keyed, all) =
    ((λ other q found. keyed other q (ground (arith, lookup-delete id other s.players))), all)

close_connection-IsSound :
    (g : ℕ) (s s' : Presence) → IsSound s → close_connection g s ≡ returns s' → IsSound s'
unfolding close_connection send_logout_status
close_connection-IsSound g s s' h e = elim (Bool-cases (s.player_at g).logged_in) [
  | inr guest ↦ let result : s' ≡ s = ground arith in rw result h
  | inl member ↦ elim (Outcome-cases (logout (s.player_at g).profile_id s.qr2)) [
    | inl stuck ↦ ground (arith, stuck)
    | inr (q, out) ↦ elim (Outcome-cases (leave_qr2 g (record s { qr2 = q }))) [
      | inl stuck ↦ ground (arith, out, stuck)
      | inr (s₁, left) ↦
          let me = (s.player_at g).profile_id in
          let s₂ = send_logout_status g s₁ in
          let s₃ = set_player g (λ y. record y { logged_in = false }) s₂ in
          let result : s' ≡ record s₃ { players = delete me s₃.players } =
            ground (arith, out, left) in
          let h₁ = leave_qr2-IsSound g _ s₁ (qr2-IsSound q s h) left in
          let h₂ = logout_loop-IsSound _ 0 g _ s₁ h₁ in
          let h₃ = listless-IsSound g _ s₂ (λ y. (refl, refl, refl, refl)) h₂ in
          rw result (delete-IsSound me s₃ h₃)
    ]
  ]
]

Step-IsSound : (bot : Bytes) (s s' : Presence) → IsSound s → Step bot s s' → IsSound s'
Step-IsSound bot s s' h (Step.added g text _ _ e) = add_friend-IsSound bot g text s s' h e
Step-IsSound bot s s' h (Step.removed g text _ _ e) = remove_friend-IsSound g text s s' h e
Step-IsSound bot s _ h (Step.answered g text _) = auth_add_friend-IsSound g text s h
Step-IsSound bot s s' h (Step.changed g order status stat loc _ _ e) =
    set_status-IsSound g order status stat loc s s' h e
Step-IsSound bot s _ h (Step.updated g order text _) = update_profile-IsSound g order text s h
Step-IsSound bot s s' h (Step.closed g _ _ e) = close_connection-IsSound g s s' h e

-- When every session is sound, and a profile ID leads to a session of that profile, this stays so
-- whatever handlers of friends, status and profile run, and whatever connections end: no session
-- lists itself, or a friend twice, or a sender of a status twice.
pub Run-IsSound : (bot : Bytes) (s s' : Presence) → IsSound s → Run bot s s' → IsSound s'
Run-IsSound bot s _ h (Run.done _) = h
Run-IsSound bot s _ h (Run.then_step _ s₂ s₃ run step) =
    Step-IsSound bot s₂ s₃ (Run-IsSound bot s s₂ h run) step

-- ===== src/Gpcm/Reachable.antt =====
-- gpcm/friend.go: whatever handlers run, the friend lists stay sound.
use wfc_server.Prelude.{
  ℕ, zero, suc, ◌≡◌, ◌≢◌, sym, ap, ◌∙◌, inl, inr, Bool, true, false, List, [], ◌∷◌, ◌==◌, get_elem?,
  Bool-cases, Option-cases, arith,
}
use wfc_server.Prelude.TextMap.{write}
use wfc_server.Gpcm.{Presence, set_player, online}
use wfc_server.Gpcm.FriendLists.{
  is_listed, is_friend_added, unauthorize, authorize, part_from, logout_loop, disable_loop,
}
use wfc_server.Gpcm.Friends.{
  send_friend_status, greet, befriend, add_to_list, add_locked, drop_from_list, remove_locked,
}
use wfc_server.Gpcm.Status.{open_to, open_host_enabled, send_statuses}
use wfc_server.Gpcm.Counts.{count_of, is_listed_iff}
use wfc_server.Gpcm.Sound.{IsSoundSession, IsSound}
use wfc_server.Gpcm.Kept.{
  send-IsSound, if-IsSound, IsSound-online, unauthorize-IsSound, drop_from_list-IsSound,
  authorize-IsSound, add_to_list-IsSound, send_friend_status-IsSound,
}

greet-IsSound : (g q : ℕ) (s : Presence) → IsSound s → IsSound (greet g q s)
unfolding greet
greet-IsSound g q s h =
    let h₁ = send-IsSound _ _ h in
    let h₂ = if-IsSound _ _ _ (send-IsSound _ _ h₁) h₁ in
    let h₃ = send-IsSound _ _ h₂ in
    let h₄ = if-IsSound _ _ _ (send-IsSound _ _ h₃) h₃ in
    let h₅ = if-IsSound _ _ _ (send_friend_status-IsSound g _ _ h₄) h₂ in
    send_friend_status-IsSound q _ _ h₅

set_player-profile_id :
    (g id r : ℕ) (s : Presence)
    → ((set_player g (authorize id) s).player_at r).profile_id ≡ (s.player_at r).profile_id
unfolding set_player write authorize
set_player-profile_id g id r s = ground (arith, Bool-cases (g == r))

befriend-IsSound :
    (g q new : ℕ) (authorized : Bool) (s : Presence)
    → new ≢ (s.player_at g).profile_id
    → (s.player_at q).profile_id ≡ new
    → IsSound s
    → IsSound (befriend g q new authorized s)
unfolding befriend
befriend-IsSound g q new true s other named h = greet-IsSound g q s h
befriend-IsSound g q new false s other named h =
    let s₁ = set_player g (authorize new) s in
    let me = (s.player_at g).profile_id in
    let apart : me ≢ (s₁.player_at q).profile_id =
      λ equal. other (sym (equal ∙ set_player-profile_id g new q s ∙ named)) in
    greet-IsSound g q _ (authorize-IsSound q me s₁ (authorize-IsSound g new s h other) apart)

add_to_list-profile_id :
    (g new r : ℕ) (s : Presence)
    → ((set_player g (add_to_list new) s).player_at r).profile_id ≡ (s.player_at r).profile_id
unfolding set_player write add_to_list
add_to_list-profile_id g new r s =
    ground (arith, Bool-cases (g == r), Bool-cases (is_listed new (s.player_at g).friend_list))

pub add_locked-IsSound :
    (g new : ℕ) (s : Presence)
    → new ≢ (s.player_at g).profile_id
    → IsSound s
    → IsSound (add_locked g new s)
unfolding add_locked
add_locked-IsSound g new s other h =
    let s' = set_player g (add_to_list new) s in
    let h' = add_to_list-IsSound g new s h other in
    let other' : new ≢ (s'.player_at g).profile_id =
      λ equal. other (equal ∙ add_to_list-profile_id g new g s) in
    elim (Option-cases (online new s')) [
      | inl away ↦ rw (away, add_locked) (if-IsSound _ s s' h h')
      | inr (q, e) ↦
          let made = befriend-IsSound g q new _ s' other' (IsSound-online new q s' h' e) h' in
          rw (e, add_locked) (if-IsSound _ s _ h (if-IsSound _ s' _ h' (if-IsSound _ s' _ h' made)))
    ]

pub remove_locked-IsSound : (g id : ℕ) (s : Presence) → IsSound s → IsSound (remove_locked g id s)
unfolding remove_locked
remove_locked-IsSound g id s h =
    let h₁ = drop_from_list-IsSound g id s h in
    let s₂ = set_player g (unauthorize id) (set_player g (drop_from_list id) s) in
    let h₂ = unauthorize-IsSound g id _ h₁ in
    elim (Option-cases (online id s₂)) [
      | inl away ↦ rw (away, remove_locked) (if-IsSound _ _ s₂ h₁ h₂)
      | inr (q, e) ↦
          rw (e, remove_locked) (if-IsSound _ _ _ h₁ (if-IsSound _ _ s₂ (send-IsSound _ s₂ h₂) h₂))
    ]

part_from-IsSound : (g id : ℕ) (s : Presence) → IsSound s → IsSound (part_from g id s)
unfolding part_from
part_from-IsSound g id s h = elim (Option-cases (online id s)) [
  | inl away ↦ rw (away, part_from) h
  | inr (q, e) ↦
      rw (e, part_from) (if-IsSound _ _ s (send-IsSound _ _ (unauthorize-IsSound q _ s h)) h)
]

pub logout_loop-IsSound :
    (rounds index g : ℕ) (array : List ℕ) (s : Presence)
    → IsSound s
    → IsSound (logout_loop rounds index g array s)
unfolding logout_loop
logout_loop-IsSound zero index g array s h = h
logout_loop-IsSound (suc rounds) index g array s h = elim (Option-cases (get_elem? array index)) [
  | inl out ↦ rw (out, logout_loop) h
  | inr (id, e) ↦
      rw (e, logout_loop)
        (logout_loop-IsSound rounds (suc index) g _ (part_from g id s) (part_from-IsSound g id s h))
]

pub disable_loop-IsSound :
    (rounds index g : ℕ) (array : List ℕ) (s : Presence)
    → IsSound s
    → IsSound (disable_loop rounds index g array s)
unfolding disable_loop
disable_loop-IsSound zero index g array s h = h
disable_loop-IsSound (suc rounds) index g array s h = elim (Option-cases (get_elem? array index)) [
  | inl out ↦ rw (out, disable_loop) h
  | inr (id, e) ↦
      let h' = part_from-IsSound g id _ (unauthorize-IsSound g id s h) in
      rw (e, disable_loop) (if-IsSound _ s _ h (disable_loop-IsSound rounds (suc index) g _ _ h'))
]

-- Who has added a player is not the player.
stranger-IsSound :
    (q me : ℕ) (s : Presence)
    → IsSound s
    → is_friend_added q me s ≡ true
    → me ≢ (s.player_at q).profile_id
unfolding IsSound IsSoundSession
stranger-IsSound q me s (keyed, all) added equal =
    let listed = (is_listed_iff me (s.player_at q).friend_list).0 added in
    let absent = (all q).0 in
    omega (arith, listed, absent, ap (λ m. count_of m (s.player_at q).friend_list) equal)

open_to-IsSound : (b : Bool) (g q : ℕ) (s : Presence) → IsSound s → IsSound (open_to b g q s)
unfolding open_to
open_to-IsSound b g q s h = elim (Bool-cases (is_friend_added q (s.player_at g).profile_id s)) [
  | inl added ↦
      let me = (s.player_at g).profile_id in
      let apart = stranger-IsSound q me s h added in
      let s₁ = set_player q (authorize me) s in
      let h₁ = authorize-IsSound q me s h apart in
      let apart' : (s.player_at q).profile_id ≢ (s₁.player_at g).profile_id =
        λ equal. apart (sym (equal ∙ set_player-profile_id q me g s)) in
      let h₂ = authorize-IsSound g (s.player_at q).profile_id s₁ h₁ apart' in
      let h₃ = send-IsSound _ _ h₂ in
      let h₄ = if-IsSound _ _ _ (send-IsSound _ _ h₃) h₃ in
      if-IsSound _ _ s (if-IsSound b _ _ (send_friend_status-IsSound q me _ h₄) h₄) h
  | inr stranger ↦ rw (stranger, open_to) (ground (arith, Bool-cases (s.player_at q).logged_in, h))
]

pub open_host_enabled-IsSound :
    (b : Bool) (g : ℕ) (order : List ℕ) (s : Presence)
    → IsSound s
    → IsSound (open_host_enabled b g order s)
unfolding open_host_enabled
open_host_enabled-IsSound b g [] s h = h
open_host_enabled-IsSound b g (q ∷ order) s h =
    open_host_enabled-IsSound b g order (open_to b g q s) (open_to-IsSound b g q s h)

pub send_statuses-IsSound :
    (g : ℕ) (list : List ℕ) (s : Presence) → IsSound s → IsSound (send_statuses g list s)
unfolding send_statuses
send_statuses-IsSound g [] s h = h
send_statuses-IsSound g (id ∷ list) s h =
    send_statuses-IsSound g list (send_friend_status g id s) (send_friend_status-IsSound g id s h)

-- ===== src/Gpcm/Kept.antt =====
-- gpcm/friend.go: each handler keeps the friend lists sound.
use wfc_server.Prelude.{
  ℕ, ◌≡◌, ◌≢◌, refl, inl, inr, Bool, true, false, not, some, if◌then◌else◌, Bool-cases,
  Option-cases, arith,
}
use wfc_server.Prelude.NatMap.{lookup}
use wfc_server.Gpcm.{Sent, Presence, set_player, send, online}
use wfc_server.Gpcm.FriendLists.{
  is_listed, is_friend_authorized, unauthorize, authorize, record_status_sent, is_blocked,
}
use wfc_server.Gpcm.Friends.{
  give_status, send_friend_status, take_status, exchange_friend_status, add_to_list, drop_from_list,
}
use wfc_server.Gpcm.Sound.{
  IsSoundSession, IsSound, set_player-IsSound, unauthorize-IsSoundSession,
  drop_from_list-IsSoundSession, authorize-IsSoundSession, add_to_list-IsSoundSession,
  record_status_sent-IsSoundSession,
}

pub send-IsSound : (e : Sent) (s : Presence) → IsSound s → IsSound (send e s)
unfolding IsSound send
send-IsSound e s h = h

pub if-IsSound :
    (b : Bool) (s s' : Presence) → IsSound s → IsSound s' → IsSound (if b then s else s')
if-IsSound true s s' h k = h
if-IsSound false s s' h k = k

pub IsSound-session : (s : Presence) (r : ℕ) → IsSound s → IsSoundSession (s.player_at r)
unfolding IsSound
IsSound-session s r (keyed, all) = all r

-- A session of another ID is another session.
pub IsSound-online :
    (id q : ℕ) (s : Presence) → IsSound s → online id s ≡ some q → (s.player_at q).profile_id ≡ id
unfolding IsSound online
IsSound-online id q s (keyed, all) e = elim (Option-cases (lookup id s.players)) [
  | inl out ↦ ground arith
  | inr (r, found) ↦ ground (arith, keyed id r found, Bool-cases (s.player_at r).logged_in)
]

-- A change of a session that keeps its ID and its soundness.
module _ (g id : ℕ) (s : Presence) (h : IsSound s) where
  record_status_sent-IsSound : IsSound (set_player g (record_status_sent id) s)
  unfolding record_status_sent
  record_status_sent-IsSound =
      set_player-IsSound g (record_status_sent id) s
        (ground (arith, Bool-cases (is_listed id (s.player_at g).recv_status_from_list)))
        (record_status_sent-IsSoundSession id (s.player_at g) (IsSound-session s g h)) h

  pub unauthorize-IsSound : IsSound (set_player g (unauthorize id) s)
  unfolding unauthorize
  unauthorize-IsSound =
      set_player-IsSound g (unauthorize id) s refl
        (unauthorize-IsSoundSession id (s.player_at g) (IsSound-session s g h)) h

  pub drop_from_list-IsSound : IsSound (set_player g (drop_from_list id) s)
  unfolding drop_from_list
  drop_from_list-IsSound =
      set_player-IsSound g (drop_from_list id) s refl
        (drop_from_list-IsSoundSession id (s.player_at g) (IsSound-session s g h)) h

  pub authorize-IsSound : id ≢ (s.player_at g).profile_id → IsSound (set_player g (authorize id) s)
  unfolding authorize
  authorize-IsSound other =
      set_player-IsSound g (authorize id) s refl
        (authorize-IsSoundSession id (s.player_at g) other (IsSound-session s g h)) h

  pub add_to_list-IsSound :
      id ≢ (s.player_at g).profile_id → IsSound (set_player g (add_to_list id) s)
  unfolding add_to_list
  add_to_list-IsSound other =
      set_player-IsSound g (add_to_list id) s
        (ground (arith, Bool-cases (is_listed id (s.player_at g).friend_list)))
        (add_to_list-IsSoundSession id (s.player_at g) other (IsSound-session s g h)) h

give_status-IsSound : (from to : ℕ) (s : Presence) → IsSound s → IsSound (give_status from to s)
unfolding give_status
give_status-IsSound from to s h =
    if-IsSound (is_blocked (s.player_at to) (s.player_at from)) s _ h (
      send-IsSound _ (set_player to (record_status_sent (s.player_at from).profile_id) s)
        (record_status_sent-IsSound to (s.player_at from).profile_id s h))

pub send_friend_status-IsSound :
    (g id : ℕ) (s : Presence) → IsSound s → IsSound (send_friend_status g id s)
unfolding send_friend_status
send_friend_status-IsSound g id s h = elim (Option-cases (online id s)) [
  | inl away ↦ rw (away, send_friend_status) (if-IsSound _ s s h h)
  | inr (q, e) ↦
      let given = if-IsSound _ _ s (give_status-IsSound g q s h) h in
      rw (e, send_friend_status) (if-IsSound (not (is_friend_authorized g id s)) s _ h given)
]

take_status-IsSound : (g id q : ℕ) (s : Presence) → IsSound s → IsSound (take_status g id q s)
unfolding take_status
take_status-IsSound g id q s h =
    if-IsSound _ _ s
      (if-IsSound (is_blocked (s.player_at g) (s.player_at q)) s _ h (
        send-IsSound _ (set_player g (record_status_sent id) s)
          (record_status_sent-IsSound g id s h)))
      h

pub exchange_friend_status-IsSound :
    (g id : ℕ) (s : Presence) → IsSound s → IsSound (exchange_friend_status g id s)
unfolding exchange_friend_status
exchange_friend_status-IsSound g id s h = elim (Option-cases (online id s)) [
  | inl away ↦ rw (away, exchange_friend_status) h
  | inr (q, e) ↦
      rw (e, exchange_friend_status)
        (if-IsSound _ _ _
          (if-IsSound (is_blocked (s.player_at q) (s.player_at g)) s _ h
            (take_status-IsSound g id q (give_status g q s) (give_status-IsSound g q s h)))
          (take_status-IsSound g id q s h))
]

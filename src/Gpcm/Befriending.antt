-- ===== src/Gpcm/Befriending.antt =====
-- addFriend of gpcm/friend.go: who authorises whom after it.
use wfc_server.Prelude.{
  ℕ, ◌+◌, ◌≡◌, ◌≢◌, refl, ap, ◌∙◌, inl, inr, Bool, true, false, not, ◌&&◌, ◌||◌, Option, none, some,
  List, [], ◌∷◌, ◌++◌, ◌==◌, if◌then◌else◌, Bool-cases, Option-cases, arith,
}
use wfc_server.Prelude.Text.{codes, text_eq}
use wfc_server.Prelude.NatMap.{lookup}
use wfc_server.Prelude.TextMap.{write}
use wfc_server.Gpcm.{Sent, Presence, set_player, send, online}
use wfc_server.Gpcm.FriendLists.{
  is_listed, is_friend_added, is_friend_authorized, authorize, record_status_sent, is_blocked,
  bm1_auth_message,
}
use wfc_server.Gpcm.Friends.{
  is_bm1_auth_message_needed, give_status, send_friend_status, greet, befriend, add_to_list,
  add_locked,
}
use wfc_server.Gpcm.Counts.{count_of, same}

-- Sending changes no list of friends.
abbrev pub HasSameLists : Presence → Presence → Type 0
HasSameLists s s' =
    (r : ℕ)
    → ((s'.player_at r).auth_friend_list ≡ (s.player_at r).auth_friend_list)
      × ((s'.player_at r).friend_list ≡ (s.player_at r).friend_list)

pub HasSameLists-trans :
    (s₁ s₂ s₃ : Presence) → HasSameLists s₁ s₂ → HasSameLists s₂ s₃ → HasSameLists s₁ s₃
HasSameLists-trans s₁ s₂ s₃ h k r = let (a, b) = h r in let (c, d) = k r in (c ∙ a, d ∙ b)

pub HasSameLists-if :
    (b : Bool) (s s₁ s₂ : Presence)
    → HasSameLists s s₁
    → HasSameLists s s₂
    → HasSameLists s (if b then s₁ else s₂)
HasSameLists-if true s s₁ s₂ h k = h
HasSameLists-if false s s₁ s₂ h k = k

give_status-HasSameLists : (from to : ℕ) (s : Presence) → HasSameLists s (give_status from to s)
unfolding give_status record_status_sent set_player send write
give_status-HasSameLists from to s r =
    let sender = (s.player_at from).profile_id in
    (
      ground (
        arith,
        Bool-cases (is_blocked (s.player_at to) (s.player_at from)),
        Bool-cases (is_listed sender (s.player_at to).recv_status_from_list),
        Bool-cases (to == r),
      ),
      ground (
        arith,
        Bool-cases (is_blocked (s.player_at to) (s.player_at from)),
        Bool-cases (is_listed sender (s.player_at to).recv_status_from_list),
        Bool-cases (to == r),
      ),
    )

pub send_friend_status-HasSameLists :
    (g profile_id : ℕ) (s : Presence) → HasSameLists s (send_friend_status g profile_id s)
unfolding send_friend_status
send_friend_status-HasSameLists g profile_id s r = elim (Option-cases (online profile_id s)) [
  | inl away ↦ (ground arith, ground arith)
  | inr (q, e) ↦
      let (a, f) = give_status-HasSameLists g q s r in
      (
        ground (
          arith,
          Bool-cases (is_friend_authorized g profile_id s),
          Bool-cases (is_friend_added q (s.player_at g).profile_id s),
        ),
        ground (
          arith,
          Bool-cases (is_friend_authorized g profile_id s),
          Bool-cases (is_friend_added q (s.player_at g).profile_id s),
        ),
      )
]

HasSameLists-from :
    (s s' s'' : Presence) → s'.player_at ≡ s.player_at → HasSameLists s' s'' → HasSameLists s s''
HasSameLists-from s s' s'' e h r =
    let (a, b) = h r in (a ∙ ap (λ m. (m r).auth_friend_list) e, b ∙ ap (λ m. (m r).friend_list) e)

if-player_at :
    (b : Bool) (s s₁ s₂ : Presence)
    → s₁.player_at ≡ s.player_at
    → s₂.player_at ≡ s.player_at
    → (if b then s₁ else s₂).player_at ≡ s.player_at
if-player_at true s s₁ s₂ h k = h
if-player_at false s s₁ s₂ h k = k

greet-HasSameLists : (g q : ℕ) (s : Presence) → HasSameLists s (greet g q s)
unfolding greet send
greet-HasSameLists g q s r =
    let me = (s.player_at g).profile_id in
    let other = (s.player_at q).profile_id in
    let s₁ = send (Sent.buffered g (codes "4") other []) s in
    let s₂ =
      if is_bm1_auth_message_needed (s.player_at g)
      then send (Sent.buffered g (codes "1") other bm1_auth_message) s₁
      else s₁ in
    let s₃ = send (Sent.message q (codes "4") me []) s₂ in
    let s₄ =
      if is_bm1_auth_message_needed (s.player_at q)
      then send (Sent.message q (codes "1") me bm1_auth_message) s₃
      else s₃ in
    let b = is_friend_added q me s && not (s.player_at g).open_host in
    let s₅ = if b then send_friend_status g other s₄ else s₂ in
    let h₂ : s₂.player_at ≡ s.player_at =
      if-player_at (is_bm1_auth_message_needed (s.player_at g)) s _ s₁ refl refl in
    let h₄ : s₄.player_at ≡ s.player_at =
      if-player_at (is_bm1_auth_message_needed (s.player_at q)) s _ s₃ h₂ h₂ in
    let h₅ =
      HasSameLists-if b s (send_friend_status g other s₄) s₂
        (HasSameLists-from s s₄ (send_friend_status g other s₄) h₄
          (send_friend_status-HasSameLists g other s₄))
        (HasSameLists-from s s₂ s₂ h₂ (λ x. (refl, refl))) in
    HasSameLists-trans s s₅ (send_friend_status q me s₅) h₅
      (send_friend_status-HasSameLists q me s₅) r

-- When addFriend makes two players friends: the other one is logged in, plays the same game, hosts
-- openly or has added the player, and is not authorised yet.
abbrev pub befriends : ℕ → ℕ → Option ℕ → Presence → Bool
befriends g new_profile_id none s = false
befriends g new_profile_id (some q) s =
    text_eq (s.player_at q).game_name (s.player_at g).game_name
    && ((s.player_at q).open_host || is_friend_added q (s.player_at g).profile_id s)
    && not (is_friend_authorized g new_profile_id s)

-- How often an ID more stands in the list of a session.
abbrev gain : ℕ → ℕ → ℕ → ℕ → ℕ
gain owner id r p = if owner == r then same id p else 0

pub count_of-append :
    (p id : ℕ) (xs : List ℕ) → count_of p (xs ++ id ∷ []) ≡ count_of p xs + same id p
unfolding count_of
count_of-append p id [] = omega arith
count_of-append p id (x ∷ xs) = omega (arith, count_of-append p id xs)

authorize-count_of :
    (owner id r p : ℕ) (s : Presence)
    → count_of p ((set_player owner (authorize id) s).player_at r).auth_friend_list
      ≡ count_of p (s.player_at r).auth_friend_list + gain owner id r p
unfolding set_player write authorize
authorize-count_of owner id r p s = elim (Bool-cases (owner == r)) [
  | inl own ↦ ground (arith, count_of-append p id (s.player_at owner).auth_friend_list)
  | inr other ↦ ground arith
]

add_to_list_player :
    (g new r : ℕ) (s : Presence)
    → let s' = set_player g (add_to_list new) s in
      ((s'.player_at r).auth_friend_list ≡ (s.player_at r).auth_friend_list)
      × ((s'.player_at r).profile_id ≡ (s.player_at r).profile_id)
      × ((s'.player_at r).game_name ≡ (s.player_at r).game_name)
      × ((s'.player_at r).open_host ≡ (s.player_at r).open_host)
      × ((s'.player_at r).logged_in ≡ (s.player_at r).logged_in)
unfolding set_player write add_to_list
add_to_list_player g new r s =
    let listed = Bool-cases (is_listed new (s.player_at g).friend_list) in
    (
      ground (arith, listed, Bool-cases (g == r)),
      ground (arith, listed, Bool-cases (g == r)),
      ground (arith, listed, Bool-cases (g == r)),
      ground (arith, listed, Bool-cases (g == r)),
      ground (arith, listed, Bool-cases (g == r)),
    )

add_to_list-online :
    (g new id : ℕ) (s : Presence) → online id (set_player g (add_to_list new) s) ≡ online id s
unfolding online set_player write add_to_list
add_to_list-online g new id s = ground (arith, Option-cases (lookup id s.players))

befriend-count_of :
    (g q new r p : ℕ) (authorized : Bool) (s : Presence)
    → count_of p ((befriend g q new authorized s).player_at r).auth_friend_list
      ≡ count_of p (s.player_at r).auth_friend_list
        + (if authorized then 0 else gain g new r p + gain q (s.player_at g).profile_id r p)
unfolding befriend
befriend-count_of g q new r p true s =
    omega (arith, ap (count_of p) ((greet-HasSameLists g q s r).0))
befriend-count_of g q new r p false s =
    let me = (s.player_at g).profile_id in
    let s₁ = set_player g (authorize new) s in
    let s₂ = set_player q (authorize me) s₁ in
    omega (
      arith,
      ap (count_of p) ((greet-HasSameLists g q s₂ r).0),
      authorize-count_of g new r p s,
      authorize-count_of q me r p s₁,
    )

add_to_list_other :
    (g new q : ℕ) (s : Presence)
    → q ≢ g
    → (set_player g (add_to_list new) s).player_at q ≡ s.player_at q
unfolding set_player write
add_to_list_other g new q s apart = ground arith

online_apart :
    (g id q : ℕ) (s : Presence) → lookup id s.players ≢ some g → online id s ≡ some q → q ≢ g
unfolding online
online_apart g id q s foreign e = ground (arith, Option-cases (lookup id s.players))

-- The links that addFriend is to make: how often more an ID stands in the list of a session.
abbrev pub new_links : ℕ → ℕ → Option ℕ → Presence → ℕ → ℕ → ℕ
new_links g new none s r p = 0
new_links g new (some q) s r p =
    if befriends g new (some q) s then gain g new r p + gain q (s.player_at g).profile_id r p else 0

-- addFriend, from the lock on, for an ID that does not lead to the player's own session: the ID is
-- added to the player's list of authorised friends, and the player's to the list of the session
-- under the ID, exactly when that session is logged in, plays the same game, hosts openly or has
-- added the player, and the ID is not authorised yet; every other list is as before.
pub add_locked-count_of :
    (g new r p : ℕ) (s : Presence)
    → lookup new s.players ≢ some g
    → count_of p ((add_locked g new s).player_at r).auth_friend_list
      ≡ count_of p (s.player_at r).auth_friend_list + new_links g new (online new s) s r p
unfolding add_locked
add_locked-count_of g new r p s foreign =
    let s' = set_player g (add_to_list new) s in
    let lists = (add_to_list_player g new r s).0 in
    let named_g = (add_to_list_player g new g s).1 in
    let game_g = (add_to_list_player g new g s).2 in
    let authorized = is_friend_authorized g new s in
    let kept : count_of p (s'.player_at r).auth_friend_list
        ≡ count_of p (s.player_at r).auth_friend_list =
      ap (count_of p) lists in
    elim (Option-cases (online new s)) [
      | inl away ↦
          let away' = add_to_list-online g new new s ∙ away in
          ground (arith, away', kept, Bool-cases (s.player_at g).open_host, Bool-cases authorized)
      | inr (q, e) ↦
          let same_q = add_to_list_other g new q s (online_apart g new q s foreign e) in
          let e' = add_to_list-online g new new s ∙ e in
          let me' = named_g in
          let same_game = ap (λ x. x.game_name) same_q in
          let same_host = ap (λ x. x.open_host) same_q in
          let same_friends = ap (λ x. x.friend_list) same_q in
          let met = befriend-count_of g q new r p authorized s' in
          ground (
            arith,
            e',
            e,
            kept,
            met,
            game_g,
            Bool-cases (s.player_at g).open_host,
            Bool-cases authorized,
            Bool-cases (text_eq (s.player_at q).game_name (s.player_at g).game_name),
            Bool-cases (s.player_at q).open_host,
            Bool-cases (is_friend_added q (s.player_at g).profile_id s),
          )
    ]

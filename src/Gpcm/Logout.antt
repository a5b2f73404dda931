-- ===== src/Gpcm/Logout.antt =====
-- sendLogoutStatus of gpcm/friend.go: who still lists the player as an authorised friend.
use wfc_server.Prelude.{
  ℕ, zero, suc, ◌+◌, ◌<◌, ◌≤◌, ◌≡◌, ◌≢◌, refl, sym, ap, ◌∙◌, inl, inr, true, false, some, List, [],
  ◌∷◌, ◌++◌, ◌==◌, length, get_elem?, drop, append-nil, Bool-cases, Option-cases, arith,
}
use wfc_server.Prelude.Lists.{get_elem?-some, get_elem?-lt}
use wfc_server.Prelude.NatMap.{lookup}
use wfc_server.Gpcm.{Presence, online}
use wfc_server.Gpcm.FriendLists.{
  is_listed, is_friend_authorized, part_from, logout_loop, send_logout_status, overlay,
}
use wfc_server.Gpcm.Counts.{count_of, is_listed_iff, index_of_first}
use wfc_server.Gpcm.Parting.{
  part_from_player, part_from-players, part_from-profile_id, part_from-logged_in,
  part_from-count_of,
}

-- The session that is logged in under an ID.
abbrev pub IsOnline : ℕ → ℕ → Presence → Type 0
IsOnline id q s = (lookup id s.players ≡ some q) × ((s.player_at q).logged_in ≡ true)

pub IsOnline-online : (id q : ℕ) (s : Presence) → IsOnline id q s → online id s ≡ some q
unfolding online
IsOnline-online id q s (found, here) = ground arith

pub part_from-IsOnline :
    (g id other q : ℕ) (s : Presence) → IsOnline id q s → IsOnline id q (part_from g other s)
part_from-IsOnline g id other q s (found, here) =
    (ap (lookup id) (part_from-players g other s) ∙ found, part_from-logged_in g other q s ∙ here)

-- How often q lists g.
abbrev pub links : ℕ → ℕ → Presence → ℕ
links q g s = count_of (s.player_at g).profile_id (s.player_at q).auth_friend_list

pub part_from-links-le : (g id q : ℕ) (s : Presence) → links q g (part_from g id s) ≤ links q g s
part_from-links-le g id q s =
    rw (part_from-profile_id g id g s)
      (omega (arith, part_from-count_of g id q s (s.player_at g).profile_id))

pub part_from-links :
    (g id q : ℕ) (s : Presence)
    → IsOnline id q s
    → links q g s ≤ 1
    → links q g (part_from g id s) ≡ 0
part_from-links g id q s here once = rw (part_from-profile_id g id g s) (
    ground
      (arith, part_from-count_of g id q s (s.player_at g).profile_id, IsOnline-online id q s here))

logout_loop-links-le :
    (rounds index g q : ℕ) (array : List ℕ) (s : Presence)
    → links q g (logout_loop rounds index g array s) ≤ links q g s
unfolding logout_loop
logout_loop-links-le zero index g q array s = omega arith
logout_loop-links-le (suc rounds) index g q array s = elim (Option-cases (get_elem? array index)) [
  | inl out ↦ ground arith
  | inr (id, e) ↦
      let s' = part_from g id s in
      let array' = overlay (s'.player_at g).auth_friend_list array in
      ground
        (arith, logout_loop-links-le rounds (suc index) g q array' s', part_from-links-le g id q s)
]

-- No ID of the array leads to the player's own session.
abbrev pub IsForeign : ℕ → List ℕ → Presence → Type 0
IsForeign g array s = (id k : ℕ) → get_elem? array k ≡ some id → lookup id s.players ≢ some g

drop-length {ℓ} : {A : Type ℓ} (xs : List A) → drop (length xs) xs ≡ []
drop-length [] = refl
drop-length (x ∷ xs) = drop-length xs

pub overlay_self : (xs : List ℕ) → overlay xs xs ≡ xs
unfolding overlay
overlay_self xs = ap (◌++◌ xs) (drop-length xs) ∙ append-nil xs

pub not_listed : (id : ℕ) (xs : List ℕ) → count_of id xs ≡ 0 → is_listed id xs ≡ false
not_listed id xs h = ground (arith, is_listed_iff id xs, Bool-cases (is_listed id xs))

pub part_from_same :
    (g id : ℕ) (s : Presence)
    → lookup id s.players ≢ some g
    → (part_from g id s).player_at g ≡ s.player_at g
unfolding online
part_from_same g id s foreign =
    part_from_player g id g s ∙ ground (arith, foreign, Option-cases (lookup id s.players))

logout_loop-links :
    (rounds index g id q k : ℕ) (array : List ℕ) (s : Presence)
    → overlay (s.player_at g).auth_friend_list array ≡ array
    → IsForeign g array s
    → IsOnline id q s
    → links q g s ≤ 1
    → get_elem? array k ≡ some id
    → index ≤ k
    → k < index + rounds
    → links q g (logout_loop rounds index g array s) ≡ 0
unfolding logout_loop
logout_loop-links zero index g id q k array s whole foreign here once e low high = ground arith
logout_loop-links (suc rounds) index g id q k array s whole foreign here once e low high =
    let (now, f) = get_elem?-some array index (omega (arith, get_elem?-lt array k id e)) in
    let s' = part_from g now s in
    let own = part_from_same g now s (foreign now index f) in
    let kept : overlay (s'.player_at g).auth_friend_list array ≡ array =
      ap (λ x. overlay x.auth_friend_list array) own ∙ whole in
    elim (Bool-cases (index == k)) [
      | inl reached ↦
          let at_now : now ≡ id = ground arith in
          let gone : links q g (part_from g now s) ≡ 0 =
            rw at_now (part_from-links g id q s here once) in
          ground (
            arith,
            logout_loop-links-le rounds (suc index) g q
                (overlay (s'.player_at g).auth_friend_list array) s',
          )
      | inr before ↦
          let foreign' : IsForeign g array s' =
            λ other j found. rw (part_from-players g now s) (foreign other j found) in
          let gone : links q g (logout_loop rounds (suc index) g array s') ≡ 0 =
            logout_loop-links rounds (suc index) g id q k array s' kept foreign'
              (part_from-IsOnline g id now q s here) (omega (arith, part_from-links-le g now q s)) e
              (ground arith) (omega arith) in
          rw (f, logout_loop) (rw (kept) gone)
    ]

-- What the loop leaves of other IDs and of the sessions.
logout_loop_frame :
    (rounds index g r : ℕ) (array : List ℕ) (s : Presence)
    → (((logout_loop rounds index g array s).player_at r).profile_id ≡ (s.player_at r).profile_id)
      × ((p : ℕ)
          → p ≢ (s.player_at g).profile_id
          → count_of p ((logout_loop rounds index g array s).player_at r).auth_friend_list
            ≡ count_of p (s.player_at r).auth_friend_list)
unfolding logout_loop
logout_loop_frame zero index g r array s = (refl, λ p other. refl)
logout_loop_frame (suc rounds) index g r array s = elim (Option-cases (get_elem? array index)) [
  | inl out ↦ (ground arith, λ p other. ground arith)
  | inr (id, e) ↦
      let s' = part_from g id s in
      let array' = overlay (s'.player_at g).auth_friend_list array in
      let (named, counts) = logout_loop_frame rounds (suc index) g r array' s' in
      (
        rw (e, logout_loop) (named ∙ part_from-profile_id g id r s),
        λ p other. ground (
          arith,
          part_from-profile_id g id g s,
          counts p (λ equal. other (equal ∙ part_from-profile_id g id g s)),
          part_from-count_of g id r s p,
        ),
      )
]

-- When a player logs out whose list of authorised friends leads to no session of the player's own:
-- a session that is logged in under an ID of the list, and that lists the player at most once, does
-- not list the player any more, and what every session says of other IDs stays.
pub send_logout_status-parts :
    (g id q : ℕ) (s : Presence)
    → ((other k : ℕ)
        → get_elem? (s.player_at g).auth_friend_list k ≡ some other
        → lookup other s.players ≢ some g)
    → lookup id s.players ≡ some q
    → (s.player_at q).logged_in ≡ true
    → is_friend_authorized g id s ≡ true
    → count_of (s.player_at g).profile_id (s.player_at q).auth_friend_list ≤ 1
    → (is_friend_authorized q (s.player_at g).profile_id (send_logout_status g s) ≡ false)
      × ((r p : ℕ)
          → p ≢ (s.player_at g).profile_id
          → count_of p ((send_logout_status g s).player_at r).auth_friend_list
            ≡ count_of p (s.player_at r).auth_friend_list)
unfolding send_logout_status
send_logout_status-parts g id q s foreign found here listed once =
    let array = (s.player_at g).auth_friend_list in
    let (k, e, at, within, first) = index_of_first id array ((is_listed_iff id array).0 listed) in
    let gone =
      logout_loop-links (length array) 0 g id q k array s (overlay_self array) foreign (found, here)
        once at (omega arith) (omega arith) in
    let named = (logout_loop_frame (length array) 0 g g array s).0 in
    (
      not_listed _ _ (rw (sym named) gone),
      λ r p other. (logout_loop_frame (length array) 0 g r array s).1 p other,
    )

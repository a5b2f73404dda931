-- ===== src/Gpcm/OpenHost.antt =====
-- openHostDisabled of gpcm/friend.go: whom it leaves in the list that it shortens while it walks
-- along it.
use wfc_server.Prelude.{
  ℕ, zero, suc, ◌+◌, ◌≤◌, ◌≡◌, ◌≢◌, refl, sym, ap, ◌∙◌, inl, inr, true, false, some, List, [], ◌==◌,
  length, get_elem?, Bool-cases, Option-cases, arith,
}
use wfc_server.Prelude.Lists.{get_elem?-some, get_elem?-lt}
use wfc_server.Prelude.NatMap.{lookup}
use wfc_server.Prelude.TextMap.{write}
use wfc_server.Gpcm.{Presence, set_player}
use wfc_server.Gpcm.FriendLists.{
  is_listed, index_of, remove_from_uint32_array, is_friend_added, is_friend_authorized, unauthorize,
  part_from, overlay, disable_loop, open_host_disabled,
}
use wfc_server.Gpcm.Counts.{count_of, is_listed_iff, index_of_first}
use wfc_server.Gpcm.Parting.{part_from-players, part_from-profile_id}
use wfc_server.Gpcm.Logout.{
  IsOnline, links, part_from-IsOnline, part_from-links-le, part_from-links, part_from_same,
  not_listed,
}
use wfc_server.Gpcm.Shrinking.{count_of_zero, drop_all, IsShrunk, IsShrunk-remove}

-- A round of the loop.
abbrev left_by : ℕ → ℕ → Presence → Presence
left_by g id s = part_from g id (set_player g (unauthorize id) s)

module _ (g id : ℕ) (s : Presence) where
  left_by-players : (left_by g id s).players ≡ s.players
  unfolding set_player
  left_by-players = part_from-players g id (set_player g (unauthorize id) s)

  left_by_own :
      lookup id s.players ≢ some g → (left_by g id s).player_at g ≡ unauthorize id (s.player_at g)
  unfolding set_player write
  left_by_own foreign = part_from_same g id (set_player g (unauthorize id) s) foreign ∙ ground arith

  left_by_list :
      lookup id s.players ≢ some g
      → ((left_by g id s).player_at g).auth_friend_list
        ≡ remove_from_uint32_array
            (s.player_at g).auth_friend_list
            (index_of id (s.player_at g).auth_friend_list)
  unfolding unauthorize
  left_by_list foreign = ap (λ x. x.auth_friend_list) (left_by_own foreign)

  left_by-profile_id : ((left_by g id s).player_at g).profile_id ≡ (s.player_at g).profile_id
  unfolding set_player write unauthorize
  left_by-profile_id = part_from-profile_id g id g (set_player g (unauthorize id) s) ∙ ground arith

  left_by_other : (q : ℕ) → q ≢ g → (set_player g (unauthorize id) s).player_at q ≡ s.player_at q
  unfolding set_player write
  left_by_other q apart = ground arith

-- What holds while the loop runs: none of the array's IDs is a mutual friend or the player.
abbrev IsOneSided : ℕ → List ℕ → Presence → Type 0
IsOneSided g original s =
    (k id : ℕ)
    → get_elem? original k ≡ some id
    → (is_friend_added g id s ≡ false) × (lookup id s.players ≢ some g)

left_by-IsOneSided :
    (g id : ℕ) (original : List ℕ) (s : Presence)
    → lookup id s.players ≢ some g
    → IsOneSided g original s
    → IsOneSided g original (left_by g id s)
unfolding unauthorize
left_by-IsOneSided g id original s foreign one_sided k other e =
    let (stranger, elsewhere) = one_sided k other e in
    (
      ap (λ x. is_listed other x.friend_list) (left_by_own g id s foreign) ∙ stranger,
      λ found. elsewhere (ap (lookup other) (sym (left_by-players g id s)) ∙ found),
    )

count_of_nil : (id : ℕ) → count_of id [] ≡ 0
unfolding count_of
count_of_nil id = refl

disable_loop-clears :
    (rounds index g : ℕ) (original array : List ℕ) (s : Presence)
    → index + rounds ≡ length original
    → IsShrunk original index array (s.player_at g).auth_friend_list
    → IsOneSided g original s
    → ((disable_loop rounds index g array s).player_at g).auth_friend_list ≡ []
unfolding disable_loop
disable_loop-clears zero index g original array s all shrunk one_sided =
    count_of_zero (s.player_at g).auth_friend_list
      λ id. shrunk.0 id ∙ ap (count_of id) (drop_all index original (omega arith)) ∙ count_of_nil id
disable_loop-clears (suc rounds) index g original array s all shrunk one_sided =
    let (id, at) = get_elem?-some original index (omega arith) in
    let e : get_elem? array index ≡ some id = shrunk.1 index (omega arith) ∙ at in
    let (stranger, foreign) = one_sided index id at in
    let s' = left_by g id s in
    let list = (s'.player_at g).auth_friend_list in
    let shrunk' : IsShrunk original (suc index) (overlay list array) list =
      rw (left_by_list g id s foreign)
        (IsShrunk-remove original array (s.player_at g).auth_friend_list index id shrunk e) in
    let cleared =
      disable_loop-clears rounds (suc index) g original (overlay list array) s' (omega arith)
        shrunk' (left_by-IsOneSided g id original s foreign one_sided) in
    rw (e, stranger, disable_loop) cleared

-- The other sessions.
module _ (g q : ℕ) (apart : q ≢ g) where
  set_player-profile_id :
      (id : ℕ) (s : Presence)
      → ((set_player g (unauthorize id) s).player_at g).profile_id ≡ (s.player_at g).profile_id
  unfolding set_player write unauthorize
  set_player-profile_id id s = ground arith

  set_player-links :
      (id : ℕ) (s : Presence) → links q g (set_player g (unauthorize id) s) ≡ links q g s
  set_player-links id s =
      ap
        (λ x.
          count_of ((set_player g (unauthorize id) s).player_at g).profile_id x.auth_friend_list)
        (left_by_other g id s q apart)
      ∙ ap (λ me. count_of me (s.player_at q).auth_friend_list) (set_player-profile_id id s)

  set_player-IsOnline :
      (id other : ℕ) (s : Presence)
      → IsOnline id q s
      → IsOnline id q (set_player g (unauthorize other) s)
  unfolding set_player
  set_player-IsOnline id other s (found, here) =
      (found, ap (λ x. x.logged_in) (left_by_other g other s q apart) ∙ here)

  left_by-links-le : (id : ℕ) (s : Presence) → links q g (left_by g id s) ≤ links q g s
  left_by-links-le id s =
      omega
        (arith, set_player-links id s, part_from-links-le g id q (set_player g (unauthorize id) s))

  disable_loop-links-le :
      (rounds index : ℕ) (array : List ℕ) (s : Presence)
      → links q g (disable_loop rounds index g array s) ≤ links q g s
  unfolding disable_loop
  disable_loop-links-le zero index array s = omega arith
  disable_loop-links-le (suc rounds) index array s = elim (Option-cases (get_elem? array index)) [
    | inl out ↦ ground arith
    | inr (id, e) ↦
        let s' = left_by g id s in
        let array' = overlay (s'.player_at g).auth_friend_list array in
        ground (
          arith,
          Bool-cases (is_friend_added g id s),
          disable_loop-links-le rounds (suc index) array' s',
          left_by-links-le id s,
        )
  ]

  left_by-links :
      (id : ℕ) (s : Presence) → IsOnline id q s → links q g s ≤ 1 → links q g (left_by g id s) ≡ 0
  left_by-links id s here once =
      part_from-links g id q (set_player g (unauthorize id) s) (set_player-IsOnline id id s here)
        (omega (arith, set_player-links id s))

  disable_loop-links :
      (rounds index id k : ℕ) (original array : List ℕ) (s : Presence)
      → index + rounds ≡ length original
      → IsShrunk original index array (s.player_at g).auth_friend_list
      → IsOneSided g original s
      → IsOnline id q s
      → links q g s ≤ 1
      → get_elem? original k ≡ some id
      → index ≤ k
      → links q g (disable_loop rounds index g array s) ≡ 0
  unfolding disable_loop
  disable_loop-links zero index id k original array s all shrunk one_sided here once at low =
      absurd (omega (arith, get_elem?-lt original k id at))
  disable_loop-links (suc rounds) index id k original array s all shrunk one_sided here once at
        low =
      let (now, found) = get_elem?-some original index (omega arith) in
      let e : get_elem? array index ≡ some now = shrunk.1 index (omega arith) ∙ found in
      let (stranger, foreign) = one_sided index now found in
      let s' = left_by g now s in
      let list = (s'.player_at g).auth_friend_list in
      let rest = disable_loop rounds (suc index) g (overlay list array) s' in
      let gone : links q g rest ≡ 0 = elim (Bool-cases (index == k)) [
        | inl reached ↦
            let at_now : now ≡ id = ground arith in
            let now_gone : links q g s' ≡ 0 = rw at_now (left_by-links id s here once) in
            omega (arith, disable_loop-links-le rounds (suc index) (overlay list array) s')
        | inr before ↦
            disable_loop-links rounds (suc index) id k original (overlay list array) s'
              (omega arith)
              (rw (left_by_list g now s foreign) (
                IsShrunk-remove original array (s.player_at g).auth_friend_list index now shrunk e))
              (left_by-IsOneSided g now original s foreign one_sided)
              (part_from-IsOnline g id now q (set_player g (unauthorize now) s)
                (set_player-IsOnline id now s here))
              (omega (arith, left_by-links-le now s)) at (ground arith)
      ] in
      rw (e, stranger, disable_loop) gone

IsShrunk-start : (list : List ℕ) → IsShrunk list 0 list list
IsShrunk-start list = ((λ x. refl), (λ j low. refl), (λ j low. refl))

disable_loop-profile_id :
    (rounds index g : ℕ) (array : List ℕ) (s : Presence)
    → ((disable_loop rounds index g array s).player_at g).profile_id ≡ (s.player_at g).profile_id
unfolding disable_loop
disable_loop-profile_id zero index g array s = refl
disable_loop-profile_id (suc rounds) index g array s = elim (Option-cases (get_elem? array index)) [
  | inl out ↦ ground arith
  | inr (id, e) ↦
      let s' = left_by g id s in
      let array' = overlay (s'.player_at g).auth_friend_list array in
      ground (
        arith,
        Bool-cases (is_friend_added g id s),
        disable_loop-profile_id rounds (suc index) g array' s',
        left_by-profile_id g id s,
      )
]

-- When none of the authorised friends of a player who closes an open host is one that the player
-- has added, or leads to the player's own session: openHostDisabled empties the player's list, though
-- it shortens the list while it walks along it.
pub open_host_disabled-clears :
    (g : ℕ) (s : Presence)
    → ((k other : ℕ)
        → get_elem? (s.player_at g).auth_friend_list k ≡ some other
        → (is_friend_added g other s ≡ false) × (lookup other s.players ≢ some g))
    → ((open_host_disabled g s).player_at g).auth_friend_list ≡ []
unfolding open_host_disabled
open_host_disabled-clears g s one_sided =
    let list = (s.player_at g).auth_friend_list in
    disable_loop-clears (length list) 0 g list list s (omega arith) (IsShrunk-start list) one_sided

-- When none of the authorised friends of a player who closes an open host is one that the player
-- has added, or leads to the player's own session: a session that is logged in under an ID of the
-- player's list, and that lists the player at most once, does not list the player any more after
-- openHostDisabled.
pub open_host_disabled-parts :
    (g id q : ℕ) (s : Presence)
    → ((k other : ℕ)
        → get_elem? (s.player_at g).auth_friend_list k ≡ some other
        → (is_friend_added g other s ≡ false) × (lookup other s.players ≢ some g))
    → lookup id s.players ≡ some q
    → (s.player_at q).logged_in ≡ true
    → is_friend_authorized g id s ≡ true
    → count_of (s.player_at g).profile_id (s.player_at q).auth_friend_list ≤ 1
    → is_friend_authorized q (s.player_at g).profile_id (open_host_disabled g s) ≡ false
unfolding open_host_disabled
open_host_disabled-parts g id q s one_sided found here listed once =
    let list = (s.player_at g).auth_friend_list in
    let start = IsShrunk-start list in
    let (k, e, at, within, first) = index_of_first id list ((is_listed_iff id list).0 listed) in
    let apart : q ≢ g = λ equal. (one_sided k id at).1 (found ∙ ap some equal) in
    let gone =
      disable_loop-links g q apart (length list) 0 id k list list s (omega arith) start one_sided
        (found, here) once at (omega arith) in
    let named = disable_loop-profile_id (length list) 0 g list s in
    not_listed _ _ (rw (sym named) gone)

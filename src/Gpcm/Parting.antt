-- ===== src/Gpcm/Parting.antt =====
-- sendLogoutStatus and openHostDisabled of gpcm/friend.go: whose lists of authorised friends a
-- player leaves.
use wfc_server.Prelude.{
  ℕ, ◌-◌, ◌≡◌, refl, ap, ◌∙◌, inl, inr, Bool, false, Option, none, some, List, [], ◌∷◌, ◌==◌,
  if◌then◌else◌, Bool-cases, Option-cases, arith,
}
use wfc_server.Prelude.TextMap.{write}
use wfc_server.Gpcm.{GameSpySession, Presence, set_player, send, online}
use wfc_server.Gpcm.FriendLists.{
  is_listed, index_of, remove_from_uint32_array, is_friend_authorized, unauthorize, part_from,
}
use wfc_server.Gpcm.Counts.{count_of, same, is_listed_iff, remove-index_of}

-- An ID that is not in the list: nothing is removed.
pub index_of-none : (id : ℕ) (xs : List ℕ) → is_listed id xs ≡ false → index_of id xs ≡ none
unfolding is_listed index_of
index_of-none id [] h = refl
index_of-none id (x ∷ xs) h = elim (Bool-cases (x == id)) [
  | inl here ↦ ground arith
  | inr there ↦ ground (arith, index_of-none id xs (ground arith))
]

unauthorize-id :
    (id : ℕ) (x : GameSpySession) → is_listed id x.auth_friend_list ≡ false → unauthorize id x ≡ x
unfolding unauthorize remove_from_uint32_array
unauthorize-id id x h = rw (index_of-none id x.auth_friend_list h) refl

never_count :
    (me id : ℕ) (xs : List ℕ)
    → is_listed me xs ≡ false
    → count_of id xs ≡ count_of id xs - same me id
never_count me id xs h = elim (Bool-cases (me == id)) [
  | inl equal ↦
      let none_left : count_of me xs ≡ 0 = ground (arith, is_listed_iff me xs) in
      ground (arith, none_left)
  | inr other ↦ ground arith
]

pub count_of-unauthorize :
    (me id : ℕ) (x : GameSpySession)
    → count_of id (unauthorize me x).auth_friend_list ≡ count_of id x.auth_friend_list - same me id
unfolding unauthorize
count_of-unauthorize me id x = elim (Bool-cases (is_listed me x.auth_friend_list)) [
  | inl listed ↦
      let (i, e, within, first, shorter, counts, later) =
        remove-index_of me x.auth_friend_list ((is_listed_iff me x.auth_friend_list).0 listed) in
      omega (arith, counts id)
  | inr absent ↦
      ap (λ y. count_of id y.auth_friend_list) (unauthorize-id me x absent)
      ∙ never_count me id x.auth_friend_list absent
]

-- A pointer that a look-up led to.
abbrev pub leads_to : Option ℕ → ℕ → Bool
leads_to none r = false
leads_to (some q) r = q == r

-- One round: the session under the ID, if it is logged in, lists the player once less.
pub part_from_player :
    (g id r : ℕ) (s : Presence)
    → (part_from g id s).player_at r ≡ (
        if leads_to (online id s) r
        then unauthorize (s.player_at g).profile_id (s.player_at r)
        else s.player_at r)
unfolding part_from set_player send write
part_from_player g id r s = elim (Option-cases (online id s)) [
  | inl away ↦ rw (away, part_from) refl
  | inr (q, e) ↦
      let me = (s.player_at g).profile_id in
      elim (Bool-cases (is_friend_authorized q me s)) [
        | inl listed ↦ ground (arith, e, listed)
        | inr absent ↦
            let unchanged = unauthorize-id me (s.player_at q) absent in
            ground (arith, e, absent, unchanged)
      ]
]

pub part_from-players : (g id : ℕ) (s : Presence) → (part_from g id s).players ≡ s.players
unfolding part_from set_player send
part_from-players g id s = ground (arith, Option-cases (online id s))

-- What a round leaves of a session that is not the player's own.
module _ (g id r : ℕ) (s : Presence) where
  pub part_from-profile_id :
      ((part_from g id s).player_at r).profile_id ≡ (s.player_at r).profile_id
  unfolding unauthorize
  part_from-profile_id =
      rw (part_from_player g id r s) (ground (arith, Bool-cases (leads_to (online id s) r)))

  pub part_from-logged_in : ((part_from g id s).player_at r).logged_in ≡ (s.player_at r).logged_in
  unfolding unauthorize
  part_from-logged_in =
      rw (part_from_player g id r s) (ground (arith, Bool-cases (leads_to (online id s) r)))

  pub part_from-friend_list :
      ((part_from g id s).player_at r).friend_list ≡ (s.player_at r).friend_list
  unfolding unauthorize
  part_from-friend_list =
      rw (part_from_player g id r s) (ground (arith, Bool-cases (leads_to (online id s) r)))

  pub part_from-count_of :
      (asked : ℕ)
      → count_of asked ((part_from g id s).player_at r).auth_friend_list
        ≡ count_of asked (s.player_at r).auth_friend_list
          - (if leads_to (online id s) r then same (s.player_at g).profile_id asked else 0)
  part_from-count_of asked =
      rw (part_from_player g id r s) (elim (Bool-cases (leads_to (online id s) r)) [
        | inl there ↦
            ground
              (arith, there, count_of-unauthorize (s.player_at g).profile_id asked (s.player_at r))
        | inr elsewhere ↦ ground (arith, elsewhere)
      ])

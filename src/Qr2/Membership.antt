-- ===== src/Qr2/Membership.antt =====
-- qr2/group.go: the players of a group and the group of a player, when one leaves and one joins.
use wfc_server.Prelude.{
  ℕ, suc, ◌≡◌, ◌≢◌, inl, inr, true, false, not, ◌&&◌, some, ◌==◌, if◌then◌else◌, Option-cases,
  Bool-cases, arith,
}
use wfc_server.Prelude.TextMap.{write}
use wfc_server.Prelude.Text.{itoa, codes}
use wfc_server.Qr2.{State, set_session, set_group, set_data, is_at, has, joinindex}
use wfc_server.Qr2.Remove.{remove_from_group}
use wfc_server.Qr2.Departure.{leave-group_pointer, leave-players, has-without}
use wfc_server.Qr2.Groups.{add_player}

-- Every player of a group points at it.
unfoldable pub IsMembership : State → Type 0
IsMembership s =
    (g p : ℕ) → has p (s.group_at g).players ≡ true → (s.session_at p).group_pointer ≡ some g

remove_from_group-group_pointer :
    (p q : ℕ) (s : State)
    → p ≢ q
    → ((remove_from_group p s).session_at q).group_pointer ≡ (s.session_at q).group_pointer
unfolding remove_from_group
remove_from_group-group_pointer p q s n = elim (Option-cases (s.session_at p).group_pointer) [
  | inl alone ↦ ground arith
  | inr (g, e) ↦ ground (arith, leave-group_pointer p g s q)
]

has-remove_from_group :
    (p q h : ℕ) (s : State)
    → has q ((remove_from_group p s).group_at h).players ≡ (
        if is_at (s.session_at p).group_pointer h && p == q
        then false
        else has q (s.group_at h).players)
unfolding remove_from_group is_at
has-remove_from_group p q h s = elim (Option-cases (s.session_at p).group_pointer) [
  | inl alone ↦ ground arith
  | inr (g, e) ↦ ground (arith, leave-players p g s h, has-without p q (s.group_at g).players)
]

-- A session that leaves its group is no player of it, and every player of a group still points at
-- it.
pub remove_from_group-IsMembership :
    (p : ℕ) (s : State) → IsMembership s → IsMembership (remove_from_group p s)
unfolding IsMembership is_at
remove_from_group-IsMembership p s v g q h = elim (Bool-cases (p == q)) [
  | inl same ↦
      ground (
        arith,
        v g q (ground (arith, has-remove_from_group p q g s)),
        has-remove_from_group p q g s,
      )
  | inr other ↦ ground (
    arith,
    v g q (ground (arith, has-remove_from_group p q g s)),
    remove_from_group-group_pointer p q s (ground arith),
  )
]

module _ (version players g destination : ℕ) (s : State) where
  -- The state in which the code asks whether the new player has another group.
  abbrev indexed : State
  indexed =
      let s₁ = set_group g (λ x. record x { last_join_index = suc x.last_join_index }) s in
      let s₂ = set_data destination joinindex (itoa (s₁.group_at g).last_join_index) s₁ in
      if version == 90 then set_data destination (codes "+localplayers") (itoa players) s₂ else s₂

  indexed-group_pointer :
      (r : ℕ) → (indexed.session_at r).group_pointer ≡ (s.session_at r).group_pointer
  unfolding set_group set_data set_session write
  indexed-group_pointer r = ground arith

  indexed-players : (h : ℕ) → (indexed.group_at h).players ≡ (s.group_at h).players
  unfolding set_group set_data set_session write
  indexed-players h = ground arith

  pub add_player-group_pointer :
      (r : ℕ)
      → ((add_player version players g destination s).session_at r).group_pointer
        ≡ (if destination == r then some g else (s.session_at r).group_pointer)
  unfolding add_player set_group set_session write
  add_player-group_pointer r =
      ground (arith, remove_from_group-group_pointer destination r indexed, indexed-group_pointer r)

  pub add_player-players :
      (h q : ℕ)
      → has q ((add_player version players g destination s).group_at h).players ≡ (
          if g == h && destination == q
          then true
          else if is_at (s.session_at destination).group_pointer h
              && not (g == h)
              && destination == q
          then false
          else has q (s.group_at h).players)
  unfolding add_player set_group set_session write is_at has
  add_player-players h q = ground (
    arith,
    has-remove_from_group destination q h indexed,
    indexed-group_pointer destination,
    indexed-players h,
  )

  pub add_player-IsMembership :
      IsMembership s → IsMembership (add_player version players g destination s)
  unfolding IsMembership is_at
  add_player-IsMembership v h q e = elim (Bool-cases (has q (s.group_at h).players)) [
    | inl before ↦ ground (arith, v h q before, add_player-players h q, add_player-group_pointer q)
    | inr new ↦ ground (arith, add_player-players h q, add_player-group_pointer q)
  ]

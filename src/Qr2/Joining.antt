-- ===== src/Qr2/Joining.antt =====
-- processResvOK of qr2/group.go: who is in which group afterwards.
use wfc_server.Prelude.{
  ℕ, ◌≡◌, refl, inl, inr, Bool, true, false, not, Option, none, some, List, [], ◌∷◌, ◌==◌, leb,
  if◌then◌else◌, length, Option-cases, Bool-cases, arith,
}
use wfc_server.Prelude.Words.{Bytes}
use wfc_server.Prelude.TextMap.{write}
use wfc_server.Qr2.{State, set_session, set_group, set_data, has}
use wfc_server.Qr2.Groups.{
  set_conn, create_group, connect_players, free_group_name, process_resv_ok,
}
use wfc_server.Qr2.Membership.{
  IsMembership, add_player-group_pointer, add_player-players, add_player-IsMembership,
}

-- Both sessions are in one group, and it lists the destination.
pub IsTogether : State → ℕ → ℕ → Type 0
IsTogether s sender destination =
    (g : ℕ) × ((s.session_at sender).group_pointer ≡ some g)
    × ((s.session_at destination).group_pointer ≡ some g)
    × (has destination (s.group_at g).players ≡ true)

set_conn-group_pointer :
    (value : Bytes) (p q r : ℕ) (s : State)
    → ((set_conn value p q s).session_at r).group_pointer ≡ (s.session_at r).group_pointer
unfolding set_conn set_data set_session write
set_conn-group_pointer value p q r s = ground arith

set_conn-group_at :
    (value : Bytes) (p q : ℕ) (s : State) → (set_conn value p q s).group_at ≡ s.group_at
unfolding set_conn set_data set_session
set_conn-group_at value p q s = refl

module _ (version group_id players g sender destination : ℕ) (s : State) where
  abbrev marked : State
  marked =
      set_conn (b'1' ∷ []) sender destination
        (set_group g (λ x. record x { group_id = group_id }) s)

  marked-group_pointer :
      (r : ℕ) → (marked.session_at r).group_pointer ≡ (s.session_at r).group_pointer
  unfolding set_group
  marked-group_pointer r = ground (
    arith,
    set_conn-group_pointer (b'1' ∷ []) sender destination r
        (set_group g (λ x. record x { group_id = group_id }) s),
  )

  marked-players : (h : ℕ) → (marked.group_at h).players ≡ (s.group_at h).players
  unfolding set_group write
  marked-players h = ground (
    arith,
    set_conn-group_at (b'1' ∷ []) sender destination
        (set_group g (λ x. record x { group_id = group_id }) s),
  )

  marked-IsMembership : IsMembership s → IsMembership marked
  unfolding IsMembership
  marked-IsMembership v h q e =
      ground (arith, v h q (ground (arith, marked-players h)), marked-group_pointer q)

  connect_players-IsMembership :
      IsMembership s
      → IsMembership (connect_players version group_id players g sender destination s)
  unfolding connect_players
  connect_players-IsMembership v = elim (Bool-cases (has destination (marked.group_at g).players)) [
    | inl here ↦ rw (here, connect_players) (marked-IsMembership v)
    | inr new ↦
        rw (new, connect_players)
          (add_player-IsMembership version players g destination marked (marked-IsMembership v))
  ]

  connect_players-IsTogether :
      IsMembership s
      → (s.session_at sender).group_pointer ≡ some g
      → IsTogether
          (connect_players version group_id players g sender destination s)
          sender
          destination
  unfolding IsMembership IsTogether connect_players
  connect_players-IsTogether v e = elim (Bool-cases (has destination (marked.group_at g).players)) [
    | inl here ↦ (
      g,
      ground (arith, marked-group_pointer sender),
      ground (
        arith,
        v g destination (ground (arith, marked-players g)),
        marked-group_pointer destination,
      ),
      ground arith,
    )
    | inr new ↦ (
      g,
      ground (
        arith,
        marked-group_pointer sender,
        add_player-group_pointer version players g destination marked sender,
      ),
      ground (arith, add_player-group_pointer version players g destination marked destination),
      ground (arith, add_player-players version players g destination marked g destination),
    )
  ]

module _ (version group_id players sender : ℕ) (name : Bytes) (s : State) where
  abbrev created : State
  created = create_group version group_id players sender name s

  created-group_pointer :
      (r : ℕ)
      → (created.session_at r).group_pointer
        ≡ (if sender == r then some s.next else (s.session_at r).group_pointer)
  unfolding create_group set_data set_session write
  created-group_pointer r = ground arith

  created-players :
      (h : ℕ)
      → (created.group_at h).players ≡ (if s.next == h then sender ∷ [] else (s.group_at h).players)
  unfolding create_group set_data set_session write
  created-players h = ground arith

  created-IsMembership :
      (s.session_at sender).group_pointer ≡ none → IsMembership s → IsMembership created
  unfolding IsMembership has
  created-IsMembership alone v h q e = elim (Bool-cases (has q (s.group_at h).players)) [
    | inl before ↦ ground (arith, v h q before, created-players h, created-group_pointer q)
    | inr new ↦ ground (arith, created-players h, created-group_pointer q)
  ]

some-injective :
    (b c : Bool) (t s' : State)
    → ◌≡◌ {A = Option (Bool × State)} (some (b, t)) (some (c, s'))
    → (c ≡ b) × (s' ≡ t)
some-injective b c t s' e = (ground arith, ground arith)

-- When every player of a group points at it, processResvOK, unless random names run out, keeps
-- this so, and where it answers true the sender and the destination are in one group, which lists
-- the destination; it answers true exactly when there are fewer than 100000 groups.
pub process_resv_ok-IsTogether :
    (draws : List Bytes) (version guest_players group_id host_players sender destination : ℕ)
    (s : State) (accepted : Bool) (s' : State)
    → IsMembership s
    → process_resv_ok draws version guest_players group_id host_players sender destination s
      ≡ some (accepted, s')
    → IsMembership s'
      × (accepted ≡ true → IsTogether s' sender destination)
      × (accepted ≡ not (leb 100000 (length s.groups)))
unfolding process_resv_ok
process_resv_ok-IsTogether draws version guest_players group_id host_players sender destination s
      accepted s' v e =
    elim (Bool-cases (leb 100000 (length s.groups))) [
      | inl full ↦
          let (is_false, same) = some-injective false accepted s s' (ground arith) in
          (rw same v, λ h. ground arith, ground arith)
      | inr free ↦ elim (Option-cases (s.session_at sender).group_pointer) [
        | inr (g, found) ↦
            let t = connect_players version group_id guest_players g sender destination s in
            let (is_true, same) = some-injective true accepted t s' (ground arith) in
            (
              rw same (
                  connect_players-IsMembership version group_id guest_players g sender destination s
                    v),
              λ h. rw same (
                  connect_players-IsTogether version group_id guest_players g sender destination s v
                    found),
              ground arith,
            )
        | inl alone ↦ elim (Option-cases (free_group_name draws s.groups)) [
          | inl exhausted ↦ ground arith
          | inr (name, drawn) ↦
              let c = create_group version group_id host_players sender name s in
              let t = connect_players version group_id guest_players s.next sender destination c in
              let (is_true, same) = some-injective true accepted t s' (ground arith) in
              let w = created-IsMembership version group_id host_players sender name s alone v in
              (
                rw same (
                    connect_players-IsMembership version group_id guest_players s.next sender
                      destination c w),
                λ h. rw same (
                    connect_players-IsTogether version group_id guest_players s.next sender
                      destination c w
                      (ground (
                        arith,
                        created-group_pointer version group_id host_players sender name s sender,
                      ))),
                ground arith,
              )
        ]
      ]
    ]

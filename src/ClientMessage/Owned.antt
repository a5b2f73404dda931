-- ===== src/ClientMessage/Owned.antt =====
-- qr2/message.go: what the checks of a command let through.
use wfc_server.Prelude.{
  ℕ, ◌≤◌, ◌≡◌, ◌≢◌, ◌⊎◌, inl, inr, Bool, false, not, ◌&&◌, ◌||◌, some, leb, ◌==◌, leb→le, returns,
  Bool-cases, Option-cases, arith,
}
use wfc_server.Prelude.Text.{codes, text_eq, text_eq_iff}
use wfc_server.MatchCommand.{
  MatchCommandData, MatchCommandDataReservation, MatchCommandDataResvOk, MatchCommandDataTellAddr,
  match_reservation, match_resv_ok, match_tell_addr,
}
use wfc_server.Qr2.{State, data_of}
use wfc_server.ClientMessage.Checks.{
  Header, check_reservation, check_resv_ok, check_tell_addr, check_command,
}

-- The public address of a reservation, where it has one, is the address in the header, and its
-- local port is not a reserved one.
abbrev pub IsOwnedReservation : Header → MatchCommandData → Type 0
IsOwnedReservation h d =
    (r : MatchCommandDataReservation) × (d.reservation ≡ some r)
    × ((r.has_public_ip ≡ false) ⊎ ((h.ip ≡ r.public_ip) × (h.port ≡ r.public_port)))
    × ((h.version ≢ 90) ⊎ (1024 ≤ r.local_port))

-- The same of a RESV_OK, whose profile ID is the one in the header.
abbrev pub IsOwnedResvOk : Header → MatchCommandData → Type 0
IsOwnedResvOk h d =
    (r : MatchCommandDataResvOk) × (d.resv_ok ≡ some r)
    × (h.ip ≡ r.public_ip)
    × (h.port ≡ r.public_port)
    × ((h.version ≢ 90) ⊎ ((1024 ≤ r.local_port) × (r.profile_id ≡ h.profile_id)))

-- A local address is told to a player with the same public IP.
abbrev pub IsOwnedTellAddr : ℕ → ℕ → State → MatchCommandData → Type 0
IsOwnedTellAddr sender receiver s d =
    (r : MatchCommandDataTellAddr) × (d.tell_addr ≡ some r)
    × (1024 ≤ r.local_port)
    × (data_of s sender (codes "publicip") ≡ data_of s receiver (codes "publicip"))

-- What a command says of addresses is true of the session that it comes from.
abbrev pub IsOwned : Header → ℕ → ℕ → State → MatchCommandData → Type 0
IsOwned h sender receiver s d =
    ((h.command ≢ match_reservation) ⊎ IsOwnedReservation h d)
    × ((h.command ≢ match_resv_ok) ⊎ IsOwnedResvOk h d)
    × ((h.command ≢ match_tell_addr) ⊎ IsOwnedTellAddr sender receiver s d)

module _ (b : Bool) (sender receiver : ℕ) (s : State) (h : Header) (d d' : MatchCommandData) where
  check_reservation-IsOwned :
      check_reservation b h.version h.ip h.port (s.session_at sender).search_id d
        ≡ returns (some d')
      → IsOwnedReservation h d
  unfolding check_reservation
  check_reservation-IsOwned e = elim (Option-cases d.reservation) [
    | inl absent ↦ ground arith
    | inr (r, f) ↦
        let address =
          Bool-cases (not r.has_public_ip || (h.ip == r.public_ip && h.port == r.public_port)) in
        let local = Bool-cases (not (h.version == 90) || leb 1024 r.local_port) in
        (
          r,
          f,
          ground (arith, address, Bool-cases r.has_public_ip),
          ground (arith, address, local, leb→le 1024 r.local_port),
        )
  ]

  check_resv_ok-IsOwned :
      check_resv_ok b h.version h.ip h.port (s.session_at sender).search_id h.profile_id d
        ≡ returns (some d')
      → IsOwnedResvOk h d
  unfolding check_resv_ok
  check_resv_ok-IsOwned e = elim (Option-cases d.resv_ok) [
    | inl absent ↦ ground arith
    | inr (r, f) ↦
        let address = Bool-cases (h.ip == r.public_ip && h.port == r.public_port) in
        let local =
          Bool-cases
            (not (h.version == 90) || (leb 1024 r.local_port && r.profile_id == h.profile_id)) in
        (
          r,
          f,
          ground (arith, address),
          ground (arith, address),
          ground (arith, address, local, leb→le 1024 r.local_port),
        )
  ]

  check_tell_addr-IsOwned :
      check_tell_addr sender receiver s d ≡ returns (some d') → IsOwnedTellAddr sender receiver s d
  unfolding check_tell_addr
  check_tell_addr-IsOwned e =
      let ip = data_of s sender (codes "publicip") in
      let ip' = data_of s receiver (codes "publicip") in
      let same = Bool-cases (text_eq ip ip') in
      elim (Option-cases d.tell_addr) [
        | inl absent ↦ ground (arith, same)
        | inr (r, f) ↦ (
          r,
          f,
          ground (arith, same, leb→le 1024 r.local_port),
          ground (arith, same, text_eq_iff ip ip'),
        )
      ]

  -- A command that passes its checks.
  pub check_command-IsOwned :
      check_command b h.command h.version h.ip h.port h.profile_id sender receiver s d
        ≡ returns (some d')
      → IsOwned h sender receiver s d
  unfolding check_command
  check_command-IsOwned e = (
    elim (Bool-cases (h.command == match_reservation)) [
      | inl this ↦ inr (check_reservation-IsOwned (ground arith))
      | inr other ↦ inl (ground arith)
    ],
    elim (Bool-cases (h.command == match_resv_ok)) [
      | inl this ↦ inr (check_resv_ok-IsOwned (ground arith))
      | inr other ↦ inl (ground arith)
    ],
    elim (Bool-cases (h.command == match_tell_addr)) [
      | inl this ↦ inr (check_tell_addr-IsOwned (ground arith))
      | inr other ↦ inl (ground arith)
    ],
  )

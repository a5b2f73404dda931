-- ===== src/Qr2/Restricted.antt =====
-- checkReservationAllowed of qr2/group.go, against an independent statement of who may join.
use wfc_server.Prelude.{
  ℕ, ◌≡◌, ◌⊎◌, inl, inr, ◌↔◌, false, none, some, [], ◌∷◌, Option-cases, Bool-cases, arith,
}
use wfc_server.Prelude.Text.{codes, text_eq_iff}
use wfc_server.Qr2.{State, data_of, dwc_mtype}
use wfc_server.Qr2.Reservation.{Verdict, check_destination, check_reservation_allowed}

-- The way of joining fits: the match type of the host is "2" or "3" where it has no group, and that
-- of its group is the text "private" else.
abbrev pub HasPrivateType : State → ℕ → Type 0
HasPrivateType s destination =
    (((s.session_at destination).group_pointer ≡ none)
      × ((data_of s destination dwc_mtype ≡ b'2' ∷ [])
          ⊎ (data_of s destination dwc_mtype ≡ b'3' ∷ [])))
    ⊎ ((g : ℕ) × ((s.session_at destination).group_pointer ≡ some g)
        × ((s.group_at g).match_type ≡ codes "private"))

check_destination_iff :
    (s : State) (destination : ℕ)
    → (check_destination s destination ≡ Verdict.ok) ↔ HasPrivateType s destination
unfolding check_destination
check_destination_iff s destination = elim (Option-cases (s.session_at destination).group_pointer) [
  | inl alone ↦ ground (
    arith,
    text_eq_iff (data_of s destination dwc_mtype) (b'2' ∷ []),
    text_eq_iff (data_of s destination dwc_mtype) (b'3' ∷ []),
  )
  | inr (g, e) ↦ (
    λ h. inr (g, e, ground (arith, text_eq_iff (s.group_at g).match_type (codes "private"))),
    λ room. elim room [
      | inl alone ↦ ground arith
      | inr (h, found, private) ↦
          ground (arith, text_eq_iff (s.group_at g).match_type (codes "private"))
    ],
  )
]

-- For two sessions that are logged in, a reservation is allowed exactly when neither player is
-- restricted, or the way of joining is 2 or 3 and either the host has no group and has match type "2"
-- or "3", or the host has a group whose match type is the text "private".
pub check_reservation_allowed_iff :
    (sender destination join_type l m : ℕ) (s : State)
    → (s.session_at sender).login ≡ some l
    → (s.session_at destination).login ≡ some m
    → (check_reservation_allowed sender destination join_type s ≡ Verdict.ok) ↔ (
        (((s.login_at l).restricted ≡ false) × ((s.login_at m).restricted ≡ false))
        ⊎ (((join_type ≡ 2) ⊎ (join_type ≡ 3)) × HasPrivateType s destination))
unfolding check_reservation_allowed
check_reservation_allowed_iff sender destination join_type l m s e f =
    let (to_room, from_room) = check_destination_iff s destination in
    (
      λ h. elim (Bool-cases (s.login_at l).restricted) [
        | inl strict ↦ inr (ground arith, to_room (ground arith))
        | inr free ↦ elim (Bool-cases (s.login_at m).restricted) [
          | inl strict ↦ inr (ground arith, to_room (ground arith))
          | inr free' ↦ inl (free, free')
        ]
      ],
      λ h. elim h [ inl free ↦ ground arith | inr (kind, room) ↦ ground (arith, from_room room) ],
    )

-- ===== src/Qr2/Linked.antt =====
-- The pointers between logins and sessions, over the operations of qr2/session.go and
-- qr2/logins.go that change them.
use wfc_server.Prelude.{
  ℕ, ◌≡◌, ◌≢◌, inl, inr, some, ◌==◌, returns, Option-cases, Outcome-cases, Bool-cases, arith,
}
use wfc_server.Prelude.NatMap.{lookup}
use wfc_server.Prelude.TextMap.{write}
use wfc_server.IpAddress.{make_lookup_addr, addr_string}
use wfc_server.Qr2.{State, LoginInfo, set_session, set_login}
use wfc_server.Qr2.Remove.{
  remove_from_group, unlink_login, remove_session, remove_session_of, login, logout, logout_session,
}
use wfc_server.Qr2.Departure.{leave-login_at, leave-login}

-- The session of a login has that login.
unfoldable pub IsLinked : State → Type 0
IsLinked s = (l p : ℕ) → (s.login_at l).session ≡ some p → (s.session_at p).login ≡ some l

module _ (p : ℕ) (s : State) where
  login-remove_from_group :
      (q : ℕ) → ((remove_from_group p s).session_at q).login ≡ (s.session_at q).login
  unfolding remove_from_group
  login-remove_from_group q = elim (Option-cases (s.session_at p).group_pointer) [
    | inl alone ↦ ground arith
    | inr (g, e) ↦ ground (arith, leave-login p g s q)
  ]

  login_at-remove_from_group : (remove_from_group p s).login_at ≡ s.login_at
  unfolding remove_from_group
  login_at-remove_from_group = elim (Option-cases (s.session_at p).group_pointer) [
    | inl alone ↦ ground arith
    | inr (g, e) ↦ ground (arith, leave-login_at p g s)
  ]

  pub remove_from_group-IsLinked : IsLinked s → IsLinked (remove_from_group p s)
  unfolding IsLinked
  remove_from_group-IsLinked v l q e = ground (
    arith,
    login-remove_from_group q,
    login_at-remove_from_group,
    v l q (ground (arith, login_at-remove_from_group)),
  )

  unlink_login-IsLinked : IsLinked s → IsLinked (unlink_login p s)
  unfolding IsLinked unlink_login set_session set_login write
  unlink_login-IsLinked v k q e = elim (Option-cases (s.session_at p).login) [
    | inl free ↦ ground (arith, v k q (ground arith))
    | inr (l, held) ↦ elim (Bool-cases (l == k)) [
      | inl same ↦ ground arith
      | inr other ↦ ground (arith, v k q (ground arith))
    ]
  ]

pub remove_session-IsLinked : (addr : ℕ) (s : State) → IsLinked s → IsLinked (remove_session addr s)
unfolding IsLinked remove_session
remove_session-IsLinked addr s v l q e = elim (Option-cases (lookup addr s.sessions)) [
  | inl absent ↦ ground (arith, v l q (ground arith))
  | inr (p, found) ↦ ground (
    arith,
    unlink_login-IsLinked p (remove_from_group p s) (remove_from_group-IsLinked p s v) l q
        (ground arith),
  )
]

pub login-remove_session :
    (addr q : ℕ) (s : State)
    → lookup addr s.sessions ≢ some q
    → ((remove_session addr s).session_at q).login ≡ (s.session_at q).login
unfolding remove_session unlink_login set_session set_login write
login-remove_session addr q s n = elim (Option-cases (lookup addr s.sessions)) [
  | inl absent ↦ ground arith
  | inr (p, found) ↦ ground (arith, login-remove_from_group p s q)
]

pub logout-IsLinked :
    (profile_id : ℕ) (s s' : State) → logout profile_id s ≡ returns s' → IsLinked s → IsLinked s'
unfolding IsLinked logout logout_session remove_session_of
logout-IsLinked profile_id s s' e v k q h = elim (Option-cases (lookup profile_id s.logins)) [
  | inl absent ↦ ground (arith, v k q (ground arith))
  | inr (l, found) ↦ elim (Option-cases (s.login_at l).session) [
    | inl idle ↦ ground (arith, v k q (ground arith))
    | inr (p, held) ↦ elim (Outcome-cases (make_lookup_addr (addr_string (s.session_at p).addr))) [
      | inl stuck ↦ ground arith
      | inr (addr, at_addr) ↦ ground (arith, remove_session-IsLinked addr s v k q (ground arith))
    ]
  ]
]

pub login-IsLinked :
    (profile_id : ℕ) (info : LoginInfo) (s : State)
    → IsLinked s
    → IsLinked (login profile_id info s)
unfolding IsLinked login write
login-IsLinked profile_id info s v k q h = elim (Bool-cases (s.next == k)) [
  | inl new ↦ ground arith
  | inr old ↦ ground (arith, v k q (ground arith))
]

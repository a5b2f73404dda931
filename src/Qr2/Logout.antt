-- ===== src/Qr2/Logout.antt =====
-- Login and Logout of qr2/logins.go: which sessions a log-out ends.
use wfc_server.Prelude.{ℕ, ◌≡◌, ◌≢◌, none, some, returns, arith}
use wfc_server.Prelude.NatMap.{lookup, delete, lookup-delete, lookup-insert}
use wfc_server.Prelude.TextMap.{write}
use wfc_server.IpAddress.{make_lookup_addr, addr_string}
use wfc_server.Qr2.{State, LoginInfo}
use wfc_server.Qr2.Remove.{login, logout, logout_session, remove_session_of, remove_session}
use wfc_server.Qr2.Removal.{remove_session-unlinks}

-- Logout of a profile whose login l has the session p, which the table of sessions finds at the
-- session's own address: it returns, the profile is not logged in any more, the address finds no
-- session, the session has no login and no group, and the sessions at other addresses stay.
pub logout-ends_session :
    (profile_id l p addr : ℕ) (s : State)
    → lookup profile_id s.logins ≡ some l
    → (s.login_at l).session ≡ some p
    → make_lookup_addr (addr_string (s.session_at p).addr) ≡ returns addr
    → lookup addr s.sessions ≡ some p
    → (s' : State) × (logout profile_id s ≡ returns s')
      × (lookup profile_id s'.logins ≡ none)
      × (lookup addr s'.sessions ≡ none)
      × ((s'.session_at p).login ≡ none)
      × ((s'.session_at p).group_pointer ≡ none)
      × ((a : ℕ) → addr ≢ a → lookup a s'.sessions ≡ lookup a s.sessions)
unfolding logout logout_session remove_session_of
logout-ends_session profile_id l p addr s h₁ h₂ h₃ h₄ =
    let s₁ = remove_session addr s in
    let (gone, search, group, unlinked, login', members, others) =
      remove_session-unlinks addr p s h₄ in
    (
      record s₁ { logins = delete profile_id s₁.logins },
      ground arith,
      ground (arith, lookup-delete profile_id profile_id s₁.logins),
      gone,
      unlinked,
      group,
      others,
    )

-- A log-out that follows a second log-in of the same profile returns, and every session stays in
-- the table and in memory as it was before that log-in.
pub logout-login :
    (profile_id : ℕ) (info : LoginInfo) (s : State)
    → (s' : State) × (logout profile_id (login profile_id info s) ≡ returns s')
      × (s'.sessions ≡ s.sessions)
      × (s'.session_at ≡ s.session_at)
      × (lookup profile_id s'.logins ≡ none)
unfolding login logout logout_session write
logout-login profile_id info s =
    let t = login profile_id info s in
    (
      record t { logins = delete profile_id t.logins },
      ground (arith, lookup-insert profile_id profile_id s.next s.logins),
      ground arith,
      ground arith,
      ground (arith, lookup-delete profile_id profile_id t.logins),
    )

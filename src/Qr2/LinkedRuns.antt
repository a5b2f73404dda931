-- ===== src/Qr2/LinkedRuns.antt =====
-- The pointers between logins and sessions, over any run of the operations of qr2/session.go and
-- qr2/logins.go that change them.
use wfc_server.Prelude.{
  ℕ, ◌≡◌, ◌≢◌, inl, inr, Bool, none, some, [], ◌==◌, if◌then◌else◌, returns, Option-cases,
  Outcome-cases, Bool-cases, arith,
}
use wfc_server.Prelude.Words.{Bytes}
use wfc_server.Prelude.NatMap.{lookup}
use wfc_server.Prelude.TextMap.{write}
use wfc_server.IpAddress.{make_lookup_addr, addr_string}
use wfc_server.Qr2.{State, LoginInfo, set_session, set_login}
use wfc_server.Qr2.Remove.{remove_from_group, remove_session, remove_session_of, login, logout}
use wfc_server.Qr2.{set_data, dwc_pid}
use wfc_server.Prelude.{not, ◌&&◌}
use wfc_server.Prelude.Text.{text_eq, codes}
use wfc_server.Prelude.TextMap.{field}
use wfc_server.IpAddress.{host_of}
use wfc_server.Qr2.Profile.{
  remove_outdated, open_profile, claim_profile, set_profile_id, parse_pid, check_valid_rating,
}
use wfc_server.Qr2.Claim.{opened, open_profile-returns}
use wfc_server.Qr2.Linked.{
  IsLinked, remove_session-IsLinked, logout-IsLinked, login-IsLinked, login-remove_session,
  remove_from_group-IsLinked,
}

-- The address of a session that a login has does not find the session p.
unfoldable pub IsElsewhere : ℕ → State → Type 0
IsElsewhere p s =
    (l old addr : ℕ)
    → (s.login_at l).session ≡ some old
    → make_lookup_addr (addr_string (s.session_at old).addr) ≡ returns addr
    → lookup addr s.sessions ≢ some p

module _ (p l : ℕ) (new_pid ip : Bytes) (s : State) where
  opened-login_at :
      (k : ℕ)
      → ((opened p l new_pid ip s).login_at k).session
        ≡ (if l == k then some p else (s.login_at k).session)
  unfolding set_data set_session set_login write
  opened-login_at k = ground arith

  opened-login : (q : ℕ) → ((opened p l new_pid ip s).session_at q).login ≡ (s.session_at q).login
  unfolding set_data set_session set_login write
  opened-login q = ground arith

  opened-IsLinked :
      IsLinked s → (s.session_at p).login ≡ some l → IsLinked (opened p l new_pid ip s)
  unfolding IsLinked
  opened-IsLinked v held k q e = elim (Bool-cases (l == k)) [
    | inl same ↦ ground (arith, opened-login q, opened-login_at k)
    | inr other ↦ ground (arith, opened-login q, v k q (ground (arith, opened-login_at k)))
  ]

module _ (p l : ℕ) (s : State) (free : (s.session_at p).login ≡ none) (v : IsLinked s) where
  abbrev claiming : State
  claiming = set_session p (λ x. record x { login = some l }) s

  claiming-IsLinked : IsLinked claiming
  unfolding IsLinked set_session write
  claiming-IsLinked k q e = ground (arith, v k q (ground arith))

  remove_outdated-IsLinked :
      (t : State)
      → IsElsewhere p s
      → remove_outdated (claiming.login_at l).session claiming ≡ returns t
      → IsLinked t × ((t.session_at p).login ≡ some l)
  unfolding remove_outdated remove_session_of set_session IsElsewhere write
  remove_outdated-IsLinked t elsewhere e = elim (Option-cases (s.login_at l).session) [
    | inl first ↦
        let same : t ≡ claiming = ground arith in (rw same claiming-IsLinked, ground arith)
    | inr (old, held) ↦
        elim (Outcome-cases (make_lookup_addr (addr_string (s.session_at old).addr))) [
          | inl stuck ↦ ground arith
          | inr (addr, at_addr) ↦
              let same : t ≡ remove_session addr claiming = ground arith in
              (
                rw same (remove_session-IsLinked addr claiming claiming-IsLinked),
                ground (
                  arith,
                  login-remove_session addr p claiming (elsewhere l old addr held at_addr),
                ),
              )
        ]
  ]

open_profile-IsLinked :
    (p l : ℕ) (new_pid : Bytes) (s s' : State) (valid : Bool)
    → (s.session_at p).login ≡ none
    → IsElsewhere p s
    → open_profile p l new_pid s ≡ returns (valid, s')
    → IsLinked s
    → IsLinked s'
open_profile-IsLinked p l new_pid s s' valid free elsewhere e v =
    let (s₂, ip, removed, ended) = open_profile-returns p l new_pid s s' valid e in
    let (w, held) = remove_outdated-IsLinked p l s free v s₂ elsewhere removed in
    rw ended (opened-IsLinked p l new_pid ip s₂ w held)

claim_profile-IsLinked :
    (p : ℕ) (new_pid gpcm_ip : Bytes) (s s' : State) (valid : Bool)
    → (s.session_at p).login ≡ none
    → IsElsewhere p s
    → claim_profile p new_pid gpcm_ip s ≡ returns (valid, s')
    → IsLinked s
    → IsLinked s'
unfolding IsLinked claim_profile
claim_profile-IsLinked p new_pid gpcm_ip s s' valid free elsewhere e v k q h =
    elim (Option-cases (parse_pid new_pid)) [
      | inl invalid ↦ ground (arith, v k q (ground arith))
      | inr (profile_id, parsed) ↦ elim (Option-cases (lookup profile_id s.logins)) [
        | inl absent ↦ ground (arith, v k q (ground arith))
        | inr (l, found) ↦
            let mismatch =
              not (text_eq gpcm_ip [])
              && not (text_eq gpcm_ip (host_of (s.login_at l).gp_public_ip)) in
            let unrated = not (text_eq (check_valid_rating (s.session_at p).fields) (codes "ok")) in
            elim (Bool-cases mismatch) [
              | inl refused ↦ ground (arith, v k q (ground arith))
              | inr at_home ↦ elim (Bool-cases unrated) [
                | inl refused ↦ ground (arith, v k q (ground arith))
                | inr rated ↦
                    open_profile-IsLinked p l new_pid s s' valid free elsewhere (ground arith) v k q
                      h
              ]
            ]
      ]
    ]

set_profile_id-IsLinked :
    (p : ℕ) (new_pid gpcm_ip : Bytes) (s s' : State) (valid : Bool)
    → (s.session_at p).login ≡ none
    → IsElsewhere p s
    → set_profile_id p new_pid gpcm_ip s ≡ returns (valid, s')
    → IsLinked s
    → IsLinked s'
unfolding IsLinked set_profile_id
set_profile_id-IsLinked p new_pid gpcm_ip s s' valid free elsewhere e v k q h =
    elim (Bool-cases (text_eq (field dwc_pid (s.session_at p).fields) [])) [
      | inl fresh ↦
          claim_profile-IsLinked p new_pid gpcm_ip s s' valid free elsewhere (ground arith) v k q h
      | inr old ↦ ground (arith, v k q (ground arith))
    ]

-- The operations that change these pointers. A session that claims a profile has no login yet,
-- and no session that a login has is at an address that finds it.
pub data Step : State → State → Type 0 where
  removes : {s t : State} (addr : ℕ) → t ≡ remove_session addr s → Step s t
  leaves : {s t : State} (p : ℕ) → t ≡ remove_from_group p s → Step s t
  logs_in :
      {s t : State} (profile_id : ℕ) (info : LoginInfo) → t ≡ login profile_id info s → Step s t
  logs_out : {s t : State} (profile_id : ℕ) → logout profile_id s ≡ returns t → Step s t
  claims :
      {s t : State} (p : ℕ) (new_pid gpcm_ip : Bytes) (valid : Bool)
      → (s.session_at p).login ≡ none
      → IsElsewhere p s
      → set_profile_id p new_pid gpcm_ip s ≡ returns (valid, t)
      → Step s t

pub data Run : State → State → Type 0 where
  start : {s : State} → Run s s
  then_step : {s t u : State} → Run s t → Step t u → Run s u

Step-IsLinked : {s t : State} → Step s t → IsLinked s → IsLinked t
Step-IsLinked {s} (Step.removes addr e) v = rw e (remove_session-IsLinked addr s v)
Step-IsLinked {s} (Step.leaves p e) v = rw e (remove_from_group-IsLinked p s v)
Step-IsLinked {s} (Step.logs_in profile_id info e) v = rw e (login-IsLinked profile_id info s v)
Step-IsLinked {s} {t} (Step.logs_out profile_id e) v = logout-IsLinked profile_id s t e v
Step-IsLinked {s} {t} (Step.claims p new_pid gpcm_ip valid free elsewhere e) v =
    set_profile_id-IsLinked p new_pid gpcm_ip s t valid free elsewhere e v

-- From a state in which the session of every login has that login, this stays so over removed
-- sessions, sessions that leave their group, log-ins, log-outs, and profiles claimed by a session
-- that has no login, whose address is not that of a session that a login has.
pub Run-IsLinked : {s t : State} → Run s t → IsLinked s → IsLinked t
Run-IsLinked Run.start v = v
Run-IsLinked (Run.then_step run step) v = Step-IsLinked step (Run-IsLinked run v)

-- ===== src/Qr2/Claim.antt =====
-- setProfileID of qr2/session.go: what a session that gets a profile ID has.
use wfc_server.Prelude.{
  ℕ, ◌≡◌, ap, ◌∙◌, ◌⊎◌, inl, inr, Bool, true, Option, none, some, [], ◌∷◌, if◌then◌else◌, returns,
  Option-cases, Outcome-cases, Bool-cases, arith,
}
use wfc_server.Prelude.Words.{Bytes}
use wfc_server.Prelude.NatMap.{lookup}
use wfc_server.Prelude.Text.{text_eq, text_eq_iff, codes}
use wfc_server.Prelude.TextMap.{write}
use wfc_server.IpAddress.{make_lookup_addr, addr_string, host_of, ip_format_to_string}
use wfc_server.Qr2.{State, set_session, set_login, set_data, data_of, dwc_pid}
use wfc_server.Qr2.Remove.{remove_session_of, remove_session, remove_from_group, unlink_login}
use wfc_server.Qr2.Departure.{leave-login_at}
use wfc_server.Qr2.Profile.{
  parse_pid, check_valid_rating, remove_outdated, open_profile, claim_profile, set_profile_id,
}
use wfc_server.Qr2.NatnegReport.{data_of-set_data}

-- What a removal keeps of a login.
remove_session-device_authenticated :
    (addr l : ℕ) (s : State)
    → ((remove_session addr s).login_at l).device_authenticated
      ≡ (s.login_at l).device_authenticated
unfolding remove_session unlink_login remove_from_group set_login set_session write
remove_session-device_authenticated addr l s = elim (Option-cases (lookup addr s.sessions)) [
  | inl absent ↦ ground arith
  | inr (p, found) ↦ elim (Option-cases (s.session_at p).group_pointer) [
    | inl alone ↦ ground arith
    | inr (g, e) ↦ ground (arith, leave-login_at p g s)
  ]
]

remove_outdated-device_authenticated :
    (old : Option ℕ) (l : ℕ) (s s' : State)
    → remove_outdated old s ≡ returns s'
    → (s'.login_at l).device_authenticated ≡ (s.login_at l).device_authenticated
unfolding remove_outdated remove_session_of
remove_outdated-device_authenticated none l s s' e = ground arith
remove_outdated-device_authenticated (some p) l s s' e =
    elim (Outcome-cases (make_lookup_addr (addr_string (s.session_at p).addr))) [
      | inl stuck ↦ ground arith
      | inr (addr, found) ↦ ground (arith, remove_session-device_authenticated addr l s)
    ]

-- The writes at the end of setProfileID, once the outdated session is removed.
module _ (p l : ℕ) (new_pid ip : Bytes) (s : State) where
  abbrev pub linked : State
  linked = set_login l (λ x. record x { session = some p }) s

  abbrev pub auth : Bytes
  auth = if (linked.login_at l).device_authenticated then b'1' ∷ [] else b'0' ∷ []

  abbrev pub with_auth : State
  with_auth = set_data p (codes "+deviceauth") auth linked

  abbrev pub with_ip : State
  with_ip = set_data p (codes "+gppublicip") ip with_auth

  abbrev pub opened : State
  opened =
      set_data p dwc_pid new_pid
        (set_data p (codes "+fcgameid") (with_ip.login_at l).friend_key_game with_ip)

  opened-session : (opened.login_at l).session ≡ some p
  unfolding set_data set_session set_login write
  opened-session = ground arith

  opened-dwc_pid : data_of opened p dwc_pid ≡ new_pid
  opened-dwc_pid = ground (
    arith,
    data_of-set_data p p dwc_pid dwc_pid new_pid
        (set_data p (codes "+fcgameid") (with_ip.login_at l).friend_key_game with_ip),
    text_eq_iff dwc_pid dwc_pid,
  )

  device_authenticated-linked :
      (linked.login_at l).device_authenticated ≡ (s.login_at l).device_authenticated
  unfolding set_login write
  device_authenticated-linked = ground arith

  opened-deviceauth :
      data_of opened p (codes "+deviceauth")
      ≡ (if (s.login_at l).device_authenticated then b'1' ∷ [] else b'0' ∷ [])
  unfolding text_eq
  opened-deviceauth =
      let key = (with_ip.login_at l).friend_key_game in
      ground (
        arith,
        data_of-set_data p p dwc_pid (codes "+deviceauth") new_pid
            (set_data p (codes "+fcgameid") key with_ip),
        data_of-set_data p p (codes "+fcgameid") (codes "+deviceauth") key with_ip,
        data_of-set_data p p (codes "+gppublicip") (codes "+deviceauth") ip with_auth,
        data_of-set_data p p (codes "+deviceauth") (codes "+deviceauth") auth linked,
        device_authenticated-linked,
      )

pub open_profile-returns :
    (p l : ℕ) (new_pid : Bytes) (s s' : State) (valid : Bool)
    → open_profile p l new_pid s ≡ returns (valid, s')
    → let s₁ = set_session p (λ x. record x { login = some l }) s in
      (s₂ : State) × (ip : Bytes) × (remove_outdated (s₁.login_at l).session s₁ ≡ returns s₂)
      × (s' ≡ opened p l new_pid ip s₂)
unfolding open_profile
open_profile-returns p l new_pid s s' valid e =
    let s₁ = set_session p (λ x. record x { login = some l }) s in
    elim (Outcome-cases (remove_outdated (s₁.login_at l).session s₁)) [
      | inl stuck ↦ ground arith
      | inr (s₂, removed) ↦
          let host = host_of ((with_auth p l new_pid [] s₂).login_at l).gp_public_ip in
          elim (Outcome-cases (ip_format_to_string host)) [
            | inl stuck ↦ ground arith
            | inr ((ip, port), shown) ↦ (s₂, ip, removed, ground arith)
          ]
    ]

-- The end of setProfileID, when it returns.
open_profile-claims :
    (p l : ℕ) (new_pid : Bytes) (s s' : State) (valid : Bool)
    → open_profile p l new_pid s ≡ returns (valid, s')
    → ((s'.login_at l).session ≡ some p)
      × (data_of s' p dwc_pid ≡ new_pid)
      × (data_of s' p (codes "+deviceauth")
          ≡ (if (s.login_at l).device_authenticated then b'1' ∷ [] else b'0' ∷ []))
unfolding set_session
open_profile-claims p l new_pid s s' valid e =
    let s₁ = set_session p (λ x. record x { login = some l }) s in
    let (s₂, ip, removed, ended) = open_profile-returns p l new_pid s s' valid e in
    (
      ap (λ t. (t.login_at l).session) ended ∙ opened-session p l new_pid ip s₂,
      ap (λ t. data_of t p dwc_pid) ended ∙ opened-dwc_pid p l new_pid ip s₂,
      ap (λ t. data_of t p (codes "+deviceauth")) ended
          ∙ opened-deviceauth p l new_pid ip s₂
          ∙ ap (λ b. if b then b'1' ∷ [] else b'0' ∷ [])
              (remove_outdated-device_authenticated (s₁.login_at l).session l s₁ s₂ removed),
    )

-- The ways in which setProfileID of a session with no profile ID refuses.
claim_profile-accepts :
    (p : ℕ) (new_pid gpcm_ip : Bytes) (s s' : State)
    → claim_profile p new_pid gpcm_ip s ≡ returns (true, s')
    → (profile_id : ℕ) × (l : ℕ) × (parse_pid new_pid ≡ some profile_id)
      × (lookup profile_id s.logins ≡ some l)
      × (open_profile p l new_pid s ≡ returns (true, s'))
      × (check_valid_rating (s.session_at p).fields ≡ codes "ok")
      × (gpcm_ip ≡ [] ⊎ gpcm_ip ≡ host_of (s.login_at l).gp_public_ip)
unfolding claim_profile
claim_profile-accepts p new_pid gpcm_ip s s' e = elim (Option-cases (parse_pid new_pid)) [
  | inl invalid ↦ ground arith
  | inr (profile_id, parsed) ↦ elim (Option-cases (lookup profile_id s.logins)) [
    | inl absent ↦ ground arith
    | inr (l, found) ↦
        let rating = check_valid_rating (s.session_at p).fields in
        let ip = host_of (s.login_at l).gp_public_ip in
        (
          profile_id,
          l,
          parsed,
          found,
          ground arith,
          ground (arith, text_eq_iff rating (codes "ok")),
          elim (Bool-cases (text_eq gpcm_ip [])) [
            | inl blank ↦ inl (ground (arith, text_eq_iff gpcm_ip []))
            | inr given ↦ inr (ground (arith, text_eq_iff gpcm_ip ip))
          ],
        )
  ]
]

-- setProfileID of a session that has no profile ID yet, when it returns true: the text is the
-- number of a profile that is logged in, the login's session is this one, the session's dwc_pid is
-- the text, its "+deviceauth" is "1" exactly when the login's device is authenticated and "0"
-- else, the rating of the session is valid, and a public IP that was given is that of the login.
pub set_profile_id-claims :
    (p : ℕ) (new_pid gpcm_ip : Bytes) (s s' : State)
    → data_of s p dwc_pid ≡ []
    → set_profile_id p new_pid gpcm_ip s ≡ returns (true, s')
    → (profile_id : ℕ) × (l : ℕ) × (parse_pid new_pid ≡ some profile_id)
      × (lookup profile_id s.logins ≡ some l)
      × ((s'.login_at l).session ≡ some p)
      × (data_of s' p dwc_pid ≡ new_pid)
      × (data_of s' p (codes "+deviceauth")
          ≡ (if (s.login_at l).device_authenticated then b'1' ∷ [] else b'0' ∷ []))
      × (check_valid_rating (s.session_at p).fields ≡ codes "ok")
      × (gpcm_ip ≡ [] ⊎ gpcm_ip ≡ host_of (s.login_at l).gp_public_ip)
unfolding set_profile_id data_of
set_profile_id-claims p new_pid gpcm_ip s s' fresh e =
    let accepted : claim_profile p new_pid gpcm_ip s ≡ returns (true, s') =
      ground (arith, text_eq_iff (data_of s p dwc_pid) []) in
    let (profile_id, l, parsed, found, opened', rating, ip) =
      claim_profile-accepts p new_pid gpcm_ip s s' accepted in
    let (login_session, pid, auth') = open_profile-claims p l new_pid s s' true opened' in
    (profile_id, l, parsed, found, login_session, pid, auth', rating, ip)

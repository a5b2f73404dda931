-- ===== src/Qr2/Remove.antt =====
-- qr2/session.go: removeSession and removeFromGroup; qr2/logins.go.
use wfc_server.Prelude.{
  ℕ, suc, Bool, true, Option, none, some, List, [], ◌∷◌, if◌then◌else◌, Outcome, returns, ◌>>=◌,
}
use wfc_server.Prelude.Words.{Bytes}
use wfc_server.Prelude.NatMap.{lookup, insert, delete}
use wfc_server.Prelude.Text.{codes}
use wfc_server.Prelude.TextMap.{write, delete_named, delete_where}
use wfc_server.IpAddress.{make_lookup_addr, addr_string}
use wfc_server.Qr2.{
  State, LoginInfo, set_session, set_login, set_group, set_data, with_data, is_at, without,
  has_prefix, conn, conn_of,
}
use wfc_server.Qr2.Host.{find_new_server}

-- `for player := range group.players { delete(player.Data, name) }`
unfoldable pub forget_all : Bytes → List ℕ → State → State
forget_all name [] s = s
forget_all name (p ∷ players) s =
    forget_all name players (set_session p (with_data (delete_named name)) s)

-- What becomes of a group that a player has left.
unfoldable pub settle_group : ℕ → ℕ → State → State
settle_group p g s = elim (s.group_at g).players [
  | [] ↦ record s { groups = delete_named (s.group_at g).group_name s.groups }
  | q ∷ players ↦
      if is_at (s.group_at g).server p
      then find_new_server g (set_group g (λ x. record x { server = none }) s)
      else s
]

-- The records of connections: those of the others to the player, and the player's own.
unfoldable pub forget_connections : ℕ → ℕ → State → State
forget_connections p g s =
    let s' = forget_all (conn_of s p) (s.group_at g).players s in
    set_session p (with_data (delete_where (has_prefix conn))) s'

unfoldable pub leave : ℕ → ℕ → State → State
leave p g s =
    let s₁ = set_group g (λ x. record x { players = without p x.players }) s in
    let s₂ = forget_connections p g (settle_group p g s₁) in
    set_session p (λ x. record x { group_pointer = none; group_name = [] }) s₂

-- removeFromGroup. The timer that drops a dissolved group's race results is left out.
unfoldable pub remove_from_group : ℕ → State → State
remove_from_group p s = elim (s.session_at p).group_pointer [ none ↦ s | some g ↦ leave p g s ]

unfoldable pub unlink_login : ℕ → State → State
unlink_login p s = elim (s.session_at p).login [
  | none ↦ s
  | some l ↦
      set_session p (λ x. record x { login = none })
        (set_login l (λ x. record x { session = none }) s)
]

unfoldable pub remove_session : ℕ → State → State
remove_session addr s = elim (lookup addr s.sessions) [
  | none ↦ s
  | some p ↦
      let s' = unlink_login p (remove_from_group p s) in
      record s' {
        session_by_search_id = delete (s'.session_at p).search_id s'.session_by_search_id;
        sessions = delete addr s'.sessions;
      }
]

-- removeSession(makeLookupAddr(session.Addr.String()))
unfoldable pub remove_session_of : ℕ → State → Outcome State
remove_session_of p s =
    make_lookup_addr (addr_string (s.session_at p).addr) >>= λ addr. returns (remove_session addr s)

-- Login: a new LoginInfo, whose session is not known yet.
unfoldable pub login : ℕ → LoginInfo → State → State
login profile_id info s = record s {
  login_at = write s.next (record info { profile_id = profile_id; session = none }) s.login_at;
  next = suc s.next;
  logins = insert profile_id s.next s.logins;
}

unfoldable pub set_device_authenticated : ℕ → State → State
set_device_authenticated profile_id s = elim (lookup profile_id s.logins) [
  | none ↦ s
  | some l ↦
      let s' = set_login l (λ x. record x { device_authenticated = true }) s in
      elim (s'.login_at l).session [
        | none ↦ s'
        | some p ↦ set_data p (codes "+deviceauth") (b'1' ∷ []) s'
      ]
]

unfoldable pub set_login_open_host : ℕ → Bool → State → State
set_login_open_host profile_id open_host s = elim (lookup profile_id s.logins) [
  | none ↦ s
  | some l ↦ set_login l (λ x. record x { open_host = open_host }) s
]

unfoldable pub logout_session : Option ℕ → State → Outcome State
logout_session none s = returns s
logout_session (some l) s = elim (s.login_at l).session [
  | none ↦ returns s
  | some p ↦ remove_session_of p s
]

unfoldable pub logout : ℕ → State → Outcome State
logout profile_id s = do
  s' ← logout_session (lookup profile_id s.logins) s
  returns (record s' { logins = delete profile_id s'.logins })

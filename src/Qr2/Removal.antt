-- ===== src/Qr2/Removal.antt =====
-- removeFromGroup and removeSession of qr2/session.go: a session that is gone leaves no pointer.
use wfc_server.Prelude.{
  ℕ, ◌≡◌, ◌≢◌, inl, inr, false, none, some, List, [], ◌∷◌, ◌++◌, Option-cases, arith,
}
use wfc_server.Prelude.Words.{Bytes}
use wfc_server.Prelude.NatMap.{lookup, lookup-delete}
use wfc_server.Prelude.Text.{text_eq, text_eq_iff}
use wfc_server.Prelude.TextMap.{write, named, delete_named, named-delete_where}
use wfc_server.Qr2.{State, set_session, set_login, has, without, conn}
use wfc_server.Qr2.Remove.{remove_from_group, unlink_login, remove_session}
use wfc_server.Qr2.Departure.{
  has-without, leave-sessions, leave-groups, leave-players, leave-group_pointer, leave-login,
  leave-search_id, leave-conn,
}

named-dissolved :
    (p : ℕ) (name : Bytes) (players : List ℕ) (groups : List (Bytes × ℕ))
    → without p players ≡ []
    → named name (elim (without p players) [ [] ↦ delete_named name groups | q ∷ ps ↦ groups ])
      ≡ none
unfolding delete_named
named-dissolved p name players groups e =
    ground (arith, named-delete_where (λ n. text_eq n name) name groups, text_eq_iff name name)

-- A session p of the group g, which removeFromGroup takes out of it, has no group any more and
-- holds no "+conn_" field. It is not among the group's players, the other sessions are players
-- as before and keep their groups, and a group that it was the only player of is gone from the
-- table of groups. The table of sessions stays as it was.
pub remove_from_group-leaves :
    (p g : ℕ) (s : State)
    → (s.session_at p).group_pointer ≡ some g
    → let s' = remove_from_group p s in
      ((s'.session_at p).group_pointer ≡ none)
      × ((x : Bytes) → named (conn ++ x) (s'.session_at p).fields ≡ none)
      × (has p (s'.group_at g).players ≡ false)
      × ((q : ℕ) → p ≢ q → has q (s'.group_at g).players ≡ has q (s.group_at g).players)
      × ((q : ℕ) → p ≢ q → (s'.session_at q).group_pointer ≡ (s.session_at q).group_pointer)
      × (without p (s.group_at g).players ≡ [] → named (s.group_at g).group_name s'.groups ≡ none)
      × (s'.sessions ≡ s.sessions)
unfolding remove_from_group
remove_from_group-leaves p g s e =
    rw (e, remove_from_group)
      (
        ground (arith, leave-group_pointer p g s p),
        λ x. leave-conn p g s x,
        ground (arith, leave-players p g s g, has-without p p (s.group_at g).players),
        λ q n. ground (arith, leave-players p g s g, has-without p q (s.group_at g).players),
        λ q n. ground (arith, leave-group_pointer p g s q),
        λ alone. ground (
          arith,
          leave-groups p g s,
          named-dissolved p (s.group_at g).group_name (s.group_at g).players s.groups alone,
        ),
        leave-sessions p g s,
      )

-- The parts of a removal, whether or not there is a group.
module _ (p : ℕ) (s : State) where
  abbrev left : State
  left = remove_from_group p s

  left-sessions : left.sessions ≡ s.sessions
  unfolding remove_from_group
  left-sessions = elim (Option-cases (s.session_at p).group_pointer) [
    | inl alone ↦ ground arith
    | inr (g, e) ↦ ground (arith, leave-sessions p g s)
  ]

  left-search_id : (left.session_at p).search_id ≡ (s.session_at p).search_id
  unfolding remove_from_group
  left-search_id = elim (Option-cases (s.session_at p).group_pointer) [
    | inl alone ↦ ground arith
    | inr (g, e) ↦ ground (arith, leave-search_id p g s p)
  ]

  left-login : (left.session_at p).login ≡ (s.session_at p).login
  unfolding remove_from_group
  left-login = elim (Option-cases (s.session_at p).group_pointer) [
    | inl alone ↦ ground arith
    | inr (g, e) ↦ ground (arith, leave-login p g s p)
  ]

  left-group_pointer : (left.session_at p).group_pointer ≡ none
  unfolding remove_from_group
  left-group_pointer = elim (Option-cases (s.session_at p).group_pointer) [
    | inl alone ↦ ground arith
    | inr (g, e) ↦ ground (arith, leave-group_pointer p g s p)
  ]

-- removeSession of an address whose session is p: the address and the search ID find no session
-- any more, the session has neither a group nor a login, its login has no session, its group does
-- not list it, and every other address finds the session that it found before.
pub remove_session-unlinks :
    (addr p : ℕ) (s : State)
    → lookup addr s.sessions ≡ some p
    → let s' = remove_session addr s in
      (lookup addr s'.sessions ≡ none)
      × (lookup (s.session_at p).search_id s'.session_by_search_id ≡ none)
      × ((s'.session_at p).group_pointer ≡ none)
      × ((s'.session_at p).login ≡ none)
      × ((l : ℕ) → (s.session_at p).login ≡ some l → (s'.login_at l).session ≡ none)
      × ((g : ℕ) → (s.session_at p).group_pointer ≡ some g → has p (s'.group_at g).players ≡ false)
      × ((a : ℕ) → addr ≢ a → lookup a s'.sessions ≡ lookup a s.sessions)
unfolding remove_session unlink_login set_session set_login write
remove_session-unlinks addr p s e =
    let t = unlink_login p (remove_from_group p s) in
    (
      ground (arith, lookup-delete addr addr t.sessions),
      ground (
        arith,
        left-search_id p s,
        lookup-delete (t.session_at p).search_id (s.session_at p).search_id t.session_by_search_id,
      ),
      ground (arith, left-group_pointer p s),
      ground arith,
      λ l h. ground (arith, left-login p s),
      λ g h. ground (arith, (remove_from_group-leaves p g s h).2),
      λ a n. ground (arith, lookup-delete addr a t.sessions, left-sessions p s),
    )

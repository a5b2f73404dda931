-- ===== src/Qr2/Departure.antt =====
-- What removeFromGroup and removeSession of qr2/session.go leave behind.
use wfc_server.Prelude.{
  ℕ, ◌≡◌, refl, ◌∙◌, false, none, List, [], ◌∷◌, ◌++◌, ◌==◌, if◌then◌else◌, arith,
}
use wfc_server.Prelude.Words.{Bytes}
use wfc_server.Prelude.TextMap.{write, named, delete_named, named-delete_where}
use wfc_server.Qr2.{
  State, set_session, set_group, with_data, has, without, has_prefix, conn, conn_of,
}
use wfc_server.Qr2.Host.{find_new_server, update_match_type}
use wfc_server.Qr2.Remove.{forget_all, settle_group, forget_connections, leave}

-- Nothing changed but the sessions' fields.
record IsFieldsOnly (s s' : State) : Type 0 where
  login_at : s'.login_at ≡ s.login_at
  group_at : s'.group_at ≡ s.group_at
  sessions : s'.sessions ≡ s.sessions
  session_by_search_id : s'.session_by_search_id ≡ s.session_by_search_id
  groups : s'.groups ≡ s.groups
  group_pointer : (q : ℕ) → (s'.session_at q).group_pointer ≡ (s.session_at q).group_pointer
  login : (q : ℕ) → (s'.session_at q).login ≡ (s.session_at q).login
  search_id : (q : ℕ) → (s'.session_at q).search_id ≡ (s.session_at q).search_id

forget_all-IsFieldsOnly :
    (name : Bytes) (ps : List ℕ) (s : State) → IsFieldsOnly s (forget_all name ps s)
unfolding forget_all set_session write
forget_all-IsFieldsOnly name [] s = record {
  login_at = refl;
  group_at = refl;
  sessions = refl;
  session_by_search_id = refl;
  groups = refl;
  group_pointer = λ q. refl;
  login = λ q. refl;
  search_id = λ q. refl;
}
forget_all-IsFieldsOnly name (p ∷ ps) s =
    let h = forget_all-IsFieldsOnly name ps (set_session p (with_data (delete_named name)) s) in
    record {
      login_at = h.login_at;
      group_at = h.group_at;
      sessions = h.sessions;
      session_by_search_id = h.session_by_search_id;
      groups = h.groups;
      group_pointer = λ q. h.group_pointer q ∙ ground arith;
      login = λ q. h.login q ∙ ground arith;
      search_id = λ q. h.search_id q ∙ ground arith;
    }

pub has-without :
    (p q : ℕ) (ps : List ℕ) → has q (without p ps) ≡ (if p == q then false else has q ps)
unfolding has without
has-without p q [] = ground arith
has-without p q (r ∷ ps) = ground (arith, has-without p q ps)

module _ (p g : ℕ) (s : State) where
  abbrev settled : State
  settled = settle_group p g s

  settle_group-session_at : settled.session_at ≡ s.session_at
  unfolding settle_group find_new_server update_match_type set_group
  settle_group-session_at = ground arith

  settle_group-sessions : settled.sessions ≡ s.sessions
  unfolding settle_group find_new_server update_match_type set_group
  settle_group-sessions = ground arith

  settle_group-login_at : settled.login_at ≡ s.login_at
  unfolding settle_group find_new_server update_match_type set_group
  settle_group-login_at = ground arith

  settle_group-session_by_search_id : settled.session_by_search_id ≡ s.session_by_search_id
  unfolding settle_group find_new_server update_match_type set_group
  settle_group-session_by_search_id = ground arith

  settle_group-players : (h : ℕ) → (settled.group_at h).players ≡ (s.group_at h).players
  unfolding settle_group find_new_server update_match_type set_group write
  settle_group-players h = ground arith

  settle_group-groups : settled.groups ≡ (elim (s.group_at g).players [
    | [] ↦ delete_named (s.group_at g).group_name s.groups
    | q ∷ ps ↦ s.groups
  ])
  unfolding settle_group find_new_server update_match_type set_group
  settle_group-groups = ground arith

module _ (p g : ℕ) (s : State) where
  abbrev without_player : State
  without_player = set_group g (λ x. record x { players = without p x.players }) s

  abbrev settled_group : State
  settled_group = settle_group p g without_player

  pub leave-sessions : (leave p g s).sessions ≡ s.sessions
  unfolding leave forget_connections set_session set_group
  leave-sessions = ground (
    arith,
    settle_group-sessions p g without_player,
    (forget_all-IsFieldsOnly (conn_of settled_group p) (settled_group.group_at g).players
        settled_group).sessions,
  )

  pub leave-session_by_search_id : (leave p g s).session_by_search_id ≡ s.session_by_search_id
  unfolding leave forget_connections set_session set_group
  leave-session_by_search_id = ground (
    arith,
    settle_group-session_by_search_id p g without_player,
    (forget_all-IsFieldsOnly (conn_of settled_group p) (settled_group.group_at g).players
        settled_group).session_by_search_id,
  )

  pub leave-login_at : (leave p g s).login_at ≡ s.login_at
  unfolding leave forget_connections set_session set_group
  leave-login_at = ground (
    arith,
    settle_group-login_at p g without_player,
    (forget_all-IsFieldsOnly (conn_of settled_group p) (settled_group.group_at g).players
        settled_group).login_at,
  )

  pub leave-groups : (leave p g s).groups ≡ (elim (without p (s.group_at g).players) [
    | [] ↦ delete_named (s.group_at g).group_name s.groups
    | q ∷ ps ↦ s.groups
  ])
  unfolding leave forget_connections set_session set_group write
  leave-groups = ground (
    arith,
    settle_group-groups p g without_player,
    (forget_all-IsFieldsOnly (conn_of settled_group p) (settled_group.group_at g).players
        settled_group).groups,
  )

  pub leave-players :
      (h : ℕ)
      → ((leave p g s).group_at h).players
        ≡ (if g == h then without p (s.group_at g).players else (s.group_at h).players)
  unfolding leave forget_connections set_session set_group write
  leave-players h = ground (
    arith,
    settle_group-players p g without_player h,
    (forget_all-IsFieldsOnly (conn_of settled_group p) (settled_group.group_at g).players
        settled_group).group_at,
  )

  pub leave-group_pointer :
      (q : ℕ)
      → ((leave p g s).session_at q).group_pointer
        ≡ (if p == q then none else (s.session_at q).group_pointer)
  unfolding leave forget_connections set_session set_group write
  leave-group_pointer q = ground (
    arith,
    settle_group-session_at p g without_player,
    (forget_all-IsFieldsOnly (conn_of settled_group p) (settled_group.group_at g).players
          settled_group).group_pointer
        q,
  )

  pub leave-login : (q : ℕ) → ((leave p g s).session_at q).login ≡ (s.session_at q).login
  unfolding leave forget_connections set_session set_group write
  leave-login q = ground (
    arith,
    settle_group-session_at p g without_player,
    (forget_all-IsFieldsOnly (conn_of settled_group p) (settled_group.group_at g).players
          settled_group).login
        q,
  )

  pub leave-search_id :
      (q : ℕ) → ((leave p g s).session_at q).search_id ≡ (s.session_at q).search_id
  unfolding leave forget_connections set_session set_group write
  leave-search_id q = ground (
    arith,
    settle_group-session_at p g without_player,
    (forget_all-IsFieldsOnly (conn_of settled_group p) (settled_group.group_at g).players
          settled_group).search_id
        q,
  )

  pub leave-conn : (x : Bytes) → named (conn ++ x) ((leave p g s).session_at p).fields ≡ none
  unfolding leave forget_connections set_session has_prefix write
  leave-conn x = ground (
    arith,
    named-delete_where (has_prefix conn) (conn ++ x)
        ((forget_all (conn_of settled_group p) (settled_group.group_at g).players
            settled_group).session_at
          p).fields,
  )

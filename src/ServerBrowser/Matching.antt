-- ===== src/ServerBrowser/Matching.antt =====
-- serverbrowser/filter.go against plain selections of the list of servers.
use wfc_server.Prelude.{
  ℕ, ◌≡◌, sym, inl, inr, Bool, true, false, not, ◌&&◌, ◌||◌, Option, none, some, List, [], ◌∷◌,
  ◌++◌, ◌==◌, if◌then◌else◌, map, append_assoc, append-nil, Option-cases, arith,
}
use wfc_server.Prelude.Words.{Bytes}
use wfc_server.Prelude.Text.{codes, text_eq, text_eq_iff}
use wfc_server.Prelude.TextMap.{field, named, set_named, named-set_named}
use wfc_server.Prelude.NatMap.{is_some}
use wfc_server.ServerBrowser.{
  Server, has_value, is_eligible, filter_loop, filter_servers_inner, filter_servers, claimed_copy,
  is_unclaimed, self_lookup_loop, filter_self_lookup,
}

-- The elements that pass a test, in their order, and the first of them.
unfoldable pub select {ℓ} : {A : Type ℓ} → (A → Bool) → List A → List A
select test [] = []
select test (x ∷ xs) = if test x then x ∷ select test xs else select test xs

unfoldable pub first {ℓ} : {A : Type ℓ} → (A → Bool) → List A → Option A
first test [] = none
first test (x ∷ xs) = if test x then some x else first test xs

module _ {Tree : Type 0} (eval : Tree → Server → Bytes → Bool → Option ℕ) (tree : Tree)
    (game : Bytes) where
  -- An eligible server whose evaluation is an error, and one that the filter accepts.
  unfoldable pub fails : Server → Bool
  fails server =
      is_eligible game server
      && (elim (eval tree server game true) [ none ↦ true | some ret ↦ false ])

  unfoldable pub accepts : Server → Bool
  accepts server =
      is_eligible game server
      && (elim (eval tree server game true) [ none ↦ false | some ret ↦ not (ret == 0) ])

  filter_loop-select :
      (servers filtered : List Server)
      → filter_loop eval tree servers game true filtered ≡ (elim (first fails servers) [
        | none ↦ filtered ++ select accepts servers
        | some server ↦ []
      ])
  unfolding filter_loop select first fails accepts
  filter_loop-select [] filtered = sym (append-nil filtered)
  filter_loop-select (server ∷ servers) filtered = ground (
    arith,
    filter_loop-select servers filtered,
    filter_loop-select servers (filtered ++ server ∷ []),
    append_assoc filtered (server ∷ []) (select accepts servers),
  )

-- filterServers answers with no server when the expression does not parse, or when the evaluation
-- for an eligible server is an error; else with the eligible servers for which it is not 0, in
-- their order. Eligible is a server of the game, with an authenticated device, and with host state
-- "0" or "2" where its version is "90".
pub filter_servers-select :
    {Tree : Type 0} (eval : Tree → Server → Bytes → Bool → Option ℕ) (parse : Bytes → Option Tree)
    (servers : List Server) (game expression : Bytes)
    → filter_servers eval parse servers game expression ≡ (elim (parse expression) [
      | none ↦ []
      | some tree ↦ elim (first (fails eval tree game) servers) [
        | none ↦ select (accepts eval tree game) servers
        | some server ↦ []
      ]
    ])
unfolding filter_servers filter_servers_inner
filter_servers-select eval parse servers game expression = elim (Option-cases (parse expression)) [
  | inl invalid ↦ ground arith
  | inr (tree, parsed) ↦ ground (arith, filter_loop-select eval tree game servers [])
]

module _ (game pid public_ip : Bytes) where
  unfoldable pub has_profile : Server → Bool
  has_profile server =
      text_eq (field (codes "gamename") server) game && text_eq (field (codes "dwc_pid") server) pid

  unfoldable pub may_claim : Server → Bool
  may_claim server =
      text_eq (field (codes "gamename") server) game
      && not (is_some (named (codes "dwc_pid") server))
      && text_eq (field (codes "publicip") server) public_ip

  self_lookup_loop-select :
      (servers filtered : List Server)
      → self_lookup_loop servers game pid public_ip filtered ≡ (elim (first has_profile servers) [
        | none ↦ filtered ++ map (claimed_copy pid) (select may_claim servers)
        | some server ↦ server ∷ []
      ])
  unfolding self_lookup_loop select first has_profile may_claim has_value is_unclaimed
  self_lookup_loop-select [] filtered = sym (append-nil filtered)
  self_lookup_loop-select (server ∷ servers) filtered = ground (
    arith,
    self_lookup_loop-select servers filtered,
    self_lookup_loop-select servers (filtered ++ claimed_copy pid server ∷ []),
    append_assoc filtered (claimed_copy pid server ∷ [])
        (map (claimed_copy pid) (select may_claim servers)),
  )

-- What a copy that is changed for a profile ID has under a name.
unfoldable pub changed_at : Bytes → Server → Bytes → Option Bytes
changed_at pid server asked =
    if text_eq asked (codes "dwc_pid")
    then some pid
    else if text_eq asked (codes "dwc_mtype") || text_eq asked (codes "dwc_mver")
    then some (codes "0")
    else named asked server

named-claimed_copy :
    (pid : Bytes) (server : Server) (asked : Bytes)
    → named asked (claimed_copy pid server) ≡ changed_at pid server asked
unfolding claimed_copy changed_at
named-claimed_copy pid server asked =
    let s₁ = set_named (codes "dwc_pid") pid server in
    let s₂ = set_named (codes "dwc_mtype") (codes "0") s₁ in
    ground (
      arith,
      named-set_named (codes "dwc_pid") asked pid server,
      named-set_named (codes "dwc_mtype") asked (codes "0") s₁,
      named-set_named (codes "dwc_mver") asked (codes "0") s₂,
      text_eq_iff (codes "dwc_pid") asked,
      text_eq_iff (codes "dwc_mtype") asked,
      text_eq_iff (codes "dwc_mver") asked,
      text_eq_iff asked (codes "dwc_pid"),
      text_eq_iff asked (codes "dwc_mtype"),
      text_eq_iff asked (codes "dwc_mver"),
    )

-- filterSelfLookup answers with the first server of the game that has the profile ID, alone; when
-- there is none, with a copy of each server of the game that has no profile ID and has the public
-- IP, in their order. The copy has the profile ID, the match type "0" and the version "0", and under
-- every other name what the server has.
pub filter_self_lookup-select :
    (servers : List Server) (game pid public_ip : Bytes)
    → (copy : Server → Server) × (filter_self_lookup servers game pid public_ip
        ≡ (elim (first (has_profile game pid public_ip) servers) [
          | none ↦ map copy (select (may_claim game pid public_ip) servers)
          | some server ↦ server ∷ []
        ]))
      × ((server : Server) (asked : Bytes)
          → named asked (copy server) ≡ changed_at pid server asked)
unfolding filter_self_lookup
filter_self_lookup-select servers game pid public_ip = (
  claimed_copy pid,
  self_lookup_loop-select game pid public_ip servers [],
  named-claimed_copy pid,
)

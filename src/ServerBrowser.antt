-- ===== src/ServerBrowser.antt =====
-- serverbrowser/filter.go: which servers a request is answered with. The filter language is that of
-- serverbrowser/filter/, a modified copy of another project: parsing and evaluation are parameters.
-- A server is its map of fields.
mod Matching
mod Examples
use wfc_server.Prelude.{
  ℕ, Bool, true, false, not, ◌&&◌, ◌||◌, Option, none, some, List, [], ◌∷◌, ◌++◌, ◌==◌,
  if◌then◌else◌,
}
use wfc_server.Prelude.Words.{Bytes}
use wfc_server.Prelude.NatMap.{is_some}
use wfc_server.Prelude.Text.{codes, text_eq}
use wfc_server.Prelude.TextMap.{field, named, set_named}

abbrev pub Server : Type 0
Server = List (Bytes × Bytes)

-- `server[name] == value`
unfoldable pub has_value : Bytes → Bytes → Server → Bool
has_value name value server = text_eq (field name server) value

-- The guards in front of the evaluation: none of the `continue`s.
unfoldable pub is_eligible : Bytes → Server → Bool
is_eligible query_game server =
    if not (has_value (codes "gamename") query_game server)
    then false
    else if not (has_value (codes "+deviceauth") (codes "1") server)
    then false
    else if has_value (codes "dwc_mver") (codes "90") server
        && (not (has_value (codes "dwc_hoststate") (codes "0") server)
            && not (has_value (codes "dwc_hoststate") (codes "2") server))
    then false
    else true

module _ {Tree : Type 0} (eval : Tree → Server → Bytes → Bool → Option ℕ) where
  -- The loop, with the servers that are filtered so far; an error ends it with none of them.
  unfoldable pub filter_loop : Tree → List Server → Bytes → Bool → List Server → List Server
  filter_loop tree [] query_game ignorevr filtered = filtered
  filter_loop tree (server ∷ servers) query_game ignorevr filtered =
      let skip = filter_loop tree servers query_game ignorevr filtered in
      let keep = filter_loop tree servers query_game ignorevr (filtered ++ server ∷ []) in
      if not (is_eligible query_game server)
      then skip
      else (elim (eval tree server query_game ignorevr) [
        | none ↦ []
        | some ret ↦ if ret == 0 then skip else keep
      ])

  -- filterServersInner
  unfoldable pub filter_servers_inner : Tree → List Server → Bytes → Bool → List Server
  filter_servers_inner tree servers query_game ignorevr =
      filter_loop tree servers query_game ignorevr []

  -- filterServers
  unfoldable pub filter_servers : (Bytes → Option Tree) → List Server → Bytes → Bytes → List Server
  filter_servers parse servers query_game expression = elim (parse expression) [
    | none ↦ []
    | some tree ↦ filter_servers_inner tree servers query_game true
  ]

-- The copy of a server that has not set its profile ID yet.
unfoldable pub claimed_copy : Bytes → Server → Server
claimed_copy pid server =
    set_named (codes "dwc_mver") (codes "0")
      (set_named (codes "dwc_mtype") (codes "0") (set_named (codes "dwc_pid") pid server))

unfoldable pub is_unclaimed : Bytes → Server → Bool
is_unclaimed public_ip server =
    not (is_some (named (codes "dwc_pid") server)) && has_value (codes "publicip") public_ip server

unfoldable pub self_lookup_loop : List Server → Bytes → Bytes → Bytes → List Server → List Server
self_lookup_loop [] query_game pid public_ip filtered = filtered
self_lookup_loop (server ∷ servers) query_game pid public_ip filtered =
    let skip = self_lookup_loop servers query_game pid public_ip filtered in
    let more =
      self_lookup_loop servers query_game pid public_ip
        (filtered ++ claimed_copy pid server ∷ []) in
    if not (has_value (codes "gamename") query_game server)
    then skip
    else if has_value (codes "dwc_pid") pid server
    then server ∷ []
    else if is_unclaimed public_ip server
    then more
    else skip

-- filterSelfLookup
unfoldable pub filter_self_lookup : List Server → Bytes → Bytes → Bytes → List Server
filter_self_lookup servers query_game pid public_ip =
    self_lookup_loop servers query_game pid public_ip []

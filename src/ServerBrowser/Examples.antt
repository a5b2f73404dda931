-- ===== src/ServerBrowser/Examples.antt =====
-- Tests of the server filters, and the theorems on a few servers.
use wfc_server.Prelude.{ℕ, ◌≡◌, refl, Bool, true, Option, none, some, [], ◌∷◌, map, if◌then◌else◌}
use wfc_server.Prelude.Words.{Bytes}
use wfc_server.Prelude.Text.{codes, text_eq}
use wfc_server.Prelude.TextMap.{field, named}
use wfc_server.ServerBrowser.{
  Server, filter_servers, filter_self_lookup, has_value, is_eligible, filter_loop,
  filter_servers_inner, self_lookup_loop, is_unclaimed,
}
use wfc_server.ServerBrowser.Matching.{
  fails, accepts, select, first, has_profile, may_claim, changed_at, filter_servers-select,
  filter_self_lookup-select,
}

abbrev game : Bytes
game = codes "mariokartwii"

abbrev open_server : Server
open_server =
    (codes "gamename", game) ∷ (codes "+deviceauth", codes "1") ∷ (codes "dwc_pid", codes "7") ∷ []

abbrev unknown_server : Server
unknown_server = (codes "gamename", game) ∷ (codes "publicip", codes "1") ∷ []

-- A language with one word, which accepts every server, and refuses every other text.
abbrev parse_word : Bytes → Option Bool
parse_word s = if text_eq s (codes "all") then some true else none

abbrev eval_word : Bool → Server → Bytes → Bool → Option ℕ
eval_word tree server name ignorevr = if tree then some 1 else none

test_filter_servers :
    filter_servers eval_word parse_word (unknown_server ∷ open_server ∷ []) game (codes "all")
    ≡ open_server ∷ []
unfolding filter_servers filter_servers_inner filter_loop is_eligible has_value field named text_eq
test_filter_servers = refl

test_filter_self_lookup :
    filter_self_lookup (unknown_server ∷ open_server ∷ []) game (codes "7") (codes "1")
    ≡ open_server ∷ []
unfolding filter_self_lookup self_lookup_loop is_unclaimed has_value field named text_eq
test_filter_self_lookup = refl

filter_servers-select_example :
    filter_servers eval_word parse_word (unknown_server ∷ open_server ∷ []) game (codes "all")
    ≡ (elim (parse_word (codes "all")) [
      | none ↦ []
      | some tree ↦ elim (first (fails eval_word tree game) (unknown_server ∷ open_server ∷ [])) [
        | none ↦ select (accepts eval_word tree game) (unknown_server ∷ open_server ∷ [])
        | some server ↦ []
      ]
    ])
filter_servers-select_example =
    filter_servers-select eval_word parse_word (unknown_server ∷ open_server ∷ []) game
      (codes "all")

filter_self_lookup-select_example :
    (copy : Server → Server) × (filter_self_lookup
        (unknown_server ∷ [])
        game
        (codes "7")
        (codes "1")
      ≡ (elim (first (has_profile game (codes "7") (codes "1")) (unknown_server ∷ [])) [
        | none ↦ map copy (select (may_claim game (codes "7") (codes "1")) (unknown_server ∷ []))
        | some server ↦ server ∷ []
      ]))
    × ((server : Server) (asked : Bytes)
        → named asked (copy server) ≡ changed_at (codes "7") server asked)
filter_self_lookup-select_example =
    filter_self_lookup-select (unknown_server ∷ []) game (codes "7") (codes "1")

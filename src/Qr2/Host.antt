-- ===== src/Qr2/Host.antt =====
-- qr2/group.go: findNewServer and updateMatchType.
use wfc_server.Prelude.{ℕ, Bool, true, false, Option, none, some, List, [], ◌∷◌, ltb, if◌then◌else◌}
use wfc_server.Prelude.Int.{ℤ, pos, negsuc}
use wfc_server.Prelude.Text.{text_eq, atoi}
use wfc_server.Qr2.{State, set_group, data_of, joinindex, dwc_mtype, dwc_hoststate}

unfoldable pub ltb_int : ℤ → ℤ → Bool
ltb_int (pos a) (pos b) = ltb a b
ltb_int (pos a) (negsuc b) = false
ltb_int (negsuc a) (pos b) = true
ltb_int (negsuc a) (negsuc b) = ltb b a

-- A host candidate with its join index; the loop's `continue`s give none.
unfoldable pub candidate : State → ℕ → Option ℤ
candidate s p =
    if text_eq (data_of s p dwc_hoststate) (b'2' ∷ []) then atoi (data_of s p joinindex) else none

-- The loop's body: the best candidate so far, and one more player.
unfoldable pub consider : State → ℕ → Option (ℕ × ℤ) → Option (ℕ × ℤ)
consider s p best = elim (candidate s p) [
  | none ↦ best
  | some i ↦ elim best [
    | none ↦ some (p, i)
    | some found ↦ if ltb_int i found.1 then some (p, i) else some found
  ]
]

unfoldable pub server_loop : State → List ℕ → Option (ℕ × ℤ) → Option (ℕ × ℤ)
server_loop s [] best = best
server_loop s (p ∷ players) best = server_loop s players (consider s p best)

unfoldable pub update_match_type : ℕ → State → State
update_match_type g s = elim (s.group_at g).server [
  | none ↦ s
  | some server ↦
      let mtype = data_of s server dwc_mtype in
      if text_eq mtype [] then s else set_group g (λ x. record x { match_type = mtype }) s
]

unfoldable pub chosen : Option (ℕ × ℤ) → Option ℕ
chosen none = none
chosen (some found) = some found.0

unfoldable pub find_new_server : ℕ → State → State
find_new_server g s =
    let server = chosen (server_loop s (s.group_at g).players none) in
    update_match_type g (set_group g (λ x. record x { server = server }) s)

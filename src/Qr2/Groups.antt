-- ===== src/Qr2/Groups.antt =====
-- qr2/group.go: a reservation that is granted, the addresses told, the check of a reservation, and
-- the report of a NAT negotiation.
use wfc_server.Prelude.{
  ℕ, suc, Bool, true, false, not, ◌&&◌, ◌||◌, Option, none, some, List, [], ◌∷◌, ltb, leb, ◌==◌,
  if◌then◌else◌, length, get_elem?, take, Outcome, returns, ◌>>=◌,
}
use wfc_server.Prelude.Words.{Bytes}
use wfc_server.Prelude.NatMap.{lookup, is_some}
use wfc_server.Prelude.Text.{codes, text_eq, itoa}
use wfc_server.Prelude.TextMap.{write, named, set_named}
use wfc_server.Qr2.{
  State, Group, set_session, set_group, set_data, data_of, is_at, has, has_prefix, joinindex,
  conn_of, dwc_mtype,
}
use wfc_server.Qr2.Remove.{remove_from_group}
use wfc_server.Qr2.Profile.{set_profile_id}

unfoldable pub normalize_mkw_region : Bytes → Bytes
normalize_mkw_region rk = elim (get_elem? rk 3) [
  | none ↦ rk
  | some c ↦
      if length rk == 4
        && (has_prefix (codes "vs_") rk || has_prefix (codes "bt_") rk)
        && leb b'0' c
        && ltb c b'6'
      then take 2 rk
      else rk
]

-- The first of the random names that no group has.
unfoldable pub free_group_name : List Bytes → List (Bytes × ℕ) → Option Bytes
free_group_name [] m = none
free_group_name (d ∷ draws) m = if is_some (named d m) then free_group_name draws m else some d

-- The group of a host that has none yet, under a free name.
unfoldable pub create_group : ℕ → ℕ → ℕ → ℕ → Bytes → State → State
create_group version group_id local_players sender name s =
    let g = s.next in
    let game_name = data_of s sender (codes "gamename") in
    let group : Group = record {
      group_id = group_id;
      group_name = name;
      game_name = game_name;
      match_type = data_of s sender dwc_mtype;
      mkw_region =
          if text_eq game_name (codes "mariokartwii")
          then normalize_mkw_region (data_of s sender (codes "rk"))
          else [];
      last_join_index = 0;
      server = some sender;
      players = sender ∷ [];
    } in
    let s₁ = record s { group_at = write g group s.group_at; next = suc g } in
    let s₂ = set_data sender joinindex (b'0' ∷ []) s₁ in
    let s₃ =
      if version == 90
      then set_data sender (codes "+localplayers") (itoa local_players) s₂
      else s₂ in
    let s₄ = set_session sender (λ x. record x { group_pointer = some g; group_name = name }) s₃ in
    record s₄ { groups = set_named name g s₄.groups }

-- `sender.Data["+conn_"+…] = value` in both directions.
unfoldable pub set_conn : Bytes → ℕ → ℕ → State → State
set_conn value sender destination s =
    let s' = set_data sender (conn_of s destination) value s in
    set_data destination (conn_of s' sender) value s'

-- A new player: its join index, and its place in the group instead of in another one.
unfoldable pub add_player : ℕ → ℕ → ℕ → ℕ → State → State
add_player version local_players g destination s =
    let s₁ = set_group g (λ x. record x { last_join_index = suc x.last_join_index }) s in
    let s₂ = set_data destination joinindex (itoa (s₁.group_at g).last_join_index) s₁ in
    let s₃ =
      if version == 90
      then set_data destination (codes "+localplayers") (itoa local_players) s₂
      else s₂ in
    let old = (s₃.session_at destination).group_pointer in
    let s₄ = if is_some old && not (is_at old g) then remove_from_group destination s₃ else s₃ in
    let s₅ = set_group g (λ x. record x { players = destination ∷ x.players }) s₄ in
    set_session destination
      (λ x. record x { group_pointer = some g; group_name = (s₅.group_at g).group_name }) s₅

-- The part that follows once the sender has a group g.
unfoldable pub connect_players : ℕ → ℕ → ℕ → ℕ → ℕ → ℕ → State → State
connect_players version group_id local_players g sender destination s =
    let s₁ = set_group g (λ x. record x { group_id = group_id }) s in
    let s₂ = set_conn (b'1' ∷ []) sender destination s₁ in
    if has destination (s₂.group_at g).players
    then s₂
    else add_player version local_players g destination s₂

-- processResvOK: `guest_players` is the count of the reservation, `host_players` and `group_id`
-- come from the answer. None stands for random names that ran out.
unfoldable pub process_resv_ok : List Bytes → ℕ → ℕ → ℕ → ℕ → ℕ → ℕ → State → Option (Bool × State)
process_resv_ok draws version guest_players group_id host_players sender destination s =
    if leb 100000 (length s.groups)
    then some (false, s)
    else (elim (s.session_at sender).group_pointer [
      | some g ↦ some (true, connect_players version group_id guest_players g sender destination s)
      | none ↦ elim (free_group_name draws s.groups) [
        | none ↦ none
        | some name ↦
            let s' = create_group version group_id host_players sender name s in
            some (true, connect_players version group_id guest_players s.next sender destination s')
      ]
    ])

-- Pointers that are equal and not nil.
unfoldable pub same_group : Option ℕ → Option ℕ → Bool
same_group none h = false
same_group (some g) h = is_at h g

unfoldable pub process_tell_addr : ℕ → ℕ → State → State
process_tell_addr sender destination s =
    if same_group (s.session_at sender).group_pointer (s.session_at destination).group_pointer
    then set_conn (b'2' ∷ []) sender destination s
    else s

-- What the checks in front of the GP handlers find: the two sessions, or an early return.
unfoldable pub validate_both : ℕ → ℕ → ℕ → ℕ → State → Outcome (Option (ℕ × ℕ) × State)
validate_both sender_ip sender_pid dest_ip dest_pid s = elim (lookup sender_ip s.sessions) [
  | none ↦ returns (none, s)
  | some from_session ↦ elim (lookup dest_ip s.sessions) [
    | none ↦ returns (none, s)
    | some to_session ↦ do
      (valid, s') ← set_profile_id from_session (itoa sender_pid) [] s
      if not valid then returns (none, s') else (do
        (valid', s'') ← set_profile_id to_session (itoa dest_pid) [] s'
        returns ((if valid' then some (from_session, to_session) else none), s''))
  ]
]

-- ProcessGPResvOK
unfoldable pub process_gp_resv_ok :
    List Bytes → ℕ → ℕ → ℕ → ℕ → ℕ → ℕ → ℕ → ℕ → State → Outcome (Option (Bool × State))
process_gp_resv_ok draws version guest_players group_id host_players sender_ip sender_pid dest_ip
      dest_pid s =
    do
      (found, s') ← validate_both sender_ip sender_pid dest_ip dest_pid s
      returns (elim found [
        | none ↦ some (false, s')
        | some both ↦
            process_resv_ok draws version guest_players group_id host_players both.0 both.1 s'
      ])

-- ProcessGPTellAddr
unfoldable pub process_gp_tell_addr : ℕ → ℕ → ℕ → ℕ → State → Outcome State
process_gp_tell_addr sender_pid sender_ip dest_pid dest_ip s = do
  (found, s') ← validate_both sender_ip sender_pid dest_ip dest_pid s
  returns (elim found [ none ↦ s' | some both ↦ process_tell_addr both.0 both.1 s' ])

-- The statuses for which ProcessGPStatusUpdate sends the exploit, if the session still waits for it.
unfoldable pub sends_exploit : Bytes → ℕ → State → Bool
sends_exploit status p s =
    not (text_eq status (b'0' ∷ []))
    && not (text_eq status (b'1' ∷ []))
    && not (s.session_at p).exploit_received
    && (elim (s.session_at p).login [ none ↦ false | some l ↦ (s.login_at l).needs_exploit ])

-- The statuses that mean that the player is in no room.
unfoldable pub is_outside : Bytes → Bool
is_outside status =
    text_eq status (b'0' ∷ [])
    || text_eq status (b'1' ∷ [])
    || text_eq status (b'3' ∷ [])
    || text_eq status (b'4' ∷ [])

-- The end of ProcessGPStatusUpdate: the session at the sender's address leaves its group.
unfoldable pub leave_room : Bytes → ℕ → State → State
leave_room status sender_ip s =
    if is_outside status
    then (elim (lookup sender_ip s.sessions) [ none ↦ s | some p ↦ remove_from_group p s ])
    else s

-- The login's session, or else the one at the sender's address, once it has the profile ID.
unfoldable pub status_session : ℕ → ℕ → ℕ → State → Outcome (Option ℕ × State)
status_session profile_id l sender_ip s = elim (s.login_at l).session [
  | some p ↦ returns (some p, s)
  | none ↦ if sender_ip == 0 then returns (none, s) else (elim (lookup sender_ip s.sessions) [
    | none ↦ returns (none, s)
    | some p ↦ do
      (valid, s') ← set_profile_id p (itoa profile_id) [] s
      returns ((if valid then some p else none), s')
  ])
]

-- ProcessGPStatusUpdate, with whether the exploit is sent; sending it is left out, as it runs
-- without the lock.
unfoldable pub process_gp_status_update : ℕ → ℕ → Bytes → State → Outcome (Bool × State)
process_gp_status_update profile_id sender_ip status s = elim (lookup profile_id s.logins) [
  | none ↦ returns (false, s)
  | some l ↦ do
    (found, s') ← status_session profile_id l sender_ip s
    returns (elim found [
      | none ↦ (false, s')
      | some p ↦ (sends_exploit status p s', leave_room status sender_ip s')
    ])
]

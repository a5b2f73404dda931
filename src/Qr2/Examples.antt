-- ===== src/Qr2/Examples.antt =====
-- Tests of the QR2 model, and the theorems on concrete sessions, logins and groups.
use wfc_server.Prelude.{
  inl, ℕ, ◌≡◌, ◌≢◌, refl, ◌⊎◌, ◌↔◌, Bool, true, false, not, Option, none, some, List, [], ◌∷◌, ◌++◌,
  ◌==◌, leb, if◌then◌else◌, length, Outcome, returns, panics, arith,
}
use wfc_server.Prelude.Words.{Bytes}
use wfc_server.Prelude.Int.{ℤ}
use wfc_server.Prelude.NatMap.{lookup, delete}
use wfc_server.Prelude.Text.{codes, text_eq, itoa, itoa_loop}
use wfc_server.Prelude.TextMap.{write, named, field, set_named}
use wfc_server.IpAddress.{UdpAddr, make_lookup_addr, addr_string, host_of, ip_string}
use wfc_server.Qr2.{
  State, Session, LoginInfo, Group, Fields, data_of, conn, conn_of, joinindex, dwc_pid, dwc_mtype,
  dwc_hoststate, has, without,
}
use wfc_server.Qr2.Host.{candidate, ltb_int, find_new_server}
use wfc_server.Qr2.HostChoice.{find_new_server-minimal}
use wfc_server.Qr2.Remove.{remove_from_group, remove_session, login, logout}
use wfc_server.Qr2.Removal.{remove_from_group-leaves, remove_session-unlinks}
use wfc_server.Qr2.Profile.{parse_pid, check_valid_rating, set_profile_id}
use wfc_server.Qr2.Claim.{set_profile_id-claims}
use wfc_server.Qr2.Groups.{process_resv_ok}
use wfc_server.Qr2.Joining.{IsTogether, process_resv_ok-IsTogether}
use wfc_server.Qr2.Membership.{IsMembership}
use wfc_server.Qr2.Reservation.{
  Verdict, check_reservation_allowed, conn_fail, process_natneg_report,
}
use wfc_server.Qr2.Restricted.{HasPrivateType, check_reservation_allowed_iff}
use wfc_server.Qr2.NatnegReport.{process_natneg_report-marks}
use wfc_server.Qr2.Host.{update_match_type, server_loop, consider, chosen}
use wfc_server.Qr2.Remove.{unlink_login, leave, forget_connections, forget_all, settle_group}
use wfc_server.Qr2.Groups.{connect_players, add_player, set_conn}
use wfc_server.Qr2.Profile.{claim_profile, open_profile, remove_outdated, is_public_match_region}
use wfc_server.Qr2.{set_group, set_login, set_data, has_prefix, is_at}
use wfc_server.Prelude.Text.{atoi, parse_digits, contains, split}
use wfc_server.Prelude.TextMap.{delete_where, delete_named}
use wfc_server.IpAddress.{
  ip_format_to_string, ip_format_to_int, split_port, or_octets, parse_int, format_int32,
}
use wfc_server.Qr2.Linked.{IsLinked}
use wfc_server.Qr2.LinkedRuns.{Run, Step, IsElsewhere, Run-IsLinked}
use wfc_server.Qr2.Logout.{logout-ends_session, logout-login}

abbrev host_udp : UdpAddr
host_udp = record { a = 1; b = 2; c = 3; d = 4; port = 100 }

abbrev guest_udp : UdpAddr
guest_udp = record { a = 5; b = 6; c = 7; d = 8; port = 200 }

abbrev lone_udp : UdpAddr
lone_udp = record { a = 9; b = 9; c = 9; d = 9; port = 300 }

abbrev host_key : ℕ
host_key = 429513638660

abbrev guest_key : ℕ
guest_key = 859077740296

abbrev lone_key : ℕ
lone_key = 1288641775881

abbrev session : ℕ → UdpAddr → Fields → Option ℕ → Option ℕ → Session
session n addr data_map login_pointer group = record {
  session_id = n;
  search_id = n;
  addr = addr;
  challenge = [];
  authenticated = true;
  login = login_pointer;
  exploit_received = false;
  last_keep_alive = 0;
  endianness = 1;
  fields = data_map;
  packet_count = 0;
  reservation_id = 0;
  group_pointer = group;
  group_name = codes "ROOM";
}

abbrev info : ℕ → Bool → Bool → Option ℕ → LoginInfo
info pid authenticated restricted held = record {
  profile_id = pid;
  game_code = codes "RMCE";
  in_game_name = [];
  console_friend_code = 0;
  friend_key_game = codes "RMCJ";
  gp_public_ip = codes "9.9.9.9:5";
  needs_exploit = false;
  device_authenticated = authenticated;
  restricted = restricted;
  open_host = false;
  session = held;
}

abbrev room : List ℕ → Option ℕ → Group
room players host = record {
  group_id = 7;
  group_name = codes "ROOM";
  game_name = [];
  match_type = codes "private";
  mkw_region = [];
  last_join_index = 1;
  server = host;
  players = players;
}

abbrev host_fields : Fields
host_fields = (joinindex, codes "0") ∷ (dwc_hoststate, codes "2") ∷ (dwc_pid, codes "7") ∷ []

abbrev guest_fields : Fields
guest_fields =
    (joinindex, codes "1") ∷ (dwc_hoststate, codes "2") ∷ (codes "+conn_0", codes "1") ∷ []

-- A host 1 and a guest 2 in the group 10, and the session 3, which has not logged in.
abbrev lobby : State
lobby = record {
  session_at = λ n.
      if n == 1
      then session 1 host_udp host_fields (some 21) (some 10)
      else if n == 2
      then session 2 guest_udp guest_fields (some 22) (some 10)
      else session 3 lone_udp [] none none;
  login_at = λ n.
      if n == 21
      then info 7 true false (some 1)
      else if n == 22
      then info 8 true true (some 2)
      else info 9 true false none;
  group_at = λ n. if n == 10 then room (1 ∷ 2 ∷ []) (some 1) else room [] none;
  next = 30;
  sessions = (host_key, 1) ∷ (guest_key, 2) ∷ (lone_key, 3) ∷ [];
  session_by_search_id = (1, 1) ∷ (2, 2) ∷ (3, 3) ∷ [];
  logins = (7, 21) ∷ (8, 22) ∷ (9, 23) ∷ [];
  groups = (codes "ROOM", 10) ∷ [];
  gp_errors = [];
}

lobby-IsMembership : IsMembership lobby
unfolding IsMembership has
lobby-IsMembership g p h = ground arith

-- The guest takes over when the host leaves.
test_host_leaves : ((remove_session host_key lobby).group_at 10).server ≡ some 2
unfolding remove_session unlink_login remove_from_group leave forget_connections forget_all
    settle_group find_new_server update_match_type server_loop consider candidate chosen ltb_int
    wfc_server.Qr2.set_session set_group set_login write data_of field named delete_where
    delete_named set_named has_prefix is_at without has lookup delete text_eq atoi parse_digits
test_host_leaves = refl

test_guest_leaves : ((remove_session guest_key lobby).group_at 10).server ≡ some 1
unfolding remove_session unlink_login remove_from_group leave forget_connections forget_all
    settle_group find_new_server update_match_type server_loop consider candidate chosen ltb_int
    wfc_server.Qr2.set_session set_group set_login write data_of field named delete_where
    delete_named set_named has_prefix is_at without has lookup delete text_eq atoi parse_digits
test_guest_leaves = refl

abbrev opened_lone : Outcome (Bool × State)
opened_lone = set_profile_id 3 (codes "9") [] lobby

-- The state that an outcome holds.
abbrev state_of : Outcome (Bool × State) → State
state_of (returns r) = r.1
state_of panics = lobby

abbrev no_ip : Bytes
no_ip = []

abbrev yes : Bool
yes = true

abbrev by_friend : ℕ
by_friend = 2

abbrev joined : Option (Bool × State)
joined = process_resv_ok [] 90 1 5 1 1 3 lobby

abbrev joined_state : Option (Bool × State) → State
joined_state none = lobby
joined_state (some r) = r.1

find_new_server-minimal_example :
    ((p : ℕ)
      → ((find_new_server 10 lobby).group_at 10).server ≡ some p
      → (has p (lobby.group_at 10).players ≡ true)
        × ((i : ℤ) × (candidate lobby p ≡ some i)
            × ((q : ℕ) (j : ℤ)
                → has q (lobby.group_at 10).players ≡ true
                → candidate lobby q ≡ some j
                → ltb_int j i ≡ false)))
    × (((find_new_server 10 lobby).group_at 10).server ≡ none
        → (q : ℕ) → has q (lobby.group_at 10).players ≡ true
        → candidate lobby q ≡ none)
find_new_server-minimal_example = find_new_server-minimal 10 lobby

remove_from_group-leaves_example :
    let s' = remove_from_group 1 lobby in
    ((s'.session_at 1).group_pointer ≡ none)
    × ((x : Bytes) → named (conn ++ x) (s'.session_at 1).fields ≡ none)
    × (has 1 (s'.group_at 10).players ≡ false)
    × ((q : ℕ) → 1 ≢ q → has q (s'.group_at 10).players ≡ has q (lobby.group_at 10).players)
    × ((q : ℕ) → 1 ≢ q → (s'.session_at q).group_pointer ≡ (lobby.session_at q).group_pointer)
    × (without 1 (lobby.group_at 10).players ≡ []
        → named (lobby.group_at 10).group_name s'.groups ≡ none)
    × (s'.sessions ≡ lobby.sessions)
remove_from_group-leaves_example = remove_from_group-leaves 1 10 lobby refl

remove_session-unlinks_example :
    let s' = remove_session guest_key lobby in
    (lookup guest_key s'.sessions ≡ none)
    × (lookup (lobby.session_at 2).search_id s'.session_by_search_id ≡ none)
    × ((s'.session_at 2).group_pointer ≡ none)
    × ((s'.session_at 2).login ≡ none)
    × ((l : ℕ) → (lobby.session_at 2).login ≡ some l → (s'.login_at l).session ≡ none)
    × ((g : ℕ)
        → (lobby.session_at 2).group_pointer ≡ some g
        → has 2 (s'.group_at g).players ≡ false)
    × ((a : ℕ) → guest_key ≢ a → lookup a s'.sessions ≡ lookup a lobby.sessions)
unfolding lookup
remove_session-unlinks_example = remove_session-unlinks guest_key 2 lobby refl

process_resv_ok-IsTogether_example :
    IsMembership (joined_state joined)
    × (yes ≡ true → IsTogether (joined_state joined) 1 3)
    × (yes ≡ not (leb 100000 (length lobby.groups)))
unfolding process_resv_ok connect_players add_player set_conn set_data wfc_server.Qr2.set_session
    set_group write data_of field named set_named is_at has text_eq remove_from_group
process_resv_ok-IsTogether_example =
    process_resv_ok-IsTogether [] 90 1 5 1 1 3 lobby yes (joined_state joined) lobby-IsMembership
      refl

check_reservation_allowed_iff_example :
    (check_reservation_allowed 1 2 by_friend lobby ≡ Verdict.ok) ↔ (
      (((lobby.login_at 21).restricted ≡ false) × ((lobby.login_at 22).restricted ≡ false))
      ⊎ (((by_friend ≡ 2) ⊎ (by_friend ≡ 3)) × HasPrivateType lobby 2))
check_reservation_allowed_iff_example =
    check_reservation_allowed_iff 1 2 by_friend 21 22 lobby refl refl

set_profile_id-claims_example :
    (profile_id : ℕ) × (l : ℕ) × (parse_pid (codes "9") ≡ some profile_id)
    × (lookup profile_id lobby.logins ≡ some l)
    × (((state_of opened_lone).login_at l).session ≡ some 3)
    × (data_of (state_of opened_lone) 3 dwc_pid ≡ (codes "9"))
    × (data_of (state_of opened_lone) 3 (codes "+deviceauth")
        ≡ (if (lobby.login_at l).device_authenticated then b'1' ∷ [] else b'0' ∷ []))
    × (check_valid_rating (lobby.session_at 3).fields ≡ codes "ok")
    × (no_ip ≡ [] ⊎ no_ip ≡ host_of (lobby.login_at l).gp_public_ip)
unfolding set_profile_id claim_profile open_profile remove_outdated check_valid_rating
    is_public_match_region parse_pid parse_digits itoa itoa_loop lookup data_of field named
    set_named set_data wfc_server.Qr2.set_session set_login write text_eq ip_format_to_string
    ip_format_to_int split_port or_octets parse_int format_int32 host_of contains split atoi
set_profile_id-claims_example =
    set_profile_id-claims 3 (codes "9") no_ip lobby (state_of opened_lone) refl refl

process_natneg_report-marks_example :
    (s' : State) × (process_natneg_report 2 (codes "1.2.3.4:100") (codes "5.6.7.8:200") lobby
      ≡ returns s')
    × (data_of s' 1 (conn_of lobby 2) ≡ (if 2 == 1 then b'2' ∷ [] else b'3' ∷ []))
    × (data_of s' 1 conn_fail ≡ (if 2 == 1 then data_of lobby 1 conn_fail else itoa 1))
    × (data_of s' 2 (conn_of lobby 1) ≡ (if 2 == 1 then b'2' ∷ [] else b'3' ∷ []))
    × (data_of s' 2 conn_fail ≡ (if 2 == 1 then data_of lobby 2 conn_fail else itoa 1))
unfolding lookup data_of field named make_lookup_addr ip_format_to_int split_port or_octets
    parse_int contains split atoi parse_digits text_eq
process_natneg_report-marks_example =
    process_natneg_report-marks 2 host_key guest_key 1 2 10 0 0 (codes "1.2.3.4:100")
      (codes "5.6.7.8:200") lobby refl refl refl refl refl refl (omega arith) (ground arith)
      (ground arith) (inl (refl, refl)) (inl (refl, refl))

logout-ends_session_example :
    (s' : State) × (logout 8 lobby ≡ returns s')
    × (lookup 8 s'.logins ≡ none)
    × (lookup guest_key s'.sessions ≡ none)
    × ((s'.session_at 2).login ≡ none)
    × ((s'.session_at 2).group_pointer ≡ none)
    × ((a : ℕ) → guest_key ≢ a → lookup a s'.sessions ≡ lookup a lobby.sessions)
unfolding lookup make_lookup_addr addr_string ip_string itoa itoa_loop ip_format_to_int split_port
    or_octets parse_int contains split atoi parse_digits
logout-ends_session_example = logout-ends_session 8 22 2 guest_key lobby refl refl refl refl

logout-login_example :
    (s' : State) × (logout 8 (login 8 (info 8 true false none) lobby) ≡ returns s')
    × (s'.sessions ≡ lobby.sessions)
    × (s'.session_at ≡ lobby.session_at)
    × (lookup 8 s'.logins ≡ none)
logout-login_example = logout-login 8 (info 8 true false none) lobby

lobby-IsLinked : IsLinked lobby
unfolding IsLinked
lobby-IsLinked l p h = ground arith

lobby-IsElsewhere : IsElsewhere 3 lobby
unfolding IsElsewhere lookup make_lookup_addr addr_string ip_string itoa itoa_loop ip_format_to_int
    split_port or_octets parse_int contains split atoi parse_digits
lobby-IsElsewhere l old addr held at_addr = ground arith

-- The lone session claims a profile, another profile logs in again, and the host's session is
-- removed.
Run-IsLinked_example :
    IsLinked (remove_session host_key (login 8 (info 8 true false none) (state_of opened_lone)))
unfolding set_profile_id claim_profile open_profile remove_outdated check_valid_rating
    is_public_match_region parse_pid parse_digits itoa itoa_loop lookup data_of field named
    set_named set_data wfc_server.Qr2.set_session set_login write text_eq ip_format_to_string
    ip_format_to_int split_port or_octets parse_int format_int32 host_of contains split atoi
Run-IsLinked_example =
    Run-IsLinked
      (Run.then_step
        (Run.then_step
          (Run.then_step Run.start
            (Step.claims 3 (codes "9") no_ip true refl lobby-IsElsewhere refl))
          (Step.logs_in 8 (info 8 true false none) refl))
        (Step.removes host_key refl))
      lobby-IsLinked

-- ===== src/Gpcm/Examples.antt =====
-- Tests of the friend lists of gpcm/, and the theorems on two players.
use wfc_server.Prelude.{
  ℕ, zero, suc, ◌+◌, ◌≡◌, ◌≢◌, refl, Bool, true, false, none, some, List, [], ◌∷◌, ◌==◌, get_elem?,
  inl, inr, returns, if◌then◌else◌, Bool-cases, arith,
}
use wfc_server.Prelude.Words.{Bytes}
use wfc_server.Prelude.Text.{codes, text_eq, parse_digits}
use wfc_server.Prelude.NatMap.{lookup, delete}
use wfc_server.Prelude.TextMap.{write}
use wfc_server.Qr2.{State, has_prefix}
use wfc_server.Qr2.Groups.{process_gp_status_update}
use wfc_server.Qr2.Remove.{logout, logout_session}
use wfc_server.Gpcm.{LinkStage, GameSpySession, Presence, set_player, send, online, parse_uint32}
use wfc_server.Gpcm.FriendLists.{
  is_listed, is_friend_authorized, set_elem, remove_from_uint32_array, authorize,
  record_status_sent, is_blocked, send_logout_status, open_host_disabled,
}
use wfc_server.Gpcm.Friends.{
  is_bm1_auth_message_needed, give_status, send_friend_status, greet, befriend, add_to_list,
  add_locked, add_friend,
}
use wfc_server.Gpcm.Status.{leave_qr2, close_connection}
use wfc_server.Gpcm.Counts.{count_of}
use wfc_server.Gpcm.OpenHost.{open_host_disabled-clears, open_host_disabled-parts}
use wfc_server.Gpcm.Befriending.{new_links, add_locked-count_of}
use wfc_server.Gpcm.Sound.{IsSoundSession, IsSound}
use wfc_server.Gpcm.Run.{Step, Run, Run-IsSound}
use wfc_server.Gpcm.Closing.{close_connection-removes, close_connection-parts}

abbrev player : ℕ → Bool → List ℕ → List ℕ → GameSpySession
player id host friends auth = record {
  profile_id = id;
  gsbr_code = codes "RMCJ";
  open_host = host;
  restricted = false;
  link_stage = LinkStage.ls_none;
  logged_in = true;
  game_name = codes "mariokartwii";
  game_code = codes "RMCE";
  unit_code = 1;
  status_set = true;
  status = [];
  loc_string = [];
  friend_list = friends;
  auth_friend_list = auth;
  recv_status_from_list = [];
  qr2_ip = 0;
  needs_exploit = false;
}

-- An empty qr2: no pointer is in use.
abbrev no_sessions : State
no_sessions = record {
  session_at = λ p. record {
    session_id = 0;
    search_id = 0;
    addr = record { a = 0; b = 0; c = 0; d = 0; port = 0 };
    challenge = [];
    authenticated = false;
    login = none;
    exploit_received = false;
    last_keep_alive = 0;
    endianness = 0;
    fields = [];
    packet_count = 0;
    reservation_id = 0;
    group_pointer = none;
    group_name = [];
  };
  login_at = λ p. record {
    profile_id = 0;
    game_code = [];
    in_game_name = [];
    console_friend_code = 0;
    friend_key_game = [];
    gp_public_ip = [];
    needs_exploit = false;
    device_authenticated = false;
    restricted = false;
    open_host = false;
    session = none;
  };
  group_at = λ p. record {
    group_id = 0;
    group_name = [];
    game_name = [];
    match_type = [];
    mkw_region = [];
    last_join_index = 0;
    server = none;
    players = [];
  };
  next = 0;
  sessions = [];
  session_by_search_id = [];
  logins = [];
  groups = [];
  gp_errors = [];
}

-- Memory with two players, under the pointers 1 and 2.
abbrev two_at : GameSpySession → GameSpySession → ℕ → GameSpySession
two_at x y zero = player 0 false (9 ∷ []) []
two_at x y (suc zero) = x
two_at x y (suc (suc n)) = y

abbrev two : GameSpySession → GameSpySession → Presence
two x y = record {
  player_at = two_at x y;
  players = (100, 1) ∷ (200, 2) ∷ [];
  sent = [];
  qr2 = no_sessions;
}

abbrev friends : Presence
friends = two (player 100 false (200 ∷ []) (200 ∷ [])) (player 200 false (100 ∷ []) (100 ∷ []))

abbrev strangers : Presence
strangers = two (player 100 false [] []) (player 200 false (100 ∷ []) [])

abbrev hosting : Presence
hosting = two (player 100 true [] (200 ∷ [])) (player 200 false (100 ∷ []) (100 ∷ []))

-- The list that a removal leaves.
remove_first : remove_from_uint32_array (5 ∷ 6 ∷ 7 ∷ []) (some 0) ≡ 7 ∷ 6 ∷ []
unfolding remove_from_uint32_array set_elem
remove_first = refl

-- A player who is removed and added again is in the other's list twice.
abbrev removed_once : Presence
removed_once = two (player 100 false [] []) (player 200 false (100 ∷ []) (100 ∷ []))

add_locked_twice : count_of 100 ((add_locked 1 200 removed_once).player_at 2).auth_friend_list ≡ 2
unfolding add_locked set_player write add_to_list is_listed online lookup text_eq befriend greet
    authorize is_bm1_auth_message_needed send send_friend_status give_status is_blocked has_prefix
    record_status_sent count_of
add_locked_twice = refl

only_friend : (k other : ℕ) → get_elem? (200 ∷ []) k ≡ some other → other ≡ 200
only_friend zero other e = ground arith
only_friend (suc k) other e = ground arith

abbrev table : List (ℕ × ℕ)
table = (100, 1) ∷ (200, 2) ∷ []

table_foreign : (other : ℕ) → other ≡ 200 → lookup other table ≢ some 1
unfolding lookup
table_foreign other e found = ground arith

two_at_keyed :
    (x y : GameSpySession) (id q : ℕ)
    → x.profile_id ≡ 100
    → y.profile_id ≡ 200
    → lookup id table ≡ some q
    → (two_at x y q).profile_id ≡ id
unfolding lookup
two_at_keyed x y id q ex ey found = elim (Bool-cases (100 == id)) [
  | inl first ↦ let at : q ≡ 1 = ground arith in rw at (ground arith)
  | inr later ↦ let at : q ≡ 2 = ground arith in rw at (ground arith)
]

two_at-IsSoundSession :
    (x y : GameSpySession)
    → IsSoundSession x
    → IsSoundSession y
    → (r : ℕ) → IsSoundSession (two_at x y r)
unfolding IsSoundSession count_of
two_at-IsSoundSession x y hx hy zero = (refl, refl, (λ p. ground arith), (λ p. omega arith))
two_at-IsSoundSession x y hx hy (suc zero) = hx
two_at-IsSoundSession x y hx hy (suc (suc n)) = hy

two_at-IsSound :
    (x y : GameSpySession)
    → x.profile_id ≡ 100
    → y.profile_id ≡ 200
    → IsSoundSession x
    → IsSoundSession y
    → IsSound (two x y)
unfolding IsSound
two_at-IsSound x y ex ey hx hy =
    ((λ id q found. two_at_keyed x y id q ex ey found), two_at-IsSoundSession x y hx hy)

add_locked-count_of_example :
    count_of 100 ((add_locked 1 200 strangers).player_at 2).auth_friend_list
    ≡ count_of 100 (strangers.player_at 2).auth_friend_list
      + new_links 1 200 (online 200 strangers) strangers 2 100
unfolding lookup
add_locked-count_of_example = add_locked-count_of 1 200 2 100 strangers (ground arith)

open_host_disabled-clears_example :
    ((open_host_disabled 1 hosting).player_at 1).auth_friend_list ≡ []
unfolding is_listed
open_host_disabled-clears_example =
    open_host_disabled-clears 1 hosting
      λ k other at. (refl, table_foreign other (only_friend k other at))

open_host_disabled-parts_example : is_friend_authorized 2 100 (open_host_disabled 1 hosting) ≡ false
unfolding lookup is_listed count_of
open_host_disabled-parts_example =
    open_host_disabled-parts 1 200 2 hosting
      (λ k other at. (refl, table_foreign other (only_friend k other at))) refl refl refl
      (omega arith)

strangers-IsSound : IsSound strangers
unfolding IsSoundSession count_of
strangers-IsSound =
    two_at-IsSound _ _ refl refl (refl, refl, (λ p. omega arith), (λ p. omega arith))
      (refl, refl, (λ p. ground arith), (λ p. omega arith))

friends-IsSound : IsSound friends
unfolding IsSoundSession count_of
friends-IsSound =
    two_at-IsSound _ _ refl refl (refl, refl, (λ p. ground arith), (λ p. omega arith))
      (refl, refl, (λ p. ground arith), (λ p. omega arith))

abbrev bot : Bytes
bot = codes "1"

add_friend-strangers :
    add_friend bot 1 (codes "200") strangers ≡ returns (add_locked 1 200 strangers)
unfolding add_friend text_eq parse_uint32 parse_digits
add_friend-strangers = refl

Run-IsSound_example : IsSound (add_locked 1 200 strangers)
Run-IsSound_example = Run-IsSound bot strangers (add_locked 1 200 strangers) strangers-IsSound (
    Run.then_step strangers strangers (add_locked 1 200 strangers) (Run.done strangers)
      (Step.added 1 (codes "200") strangers (add_locked 1 200 strangers) add_friend-strangers))

abbrev after_close : Presence
after_close =
    let s = set_player 1 (λ y. record y { logged_in = false }) (send_logout_status 1 friends) in
    record s { players = delete 100 s.players }

close_connection-friends : close_connection 1 friends ≡ returns after_close
unfolding close_connection logout logout_session lookup delete leave_qr2 process_gp_status_update
close_connection-friends = refl

close_connection-removes_example :
    (lookup 200 after_close.players ≡ (if 100 == 200 then none else lookup 200 friends.players))
    × ((after_close.player_at 1).logged_in ≡ false)
close_connection-removes_example =
    close_connection-removes 1 200 friends after_close refl close_connection-friends

close_connection-parts_example : is_friend_authorized 2 100 after_close ≡ false
unfolding lookup is_listed count_of
close_connection-parts_example =
    close_connection-parts 1 200 2 friends after_close friends-IsSound refl close_connection-friends
      refl refl refl (omega arith)

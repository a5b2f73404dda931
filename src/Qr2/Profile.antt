-- ===== src/Qr2/Profile.antt =====
-- qr2/session.go: setProfileID and setSessionData; qr2/heartbeat.go: checkValidRating.
use wfc_server.Prelude.{
  ℕ, suc, Bool, true, false, not, ◌&&◌, ◌||◌, Option, none, some, List, [], ◌∷◌, ◌++◌, ltb, leb,
  ◌==◌, if◌then◌else◌, length, get_elem?, Outcome, returns, ◌>>=◌,
}
use wfc_server.Prelude.Words.{Bytes}
use wfc_server.Prelude.Int.{ℤ, pos, negsuc}
use wfc_server.Prelude.NatMap.{lookup, insert, is_some}
use wfc_server.Prelude.Text.{codes, text_eq, itoa, atoi, parse_digits}
use wfc_server.Prelude.TextMap.{write, named, field, set_named, delete_named}
use wfc_server.IpAddress.{UdpAddr, make_lookup_addr, addr_string, host_of, ip_format_to_string}
use wfc_server.Qr2.{State, Session, Fields, set_session, set_login, set_data, has_prefix, dwc_pid}
use wfc_server.Qr2.Remove.{remove_session_of}

-- isPublicMatchRegion: whether the region is public, and whether it is for battles.
unfoldable pub is_public_match_region : Bytes → Bool × Bool
is_public_match_region rk =
    if text_eq rk (codes "vs")
    then (true, false)
    else if text_eq rk (codes "bt")
    then (true, true)
    else (elim (get_elem? rk 3) [
      | none ↦ (false, false)
      | some c ↦
          if length rk == 4 && leb b'0' c && ltb c b'6'
          then if has_prefix (codes "vs_") rk
            then (true, false)
            else if has_prefix (codes "bt_") rk
            then (true, true)
            else (false, false)
          else (false, false)
    ])

-- strconv.ParseInt with 16 bits.
unfoldable pub parse_int16 : Bytes → Option ℤ
parse_int16 s = elim (atoi s) [
  | none ↦ none
  | some v ↦ elim v [
    | pos n ↦ if leb n 0x7fff then some (pos n) else none
    | negsuc n ↦ if ltb n 0x8000 then some (negsuc n) else none
  ]
]

unfoldable pub is_valid_rating : Bytes → Bool
is_valid_rating s = elim (parse_int16 s) [
  | none ↦ false
  | some v ↦ elim v [ pos n ↦ leb 1 n && leb n 1000000 | negsuc n ↦ false ]
]

-- checkValidRating, "ok" or "invalid_elo".
unfoldable pub check_valid_rating : Fields → Bytes
check_valid_rating payload =
    let (public, is_battle) = is_public_match_region (field (codes "rk") payload) in
    let ev = field (codes "ev") payload in
    let eb = field (codes "eb") payload in
    if not (text_eq (field (codes "gamename") payload) (codes "mariokartwii"))
    then codes "ok"
    else if not public
    then codes "ok"
    else if not is_battle && not (text_eq ev [])
    then if is_valid_rating ev then codes "ok" else codes "invalid_elo"
    else if is_battle && not (text_eq eb [])
    then if is_valid_rating eb then codes "ok" else codes "invalid_elo"
    else codes "ok"

-- strconv.ParseUint with 32 bits, where formatting the number gives the text back.
unfoldable pub parse_pid : Bytes → Option ℕ
parse_pid [] = none
parse_pid (c ∷ s) = elim (parse_digits 0 (c ∷ s)) [
  | none ↦ none
  | some n ↦ if leb n 0xffffffff && text_eq (itoa n) (c ∷ s) then some n else none
]

-- The constraint that one session at most has a profile ID.
unfoldable pub remove_outdated : Option ℕ → State → Outcome State
remove_outdated none s = returns s
remove_outdated (some old) s = remove_session_of old s

-- The end of setProfileID: the session p gets the login l.
unfoldable pub open_profile : ℕ → ℕ → Bytes → State → Outcome (Bool × State)
open_profile p l new_pid s = do
  let s₁ = set_session p (λ x. record x { login = some l }) s
  s₂ ← remove_outdated (s₁.login_at l).session s₁
  let s₃ = set_login l (λ x. record x { session = some p }) s₂
  let auth = if (s₃.login_at l).device_authenticated then b'1' ∷ [] else b'0' ∷ []
  let s₄ = set_data p (codes "+deviceauth") auth s₃
  (ip, port) ← ip_format_to_string (host_of (s₄.login_at l).gp_public_ip)
  let s₅ = set_data p (codes "+gppublicip") ip s₄
  let s₆ = set_data p (codes "+fcgameid") (s₅.login_at l).friend_key_game s₅
  returns (true, set_data p dwc_pid new_pid s₆)

-- A new profile ID, checked against the logins.
unfoldable pub claim_profile : ℕ → Bytes → Bytes → State → Outcome (Bool × State)
claim_profile p new_pid gpcm_ip s = elim (parse_pid new_pid) [
  | none ↦ returns (false, s)
  | some profile_id ↦ elim (lookup profile_id s.logins) [
    | none ↦ returns (false, s)
    | some l ↦
        let rating = check_valid_rating (s.session_at p).fields in
        if not (text_eq gpcm_ip []) && not (text_eq gpcm_ip (host_of (s.login_at l).gp_public_ip))
        then returns (false, s)
        else if not (text_eq rating (codes "ok"))
        then returns (
          false,
          record s { gp_errors = s.gp_errors ++ ((s.login_at l).profile_id, rating) ∷ [] },
        )
        else open_profile p l new_pid s
  ]
]

-- setProfileID: whether the profile ID is valid.
unfoldable pub set_profile_id : ℕ → Bytes → Bytes → State → Outcome (Bool × State)
set_profile_id p new_pid gpcm_ip s =
    let old_pid = field dwc_pid (s.session_at p).fields in
    if not (text_eq old_pid [])
    then returns (text_eq new_pid old_pid, s)
    else claim_profile p new_pid gpcm_ip s

-- The first of the random numbers that no session has as its search ID.
unfoldable pub free_search_id : List ℕ → List (ℕ × ℕ) → Option ℕ
free_search_id [] m = none
free_search_id (d ∷ draws) m = if is_some (lookup d m) then free_search_id draws m else some d

abbrev new_session : ℕ → UdpAddr → ℕ → Fields → Session
new_session session_id addr now payload = record {
  session_id = session_id;
  search_id = 0;
  addr = addr;
  challenge = [];
  authenticated = false;
  login = none;
  exploit_received = false;
  last_keep_alive = now;
  endianness = 2;
  fields = payload;
  packet_count = 0;
  reservation_id = 0;
  group_pointer = none;
  group_name = [];
}

-- The session p gets a search ID and its place in the tables.
unfoldable pub enter_session : ℕ → ℕ → ℕ → State → State
enter_session p addr id s =
    let s' = set_session p (λ x. record x { search_id = id }) s in
    record (set_data p (codes "+searchid") (itoa id) s') {
      session_by_search_id = insert id p s'.session_by_search_id;
      sessions = insert addr p s'.sessions;
    }

-- The fields that an update keeps: `k[0]` of an empty name panics, and no name is empty.
unfoldable pub keep_fields : Fields → Fields → Fields
keep_fields [] payload = payload
keep_fields ((k, v) ∷ old) payload =
    if has_prefix (b'+' ∷ []) k || text_eq k dwc_pid
    then keep_fields old (set_named k v payload)
    else keep_fields old payload

-- The profile ID of the payload, if there is one.
unfoldable pub check_profile : Option Bytes → ℕ → State → Outcome (Bool × State)
check_profile none p s = returns (true, s)
check_profile (some new_pid) p s = set_profile_id p new_pid [] s

unfoldable pub create_session :
    List ℕ → ℕ → ℕ → UdpAddr → ℕ → Option Bytes → Fields → State → Outcome (Option (Bool × State))
create_session draws now addr_key addr session_id new_pid payload s = do
  let p = s.next
  let s₁ = record s {
    session_at = write p (new_session session_id addr now payload) s.session_at;
    next = suc p;
  }
  (valid, s₂) ← check_profile new_pid p s₁
  returns (
      if not valid then some (false, s₂) else (elim (free_search_id draws s₂.session_by_search_id) [
        | none ↦ none
        | some id ↦ some (true, enter_session p addr_key id s₂)
      ]))

unfoldable pub update_session :
    ℕ → ℕ → ℕ → Option Bytes → Fields → State → Outcome (Option (Bool × State))
update_session now p session_id new_pid payload s = do
  (valid, s') ← check_profile new_pid p s
  returns (
      if not valid
      then some (false, s')
      else some (
        true,
        set_session p
            (λ x. record x {
              fields = keep_fields x.fields payload;
              last_keep_alive = now;
              session_id = session_id;
            })
            s',
      ))

-- setSessionData, at time `now`, with the random numbers that the search for an ID draws: none
-- stands for draws that ran out. The copy of the session that it returns is left out.
unfoldable pub set_session_data :
    List ℕ → ℕ → UdpAddr → ℕ → Fields → State → Outcome (Option (Bool × State))
set_session_data draws now addr session_id payload s = do
  let new_pid = named dwc_pid payload
  let rest = delete_named dwc_pid payload
  key ← make_lookup_addr (addr_string addr)
  elim (lookup key s.sessions) [
    | none ↦ create_session draws now key addr session_id new_pid rest s
    | some p ↦
        if not (text_eq (addr_string (s.session_at p).addr) (addr_string addr))
        then returns (some (false, s))
        else update_session now p session_id new_pid rest s
  ]

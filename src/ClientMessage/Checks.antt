-- ===== src/ClientMessage/Checks.antt =====
-- qr2/message.go: the checks of SendClientMessage on the message itself.
use wfc_server.Prelude.{
  ℕ, ◌+◌, ◌*◌, ◌/◌, ◌%◌, Bool, not, ◌&&◌, ◌||◌, Option, none, some, ◌∷◌, ◌++◌, ltb, leb, ◌==◌,
  if◌then◌else◌, length, take, drop, Outcome, returns, panics, ◌>>=◌,
}
use wfc_server.Prelude.Words.{Bytes, le32_at, be32_at, put_be32}
use wfc_server.Prelude.NatMap.{lookup}
use wfc_server.Prelude.Text.{codes, text_eq, itoa}
use wfc_server.IpAddress.{host_of}
use wfc_server.MatchCommand.{MatchCommandData, match_reservation, match_resv_ok, match_tell_addr}
use wfc_server.MatchCommand.Decode.{decode_match_command}
use wfc_server.MatchCommand.Encode.{encode_match_command}
use wfc_server.Qr2.{State, data_of}
use wfc_server.Qr2.Profile.{set_profile_id}
use wfc_server.ClientMessage.{Checked, only_if, index, has_device, is_natneg, is_match}

-- The checks of a reservation against the header's address. With a search ID the address is the
-- sender's search ID.
unfoldable pub check_reservation :
    Bool → ℕ → ℕ → ℕ → ℕ → MatchCommandData → Outcome (Option MatchCommandData)
check_reservation use_search_id version ip port search_id d = elim d.reservation [
  | none ↦ panics
  | some r ↦ only_if (not r.has_public_ip || (ip == r.public_ip && port == r.public_port)) (
      only_if (not (version == 90) || leb 1024 r.local_port) (
        returns (
          some (
            if use_search_id
            then record d {
              reservation = some (record r {
                public_ip = search_id % 0x100000000;
                public_port = search_id / 0x100000000 % 0x10000;
                local_ip = 0;
                local_port = 0;
              });
            }
            else d))))
]

unfoldable pub check_resv_ok :
    Bool → ℕ → ℕ → ℕ → ℕ → ℕ → MatchCommandData → Outcome (Option MatchCommandData)
check_resv_ok use_search_id version ip port search_id pid d = elim d.resv_ok [
  | none ↦ panics
  | some r ↦ only_if (ip == r.public_ip && port == r.public_port) (
      only_if (not (version == 90) || (leb 1024 r.local_port && r.profile_id == pid)) (
        returns (
          some (
            if use_search_id
            then record d {
              resv_ok = some (record r {
                public_ip = search_id % 0x100000000;
                public_port = search_id / 0x100000000 % 0x10000;
                local_ip = 0;
                local_port = 0;
              });
            }
            else d))))
]

unfoldable pub check_tell_addr :
    ℕ → ℕ → State → MatchCommandData → Outcome (Option MatchCommandData)
check_tell_addr sender receiver s d =
    only_if (text_eq (data_of s sender (codes "publicip")) (data_of s receiver (codes "publicip")))
      (elim d.tell_addr [
        | none ↦ panics
        | some r ↦ only_if (leb 1024 r.local_port) (returns (some d))
      ])

-- The checks that a command asks for.
unfoldable pub check_command :
    Bool → ℕ → ℕ → ℕ → ℕ → ℕ → ℕ → ℕ → State → MatchCommandData → Outcome (Option MatchCommandData)
check_command use_search_id command version ip port pid sender receiver s d =
    let search_id = (s.session_at sender).search_id in
    if command == match_reservation
    then check_reservation use_search_id version ip port search_id d
    else if command == match_resv_ok
    then check_resv_ok use_search_id version ip port search_id pid d
    else if command == match_tell_addr
    then check_tell_addr sender receiver s d
    else returns (some d)

-- A search ID in the place of the address, and the profile ID behind it.
unfoldable pub search_addr : ℕ → Bytes → Bytes
search_addr search_id message =
    (search_id / 0x100000000 % 0x100)
    ∷ (search_id / 0x10000000000 % 0x100)
    ∷ (put_be32 (search_id % 0x100000000) ++ take 4 (drop 0x10 message))

-- The header of what goes out.
unfoldable pub new_header : Bool → ℕ → Bytes → Bytes
new_header use_search_id search_id message =
    if use_search_id then take 0x0A message ++ search_addr search_id message else take 0x14 message

-- The end of the checks: the command is encoded again behind its header.
unfoldable pub reencode :
    Bool → ℕ → ℕ → State → Bytes → Option MatchCommandData → Outcome (Option Checked)
reencode use_search_id command sender s message none = returns none
reencode use_search_id command sender s message (some d) =
    encode_match_command command d >>= λ encoded. elim encoded [
      | none ↦ returns none
      | some body ↦ only_if (leb (length body) 0x80) (
          returns (
            some (record {
              sender = sender;
              command = command;
              match_data = d;
              bytes = new_header use_search_id (s.session_at sender).search_id message ++ body;
            })))
    ]

-- The fields of the header of a match command.
pub record Header : Type 0 where
  pub version : ℕ
  pub command : ℕ
  pub size : ℕ
  pub port : ℕ
  pub ip : ℕ
  pub profile_id : ℕ

unfoldable pub read_header : Bytes → Outcome Header
read_header message = do
  version ← le32_at message 0x04
  command ← index message 8
  size ← index message 9
  low ← index message 0x0A
  high ← index message 0x0B
  ip ← be32_at message 0x0C
  profile_id ← le32_at message 0x10
  returns (record {
    version = version;
    command = command;
    size = size;
    port = low + high * 0x100;
    ip = ip;
    profile_id = profile_id;
  })

-- The checks of a match command once the sender has its profile ID.
unfoldable pub check_match : Bool → ℕ → ℕ → Header → Bytes → State → Outcome (Option Checked)
check_match use_search_id sender receiver h message s = only_if (has_device sender s) (
    only_if (text_eq (data_of s sender (codes "gamename")) (data_of s receiver (codes "gamename")))
      (decode_match_command h.command (drop 0x14 message) h.version >>= λ decoded. elim decoded [
        | none ↦ returns none
        | some d ↦
            check_command use_search_id h.command h.version h.ip h.port h.profile_id sender receiver
              s d
            >>= λ checked. reencode use_search_id h.command sender s message checked
      ]))

-- The checks of a match command. The header says which session it comes from.
unfoldable pub check_header :
    Bool → Bytes → ℕ → Header → Bytes → State → Outcome (Option Checked × State)
check_header use_search_id sender_ip receiver h message s =
    if not (h.version == 3) && not (h.version == 11) && not (h.version == 90)
    then returns (none, s)
    else if not (h.size + 0x14 == length message)
    then returns (none, s)
    else (elim (lookup (h.port * 0x100000000 + h.ip) s.sessions) [
      | none ↦ returns (none, s)
      | some sender ↦ if not (s.session_at sender).authenticated then returns (none, s) else (do
        (valid, s') ← set_profile_id sender (itoa h.profile_id) (host_of sender_ip) s
        if not valid then returns (none, s') else (do
          checked ← check_match use_search_id sender receiver h message s'
          returns (checked, s')))
    ])

-- Decoding and validating the message; `inl` is a NATNEG cookie, which goes out as it is.
unfoldable pub check_message :
    Bool → Bytes → ℕ → Bytes → State → Outcome (Option (Option Checked) × State)
check_message use_search_id sender_ip receiver message s =
    if is_natneg message
    then returns ((if length message == 0x0A then some none else none), s)
    else if not (is_match message)
    then returns (none, s)
    else if ltb (length message) 0x14 || ltb 0x94 (length message)
    then returns (none, s)
    else (do
      h ← read_header message
      (checked, s') ← check_header use_search_id sender_ip receiver h message s
      returns ((elim checked [ none ↦ none | some c ↦ some (some c) ]), s'))

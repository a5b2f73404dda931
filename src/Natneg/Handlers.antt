-- ===== src/Natneg/Handlers.antt =====
-- The packet handlers of a session: natneg/init.go, natneg/report.go and natneg/preinit.go.
-- `addr` is addr.String() of the sender; `order` is the order of the loops in sendConnectRequests.
use wfc_server.Prelude.{
  ℕ, ◌+◌, ◌*◌, Bool, true, false, ◌&&◌, ◌||◌, Option, none, some, List, [], ◌∷◌, ◌++◌, ltb, ◌==◌,
  if◌then◌else◌, length, get_elem?, take, replicate, Outcome, returns, panics, ◌>>=◌,
}
use wfc_server.Prelude.Words.{Bytes}
use wfc_server.Prelude.Text.{text_eq}
use wfc_server.Prelude.NatMap.{lookup, insert}
use wfc_server.IpAddress.{UdpAddr, addr_string, make_lookup_addr}
use wfc_server.Natneg.{
  NatnegClient, NatnegSession, Clients, Effect, send, natneg_report, is_mapped,
  create_packet_header, nn_init_reply, nn_report_reply, nn_preinit_reply, port_type_game_port,
}
use wfc_server.Natneg.Connect.{modify, send_connect_requests}

-- common.GetString: the bytes in front of the first zero.
unfoldable pub get_string : Bytes → Option Bytes
get_string [] = none
get_string (c ∷ buf) =
    if c == 0 then some [] else (elim (get_string buf) [ none ↦ none | some s ↦ some (c ∷ s) ])

-- The fields of an init packet, its name being terminated.
pub record InitPacket : Type 0 where
  pub port_type : ℕ
  pub client_index : ℕ
  pub use_game_port : ℕ
  pub local_addr : UdpAddr
  pub game_name : Bytes

unfoldable pub parse_init : Bytes → Option InitPacket
parse_init (port_type ∷ client_index ∷ use_game_port ∷ i₀ ∷ i₁ ∷ i₂ ∷ i₃ ∷ p₀ ∷ p₁ ∷ name) =
    if ltb (length name) 1 then none else elim (get_string name) [
      | none ↦ none
      | some game_name ↦ some (record {
        port_type = port_type;
        client_index = client_index;
        use_game_port = use_game_port;
        local_addr = record { a = i₀; b = i₁; c = i₂; d = i₃; port = p₀ * 0x100 + p₁ };
        game_name = game_name;
      })
    ]
parse_init _ = none

unfoldable pub is_valid_init : InitPacket → Bool
is_valid_init p =
    if ltb 0x03 p.port_type
    then false
    else if ltb 1 p.use_game_port
    then false
    else if p.use_game_port == 0 && p.port_type == port_type_game_port
    then false
    else true

unfoldable pub init_ack : NatnegSession → ℕ → InitPacket → Bytes
init_ack session version p =
    create_packet_header version nn_init_reply session.cookie
    ++ (p.port_type ∷ p.client_index ∷ 0xff ∷ 0xff ∷ 0x6d ∷ 0x16 ∷ 0xb5 ∷ 0x7d ∷ 0xea ∷ [])

unfoldable pub same_game : Bytes → Clients → Bool
same_game name [] = true
same_game name ((k, other) ∷ cs) = text_eq other.game_name name && same_game name cs

abbrev new_client : NatnegSession → ℕ → NatnegClient
new_client session client_index = record {
  cookie = session.cookie;
  index = client_index;
  connecting_index = client_index;
  connect_ack = false;
  result = [];
  negotiate_ip = [];
  local_ip = [];
  server_ip = [];
  game_name = [];
}

-- The client of the packet, created if the game is that of the clients who are there.
unfoldable pub find_or_create : NatnegSession → InitPacket → Option NatnegClient
find_or_create session p = elim (lookup p.client_index session.clients) [
  | some sender ↦ some sender
  | none ↦
      if same_game p.game_name session.clients
      then some (new_client session p.client_index)
      else none
]

-- The addresses that the packet tells: which of them depends on the port that it came from.
unfoldable pub learn : Bytes → InitPacket → NatnegClient → NatnegClient
learn addr p c = record c {
  game_name = p.game_name;
  negotiate_ip = if p.port_type == port_type_game_port then c.negotiate_ip else addr;
  local_ip = if p.local_addr.port == 0 then c.local_ip else addr_string p.local_addr;
  server_ip =
      if p.use_game_port == 0 || p.port_type == port_type_game_port then addr else c.server_ip;
}

unfoldable pub init_client :
    NatnegSession → Bytes → InitPacket → List (ℕ × List ℕ) → NatnegSession × List Effect
init_client session addr p order = elim (find_or_create session p) [
  | none ↦ (session, [])
  | some c ↦
      let sender = learn addr p c in
      let clients = insert p.client_index sender session.clients in
      let (clients', out) = send_connect_requests order clients in
      if is_mapped sender
      then (record session { clients = clients' }, out)
      else (record session { clients = clients }, [])
]

unfoldable pub handle_init :
    NatnegSession → Bytes → Bytes → ℕ → List (ℕ × List ℕ) → NatnegSession × List Effect
handle_init session addr buffer version order = elim (parse_init buffer) [
  | none ↦ (session, [])
  | some p ↦
      let (session', out) = init_client session addr p order in
      if is_valid_init p
      then (session', send addr (init_ack session version p) ∷ out)
      else (session, [])
]

-- `buffer[:9]`: a slice may reach past the end of the packet into the receive buffer, which the
-- server made for this packet, and which holds zeros there.
abbrev nine : Bytes → Bytes
nine buffer = take 9 (buffer ++ replicate 9 0)

-- `response[14] = 0` is the third of the nine bytes.
abbrev clear_third : Bytes → Bytes
clear_third (a ∷ b ∷ c ∷ rest) = a ∷ b ∷ 0 ∷ rest
clear_third s = s

unfoldable pub report_ack : NatnegSession → ℕ → Bytes → Bytes
report_ack session version buffer =
    create_packet_header version nn_report_reply session.cookie ++ clear_third (nine buffer)

-- The result that counts once both clients have reported.
unfoldable pub combine : ℕ → ℕ → ℕ
combine result other_result = if other_result == 1 then result else other_result

unfoldable pub record_result : ℕ → ℕ → NatnegClient → NatnegClient
record_result connecting result c = record c { result = insert connecting result c.result }

unfoldable pub disconnect : ℕ → NatnegClient → NatnegClient
disconnect client_index c = record c { connecting_index = client_index; connect_ack = false }

-- The call of ProcessNATNEGReport, which parses the two addresses before it looks at any state, and
-- panics on an address that does not parse.
unfoldable pub tell_qr2 : ℕ → Bytes → Bytes → Outcome (List Effect)
tell_qr2 result ip₁ ip₂ = do
  key₁ ← make_lookup_addr ip₁
  key₂ ← make_lookup_addr ip₂
  returns (natneg_report result ip₁ ip₂ ∷ [])

-- A report of a client of the session: the call of ProcessNATNEGReport, if both have reported.
-- `connecting` is a nil pointer where no client has that index, and then its field is read.
unfoldable pub report_client : ℕ → ℕ → NatnegClient → Clients → Outcome (Clients × List Effect)
report_client client_index result client cs =
    let recorded = modify client_index (record_result client.connecting_index result) cs in
    let freed = modify client_index (disconnect client_index) recorded in
    elim (lookup client.connecting_index freed) [
      | none ↦ panics
      | some connecting ↦ elim (lookup client_index connecting.result) [
        | none ↦ returns (freed, [])
        | some other_result ↦ (do
          told ← tell_qr2 (combine result other_result) client.server_ip connecting.server_ip
          returns (freed, told))
      ]
    ]

unfoldable pub report_index : NatnegSession → ℕ → ℕ → Outcome (Clients × List Effect)
report_index session client_index result = elim (lookup client_index session.clients) [
  | none ↦ returns (session.clients, [])
  | some client ↦ report_client client_index result client session.clients
]

-- The guard lets a report of two bytes through, and its third byte is read.
unfoldable pub handle_report :
    NatnegSession → Bytes → Bytes → ℕ → List (ℕ × List ℕ) → Outcome (NatnegSession × List Effect)
handle_report session addr buffer version order =
    if ltb (length buffer) 2 then returns (session, []) else elim (get_elem? buffer 1) [
      | none ↦ panics
      | some client_index ↦ elim (get_elem? buffer 2) [
        | none ↦ panics
        | some result ↦ do
          (clients, reports) ← report_index session client_index result
          let (clients', loops) = send_connect_requests order clients
          returns (
            record session { clients = clients' },
            send addr (report_ack session version buffer) ∷ (reports ++ loops),
          )
      ]
    ]

-- handlePreinit answers that the client is ready.
unfoldable pub handle_preinit : NatnegSession → Bytes → Bytes → ℕ → List Effect
handle_preinit session addr buffer version = if ltb (length buffer) 6 then [] else elim buffer [
  | [] ↦ []
  | b₀ ∷ rest ↦ elim rest [
    | [] ↦ []
    | b₁ ∷ more ↦
        send addr (
          create_packet_header version nn_preinit_reply session.cookie ++ (b₀ ∷ 0x02 ∷ take 4 more))
        ∷ []
  ]
]

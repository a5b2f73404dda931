-- ===== src/Natneg/Examples.antt =====
-- Runs of the NAT negotiation, and its theorems at concrete inputs.
use wfc_server.Prelude.{
  ℕ, ◌≡◌, ◌≢◌, ◌↔◌, ◌⊎◌, ◌>>=◌, refl, true, false, some, List, [], ◌∷◌, ◌++◌, inl, length, returns,
  panics, arith,
}
use wfc_server.Prelude.Words.{Bytes, be_word}
use wfc_server.Prelude.Text.{codes, text_eq, itoa, itoa_loop, split, contains, atoi, parse_digits}
use wfc_server.Prelude.NatMap.{lookup, insert}
use wfc_server.IpAddress.{
  UdpAddr, addr_string, ip_string, make_lookup_addr, ip_format_to_int, split_port, or_octets,
  parse_int,
}
use wfc_server.Natneg.{
  NatnegClient, NatnegSession, Clients, send, natneg_report, connect_loop, is_mapped,
  create_packet_header, nn_connect_request,
}
use wfc_server.Natneg.Connect.{
  handle_connect_reply, modify, connect_to, is_ready, try_connect, connect_inner, connect_from,
  send_connect_requests, send_connect_request_packet,
}
use wfc_server.Natneg.Handlers.{
  handle_init, parse_init, get_string, is_valid_init, init_client, find_or_create, same_game, learn,
  report_client, record_result, disconnect, tell_qr2,
}
use wfc_server.Natneg.Panics.{IsBadReport}
use wfc_server.Natneg.Server.{
  NatnegServer, Packet, Reach, start, next, receive, handle_packet, handle_connection, find_session,
  parse_packet, has_session, handle_command,
}
use wfc_server.Natneg.Reachable.{IsServer, Reach-IsServer, handle_packet-panics_iff}
use wfc_server.Natneg.Pairing.{IsSettled, send_connect_requests-IsSettled}
use wfc_server.Natneg.Reports.{report_client-second, send_connect_request_packet-addr}

abbrev mapped : ℕ → ℕ → Bytes → List (ℕ × ℕ) → NatnegClient
mapped index connecting addr result = record {
  cookie = 7;
  index = index;
  connecting_index = connecting;
  connect_ack = false;
  result = result;
  negotiate_ip = addr;
  local_ip = [];
  server_ip = addr;
  game_name = codes "mariokartwii";
}

abbrev host_addr : Bytes
host_addr = codes "1.2.3.4:500"

abbrev guest_addr : Bytes
guest_addr = codes "5.6.7.8:900"

abbrev host : NatnegClient
host = mapped 0 0 host_addr []

abbrev guest : NatnegClient
guest = mapped 1 1 guest_addr []

abbrev two_clients : Clients
two_clients = (0, host) ∷ (1, guest) ∷ []

abbrev both_orders : List (ℕ × List ℕ)
both_orders = (1, 0 ∷ 1 ∷ []) ∷ (0, 1 ∷ 0 ∷ []) ∷ []

abbrev paired : Clients
paired = (0, mapped 0 1 host_addr []) ∷ (1, mapped 1 0 guest_addr []) ∷ []

pair_two : send_connect_requests both_orders two_clients ≡ (paired, connect_loop 1 0 ∷ [])
unfolding send_connect_requests connect_from connect_inner try_connect modify connect_to is_ready
    is_mapped lookup insert text_eq
pair_two = refl

-- The init packet of the guest, after which both are mapped.
abbrev guest_init : Bytes
guest_init = 1 ∷ 1 ∷ 1 ∷ 192 ∷ 168 ∷ 0 ∷ 2 ∷ 3 ∷ 132 ∷ codes "mariokartwii" ++ 0 ∷ []

abbrev unmapped_guest : NatnegClient
unmapped_guest = record guest { negotiate_ip = [] }

abbrev waiting : NatnegSession
waiting = record {
  is_open = true;
  version = 2;
  cookie = 7;
  clients = (0, host) ∷ (1, unmapped_guest) ∷ [];
}

init_pairs :
    (handle_init waiting guest_addr guest_init 2 both_orders).0.clients
    ≡ (0, mapped 0 1 host_addr [])
      ∷ (1, record (mapped 1 0 guest_addr []) { local_ip = codes "192.168.0.2:900" })
      ∷ []
unfolding handle_init parse_init get_string is_valid_init init_client find_or_create same_game learn
    send_connect_requests connect_from connect_inner try_connect modify connect_to is_ready
    is_mapped lookup insert text_eq addr_string ip_string itoa itoa_loop
init_pairs = refl

-- A report of a client on itself, which is not mapped, panics in qr2.
report_unmapped : report_client 0 1 (mapped 0 0 [] []) ((0, mapped 0 0 [] []) ∷ []) ≡ panics
unfolding report_client modify record_result disconnect tell_qr2 make_lookup_addr ip_format_to_int
    split_port or_octets parse_int split contains atoi parse_digits lookup insert
report_unmapped = refl

abbrev report_packet : Packet
report_packet = record { version = 2; command = 0x0D; cookie = 7; body = 0 ∷ 1 ∷ [] }

abbrev preinit : Bytes
preinit = 0xfd ∷ 0xfc ∷ 0x1e ∷ 0x66 ∷ 0x6a ∷ 0xb2 ∷ 2 ∷ 6 ∷ 0 ∷ 0 ∷ 0 ∷ 7 ∷ []

abbrev one_session : NatnegServer
one_session = record {
  sessions = (7, record { is_open = true; version = 2; cookie = 7; clients = [] }) ∷ [];
  in_shutdown = false;
}

one_session-Reach : Reach one_session
unfolding handle_connection parse_packet handle_packet has_session find_session handle_command
    handle_connect_reply lookup insert text_eq be_word
one_session-Reach = next start (receive host_addr preinit [] _ refl)

Reach-IsServer_example : IsServer one_session
Reach-IsServer_example = Reach-IsServer one_session-Reach

handle_packet-panics_iff_example :
    (handle_packet one_session host_addr report_packet [] ≡ panics) ↔ (
      (report_packet.command ≡ 0x0D)
      × ((find_session one_session report_packet).0.version ≡ report_packet.version)
      × ((length report_packet.body ≡ 2)
          ⊎ IsBadReport (find_session one_session report_packet).0 report_packet.body))
handle_packet-panics_iff_example =
    handle_packet-panics_iff one_session host_addr report_packet [] one_session-Reach

send_connect_requests-IsSettled_example :
    IsSettled 1 0 (send_connect_requests both_orders two_clients).0
send_connect_requests-IsSettled_example =
    send_connect_requests-IsSettled 1 0 both_orders two_clients (inl (refl, inl refl))

abbrev guest_done : NatnegClient
guest_done = mapped 1 1 guest_addr ((0, 1) ∷ [])

abbrev half_done : Clients
half_done = (0, mapped 0 1 host_addr []) ∷ (1, guest_done) ∷ []

report_client-second_example :
    (cs' : Clients) × (judged : ℕ) × (report_client 0 2 (mapped 0 1 host_addr []) half_done ≡ (
      make_lookup_addr host_addr >>= λ key₁. make_lookup_addr guest_addr >>= λ key₂.
      returns (cs', natneg_report judged host_addr guest_addr ∷ [])))
    × ((judged ≡ 1) ↔ ((◌≡◌ {A = ℕ} 2 1) × (◌≡◌ {A = ℕ} 1 1)))
    × ((lookup 0 cs' ≡ some (mapped 0 0 host_addr ((1, 2) ∷ [])))
        × ((j : ℕ) → 0 ≢ j → lookup j cs' ≡ lookup j half_done))
unfolding lookup insert
report_client-second_example =
    report_client-second 0 2 (mapped 0 1 host_addr []) guest_done half_done refl (omega arith) refl
      1 refl

abbrev host_udp : UdpAddr
host_udp = record { a = 1; b = 2; c = 3; d = 4; port = 500 }

print_host : host_addr ≡ addr_string host_udp
unfolding addr_string ip_string itoa itoa_loop
print_host = refl

send_connect_request_packet-addr_example :
    send_connect_request_packet host guest 2
    ≡ returns (
        send guest_addr (
          create_packet_header 2 nn_connect_request 7 ++ (1 ∷ 2 ∷ 3 ∷ 4 ∷ 1 ∷ 244 ∷ 0x42 ∷ 0 ∷ [])))
send_connect_request_packet-addr_example =
    send_connect_request_packet-addr host guest 2 host_udp (omega arith) print_host

-- ===== src/Natneg/Reports.antt =====
-- What a report leads to: the pair is judged once both clients have reported, and the packet that
-- tells a client where the other is.
use wfc_server.Prelude.{
  ℕ, ◌/◌, ◌%◌, ◌≡◌, ◌≢◌, ◌↔◌, ap, false, none, some, [], ◌∷◌, ◌++◌, returns, ◌>>=◌, Outcome-cases,
  arith,
}
use wfc_server.Prelude.NatMap.{lookup, insert}
use wfc_server.IpAddress.{UdpAddr, IsUdpAddr, addr_string, make_lookup_addr}
use wfc_server.IpAddress.Format.{ip_format_to_int-addr_string, ip_format_bytes-addr_string}
use wfc_server.Natneg.{
  NatnegClient, Clients, send, natneg_report, create_packet_header, nn_connect_request,
}
use wfc_server.Natneg.Connect.{modify, send_connect_request_packet}
use wfc_server.Natneg.Handlers.{record_result, disconnect, combine, tell_qr2, report_client}
use wfc_server.Natneg.Invariant.{lookup-modify}

abbrev pub freed : ℕ → ℕ → NatnegClient → Clients → Clients
freed k result c cs =
    modify k (disconnect k) (modify k (record_result c.connecting_index result) cs)

lookup-freed_other :
    (k result j : ℕ) (c : NatnegClient) (cs : Clients)
    → k ≢ j
    → lookup j (freed k result c cs) ≡ lookup j cs
lookup-freed_other k result j c cs n =
    let cs' = modify k (record_result c.connecting_index result) cs in
    ground (
      arith,
      lookup-modify k j (disconnect k) cs',
      lookup-modify k j (record_result c.connecting_index result) cs,
    )

lookup-freed_self :
    (k result : ℕ) (c : NatnegClient) (cs : Clients)
    → lookup k cs ≡ some c
    → lookup k (freed k result c cs)
      ≡ some (disconnect k (record_result c.connecting_index result c))
lookup-freed_self k result c cs e =
    let cs' = modify k (record_result c.connecting_index result) cs in
    ground (
      arith,
      lookup-modify k k (disconnect k) cs',
      lookup-modify k k (record_result c.connecting_index result) cs,
    )

module _ (k result : ℕ) (c other : NatnegClient) (cs : Clients) (is_client : lookup k cs ≡ some c)
    (is_other : k ≢ c.connecting_index)
    (is_connecting : lookup c.connecting_index cs ≡ some other) where
  -- The client has its result for the other one, is idle, and nothing else changed.
  abbrev Recorded : Clients → Type 0
  Recorded cs' =
      (lookup k cs'
        ≡ some (record c {
          connecting_index = k;
          connect_ack = false;
          result = insert c.connecting_index result c.result;
        }))
      × ((j : ℕ) → k ≢ j → lookup j cs' ≡ lookup j cs)

  freed-Recorded : Recorded (freed k result c cs)
  unfolding disconnect record_result
  freed-Recorded =
      (lookup-freed_self k result c cs is_client, λ j n. lookup-freed_other k result j c cs n)

  -- A client that is connecting to another one reports first: its result is kept, it is idle again,
  -- no other client changes, and nothing is told to QR2.
  pub report_client-first :
      lookup k other.result ≡ none
      → (cs' : Clients) × (report_client k result c cs ≡ returns (cs', [])) × Recorded cs'
  unfolding report_client
  report_client-first e = (
    freed k result c cs,
    ground (arith, lookup-freed_other k result c.connecting_index c cs),
    freed-Recorded,
  )

  -- A client that is connecting to another one reports second, and the server addresses of both
  -- parse: its result is kept, it is idle again, no other client changes, and QR2 is told one result
  -- for the two server addresses, which is a success if and only if both clients reported one. Where
  -- an address does not parse, the report panics.
  pub report_client-second :
      (o : ℕ)
      → lookup k other.result ≡ some o
      → (cs' : Clients) × (judged : ℕ) × (report_client k result c cs ≡ (
          make_lookup_addr c.server_ip >>= λ key₁. make_lookup_addr other.server_ip >>= λ key₂.
          returns (cs', natneg_report judged c.server_ip other.server_ip ∷ [])))
        × ((judged ≡ 1) ↔ ((result ≡ 1) × (o ≡ 1)))
        × Recorded cs'
  unfolding report_client combine tell_qr2
  report_client-second o e = (
    freed k result c cs,
    combine result o,
    ground (
      arith,
      lookup-freed_other k result c.connecting_index c cs,
      Outcome-cases (make_lookup_addr c.server_ip),
      Outcome-cases (make_lookup_addr other.server_ip),
    ),
    ground arith,
    freed-Recorded,
  )

-- The packet that tells `destination` where `client` is carries the octets and the port of the
-- server address of `client`, big endian, under the cookie of the destination.
pub send_connect_request_packet-addr :
    (client destination : NatnegClient) (version : ℕ) (u : UdpAddr)
    → IsUdpAddr u
    → client.server_ip ≡ addr_string u
    → send_connect_request_packet client destination version
      ≡ returns (
          send destination.negotiate_ip (
            create_packet_header version nn_connect_request destination.cookie
            ++ (u.a ∷ u.b ∷ u.c ∷ u.d ∷ (u.port / 0x100) ∷ (u.port % 0x100) ∷ 0x42 ∷ 0x00 ∷ [])))
unfolding send_connect_request_packet
send_connect_request_packet-addr client destination version u v e =
    rw (e, ip_format_bytes-addr_string u v, ip_format_to_int-addr_string u v)
      (ap
        (λ (hi : ℕ). returns (
          send destination.negotiate_ip (
            create_packet_header version nn_connect_request destination.cookie
            ++ (u.a ∷ u.b ∷ u.c ∷ u.d ∷ hi ∷ (u.port % 0x100) ∷ 0x42 ∷ 0x00 ∷ []))))
        {x = u.port / 0x100 % 0x100} {y = u.port / 0x100} (omega arith))

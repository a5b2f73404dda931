-- ===== src/Natneg/Connect.antt =====
-- natneg/connect.go: pairing the clients that are ready, the resend loop, and its acknowledgement.
use wfc_server.Prelude.{
  ℕ, ◌/◌, ◌%◌, Bool, true, false, not, ◌&&◌, ◌||◌, none, some, List, [], ◌∷◌, ◌++◌, ◌==◌,
  if◌then◌else◌, get_elem?, Outcome, returns, panics, ◌>>=◌,
}
use wfc_server.Prelude.Words.{Bytes}
use wfc_server.Prelude.NatMap.{lookup, insert, is_some}
use wfc_server.IpAddress.{ip_format_to_int, ip_format_bytes}
use wfc_server.Natneg.{
  NatnegClient, NatnegSession, Clients, Effect, send, connect_loop, is_mapped, create_packet_header,
  nn_connect_request,
}

-- A write through a pointer to a client that the map holds.
unfoldable pub modify : ℕ → (NatnegClient → NatnegClient) → Clients → Clients
modify k f cs = elim (lookup k cs) [ none ↦ cs | some c ↦ insert k (f c) cs ]

unfoldable pub connect_to : ℕ → NatnegClient → NatnegClient
connect_to k c = record c { connecting_index = k; connect_ack = false }

-- The client is mapped and waits for nobody.
unfoldable pub is_ready : ℕ → NatnegClient → Bool
is_ready id c = is_mapped c && c.connecting_index == id

-- The inner body: `sender` was found ready and is not looked at again.
unfoldable pub try_connect : ℕ → ℕ → Clients → Clients × List Effect
try_connect id dest_id cs = elim (lookup dest_id cs) [
  | none ↦ (cs, [])
  | some destination ↦
      if id == dest_id
        || not (is_ready dest_id destination)
        || is_some (lookup id destination.result)
      then (cs, [])
      else (
        modify dest_id (connect_to id) (modify id (connect_to dest_id) cs),
        connect_loop id dest_id ∷ [],
      )
]

-- The inner loop, over an order of the keys.
unfoldable pub connect_inner : ℕ → List ℕ → Clients → Clients × List Effect
connect_inner id [] cs = (cs, [])
connect_inner id (dest_id ∷ order) cs =
    let (cs', out) = try_connect id dest_id cs in
    let (cs'', out') = connect_inner id order cs' in (cs'', out ++ out')

unfoldable pub connect_from : ℕ → List ℕ → Clients → Clients × List Effect
connect_from id inner cs = elim (lookup id cs) [
  | none ↦ (cs, [])
  | some sender ↦ if is_ready id sender then connect_inner id inner cs else (cs, [])
]

-- sendConnectRequests: Go visits a map in any order, so the order of the outer loop, and that of
-- each inner loop, are arguments.
unfoldable pub send_connect_requests : List (ℕ × List ℕ) → Clients → Clients × List Effect
send_connect_requests [] cs = (cs, [])
send_connect_requests ((id, inner) ∷ order) cs =
    let (cs', out) = connect_from id inner cs in
    let (cs'', out') = send_connect_requests order cs' in (cs'', out ++ out')

-- sendConnectRequestPacket: the packet that tells `destination` the address of `client`.
unfoldable pub send_connect_request_packet : NatnegClient → NatnegClient → ℕ → Outcome Effect
send_connect_request_packet client destination version = do
  octets ← ip_format_bytes client.server_ip
  (ip, port) ← ip_format_to_int client.server_ip
  returns (
      send destination.negotiate_ip (
        create_packet_header version nn_connect_request destination.cookie
        ++ (octets ++ ((port / 0x100 % 0x100) ∷ (port % 0x100) ∷ 0x42 ∷ 0x00 ∷ []))))

abbrev waits_for : NatnegClient → NatnegClient → Bool
waits_for c other = not c.connect_ack && c.connecting_index == other.index

abbrev when_waiting : Bool → Outcome Effect → Outcome (List Effect)
when_waiting true m = m >>= λ e. returns (e ∷ [])
when_waiting false m = returns []

-- One round of the resend loop: what it sends, and whether it sleeps and goes round again.
unfoldable pub connect_round : NatnegSession → ℕ → ℕ → Outcome (List Effect × Bool)
connect_round session id dest_id = elim (lookup id session.clients) [
  | none ↦ panics
  | some sender ↦ elim (lookup dest_id session.clients) [
    | none ↦ panics
    | some destination ↦ if not session.is_open then returns ([], false) else do
      to_destination ←
          when_waiting (waits_for destination sender)
            (send_connect_request_packet sender destination session.version)
      to_sender ←
          when_waiting (waits_for sender destination)
            (send_connect_request_packet destination sender session.version)
      returns (
        to_destination ++ to_sender,
        waits_for destination sender || waits_for sender destination,
      )
  ]
]

-- handleConnectReply: the client has the address.
unfoldable pub handle_connect_reply : NatnegSession → Bytes → NatnegSession
unfolding modify
handle_connect_reply session buffer = elim (get_elem? buffer 1) [
  | none ↦ session
  | some client_index ↦ record session {
    clients = modify client_index (λ c. record c { connect_ack = true }) session.clients;
  }
]

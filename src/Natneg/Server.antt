-- ===== src/Natneg/Server.antt =====
-- natneg/main.go: dispatch of a packet, and the end of a session. One packet is handled at a time:
-- the mutex of the server guards the map, and that of the session its handler.
use wfc_server.Prelude.{
  ◌≡◌, ℕ, Bool, true, false, not, ◌&&◌, ◌||◌, Option, none, some, List, [], ◌∷◌, ◌++◌, ltb, ◌==◌,
  if◌then◌else◌, length, get_elem?, take, drop, Outcome, returns, ◌>>=◌,
}
use wfc_server.Prelude.Words.{Bytes, be_word}
use wfc_server.Prelude.Text.{text_eq}
use wfc_server.Prelude.NatMap.{lookup, insert, delete}
use wfc_server.Natneg.{
  NatnegClient, NatnegSession, Clients, Effect, send, close_later, create_packet_header,
  nn_report_reply, packet_magic,
}
use wfc_server.Natneg.Connect.{handle_connect_reply}
use wfc_server.Natneg.Handlers.{handle_init, handle_report, handle_preinit}

pub record NatnegServer : Type 0 where
  pub sessions : List (ℕ × NatnegSession)
  pub in_shutdown : Bool

pub record Packet : Type 0 where
  pub version : ℕ
  pub command : ℕ
  pub cookie : ℕ
  pub body : Bytes

unfoldable pub parse_packet : Bytes → Option Packet
parse_packet buffer =
    if ltb (length buffer) 12 || not (text_eq (take 6 buffer) packet_magic)
    then none
    else elim (get_elem? buffer 6) [
      | none ↦ none
      | some version ↦ elim (get_elem? buffer 7) [
        | none ↦ none
        | some command ↦ some (record {
          version = version;
          command = command;
          cookie = be_word buffer 8;
          body = drop 12 buffer;
        })
      ]
    ]

abbrev new_session : Packet → NatnegSession
new_session p = record { is_open = true; version = p.version; cookie = p.cookie; clients = [] }

-- The session of the cookie, and the timer if it was created.
unfoldable pub find_session : NatnegServer → Packet → NatnegSession × List Effect
find_session server p = elim (lookup p.cookie server.sessions) [
  | some session ↦ (session, [])
  | none ↦ (new_session p, close_later p.cookie ∷ [])
]

-- The switch on the command; those not listed are only logged.
unfoldable pub handle_command :
    NatnegSession → Bytes → Packet → List (ℕ × List ℕ) → Outcome (NatnegSession × List Effect)
handle_command session addr p order =
    if p.command == 0x00
    then returns (handle_init session addr p.body p.version order)
    else if p.command == 0x06
    then returns (handle_connect_reply session p.body, [])
    else if p.command == 0x0D
    then handle_report session addr p.body p.version order
    else if p.command == 0x0F
    then returns (session, handle_preinit session addr p.body p.version)
    else returns (session, [])

-- NN_NATIFY_REQUEST and NN_ADDRESS_CHECK have no session.
unfoldable pub has_session : Packet → Bool
has_session p = not (p.command == 0x0C) && not (p.command == 0x0A)

abbrev pub put_session : NatnegServer → NatnegSession → ℕ → NatnegServer
put_session server session cookie = record server {
  sessions = insert cookie session server.sessions;
}

unfoldable pub handle_packet :
    NatnegServer → Bytes → Packet → List (ℕ × List ℕ) → Outcome (NatnegServer × List Effect)
handle_packet server addr p order =
    if not (has_session p)
    then returns (server, [])
    else let (session, timers) = find_session server p in
      if not (session.version == p.version)
      then returns (put_session server session p.cookie, timers)
      else do
        (session', out) ← handle_command session addr p order
        returns (put_session server session' p.cookie, timers ++ out)

unfoldable pub handle_connection :
    NatnegServer → Bytes → Bytes → List (ℕ × List ℕ) → Outcome (NatnegServer × List Effect)
handle_connection server addr buffer order = elim (parse_packet buffer) [
  | none ↦ returns (server, [])
  | some p ↦ handle_packet server addr p order
]

-- The report ack that makes a client cancel.
unfoldable pub cancel_client : NatnegSession → NatnegClient → List Effect
cancel_client session client =
    if client.connecting_index == client.index
    then []
    else send client.negotiate_ip (
        create_packet_header session.version nn_report_reply session.cookie
        ++ (0x00 ∷ client.index ∷ 0x00 ∷ 0x00 ∷ 0x00 ∷ 0x00 ∷ 0x06 ∷ 0x00 ∷ 0x00 ∷ []))
      ∷ []

unfoldable pub cancel_clients : NatnegSession → Clients → List Effect
cancel_clients session [] = []
cancel_clients session ((k, client) ∷ cs) =
    cancel_client session client ++ cancel_clients session cs

-- closeSession: the session leaves the map, its loops see that it is closed, and each client that
-- waits for another is told to cancel.
unfoldable pub close_session :
    NatnegServer → NatnegSession → NatnegServer × (NatnegSession × List Effect)
close_session server session = if server.in_shutdown then (server, (session, [])) else (
  record server { sessions = delete session.cookie server.sessions },
  (record session { is_open = false }, cancel_clients session session.clients),
)

-- What can happen to the server: a packet comes, or the timer of a session that the map holds ends.
pub data Step (s t : NatnegServer) : Type 0 where
  receive :
      (addr buffer : Bytes) (order : List (ℕ × List ℕ)) (out : List Effect)
      → handle_connection s addr buffer order ≡ returns (t, out)
      → Step s t
  expire :
      (cookie : ℕ) (session : NatnegSession)
      → lookup cookie s.sessions ≡ some session
      → t ≡ (close_session s session).0
      → Step s t

pub data Reach : NatnegServer → Type 0 where
  start : Reach (record { sessions = []; in_shutdown = false })
  next : {s t : NatnegServer} → Reach s → Step s t → Reach t

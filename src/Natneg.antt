-- ===== src/Natneg.antt =====
-- The NAT negotiation server (natneg/): its sessions, clients and the packets that it sends.
-- A session is one cookie; its clients are keyed by their index, and a pointer to a client is
-- that key. Goroutines become entries of a list of effects; each round of a resend loop is a step.
pub mod Connect
pub mod Handlers
pub mod Server
pub mod Invariant
pub mod Safety
pub mod Panics
pub mod Reachable
pub mod Pairing
pub mod Reports
mod Examples
use wfc_server.Prelude.{
  ℕ, zero, suc, ◌+◌, ◌*◌, ◌/◌, ◌%◌, Bool, true, false, not, ◌&&◌, ◌||◌, Option, none, some, List,
  [], ◌∷◌, ◌++◌, ◌==◌, if◌then◌else◌,
}
use wfc_server.Prelude.Words.{Bytes, put_be32}
use wfc_server.Prelude.Text.{text_eq}

pub record NatnegClient : Type 0 where
  pub cookie : ℕ
  pub index : ℕ
  pub connecting_index : ℕ
  pub connect_ack : Bool
  pub result : List (ℕ × ℕ)
  pub negotiate_ip : Bytes
  pub local_ip : Bytes
  pub server_ip : Bytes
  pub game_name : Bytes

abbrev pub Clients : Type 0
Clients = List (ℕ × NatnegClient)

-- `is_open` is the field Open.
pub record NatnegSession : Type 0 where
  pub is_open : Bool
  pub version : ℕ
  pub cookie : ℕ
  pub clients : Clients

-- What a handler does besides changing the session: conn.WriteTo, `go func` of the resend loop of
-- two clients, the call of qr2.ProcessNATNEGReport, and time.AfterFunc of closeSession.
pub data Effect : Type 0 where
  send : Bytes → Bytes → Effect
  connect_loop : ℕ → ℕ → Effect
  natneg_report : ℕ → Bytes → Bytes → Effect
  close_later : ℕ → Effect

abbrev pub nn_init_reply : ℕ
nn_init_reply = 0x01

abbrev pub nn_connect_request : ℕ
nn_connect_request = 0x05

abbrev pub nn_report_reply : ℕ
nn_report_reply = 0x0E

abbrev pub nn_preinit_reply : ℕ
nn_preinit_reply = 0x10

abbrev pub port_type_game_port : ℕ
port_type_game_port = 0x00

-- The magic of every packet.
abbrev pub packet_magic : Bytes
packet_magic = 0xfd ∷ 0xfc ∷ 0x1e ∷ 0x66 ∷ 0x6a ∷ 0xb2 ∷ []

unfoldable pub create_packet_header : ℕ → ℕ → ℕ → Bytes
create_packet_header version command cookie = packet_magic ++ (version ∷ command ∷ put_be32 cookie)

unfoldable pub is_mapped : NatnegClient → Bool
is_mapped client =
    if text_eq client.negotiate_ip [] || text_eq client.server_ip [] then false else true

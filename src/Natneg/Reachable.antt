-- ===== src/Natneg/Reachable.antt =====
-- What holds of the server after any packets, in any order, and any expiries.
use wfc_server.Prelude.{
  Outcome-cases, ℕ, ◌⊎◌, ◌≡◌, ◌↔◌, refl, sym, ◌∙◌, true, some, List, [], ◌==◌, inl, inr,
  Option-cases, Bool-cases, length, returns, panics, arith,
}
use wfc_server.Prelude.Words.{Bytes}
use wfc_server.Prelude.NatMap.{lookup, lookup-insert, lookup-delete}
use wfc_server.Natneg.{NatnegSession, Effect}
use wfc_server.Natneg.Invariant.{IsClients}
use wfc_server.Natneg.Safety.{
  IsSession, handle_connect_reply-IsSession, handle_report-IsSession, handle_init-IsSession,
}
use wfc_server.Natneg.Panics.{IsBadReport, handle_report-panics_iff}
use wfc_server.Natneg.Server.{
  NatnegServer, Packet, parse_packet, find_session, handle_command, has_session, put_session,
  handle_packet, handle_connection, close_session, receive, expire, Reach, start, next,
}

-- A session that the server holds is open, is filed under its cookie, and keeps its invariant.
abbrev pub IsHeld : ℕ → NatnegSession → Type 0
IsHeld key s = IsSession s × (s.cookie ≡ key) × (s.is_open ≡ true)

pub record IsServer (server : NatnegServer) : Type 0 where
  pub held : (key : ℕ) (s : NatnegSession) → lookup key server.sessions ≡ some s → IsHeld key s

handle_command-IsHeld :
    (key : ℕ) (s t : NatnegSession) (addr : Bytes) (p : Packet) (order : List (ℕ × List ℕ))
    (out : List Effect)
    → IsHeld key s
    → handle_command s addr p order ≡ returns (t, out)
    → IsHeld key t
unfolding handle_command
handle_command-IsHeld key s t addr p order out h e = ground (
  arith,
  handle_init-IsSession s addr p.body p.version order h.0,
  handle_connect_reply-IsSession s p.body h.0,
  handle_report-IsSession s t addr p.body p.version order out h.0,
)

nil-IsClients : (key : ℕ) → IsClients key []
unfolding lookup
nil-IsClients key = record { member = λ k c q. cc }

find_session-IsHeld :
    (server : NatnegServer) (p : Packet)
    → IsServer server
    → IsHeld p.cookie (find_session server p).0
unfolding find_session
find_session-IsHeld server p v = elim (Option-cases (lookup p.cookie server.sessions)) [
  | inl e ↦ rw (e, find_session) (nil-IsClients p.cookie, refl, refl)
  | inr (s, e) ↦ rw (e, find_session) (v.held p.cookie s e)
]

put_session-IsServer :
    (server : NatnegServer) (s : NatnegSession) (key : ℕ)
    → IsServer server
    → IsHeld key s
    → IsServer (put_session server s key)
put_session-IsServer server s key v h = record {
  held = λ j t e. elim (Bool-cases (key == j)) [
    | inl same ↦ ground (arith, lookup-insert key j s server.sessions)
    | inr other ↦ v.held j t (sym (lookup-insert key j s server.sessions ∙ rw other) ∙ e)
  ];
}

handle_packet-IsServer :
    (server t : NatnegServer) (addr : Bytes) (p : Packet) (order : List (ℕ × List ℕ))
    (out : List Effect)
    → IsServer server
    → handle_packet server addr p order ≡ returns (t, out)
    → IsServer t
unfolding handle_packet
handle_packet-IsServer server t addr p order out v e =
    let s = (find_session server p).0 in
    let h = find_session-IsHeld server p v in
    elim (Outcome-cases (handle_command s addr p order)) [
      | inl q ↦ ground (arith, put_session-IsServer server s p.cookie v h)
      | inr ((s', out'), q) ↦ ground (
        arith,
        put_session-IsServer server s p.cookie v h,
        put_session-IsServer server s' p.cookie v
            (handle_command-IsHeld p.cookie s s' addr p order out' h q),
      )
    ]

handle_connection-IsServer :
    (server t : NatnegServer) (addr b : Bytes) (order : List (ℕ × List ℕ)) (out : List Effect)
    → IsServer server
    → handle_connection server addr b order ≡ returns (t, out)
    → IsServer t
unfolding handle_connection
handle_connection-IsServer server t addr b order out v e = elim (Option-cases (parse_packet b)) [
  | inl q ↦ ground arith
  | inr (p, q) ↦ ground (arith, handle_packet-IsServer server t addr p order out v)
]

close_session-IsServer :
    (server : NatnegServer) (s : NatnegSession)
    → IsServer server
    → IsServer (close_session server s).0
unfolding close_session
close_session-IsServer server s v = elim (Bool-cases server.in_shutdown) [
  | inl e ↦ ground arith
  | inr e ↦
      rw (e, close_session)
        (record {
          held = λ j t q. elim (Bool-cases (s.cookie == j)) [
            | inl same ↦ ground (arith, lookup-delete s.cookie j server.sessions)
            | inr other ↦ v.held j t (sym (lookup-delete s.cookie j server.sessions ∙ rw other) ∙ q)
          ];
        })
]

-- After any packets, timers and orders of the loops, each session that the server holds is open,
-- filed under its cookie, and each of its clients is filed under its own index and points at a
-- client that is there.
pub Reach-IsServer : {t : NatnegServer} → Reach t → IsServer t
unfolding lookup
Reach-IsServer start = record { held = λ j s q. cc }
Reach-IsServer (next {s = s} {t = t} r (receive addr b order out e)) =
    handle_connection-IsServer s t addr b order out (Reach-IsServer r) e
Reach-IsServer (next {s = s} {t = t} r (expire cookie session held e)) =
    rw e (close_session-IsServer s session (Reach-IsServer r))

-- In a reachable server the handling of a well-formed packet panics exactly if the packet is a
-- report for a session of its version, and the report has two bytes, or has more, is of a client on
-- itself or completes the results of a pair, and the server address of one of the two clients does
-- not parse.
pub handle_packet-panics_iff :
    (server : NatnegServer) (addr : Bytes) (p : Packet) (order : List (ℕ × List ℕ))
    → Reach server
    → (handle_packet server addr p order ≡ panics) ↔ (
        (p.command ≡ 0x0D)
        × ((find_session server p).0.version ≡ p.version)
        × ((length p.body ≡ 2) ⊎ IsBadReport (find_session server p).0 p.body))
unfolding handle_packet handle_command has_session
handle_packet-panics_iff server addr p order r =
    let s = (find_session server p).0 in
    let h = find_session-IsHeld server p (Reach-IsServer r) in
    ground (arith, handle_report-panics_iff s addr p.body p.version order h.0)

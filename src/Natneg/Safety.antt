-- ===== src/Natneg/Safety.antt =====
-- The handlers keep the invariant.
use wfc_server.Prelude.{
  Outcome-cases, ℕ, ◌≡◌, refl, ◌∙◌, true, some, List, [], ◌∷◌, ◌⊎◌, inl, inr, Option-cases,
  get_elem?, returns, arith,
}
use wfc_server.Prelude.Words.{Bytes}
use wfc_server.Prelude.NatMap.{lookup, insert}
use wfc_server.Natneg.{NatnegClient, NatnegSession, Clients, Effect}
use wfc_server.Natneg.Connect.{modify, handle_connect_reply}
use wfc_server.Natneg.Handlers.{
  InitPacket, find_or_create, learn, init_client, parse_init, handle_init, record_result,
  disconnect, combine, tell_qr2, report_client, report_index, handle_report,
}
use wfc_server.Natneg.Invariant.{
  Present, IsClients, Present-modify, modify-IsClients, send_connect_requests-IsClients,
  insert-IsClients, Present-insert, Present-insert_self,
}

abbrev pub IsSession : NatnegSession → Type 0
IsSession s = IsClients s.cookie s.clients

acknowledge-IsClients :
    (key k : ℕ) (cs : Clients)
    → IsClients key cs
    → IsClients key (modify k (λ c. record c { connect_ack = true }) cs)
acknowledge-IsClients key k cs v =
    modify-IsClients key k _ cs v
      (λ c m. record { index = m.index; cookie = m.cookie; connecting = m.connecting })

pub handle_connect_reply-IsSession :
    (s : NatnegSession) (b : Bytes)
    → IsSession s
    → let t = handle_connect_reply s b in
      IsSession t × (t.cookie ≡ s.cookie) × (t.is_open ≡ s.is_open)
unfolding handle_connect_reply
handle_connect_reply-IsSession s b v = elim (Option-cases (get_elem? b 1)) [
  | inl e ↦ rw (e, handle_connect_reply) (v, refl, refl)
  | inr (k, e) ↦
      rw (e, handle_connect_reply) (acknowledge-IsClients s.cookie k s.clients v, refl, refl)
]

-- The two writes of a report.
abbrev pub freed : ℕ → ℕ → NatnegClient → Clients → Clients
freed k result c cs =
    modify k (disconnect k) (modify k (record_result c.connecting_index result) cs)

freed-IsClients :
    (key k result : ℕ) (c : NatnegClient) (cs : Clients)
    → Present k cs
    → IsClients key cs
    → IsClients key (freed k result c cs)
unfolding disconnect record_result
freed-IsClients key k result c cs p v =
    let recorded = modify k (record_result c.connecting_index result) cs in
    modify-IsClients key k _ recorded
      (modify-IsClients key k _ cs v
        (λ d m. record { index = m.index; cookie = m.cookie; connecting = m.connecting }))
      (λ d m. record {
        index = m.index;
        cookie = m.cookie;
        connecting = Present-modify k k (record_result c.connecting_index result) cs ∙ p;
      })

report_client-IsClients :
    (key k result : ℕ) (c : NatnegClient) (cs : Clients) (r : Clients × List Effect)
    → IsClients key cs
    → lookup k cs ≡ some c
    → report_client k result c cs ≡ returns r
    → IsClients key r.0
unfolding report_client
report_client-IsClients key k result c cs r v e q =
    let after = freed k result c cs in
    elim (Option-cases (lookup c.connecting_index after)) [
      | inl gone ↦ ground arith
      | inr (other, f) ↦ elim (Option-cases (lookup k other.result)) [
        | inl first ↦ ground (arith, freed-IsClients key k result c cs (rw e) v)
        | inr (o, second) ↦
            elim (Outcome-cases (tell_qr2 (combine result o) c.server_ip other.server_ip)) [
              | inl stuck ↦ ground arith
              | inr (told, went) ↦ ground (arith, freed-IsClients key k result c cs (rw e) v)
            ]
      ]
    ]

report_index-IsClients :
    (s : NatnegSession) (k result : ℕ) (r : Clients × List Effect)
    → IsSession s
    → report_index s k result ≡ returns r
    → IsClients s.cookie r.0
unfolding report_index
report_index-IsClients s k result r v q = elim (Option-cases (lookup k s.clients)) [
  | inl e ↦ ground arith
  | inr (c, e) ↦ ground (arith, report_client-IsClients s.cookie k result c s.clients r v e)
]

-- A report keeps the invariant, the cookie and the open flag of the session.
pub handle_report-IsSession :
    (s t : NatnegSession) (addr b : Bytes) (version : ℕ) (order : List (ℕ × List ℕ))
    (out : List Effect)
    → IsSession s
    → handle_report s addr b version order ≡ returns (t, out)
    → IsSession t × (t.cookie ≡ s.cookie) × (t.is_open ≡ s.is_open)
unfolding handle_report
handle_report-IsSession s t addr [] version order out v e = ground arith
handle_report-IsSession s t addr (a ∷ []) version order out v e = ground arith
handle_report-IsSession s t addr (a ∷ k ∷ []) version order out v e = ground arith
handle_report-IsSession s t addr (a ∷ k ∷ x ∷ b) version order out v e =
    elim (Outcome-cases (report_index s k x)) [
      | inl q ↦ ground (arith, q)
      | inr (r, q) ↦ ground (
        arith,
        send_connect_requests-IsClients s.cookie order r.0 (report_index-IsClients s k x r v q),
      )
    ]

-- The client that an init packet is for: filed under the index of the packet.
abbrev IsFor : NatnegSession → InitPacket → NatnegClient → Type 0
IsFor s p c =
    (c.index ≡ p.client_index)
    × (c.cookie ≡ s.cookie)
    × ((c.connecting_index ≡ p.client_index) ⊎ Present c.connecting_index s.clients)

find_or_create-IsFor :
    (s : NatnegSession) (p : InitPacket) (c : NatnegClient)
    → IsSession s
    → find_or_create s p ≡ some c
    → IsFor s p c
unfolding find_or_create
find_or_create-IsFor s p c v e = elim (Option-cases (lookup p.client_index s.clients)) [
  | inl q ↦ ground arith
  | inr (d, q) ↦ ground (arith, v.member p.client_index d q)
]

learn-IsFor :
    (s : NatnegSession) (addr : Bytes) (p : InitPacket) (c : NatnegClient)
    → IsFor s p c
    → IsFor s p (learn addr p c)
unfolding learn
learn-IsFor s addr p c f = f

insert-IsFor :
    (s : NatnegSession) (p : InitPacket) (c : NatnegClient)
    → IsSession s
    → IsFor s p c
    → IsClients s.cookie (insert p.client_index c s.clients)
insert-IsFor s p c v f = insert-IsClients s.cookie p.client_index c s.clients v f.0 f.1 (
    ground (
      arith,
      Present-insert_self p.client_index c s.clients,
      Present-insert p.client_index c.connecting_index c s.clients,
    ))

init_client-IsSession :
    (s : NatnegSession) (addr : Bytes) (p : InitPacket) (order : List (ℕ × List ℕ))
    → IsSession s
    → let t = (init_client s addr p order).0 in
      IsSession t × (t.cookie ≡ s.cookie) × (t.is_open ≡ s.is_open)
unfolding init_client
init_client-IsSession s addr p order v = elim (Option-cases (find_or_create s p)) [
  | inl e ↦ rw (e, init_client) (v, refl, refl)
  | inr (c, e) ↦
      let w =
        insert-IsFor s p (learn addr p c) v
          (learn-IsFor s addr p c (find_or_create-IsFor s p c v e)) in
      rw (e, init_client)
        (ground (
          arith,
          w,
          send_connect_requests-IsClients s.cookie order
              (insert p.client_index (learn addr p c) s.clients) w,
        ))
]

-- An init packet keeps the invariant, the cookie and the open flag of the session.
pub handle_init-IsSession :
    (s : NatnegSession) (addr b : Bytes) (version : ℕ) (order : List (ℕ × List ℕ))
    → IsSession s
    → let t = (handle_init s addr b version order).0 in
      IsSession t × (t.cookie ≡ s.cookie) × (t.is_open ≡ s.is_open)
unfolding handle_init
handle_init-IsSession s addr b version order v = elim (Option-cases (parse_init b)) [
  | inl e ↦ rw (e, handle_init) (v, refl, refl)
  | inr (p, e) ↦ rw (e, handle_init) (ground (arith, init_client-IsSession s addr p order v))
]

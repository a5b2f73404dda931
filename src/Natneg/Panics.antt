-- ===== src/Natneg/Panics.antt =====
-- handleReport of natneg/report.go: the reports that panic.
use wfc_server.Prelude.{
  ℕ, ◌≤◌, ◌≡◌, ◌↔◌, sym, true, refl, Option, none, some, List, [], ◌∷◌, ◌==◌, ◌⊎◌, inl, inr,
  Bool-cases, Option-cases, Outcome-cases, length, get_elem?, panics, arith,
}
use wfc_server.Prelude.Words.{Bytes}
use wfc_server.Prelude.NatMap.{lookup, is_some, lookup-insert}
use wfc_server.IpAddress.{make_lookup_addr}
use wfc_server.Natneg.{NatnegClient, NatnegSession, Clients}
use wfc_server.Natneg.Connect.{modify}
use wfc_server.Natneg.Handlers.{
  record_result, disconnect, combine, tell_qr2, report_client, report_index, handle_report,
}
use wfc_server.Natneg.Invariant.{lookup-modify}
use wfc_server.Natneg.Safety.{IsSession, freed}

-- Both results are there, once the report of `k` for the client `other` is recorded.
abbrev pub IsJudged : ℕ → NatnegClient → NatnegClient → Type 0
IsJudged k c other = (c.connecting_index ≡ k) ⊎ (is_some (lookup k other.result) ≡ true)

-- A server address does not parse; the empty one, of a client that is not mapped, does not.
abbrev pub IsUnparsed : NatnegClient → NatnegClient → Type 0
IsUnparsed c other =
    (make_lookup_addr c.server_ip ≡ panics) ⊎ (make_lookup_addr other.server_ip ≡ panics)

-- A report of a client that completes a pair of results, or is of the client on itself, where the
-- server address of one of the two does not parse.
abbrev pub IsBadReport : NatnegSession → Bytes → Type 0
IsBadReport s b =
    (k : ℕ) × (c : NatnegClient) × (other : NatnegClient) × (get_elem? b 1 ≡ some k)
    × (3 ≤ length b)
    × (lookup k s.clients ≡ some c)
    × (lookup c.connecting_index s.clients ≡ some other)
    × IsJudged k c other
    × IsUnparsed c other

tell_qr2-panics_iff :
    (result : ℕ) (ip₁ ip₂ : Bytes)
    → (tell_qr2 result ip₁ ip₂ ≡ panics)
      ↔ ((make_lookup_addr ip₁ ≡ panics) ⊎ (make_lookup_addr ip₂ ≡ panics))
unfolding tell_qr2
tell_qr2-panics_iff result ip₁ ip₂ = elim (Outcome-cases (make_lookup_addr ip₁)) [
  | inl stuck ↦ ground (arith, stuck)
  | inr (key₁, e) ↦ elim (Outcome-cases (make_lookup_addr ip₂)) [
    | inl stuck ↦ ground (arith, e, stuck)
    | inr (key₂, f) ↦ ground (arith, e, f)
  ]
]

module _ (k result : ℕ) (c : NatnegClient) (cs : Clients) (is_client : lookup k cs ≡ some c) where
  -- The client on which the report is, after the two writes.
  lookup-freed :
      (other : NatnegClient)
      → lookup c.connecting_index cs ≡ some other
      → (f : NatnegClient) × (lookup c.connecting_index (freed k result c cs) ≡ some f)
        × (f.server_ip ≡ other.server_ip)
        × ((is_some (lookup k f.result) ≡ true) ↔ IsJudged k c other)
  unfolding record_result disconnect
  lookup-freed other e =
      let j = c.connecting_index in
      let cs' = modify k (record_result j result) cs in
      let first = lookup-modify k j (record_result j result) cs in
      let second = lookup-modify k j (disconnect k) cs' in
      let own = lookup-modify k k (record_result j result) cs in
      elim (Bool-cases (k == j)) [
        | inl same ↦ (
          disconnect k (record_result j result c),
          ground (arith, first, second, own),
          ground arith,
          ground (arith, lookup-insert j k result c.result),
        )
        | inr apart ↦ (other, ground (arith, first, second), ground arith, ground arith)
      ]

  report_client-panics_iff :
      (other : NatnegClient)
      → lookup c.connecting_index cs ≡ some other
      → (report_client k result c cs ≡ panics) ↔ (IsJudged k c other × IsUnparsed c other)
  unfolding report_client
  report_client-panics_iff other e =
      let (f, at, ip, judged) = lookup-freed other e in
      elim (Option-cases (lookup k f.result)) [
        | inl first ↦ ground (arith, at, first, judged)
        | inr (o, second) ↦
            let tell = tell_qr2-panics_iff (combine result o) c.server_ip f.server_ip in
            elim (Outcome-cases (tell_qr2 (combine result o) c.server_ip f.server_ip)) [
              | inl stuck ↦ ground (arith, at, second, judged, tell, stuck, ip)
              | inr (told, went) ↦ ground (arith, at, second, judged, tell, went, ip)
            ]
      ]

there {ℓ} : {A : Type ℓ} (m : Option A) → is_some m ≡ true → (a : A) × (m ≡ some a)
there none h = ground arith
there (some a) h = (a, refl)

module _ (s : NatnegSession) (v : IsSession s) (a k x : ℕ) (b : Bytes) where
  report_index-panics_iff : (report_index s k x ≡ panics) ↔ IsBadReport s (a ∷ k ∷ x ∷ b)
  unfolding report_index
  report_index-panics_iff = elim (Option-cases (lookup k s.clients)) [
    | inl e ↦
        (λ h. ground (arith, e), λ (k', c, other, at, long, found, rest, judged, bad). ground arith)
    | inr (c, e) ↦
        let (other, f) = there (lookup c.connecting_index s.clients) (v.member k c e).connecting in
        let (to, from) = report_client-panics_iff k x c s.clients e other f in
        (
          λ h.
              let (judged, bad) = to (ground (arith, e)) in
              (k, c, other, refl, omega arith, e, f, judged, bad),
          λ (k', c', other', at, long, found, found', judged, bad).
              let same : k' ≡ k = ground arith in
              let same' : c' ≡ c = ground arith in
              let same'' : other' ≡ other = ground arith in
              ground (arith, e, from (rw (sym same, sym same', sym same'') (judged, bad))),
        )
  ]

-- In a session that keeps the invariant, the handler of a report panics on a report of exactly two
-- bytes, and on a longer one that is of a client on itself, or that completes the results of a
-- pair, when the server address of one of the two clients does not parse; and on no other.
pub handle_report-panics_iff :
    (s : NatnegSession) (addr b : Bytes) (version : ℕ) (order : List (ℕ × List ℕ))
    → IsSession s
    → (handle_report s addr b version order ≡ panics) ↔ ((length b ≡ 2) ⊎ IsBadReport s b)
unfolding handle_report
handle_report-panics_iff s addr [] version order v = (
  λ h. ground arith,
  λ h. absurd (elim h [ inl two ↦ omega arith | inr bad ↦ omega (arith, bad.4) ]),
)
handle_report-panics_iff s addr (a ∷ []) version order v = (
  λ h. ground arith,
  λ h. absurd (elim h [ inl two ↦ omega arith | inr bad ↦ omega (arith, bad.4) ]),
)
handle_report-panics_iff s addr (a ∷ k ∷ []) version order v =
    (λ h. inl (ground arith), λ h. ground arith)
handle_report-panics_iff s addr (a ∷ k ∷ x ∷ b) version order v =
    let (to, from) = report_index-panics_iff s v a k x b in
    elim (Outcome-cases (report_index s k x)) [
      | inl stuck ↦ (λ h. inr (to stuck), λ h. ground (arith, stuck))
      | inr (r, went) ↦ (
        λ h. ground (arith, went),
        λ h. elim h [
          | inl two ↦ ground arith
          | inr bad ↦ let stuck = from bad in ground (arith, went, stuck)
        ],
      )
    ]

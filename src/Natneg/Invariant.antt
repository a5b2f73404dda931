-- ===== src/Natneg/Invariant.antt =====
-- What holds of every session: a client is filed under its own index, has the cookie of the
-- session, and points at a client that is there.
use wfc_server.Prelude.{
  ℕ, ◌≡◌, sym, ◌∙◌, true, none, some, List, [], ◌∷◌, ◌==◌, if◌then◌else◌, inl, inr, Option-cases,
  Bool-cases, arith,
}
use wfc_server.Prelude.NatMap.{lookup, insert, is_some, lookup-insert}
use wfc_server.Natneg.{NatnegClient, Clients}
use wfc_server.Natneg.Connect.{
  modify, connect_to, try_connect, connect_inner, connect_from, send_connect_requests,
}

abbrev pub Present : ℕ → Clients → Type 0
Present k cs = is_some (lookup k cs) ≡ true

-- What the map holds after a write through a pointer.
pub lookup-modify :
    (k j : ℕ) (f : NatnegClient → NatnegClient) (cs : Clients)
    → lookup j (modify k f cs)
      ≡ (if k == j then (elim (lookup k cs) [ none ↦ none | some c ↦ some (f c) ]) else lookup j cs)
unfolding modify
lookup-modify k j f cs = elim (Option-cases (lookup k cs)) [
  | inl e ↦ rw (e, modify) (ground arith)
  | inr (c, e) ↦ rw (e, modify) (lookup-insert k j (f c) cs)
]

pub Present-modify :
    (k j : ℕ) (f : NatnegClient → NatnegClient) (cs : Clients)
    → is_some (lookup j (modify k f cs)) ≡ is_some (lookup j cs)
Present-modify k j f cs = ground (arith, lookup-modify k j f cs)

pub record IsMember (key k : ℕ) (cs : Clients) (c : NatnegClient) : Type 0 where
  pub index : c.index ≡ k
  pub cookie : c.cookie ≡ key
  pub connecting : Present c.connecting_index cs

-- `key` is the cookie of the session.
pub record IsClients (key : ℕ) (cs : Clients) : Type 0 where
  pub member : (k : ℕ) (c : NatnegClient) → lookup k cs ≡ some c → IsMember key k cs c

-- A write keeps the invariant if it does so for the client that it changes.
pub modify-IsClients :
    (key k : ℕ) (f : NatnegClient → NatnegClient) (cs : Clients)
    → IsClients key cs
    → ((c : NatnegClient) → IsMember key k cs c → IsMember key k cs (f c))
    → IsClients key (modify k f cs)
modify-IsClients key k f cs v keep = record { member = member }
  where
    moved : (j : ℕ) (c : NatnegClient) → IsMember key j cs c → IsMember key j (modify k f cs) c
    moved j c m = record {
      index = m.index;
      cookie = m.cookie;
      connecting = Present-modify k c.connecting_index f cs ∙ m.connecting;
    }

    member :
        (j : ℕ) (c : NatnegClient)
        → lookup j (modify k f cs) ≡ some c
        → IsMember key j (modify k f cs) c
    member j c e = elim (Bool-cases (k == j)) [
      | inr other ↦ moved j c (v.member j c (sym (lookup-modify k j f cs ∙ rw other) ∙ e))
      | inl same ↦ elim (Option-cases (lookup k cs)) [
        | inl gone ↦ ground (arith, lookup-modify k j f cs)
        | inr (c', found) ↦
            moved j c (ground (arith, lookup-modify k j f cs, keep c' (v.member k c' found)))
      ]
    ]

connect_to-IsMember :
    (key k d : ℕ) (cs : Clients) (c : NatnegClient)
    → Present d cs
    → IsMember key k cs c
    → IsMember key k cs (connect_to d c)
unfolding connect_to
connect_to-IsMember key k d cs c p m = record { index = m.index; cookie = m.cookie; connecting = p }

-- The two writes of a pairing.
pair-IsClients :
    (key id dest_id : ℕ) (cs : Clients)
    → Present id cs
    → Present dest_id cs
    → IsClients key cs
    → IsClients key (modify dest_id (connect_to id) (modify id (connect_to dest_id) cs))
pair-IsClients key id dest_id cs p q v =
    modify-IsClients key dest_id (connect_to id) (modify id (connect_to dest_id) cs)
      (modify-IsClients key id (connect_to dest_id) cs v
        (λ c. connect_to-IsMember key id dest_id cs c q))
      (λ c.
        connect_to-IsMember key dest_id id (modify id (connect_to dest_id) cs) c
          (Present-modify id id (connect_to dest_id) cs ∙ p))

try_connect-Present :
    (id dest_id j : ℕ) (cs : Clients)
    → is_some (lookup j (try_connect id dest_id cs).0) ≡ is_some (lookup j cs)
unfolding try_connect
try_connect-Present id dest_id j cs = ground (
  arith,
  Present-modify dest_id j (connect_to id) (modify id (connect_to dest_id) cs),
  Present-modify id j (connect_to dest_id) cs,
)

try_connect-IsClients :
    (key id dest_id : ℕ) (cs : Clients)
    → Present id cs
    → IsClients key cs
    → IsClients key (try_connect id dest_id cs).0
unfolding try_connect
try_connect-IsClients key id dest_id cs p v = ground (arith, pair-IsClients key id dest_id cs)

connect_inner-IsClients :
    (key id : ℕ) (order : List ℕ) (cs : Clients)
    → Present id cs
    → IsClients key cs
    → IsClients key (connect_inner id order cs).0
unfolding connect_inner
connect_inner-IsClients key id [] cs p v = v
connect_inner-IsClients key id (d ∷ order) cs p v =
    connect_inner-IsClients key id order (try_connect id d cs).0
      (try_connect-Present id d id cs ∙ p) (try_connect-IsClients key id d cs p v)

connect_from-IsClients :
    (key id : ℕ) (order : List ℕ) (cs : Clients)
    → IsClients key cs
    → IsClients key (connect_from id order cs).0
unfolding connect_from
connect_from-IsClients key id order cs v = ground (arith, connect_inner-IsClients key id order cs)

-- Whatever order the loops take, sendConnectRequests keeps the invariant.
pub send_connect_requests-IsClients :
    (key : ℕ) (order : List (ℕ × List ℕ)) (cs : Clients)
    → IsClients key cs
    → IsClients key (send_connect_requests order cs).0
unfolding send_connect_requests
send_connect_requests-IsClients key [] cs v = v
send_connect_requests-IsClients key ((id, inner) ∷ order) cs v =
    send_connect_requests-IsClients key order (connect_from id inner cs).0
      (connect_from-IsClients key id inner cs v)

pub Present-insert :
    (k j : ℕ) (c : NatnegClient) (cs : Clients) → Present j cs → Present j (insert k c cs)
Present-insert k j c cs p = ground (arith, lookup-insert k j c cs)

pub Present-insert_self : (k : ℕ) (c : NatnegClient) (cs : Clients) → Present k (insert k c cs)
Present-insert_self k c cs = ground (arith, lookup-insert k k c cs)

-- A client that is filed, under the pointers of the clients who are there.
pub insert-IsClients :
    (key k : ℕ) (c : NatnegClient) (cs : Clients)
    → IsClients key cs
    → c.index ≡ k
    → c.cookie ≡ key
    → Present c.connecting_index (insert k c cs)
    → IsClients key (insert k c cs)
insert-IsClients key k c cs v i ck p = record { member = member }
  where
    member :
        (j : ℕ) (d : NatnegClient)
        → lookup j (insert k c cs) ≡ some d
        → IsMember key j (insert k c cs) d
    member j d e = elim (Bool-cases (k == j)) [
      | inl same ↦ ground (arith, lookup-insert k j c cs)
      | inr other ↦
          let m = v.member j d (sym (lookup-insert k j c cs ∙ rw other) ∙ e) in
          record {
            index = m.index;
            cookie = m.cookie;
            connecting = Present-insert k d.connecting_index c cs m.connecting;
          }
    ]

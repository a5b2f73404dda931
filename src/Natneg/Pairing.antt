-- ===== src/Natneg/Pairing.antt =====
-- What sendConnectRequests achieves, in whatever order it visits the clients: it pairs only clients
-- that are ready, and leaves no two of them that could still be paired.
use wfc_server.Prelude.{
  ℕ, ◌≡◌, ◌≢◌, true, false, some, List, [], ◌∷◌, ◌⊎◌, inl, inr, Option-cases, arith,
}
use wfc_server.Prelude.NatMap.{lookup, is_some}
use wfc_server.Natneg.{
  NatnegClient, Clients, Effect, connect_loop, send, natneg_report, close_later, is_mapped,
}
use wfc_server.Natneg.Connect.{
  modify, connect_to, is_ready, try_connect, connect_inner, connect_from, send_connect_requests,
}
use wfc_server.Natneg.Invariant.{lookup-modify}

-- A client that is ready after was the same client before.
abbrev ReadyBack : Clients → Clients → Type 0
ReadyBack cs cs' =
    (j : ℕ) (c : NatnegClient) → lookup j cs' ≡ some c → is_ready j c ≡ true → lookup j cs ≡ some c

connect_to-not_ready : (j k : ℕ) (c : NatnegClient) → j ≢ k → is_ready j (connect_to k c) ≡ false
unfolding is_ready connect_to is_mapped
connect_to-not_ready j k c h = ground arith

modify-ReadyBack : (i k : ℕ) (cs : Clients) → i ≢ k → ReadyBack cs (modify i (connect_to k) cs)
modify-ReadyBack i k cs h j c e r = elim (Option-cases (lookup i cs)) [
  | inl q ↦ ground (arith, lookup-modify i j (connect_to k) cs)
  | inr (d, q) ↦ ground (arith, lookup-modify i j (connect_to k) cs, connect_to-not_ready i k d h)
]

try_connect-ReadyBack : (id d : ℕ) (cs : Clients) → ReadyBack cs (try_connect id d cs).0
unfolding try_connect
try_connect-ReadyBack id d cs j c e r =
    let cs' = modify id (connect_to d) cs in
    ground (
      arith,
      λ (n : d ≢ id). modify-ReadyBack d id cs' n j c,
      λ (n : id ≢ d). modify-ReadyBack id d cs n j c,
    )

connect_inner-ReadyBack :
    (id : ℕ) (order : List ℕ) (cs : Clients) → ReadyBack cs (connect_inner id order cs).0
unfolding connect_inner
connect_inner-ReadyBack id [] cs j c e r = e
connect_inner-ReadyBack id (d ∷ order) cs j c e r =
    try_connect-ReadyBack id d cs j c
      (connect_inner-ReadyBack id order (try_connect id d cs).0 j c e r) r

connect_from-ReadyBack :
    (id : ℕ) (order : List ℕ) (cs : Clients) → ReadyBack cs (connect_from id order cs).0
unfolding connect_from
connect_from-ReadyBack id order cs j c e r = ground (arith, connect_inner-ReadyBack id order cs j c)

pub send_connect_requests-ReadyBack :
    (order : List (ℕ × List ℕ)) (cs : Clients) → ReadyBack cs (send_connect_requests order cs).0
unfolding send_connect_requests
send_connect_requests-ReadyBack [] cs j c e r = e
send_connect_requests-ReadyBack ((id, inner) ∷ order) cs j c e r =
    connect_from-ReadyBack id inner cs j c
      (send_connect_requests-ReadyBack order (connect_from id inner cs).0 j c e r) r

-- If both clients are ready, the second has a result for the first.
abbrev pub IsSettled : ℕ → ℕ → Clients → Type 0
IsSettled id d cs =
    (c e : NatnegClient)
    → id ≢ d
    → lookup id cs ≡ some c
    → lookup d cs ≡ some e
    → is_ready id c ≡ true
    → is_ready d e ≡ true
    → is_some (lookup id e.result) ≡ true

IsSettled-later :
    (id d : ℕ) (cs cs' : Clients) → ReadyBack cs cs' → IsSettled id d cs → IsSettled id d cs'
IsSettled-later id d cs cs' back s c e n lc le rc re =
    s c e n (back id c lc rc) (back d e le re) rc re

try_connect-IsSettled : (id d : ℕ) (cs : Clients) → IsSettled id d (try_connect id d cs).0
unfolding try_connect
try_connect-IsSettled id d cs c e n lc le rc re = elim (Option-cases (lookup d cs)) [
  | inl q ↦ ground arith
  | inr (x, q) ↦ ground (
    arith,
    try_connect-ReadyBack id d cs d e le re,
    try_connect-ReadyBack id d cs id c lc rc,
    lookup-modify d d (connect_to id) (modify id (connect_to d) cs),
    lookup-modify id d (connect_to d) cs,
    connect_to-not_ready d id x,
  )
]

-- The loops' orders are lists of keys; these say which pairs they visit.
abbrev pub Elem : ℕ → List ℕ → Type 0
Elem x [] = ⊥
Elem x (y ∷ ys) = (y ≡ x) ⊎ Elem x ys

abbrev pub Visits : ℕ → ℕ → List (ℕ × List ℕ) → Type 0
Visits id d [] = ⊥
Visits id d ((i, inner) ∷ order) = ((i ≡ id) × Elem d inner) ⊎ Visits id d order

connect_inner-IsSettled :
    (id d : ℕ) (order : List ℕ) (cs : Clients)
    → Elem d order
    → IsSettled id d (connect_inner id order cs).0
unfolding connect_inner
connect_inner-IsSettled id d [] cs m = absurd m
connect_inner-IsSettled id d (x ∷ order) cs (inl e) =
    IsSettled-later id d (try_connect id x cs).0 (connect_inner id order (try_connect id x cs).0).0
      (connect_inner-ReadyBack id order (try_connect id x cs).0)
      (rw e (try_connect-IsSettled id d cs))
connect_inner-IsSettled id d (x ∷ order) cs (inr m) =
    connect_inner-IsSettled id d order (try_connect id x cs).0 m

connect_from-IsSettled :
    (id d : ℕ) (order : List ℕ) (cs : Clients)
    → Elem d order
    → IsSettled id d (connect_from id order cs).0
unfolding connect_from
connect_from-IsSettled id d order cs m c e n lc le rc re = elim (Option-cases (lookup id cs)) [
  | inl q ↦ ground arith
  | inr (x, q) ↦ ground (arith, connect_inner-IsSettled id d order cs m c e n)
]

-- After sendConnectRequests no two clients are left that are both mapped and idle, and of which the
-- second has no result for the first, provided that the loops visited the pair in this order.
pub send_connect_requests-IsSettled :
    (id d : ℕ) (order : List (ℕ × List ℕ)) (cs : Clients)
    → Visits id d order
    → IsSettled id d (send_connect_requests order cs).0
unfolding send_connect_requests
send_connect_requests-IsSettled id d [] cs m = absurd m
send_connect_requests-IsSettled id d ((i, inner) ∷ order) cs (inl (e, m)) =
    IsSettled-later id d (connect_from i inner cs).0
      (send_connect_requests order (connect_from i inner cs).0).0
      (send_connect_requests-ReadyBack order (connect_from i inner cs).0)
      (rw e (connect_from-IsSettled id d inner cs m))
send_connect_requests-IsSettled id d ((i, inner) ∷ order) cs (inr m) =
    send_connect_requests-IsSettled id d order (connect_from i inner cs).0 m

-- The two clients of a resend loop that is started, as they were before.
abbrev pub IsLoopOf : Clients → Effect → Type 0
IsLoopOf cs (connect_loop id d) =
    (id ≢ d)
    × ((c : NatnegClient) × (lookup id cs ≡ some c) × (is_ready id c ≡ true))
    × ((e : NatnegClient) × (lookup d cs ≡ some e)
        × (is_ready d e ≡ true)
        × (is_some (lookup id e.result) ≡ false))
IsLoopOf cs (send addr packet) = ⊥
IsLoopOf cs (natneg_report result a b) = ⊥
IsLoopOf cs (close_later cookie) = ⊥

abbrev WasReady : Clients → ℕ → Type 0
WasReady cs id = (c : NatnegClient) × (lookup id cs ≡ some c) × (is_ready id c ≡ true)

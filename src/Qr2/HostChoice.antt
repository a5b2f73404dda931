-- ===== src/Qr2/HostChoice.antt =====
-- Which player findNewServer of qr2/group.go makes the host.
use wfc_server.Prelude.{
  ℕ, ◌≡◌, refl, sym, ◌∙◌, ◌⊎◌, inl, inr, true, false, Option, none, some, List, [], ◌∷◌, ◌==◌,
  Bool-cases, Option-cases, arith,
}
use wfc_server.Prelude.Int.{ℤ, pos, negsuc}
use wfc_server.Prelude.TextMap.{write}
use wfc_server.Qr2.{State, set_group, has}
use wfc_server.Qr2.Host.{
  ltb_int, candidate, consider, server_loop, update_match_type, find_new_server, chosen,
}

ltb_int-irreflexive : (a : ℤ) → ltb_int a a ≡ false
unfolding ltb_int
ltb_int-irreflexive (pos a) = ground arith
ltb_int-irreflexive (negsuc a) = ground arith

ltb_int-asymmetric : (a b : ℤ) → ltb_int a b ≡ true → ltb_int b a ≡ false
unfolding ltb_int
ltb_int-asymmetric (pos a) (pos b) h = ground arith
ltb_int-asymmetric (pos a) (negsuc b) h = ground arith
ltb_int-asymmetric (negsuc a) (pos b) h = ground arith
ltb_int-asymmetric (negsuc a) (negsuc b) h = ground arith

ltb_int-transitive : (a b c : ℤ) → ltb_int a b ≡ false → ltb_int b c ≡ false → ltb_int a c ≡ false
unfolding ltb_int
ltb_int-transitive (pos a) (pos b) (pos c) h k = ground arith
ltb_int-transitive (pos a) (pos b) (negsuc c) h k = ground arith
ltb_int-transitive (pos a) (negsuc b) (pos c) h k = ground arith
ltb_int-transitive (pos a) (negsuc b) (negsuc c) h k = ground arith
ltb_int-transitive (negsuc a) (pos b) c h k = ground arith
ltb_int-transitive (negsuc a) (negsuc b) (pos c) h k = ground arith
ltb_int-transitive (negsuc a) (negsuc b) (negsuc c) h k = ground arith

module _ (s : State) where
  -- One step: the best is not above what was seen, and is one of the two.
  consider-seen :
      (p : ℕ) (best : Option (ℕ × ℤ)) (b : ℕ × ℤ)
      → best ≡ some b
      → (r : ℕ × ℤ) × (consider s p best ≡ some r) × (ltb_int b.1 r.1 ≡ false)
  unfolding consider
  consider-seen p best b e = elim (Option-cases (candidate s p)) [
    | inl gone ↦ (b, ground arith, ltb_int-irreflexive b.1)
    | inr (i, c) ↦ elim (Bool-cases (ltb_int i b.1)) [
      | inl less ↦ ((p, i), ground arith, ltb_int-asymmetric i b.1 less)
      | inr more ↦ (b, ground arith, ltb_int-irreflexive b.1)
    ]
  ]

  consider-candidate :
      (p : ℕ) (best : Option (ℕ × ℤ)) (i : ℤ)
      → candidate s p ≡ some i
      → (r : ℕ × ℤ) × (consider s p best ≡ some r) × (ltb_int i r.1 ≡ false)
  unfolding consider
  consider-candidate p best i c = elim (Option-cases best) [
    | inl gone ↦ ((p, i), ground arith, ltb_int-irreflexive i)
    | inr (b, e) ↦ elim (Bool-cases (ltb_int i b.1)) [
      | inl less ↦ ((p, i), ground arith, ltb_int-irreflexive i)
      | inr more ↦ (b, ground arith, more)
    ]
  ]

  consider-origin :
      (p : ℕ) (best : Option (ℕ × ℤ)) (r : ℕ × ℤ)
      → consider s p best ≡ some r
      → (best ≡ some r) ⊎ ((r.0 ≡ p) × (candidate s r.0 ≡ some r.1))
  unfolding consider
  consider-origin p best r e = elim (Option-cases (candidate s p)) [
    | inl gone ↦ ground arith
    | inr (i, c) ↦ elim (Option-cases best) [
      | inl none_yet ↦ ground arith
      | inr (b, h) ↦ elim (Bool-cases (ltb_int i b.1)) [
        | inl less ↦ ground arith
        | inr more ↦ ground arith
      ]
    ]
  ]

  loop-seen :
      (players : List ℕ) (best : Option (ℕ × ℤ)) (b : ℕ × ℤ)
      → best ≡ some b
      → (r : ℕ × ℤ) × (server_loop s players best ≡ some r) × (ltb_int b.1 r.1 ≡ false)
  unfolding server_loop
  loop-seen [] best b e = (b, e, ltb_int-irreflexive b.1)
  loop-seen (p ∷ players) best b e =
      let (c, found, low) = consider-seen p best b e in
      let (r, done, lower) = loop-seen players (consider s p best) c found in
      (r, done, ltb_int-transitive b.1 c.1 r.1 low lower)

  loop-candidate :
      (players : List ℕ) (best : Option (ℕ × ℤ)) (q : ℕ) (j : ℤ)
      → has q players ≡ true
      → candidate s q ≡ some j
      → (r : ℕ × ℤ) × (server_loop s players best ≡ some r) × (ltb_int j r.1 ≡ false)
  unfolding server_loop has
  loop-candidate [] best q j h c = ground arith
  loop-candidate (p ∷ players) best q j h c = elim (Bool-cases (p == q)) [
    | inl here ↦
        let (b, found, low) = consider-candidate p best j (ground arith) in
        let (r, done, lower) = loop-seen players (consider s p best) b found in
        (r, done, ltb_int-transitive j b.1 r.1 low lower)
    | inr there ↦ loop-candidate players (consider s p best) q j (ground arith) c
  ]

  loop-origin :
      (players : List ℕ) (best : Option (ℕ × ℤ)) (r : ℕ × ℤ)
      → server_loop s players best ≡ some r
      → (best ≡ some r) ⊎ ((has r.0 players ≡ true) × (candidate s r.0 ≡ some r.1))
  unfolding server_loop has
  loop-origin [] best r e = inl e
  loop-origin (p ∷ players) best r e = elim (loop-origin players (consider s p best) r e) [
    | inr later ↦ inr (ground arith, later.1)
    | inl now ↦ elim (consider-origin p best r now) [
      | inl before ↦ inl before
      | inr here ↦ inr (ground arith, here.1)
    ]
  ]

chosen-some :
    (o : Option (ℕ × ℤ)) (p : ℕ) → chosen o ≡ some p → (r : ℕ × ℤ) × (o ≡ some r) × (r.0 ≡ p)
unfolding chosen
chosen-some none p e = ground arith
chosen-some (some r) p e = (r, refl, ground arith)

pub server-find_new_server :
    (g : ℕ) (s : State)
    → ((find_new_server g s).group_at g).server ≡ chosen (server_loop s (s.group_at g).players none)
unfolding find_new_server update_match_type set_group write
server-find_new_server g s = ground arith

-- After findNewServer, a host is one of the players, it can host, and no player that can host has a
-- lower join index; and when there is no host, no player can host. A player can host when its
-- dwc_hoststate is "2" and its +joinindex is a number.
pub find_new_server-minimal :
    (g : ℕ) (s : State)
    → ((p : ℕ)
        → ((find_new_server g s).group_at g).server ≡ some p
        → (has p (s.group_at g).players ≡ true)
          × ((i : ℤ) × (candidate s p ≡ some i)
              × ((q : ℕ) (j : ℤ)
                  → has q (s.group_at g).players ≡ true
                  → candidate s q ≡ some j
                  → ltb_int j i ≡ false)))
      × (((find_new_server g s).group_at g).server ≡ none
          → (q : ℕ) → has q (s.group_at g).players ≡ true
          → candidate s q ≡ none)
unfolding chosen
find_new_server-minimal g s =
    let players = (s.group_at g).players in
    (
      λ p e.
          let (r, found, is_p) =
            chosen-some (server_loop s players none) p (sym (server-find_new_server g s) ∙ e) in
          elim (loop-origin s players none r found) [
            | inl none_first ↦ ground arith
            | inr (member, able) ↦ (
              ground arith,
              (
                r.1,
                ground arith,
                λ q j h c.
                    let (r', found', low) = loop-candidate s players none q j h c in ground arith,
              ),
            )
          ],
      λ e q h. elim (Option-cases (candidate s q)) [
        | inl unable ↦ unable
        | inr (j, c) ↦
            let (r, found, low) = loop-candidate s players none q j h c in
            ground (arith, server-find_new_server g s)
      ],
    )

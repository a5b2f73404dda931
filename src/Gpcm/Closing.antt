-- ===== src/Gpcm/Closing.antt =====
-- CloseConnection of gpcm/main.go: who still lists a player who has gone.
use wfc_server.Prelude.{
  ℕ, zero, suc, ◌≤◌, ◌≡◌, List, length, get_elem?, Option-cases, refl, sym, ap, ◌∙◌, inl, inr, true,
  false, none, some, ◌==◌, returns, if◌then◌else◌, Bool-cases, Outcome-cases, arith,
}
use wfc_server.Prelude.Text.{codes}
use wfc_server.Prelude.NatMap.{lookup, delete, lookup-delete}
use wfc_server.Prelude.TextMap.{write}
use wfc_server.Qr2.{State}
use wfc_server.Qr2.Groups.{process_gp_status_update}
use wfc_server.Qr2.Remove.{logout}
use wfc_server.Gpcm.{Presence, set_player}
use wfc_server.Gpcm.FriendLists.{
  is_listed, is_friend_authorized, part_from, overlay, logout_loop, send_logout_status,
}
use wfc_server.Gpcm.Status.{leave_qr2, close_connection}
use wfc_server.Gpcm.Counts.{count_of, count_of-get_elem?}
use wfc_server.Gpcm.Parting.{part_from-players}
use wfc_server.Gpcm.Logout.{IsForeign, send_logout_status-parts}
use wfc_server.Gpcm.Sound.{IsSoundSession, IsSound}

-- A sound session does not list itself.
IsSound-IsForeign :
    (g : ℕ) (s : Presence) → IsSound s → IsForeign g (s.player_at g).auth_friend_list s
unfolding IsSound IsSoundSession
IsSound-IsForeign g s (keyed, all) id k at found =
    let own : id ≡ (s.player_at g).profile_id = sym (keyed id g found) in
    omega (
      arith,
      count_of-get_elem? id (s.player_at g).auth_friend_list k at,
      (all g).1,
      ap (λ m. count_of m (s.player_at g).auth_friend_list) own,
    )

leave_qr2_same :
    (g : ℕ) (s s' : Presence) → leave_qr2 g s ≡ returns s' → s' ≡ record s { qr2 = s'.qr2 }
unfolding leave_qr2
leave_qr2_same g s s' e = elim (Bool-cases ((s.player_at g).qr2_ip == 0)) [
  | inl unset ↦ let result : s' ≡ s = ground arith in rw result refl
  | inr set ↦
      elim (Outcome-cases (
        process_gp_status_update (s.player_at g).profile_id (s.player_at g).qr2_ip (codes "0")
          s.qr2)) [
            | inl stuck ↦ ground (arith, stuck)
            | inr (r, went) ↦
                let result : s' ≡ record s { qr2 = r.1 } = ground (arith, went) in rw result refl
          ]
]

-- The state that CloseConnection leaves.
close_connection_left :
    (g : ℕ) (s s' : Presence)
    → (s.player_at g).logged_in ≡ true
    → close_connection g s ≡ returns s'
    → (q : State) × (s' ≡ (
        let s₂ = send_logout_status g (record s { qr2 = q }) in
        let s₃ = set_player g (λ y. record y { logged_in = false }) s₂ in
        record s₃ { players = delete (s.player_at g).profile_id s₃.players }))
unfolding close_connection
close_connection_left g s s' member e =
    elim (Outcome-cases (logout (s.player_at g).profile_id s.qr2)) [
      | inl stuck ↦ ground (arith, stuck)
      | inr (q, out) ↦ elim (Outcome-cases (leave_qr2 g (record s { qr2 = q }))) [
        | inl stuck ↦ ground (arith, out, stuck)
        | inr (s₁, left) ↦
            let me = (s.player_at g).profile_id in
            let s₃ : Presence =
              set_player g (λ y. record y { logged_in = false }) (send_logout_status g s₁) in
            let result : s' ≡ record s₃ { players = delete me s₃.players } =
              ground (arith, out, left) in
            let same = leave_qr2_same g (record s { qr2 = q }) s₁ left in
            (
              s₁.qr2,
              result
                  ∙ ap
                      (λ x.
                        let s₄ =
                          set_player g (λ y. record y { logged_in = false })
                            (send_logout_status g x) in
                        record s₄ { players = delete me s₄.players })
                      same,
            )
      ]
    ]

set_player_list :
    (g q : ℕ) (s : Presence)
    → ((set_player g (λ y. record y { logged_in = false }) s).player_at q).auth_friend_list
      ≡ (s.player_at q).auth_friend_list
unfolding set_player write
set_player_list g q s = ground (arith, Bool-cases (g == q))

logout_loop-players :
    (rounds index g : ℕ) (array : List ℕ) (s : Presence)
    → (logout_loop rounds index g array s).players ≡ s.players
unfolding logout_loop
logout_loop-players zero index g array s = refl
logout_loop-players (suc rounds) index g array s = elim (Option-cases (get_elem? array index)) [
  | inl out ↦ rw (out, logout_loop) refl
  | inr (id, e) ↦
      let s' = part_from g id s in
      let array' = overlay (s'.player_at g).auth_friend_list array in
      rw (e, logout_loop)
        (logout_loop-players rounds (suc index) g array' s' ∙ part_from-players g id s)
]

send_logout_status-players : (g : ℕ) (s : Presence) → (send_logout_status g s).players ≡ s.players
unfolding send_logout_status
send_logout_status-players g s =
    let array = (s.player_at g).auth_friend_list in logout_loop-players (length array) 0 g array s

-- When the connection of a player who is logged in ends, and CloseConnection returns: the profile ID
-- of the player leads to no session, every other one leads where it led before, and the player's
-- session is not logged in any more.
pub close_connection-removes :
    (g id : ℕ) (s s' : Presence)
    → (s.player_at g).logged_in ≡ true
    → close_connection g s ≡ returns s'
    → (lookup id s'.players
        ≡ (if (s.player_at g).profile_id == id then none else lookup id s.players))
      × ((s'.player_at g).logged_in ≡ false)
unfolding set_player write
close_connection-removes g id s s' member e =
    let (q₂, left) = close_connection_left g s s' member e in
    let me = (s.player_at g).profile_id in
    let s₁ : Presence = record s { qr2 = q₂ } in
    let s₂ = send_logout_status g s₁ in
    let kept : s₂.players ≡ s.players = send_logout_status-players g s₁ in
    (
      ap (λ x. lookup id x.players) left
          ∙ lookup-delete me id s₂.players
          ∙ ap (λ held. if me == id then none else lookup id held) kept,
      ap (λ x. (x.player_at g).logged_in) left ∙ ground arith,
    )

-- When the connection of a player who is logged in ends, in a state with sound friend lists, and
-- CloseConnection returns: a session that was logged in under an ID that the player had authorised,
-- and that listed the player at most once, does not list the player any more.
pub close_connection-parts :
    (g id q : ℕ) (s s' : Presence)
    → IsSound s
    → (s.player_at g).logged_in ≡ true
    → close_connection g s ≡ returns s'
    → lookup id s.players ≡ some q
    → (s.player_at q).logged_in ≡ true
    → is_friend_authorized g id s ≡ true
    → count_of (s.player_at g).profile_id (s.player_at q).auth_friend_list ≤ 1
    → is_friend_authorized q (s.player_at g).profile_id s' ≡ false
unfolding set_player
close_connection-parts g id q s s' sound member e found here listed once =
    let (q₂, left) = close_connection_left g s s' member e in
    let me = (s.player_at g).profile_id in
    let s₁ : Presence = record s { qr2 = q₂ } in
    let (gone, others) =
      send_logout_status-parts g id q s₁ (λ other k at. IsSound-IsForeign g s sound other k at)
        found here listed once in
    let s₂ = send_logout_status g s₁ in
    ap (λ x. is_friend_authorized q me x) left ∙ ap (is_listed me) (set_player_list g q s₂) ∙ gone

-- ===== src/Gpcm/Sound.antt =====
-- gpcm/friend.go: an invariant of the friend lists, which every handler keeps.
use wfc_server.Prelude.{
  ℕ, ◌≤◌, ◌≡◌, ◌≢◌, inl, inr, Bool, true, false, some, List, [], ◌∷◌, ◌++◌, ◌==◌, if◌then◌else◌,
  Bool-cases, arith,
}
use wfc_server.Prelude.NatMap.{lookup}
use wfc_server.Prelude.TextMap.{write}
use wfc_server.Gpcm.{GameSpySession, Presence, set_player}
use wfc_server.Gpcm.FriendLists.{
  is_listed, index_of, remove_from_uint32_array, unauthorize, authorize, record_status_sent,
}
use wfc_server.Gpcm.Friends.{add_to_list, drop_from_list}
use wfc_server.Gpcm.Counts.{count_of, is_listed_iff, remove-index_of}
use wfc_server.Gpcm.Parting.{index_of-none}
use wfc_server.Gpcm.Befriending.{count_of-append}

-- A session lists neither itself nor, among its friends and those who sent it a status, anyone twice.
unfoldable pub IsSoundSession : GameSpySession → Type 0
IsSoundSession x =
    (count_of x.profile_id x.friend_list ≡ 0)
    × (count_of x.profile_id x.auth_friend_list ≡ 0)
    × ((p : ℕ) → count_of p x.friend_list ≤ 1)
    × ((p : ℕ) → count_of p x.recv_status_from_list ≤ 1)

-- Every session is sound, and a profile ID leads to a session of that profile.
unfoldable pub IsSound : Presence → Type 0
IsSound s =
    ((id q : ℕ) → lookup id s.players ≡ some q → (s.player_at q).profile_id ≡ id)
    × ((r : ℕ) → IsSoundSession (s.player_at r))

if-IsSoundSession :
    (b : Bool) (x y : GameSpySession)
    → IsSoundSession x
    → IsSoundSession y
    → IsSoundSession (if b then x else y)
if-IsSoundSession true x y h k = h
if-IsSoundSession false x y h k = k

once_more :
    (id p : ℕ) (xs : List ℕ)
    → is_listed id xs ≡ false
    → count_of p xs ≤ 1
    → count_of p (xs ++ id ∷ []) ≤ 1
once_more id p xs absent once = elim (Bool-cases (id == p)) [
  | inl equal ↦
      let fresh : count_of id xs ≡ 0 = ground (arith, is_listed_iff id xs) in
      ground (arith, fresh, count_of-append p id xs)
  | inr other ↦ ground (arith, count_of-append p id xs)
]

pub set_player-IsSound :
    (g : ℕ) (f : GameSpySession → GameSpySession) (s : Presence)
    → (f (s.player_at g)).profile_id ≡ (s.player_at g).profile_id
    → IsSoundSession (f (s.player_at g))
    → IsSound s
    → IsSound (set_player g f s)
unfolding IsSound set_player write
set_player-IsSound g f s named sound (keyed, all) = (
  (λ id q found. ground (arith, Bool-cases (g == q), keyed id q found)),
  (λ r. if-IsSoundSession (g == r) _ _ sound (all r)),
)

count_of-remove-le :
    (id p : ℕ) (xs : List ℕ)
    → count_of p (remove_from_uint32_array xs (index_of id xs)) ≤ count_of p xs
unfolding remove_from_uint32_array
count_of-remove-le id p xs = elim (Bool-cases (is_listed id xs)) [
  | inl listed ↦
      let (i, e, within, first, shorter, counts, later) =
        remove-index_of id xs ((is_listed_iff id xs).0 listed) in
      omega (arith, counts p)
  | inr absent ↦ rw (index_of-none id xs absent) (omega arith)
]

-- The changes of a session.
pub unauthorize-IsSoundSession :
    (id : ℕ) (x : GameSpySession) → IsSoundSession x → IsSoundSession (unauthorize id x)
unfolding IsSoundSession unauthorize
unauthorize-IsSoundSession id x (a, b, c, d) =
    (a, omega (arith, count_of-remove-le id x.profile_id x.auth_friend_list), c, d)

pub drop_from_list-IsSoundSession :
    (id : ℕ) (x : GameSpySession) → IsSoundSession x → IsSoundSession (drop_from_list id x)
unfolding IsSoundSession drop_from_list
drop_from_list-IsSoundSession id x (a, b, c, d) = (
  omega (arith, count_of-remove-le id x.profile_id x.friend_list),
  b,
  (λ p. omega (arith, c p, count_of-remove-le id p x.friend_list)),
  d,
)

pub authorize-IsSoundSession :
    (id : ℕ) (x : GameSpySession)
    → id ≢ x.profile_id
    → IsSoundSession x
    → IsSoundSession (authorize id x)
unfolding IsSoundSession authorize
authorize-IsSoundSession id x other (a, b, c, d) =
    (a, ground (arith, count_of-append x.profile_id id x.auth_friend_list), c, d)

pub add_to_list-IsSoundSession :
    (id : ℕ) (x : GameSpySession)
    → id ≢ x.profile_id
    → IsSoundSession x
    → IsSoundSession (add_to_list id x)
unfolding IsSoundSession add_to_list
add_to_list-IsSoundSession id x other (a, b, c, d) =
    elim (Bool-cases (is_listed id x.friend_list)) [
      | inl listed ↦ rw listed (a, b, c, d)
      | inr absent ↦ rw absent (
        ground (arith, count_of-append x.profile_id id x.friend_list),
        b,
        (λ p. once_more id p x.friend_list absent (c p)),
        d,
      )
    ]

pub record_status_sent-IsSoundSession :
    (id : ℕ) (x : GameSpySession) → IsSoundSession x → IsSoundSession (record_status_sent id x)
unfolding IsSoundSession record_status_sent
record_status_sent-IsSoundSession id x (a, b, c, d) =
    elim (Bool-cases (is_listed id x.recv_status_from_list)) [
      | inl listed ↦ rw listed (a, b, c, d)
      | inr absent ↦ rw absent (a, b, c, (λ p. once_more id p x.recv_status_from_list absent (d p)))
    ]

-- ===== src/Gpcm/Counts.antt =====
-- The lists of profile IDs in gpcm/friend.go, by how often an ID stands in one.
use wfc_server.Prelude.{
  ℕ, zero, suc, ◌+◌, ◌-◌, ◌<◌, ◌≤◌, ◌≡◌, refl, ap, ◌↔◌, inl, inr, true, false, some, List, [], ◌∷◌,
  ◌==◌, if◌then◌else◌, length, get_elem?, take, Bool-cases, arith,
}
use wfc_server.Prelude.Lists.{length-take, get_elem?-some}
use wfc_server.Gpcm.FriendLists.{is_listed, index_of, set_elem, remove_from_uint32_array}

-- 1 if two IDs are the same.
abbrev pub same : ℕ → ℕ → ℕ
same x y = if x == y then 1 else 0

unfoldable pub count_of : ℕ → List ℕ → ℕ
count_of id [] = 0
count_of id (x ∷ xs) = same x id + count_of id xs

pub is_listed_iff : (id : ℕ) (xs : List ℕ) → (is_listed id xs ≡ true) ↔ (0 < count_of id xs)
unfolding is_listed count_of
is_listed_iff id [] = ground arith
is_listed_iff id (x ∷ xs) = ground (arith, is_listed_iff id xs)

pub count_of-get_elem? :
    (id : ℕ) (xs : List ℕ) (k : ℕ) → get_elem? xs k ≡ some id → 0 < count_of id xs
unfolding count_of
count_of-get_elem? id [] k e = ground arith
count_of-get_elem? id (x ∷ xs) zero e = ground arith
count_of-get_elem? id (x ∷ xs) (suc k) e = omega (arith, count_of-get_elem? id xs k e)

first_cons :
    (id x i : ℕ) (xs : List ℕ)
    → (x == id) ≡ false
    → ((k : ℕ) → get_elem? xs k ≡ some id → i ≤ k)
    → (k : ℕ) → get_elem? (x ∷ xs) k ≡ some id
    → suc i ≤ k
first_cons id x i xs other first zero e = ground arith
first_cons id x i xs other first (suc k) e = omega (arith, first k e)

-- The first index of an ID that stands in the list.
pub index_of_first :
    (id : ℕ) (xs : List ℕ)
    → 0 < count_of id xs
    → (i : ℕ) × (index_of id xs ≡ some i)
      × (get_elem? xs i ≡ some id)
      × (i < length xs)
      × ((k : ℕ) → get_elem? xs k ≡ some id → i ≤ k)
unfolding index_of count_of
index_of_first id [] h = ground arith
index_of_first id (x ∷ xs) h = elim (Bool-cases (x == id)) [
  | inl here ↦ (0, ground arith, ground arith, ground arith, λ k e. ground arith)
  | inr there ↦
      let (i, e, f, within, first) = index_of_first id xs (ground arith) in
      (suc i, ground arith, f, ground arith, first_cons id x i xs there first)
]

length-set_elem : (i v : ℕ) (xs : List ℕ) → length (set_elem i v xs) ≡ length xs
unfolding set_elem
length-set_elem i v [] = refl
length-set_elem zero v (x ∷ xs) = refl
length-set_elem (suc i) v (x ∷ xs) = ground (arith, length-set_elem i v xs)

get_elem?-set_elem :
    (i v : ℕ) (xs : List ℕ) (k : ℕ)
    → k < length xs
    → get_elem? (set_elem i v xs) k ≡ (if i == k then some v else get_elem? xs k)
unfolding set_elem
get_elem?-set_elem i v [] k h = ground arith
get_elem?-set_elem zero v (x ∷ xs) zero h = refl
get_elem?-set_elem zero v (x ∷ xs) (suc k) h = ground arith
get_elem?-set_elem (suc i) v (x ∷ xs) zero h = ground arith
get_elem?-set_elem (suc i) v (x ∷ xs) (suc k) h =
    ground (arith, get_elem?-set_elem i v xs k (ground arith))

count_of-set_elem :
    (id i v old : ℕ) (xs : List ℕ)
    → get_elem? xs i ≡ some old
    → count_of id (set_elem i v xs) + same old id ≡ count_of id xs + same v id
unfolding set_elem count_of
count_of-set_elem id i v old [] e = ground arith
count_of-set_elem id zero v old (x ∷ xs) e = ground arith
count_of-set_elem id (suc i) v old (x ∷ xs) e = omega (arith, count_of-set_elem id i v old xs e)

get_elem?-take : (n : ℕ) (xs : List ℕ) (k : ℕ) → k < n → get_elem? (take n xs) k ≡ get_elem? xs k
get_elem?-take zero xs k h = ground arith
get_elem?-take (suc n) [] k h = refl
get_elem?-take (suc n) (x ∷ xs) zero h = refl
get_elem?-take (suc n) (x ∷ xs) (suc k) h = get_elem?-take n xs k (ground arith)

count_of-take :
    (id n last : ℕ) (xs : List ℕ)
    → length xs ≡ suc n
    → get_elem? xs n ≡ some last
    → count_of id (take n xs) + same last id ≡ count_of id xs
unfolding count_of
count_of-take id n last [] h e = ground arith
count_of-take id zero last (x ∷ []) h e = ground arith
count_of-take id zero last (x ∷ y ∷ xs) h e = ground arith
count_of-take id (suc n) last (x ∷ xs) h e =
    omega (arith, count_of-take id n last xs (ground arith) e)

-- What removeFromUint32Array leaves when an ID that is in the list is removed: it stands there once
-- less, every other ID as often as before, and behind the ID's first index nothing moves.
pub remove-index_of :
    (id : ℕ) (xs : List ℕ)
    → 0 < count_of id xs
    → (i : ℕ) × (index_of id xs ≡ some i)
      × (i < length xs)
      × ((k : ℕ) → get_elem? xs k ≡ some id → i ≤ k)
      × (length xs ≡ suc (length (remove_from_uint32_array xs (index_of id xs))))
      × ((x : ℕ)
          → count_of x xs ≡ same id x + count_of x (remove_from_uint32_array xs (index_of id xs)))
      × ((k : ℕ)
          → i < k
          → k < length (remove_from_uint32_array xs (index_of id xs))
          → get_elem? (remove_from_uint32_array xs (index_of id xs)) k ≡ get_elem? xs k)
unfolding remove_from_uint32_array
remove-index_of id xs h =
    let (i, e, at, within, first) = index_of_first id xs h in
    let (last, f) = get_elem?-some xs (length xs - 1) (omega arith) in
    let ys = set_elem i last xs in
    let n = length xs - 1 in
    let removed : remove_from_uint32_array xs (index_of id xs) ≡ take n ys = ground arith in
    let same_length = length-set_elem i last xs in
    let short : length (take n ys) ≡ n = omega (arith, length-take n ys, same_length) in
    let at_end : get_elem? ys n ≡ some last =
      ground (arith, get_elem?-set_elem i last xs n (omega arith)) in
    (
      i,
      e,
      within,
      first,
      rw (removed, short) (omega arith),
      (λ x. rw removed (
          omega (
            arith,
            count_of-set_elem x i last id xs at,
            count_of-take x n last ys (omega arith) at_end,
          ))),
      (λ k past before.
          let under : k < n = omega (arith, ap length removed) in
          rw removed (
            ground
              (arith, get_elem?-take n ys k under, get_elem?-set_elem i last xs k (omega arith)))),
    )

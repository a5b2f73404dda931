-- ===== src/Gpcm/Shrinking.antt =====
-- The list that openHostDisabled of gpcm/friend.go shortens, against the array that it walks along.
use wfc_server.Prelude.{
  ℕ, zero, suc, ◌+◌, ◌<◌, ◌≤◌, ◌≡◌, refl, sym, ◌∙◌, inl, inr, false, some, List, [], ◌∷◌, ltb,
  if◌then◌else◌, length, get_elem?, drop, lt→ltb, Bool-cases, arith,
}
use wfc_server.Gpcm.FriendLists.{index_of, remove_from_uint32_array, overlay}
use wfc_server.Gpcm.Counts.{count_of, same, remove-index_of}

drop-nil {ℓ} : {A : Type ℓ} (n : ℕ) → drop {A = A} n [] ≡ []
drop-nil zero = refl
drop-nil (suc n) = refl

get_elem?-overlay :
    (xs ys : List ℕ) (j : ℕ)
    → get_elem? (overlay xs ys) j ≡ (if ltb j (length xs) then get_elem? xs j else get_elem? ys j)
unfolding overlay
get_elem?-overlay [] ys j = ground arith
get_elem?-overlay (x ∷ xs) [] zero = ground arith
get_elem?-overlay (x ∷ xs) (y ∷ ys) zero = ground arith
get_elem?-overlay (x ∷ xs) [] (suc j) =
    ground (arith, get_elem?-overlay xs [] j, drop-nil {A = ℕ} (length xs))
get_elem?-overlay (x ∷ xs) (y ∷ ys) (suc j) = ground (arith, get_elem?-overlay xs ys j)

count_of-drop :
    (x id k : ℕ) (xs : List ℕ)
    → get_elem? xs k ≡ some id
    → count_of x (drop k xs) ≡ same id x + count_of x (drop (suc k) xs)
unfolding count_of
count_of-drop x id k [] e = ground arith
count_of-drop x id zero (y ∷ xs) e = ground arith
count_of-drop x id (suc k) (y ∷ xs) e = count_of-drop x id k xs e

pub drop_all {ℓ} : {A : Type ℓ} (n : ℕ) (xs : List A) → length xs ≤ n → drop n xs ≡ []
drop_all n [] h = drop-nil n
drop_all zero (x ∷ xs) h = ground arith
drop_all (suc n) (x ∷ xs) h = drop_all n xs (omega arith)

pub count_of_zero : (xs : List ℕ) → ((id : ℕ) → count_of id xs ≡ 0) → xs ≡ []
unfolding count_of
count_of_zero [] h = refl
count_of_zero (x ∷ xs) h = ground (arith, h x)

outside_le : (j n : ℕ) → ltb j n ≡ false → n ≤ j
outside_le j n h = ground arith

-- The list while the loop stands at an index: it holds what is left to read of the first array, the
-- array that is read agrees with it there, and with the list at the front.
abbrev pub IsShrunk : List ℕ → ℕ → List ℕ → List ℕ → Type 0
IsShrunk original index array list =
    ((x : ℕ) → count_of x list ≡ count_of x (drop index original))
    × ((j : ℕ) → index ≤ j → get_elem? array j ≡ get_elem? original j)
    × ((j : ℕ) → j < length list → get_elem? array j ≡ get_elem? list j)

pub IsShrunk-remove :
    (original array list : List ℕ) (index id : ℕ)
    → IsShrunk original index array list
    → get_elem? array index ≡ some id
    → let list' = remove_from_uint32_array list (index_of id list) in
      IsShrunk original (suc index) (overlay list' array) list'
IsShrunk-remove original array list index id (counts, unread, front) e =
    let at_original = sym (unread index (omega arith)) ∙ e in
    let present : 0 < count_of id list =
      ground (arith, counts id, count_of-drop id id index original at_original) in
    let (i, at, within, first, shorter, taken, beyond) = remove-index_of id list present in
    let list' = remove_from_uint32_array list (index_of id list) in
    let early : i ≤ index = elim (Bool-cases (ltb index (length list))) [
      | inl inside ↦ first index (sym (front index (ground arith)) ∙ e)
      | inr outside ↦ omega (arith, outside_le index (length list) outside)
    ] in
    (
      (λ x. omega (arith, counts x, count_of-drop x id index original at_original, taken x)),
      (λ j past. get_elem?-overlay list' array j ∙ elim (Bool-cases (ltb j (length list'))) [
        | inl inside ↦
            let under : j < length list' = ground arith in
            rw inside
              (beyond j (omega arith) under ∙ sym (front j (omega arith)) ∙ unread j (omega arith))
        | inr outside ↦ ground (arith, unread j (omega arith))
      ]),
      (λ j inside. get_elem?-overlay list' array j ∙ rw (lt→ltb j (length list') inside) refl),
    )

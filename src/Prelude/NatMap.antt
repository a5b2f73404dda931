-- ===== src/Prelude/NatMap.antt =====
-- A Go map with numbers for keys, as an association list. The order in which `range` visits it is
-- an argument of the code that loops.
use Prim.Native.Nat.{ℕ}
use mathlib.Core.Path.{◌≡◌}
use mathlib.Core.Bool.{Bool, true, false}
use mathlib.Core.Option.{Option, none, some}
use mathlib.Core.List.{List, [], ◌∷◌}
use native.Mathlib.Omega.{arith}
use wfc_server.Prelude.Tests.{◌==◌, if◌then◌else◌}

-- Whether an entry is there: the second result of a map access.
abbrev pub is_some {ℓ} : {A : Type ℓ} → Option A → Bool
is_some none = false
is_some (some found) = true

-- The entry that an access with a key reads.
unfoldable pub lookup {ℓ} : {V : Type ℓ} → ℕ → List (ℕ × V) → Option V
lookup key [] = none
lookup key (entry ∷ rest) = if entry.0 == key then some entry.1 else lookup key rest

-- delete(m, key)
unfoldable pub delete {ℓ} : {V : Type ℓ} → ℕ → List (ℕ × V) → List (ℕ × V)
delete gone [] = []
delete gone (entry ∷ rest) = if entry.0 == gone then delete gone rest else entry ∷ delete gone rest

-- m[key] = value
unfoldable pub insert {ℓ} : {V : Type ℓ} → ℕ → V → List (ℕ × V) → List (ℕ × V)
insert key value [] = (key, value) ∷ []
insert key value (entry ∷ rest) =
    if entry.0 == key then (key, value) ∷ rest else entry ∷ insert key value rest

pub lookup-delete {ℓ} :
    {V : Type ℓ} (gone key : ℕ) (m : List (ℕ × V))
    → lookup key (delete gone m) ≡ (if gone == key then none else lookup key m)
unfolding lookup delete
lookup-delete gone key [] = ground arith
lookup-delete gone key (entry ∷ rest) = ground (arith, lookup-delete gone key rest)

pub lookup-insert {ℓ} :
    {V : Type ℓ} (key asked : ℕ) (value : V) (m : List (ℕ × V))
    → lookup asked (insert key value m) ≡ (if key == asked then some value else lookup asked m)
unfolding lookup insert
lookup-insert key asked value [] = ground arith
lookup-insert key asked value (entry ∷ rest) = ground (arith, lookup-insert key asked value rest)

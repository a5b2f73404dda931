-- ===== src/Prelude/TextMap.antt =====
-- Go maps with strings for keys, as association lists, and memory: what each pointer refers to.
use wfc_server.Prelude.Tests.{◌==◌, if◌then◌else◌, Bool-cases}
use wfc_server.Prelude.Words.{Bytes}
use wfc_server.Prelude.Text.{text_eq, text_eq_iff}
use Prim.Native.Nat.{ℕ}
use mathlib.Core.Path.{◌≡◌, refl}
use mathlib.Core.Logic.{inl, inr}
use mathlib.Core.Bool.{Bool}
use mathlib.Core.Option.{Option, none, some}
use mathlib.Core.List.{List, [], ◌∷◌}
use native.Mathlib.Omega.{arith}

-- The entry under a name.
unfoldable pub named {ℓ} : {V : Type ℓ} → Bytes → List (Bytes × V) → Option V
named name [] = none
named name ((n, v) ∷ m) = if text_eq n name then some v else named name m

-- Its text; a missing one reads as the empty string.
unfoldable pub field : Bytes → List (Bytes × Bytes) → Bytes
field name m = elim (named name m) [ none ↦ [] | some v ↦ v ]

unfoldable pub set_named {ℓ} : {V : Type ℓ} → Bytes → V → List (Bytes × V) → List (Bytes × V)
set_named name v [] = (name, v) ∷ []
set_named name v ((n, w) ∷ m) =
    if text_eq n name then (name, v) ∷ m else (n, w) ∷ set_named name v m

unfoldable pub delete_where {ℓ} :
    {V : Type ℓ} → (Bytes → Bool) → List (Bytes × V) → List (Bytes × V)
delete_where test [] = []
delete_where test ((n, w) ∷ m) =
    if test n then delete_where test m else (n, w) ∷ delete_where test m

unfoldable pub delete_named {ℓ} : {V : Type ℓ} → Bytes → List (Bytes × V) → List (Bytes × V)
delete_named name m = delete_where (λ n. text_eq n name) m

module _ {ℓ} {V : Type ℓ} where
  pub named-set_named :
      (name asked : Bytes) (v : V) (m : List (Bytes × V))
      → named asked (set_named name v m) ≡ (if text_eq name asked then some v else named asked m)
  unfolding named set_named
  named-set_named name asked v [] = refl
  named-set_named name asked v ((n, w) ∷ m) = elim (Bool-cases (text_eq n name)) [
    | inl same ↦ ground (arith, text_eq_iff n name)
    | inr other ↦ ground (
      arith,
      named-set_named name asked v m,
      text_eq_iff n name,
      text_eq_iff n asked,
      text_eq_iff name asked,
    )
  ]

  pub named-delete_where :
      (test : Bytes → Bool) (asked : Bytes) (m : List (Bytes × V))
      → named asked (delete_where test m) ≡ (if test asked then none else named asked m)
  unfolding named delete_where
  named-delete_where test asked [] = ground arith
  named-delete_where test asked ((n, w) ∷ m) =
      ground (arith, named-delete_where test asked m, text_eq_iff n asked)

-- Memory: every pointer refers to a value.
abbrev pub Memory {ℓ} : Type ℓ → Type ℓ
Memory A = ℕ → A

-- A write through a pointer.
unfoldable pub write {ℓ} : {A : Type ℓ} → ℕ → A → Memory A → Memory A
write p v m q = if p == q then v else m q

-- ===== src/Prelude/Assoc.antt =====
-- Go's map[uint64]V as an association list, one entry for a key.
use Prim.Native.Nat.{ℕ}
use mathlib.Core.Path.{◌≡◌, refl}
use mathlib.Core.Option.{Option, none, some}
use mathlib.Core.List.{List, [], ◌∷◌}
use native.Mathlib.Omega.{arith}
use tinykv.Prelude.Tests.{◌==◌, if◌then◌else◌}

module _ {ℓ} {V : Type ℓ} where
  -- m[k]
  unfoldable pub lookup : ℕ → List (ℕ × V) → Option V
  lookup k [] = none
  lookup k ((j, v) ∷ m) = if j == k then some v else lookup k m

  -- m[k] = v
  unfoldable pub insert : ℕ → V → List (ℕ × V) → List (ℕ × V)
  insert k v [] = (k, v) ∷ []
  insert k v ((j, w) ∷ m) = if j == k then (k, v) ∷ m else (j, w) ∷ insert k v m

  -- delete(m, k)
  unfoldable pub erase : ℕ → List (ℕ × V) → List (ℕ × V)
  erase k [] = []
  erase k ((j, w) ∷ m) = let rest = erase k m in if j == k then rest else (j, w) ∷ rest

  pub lookup-insert :
      (at wanted : ℕ) (new : V) (entries : List (ℕ × V))
      → lookup wanted (insert at new entries)
        ≡ (if at == wanted then some new else lookup wanted entries)
  unfolding lookup insert
  lookup-insert at wanted new [] = refl
  lookup-insert at wanted new (e ∷ es) = ground (arith, lookup-insert at wanted new es)

  pub lookup-erase :
      (at wanted : ℕ) (entries : List (ℕ × V))
      → lookup wanted (erase at entries) ≡ (if at == wanted then none else lookup wanted entries)
  unfolding lookup erase
  lookup-erase at wanted [] = ground arith
  lookup-erase at wanted (e ∷ es) = ground (arith, lookup-erase at wanted es)

-- ===== src/Prelude/Outcome.antt =====
-- The outcome of Go code: a value, or a panic that ends the process.
use Prim.Native.Nat.{ℕ}
use mathlib.Core.Path.{◌≡◌, refl}
use mathlib.Core.Logic.{◌⊎◌, inl, inr}
use mathlib.Core.Bool.{Bool, true, false}
use mathlib.Core.Option.{Option, none, some}
use mathlib.Core.List.{List, [], ◌∷◌}
use native.Mathlib.Omega.{arith}
use tinykv.Prelude.Tests.{if◌then◌else◌}
use tinykv.Prelude.Lists.{get_elem?}

-- A bounds check of the runtime, a nil dereference, and a call of `panic` or of an assertion.
pub data Panic : Type 0 where
  out_of_range nil_dereference explicit : Panic

pub data Result {ℓ} (A : Type ℓ) : Type ℓ where
  ok : A → Result A
  panic : Panic → Result A

infixl 5 ◌>>=◌
abbrev pub ◌>>=◌ {ℓ κ} : {A : Type ℓ} {B : Type κ} → Result A → (A → Result B) → Result B
ok a >>= f = f a
panic e >>= f = panic e

-- A value that must be there.
abbrev pub or_panic {ℓ} : {A : Type ℓ} → Panic → Option A → Result A
or_panic e none = panic e
or_panic e (some a) = ok a

-- s[i]
abbrev pub index {ℓ} : {A : Type ℓ} → List A → ℕ → Result A
index xs i = or_panic out_of_range (get_elem? xs i)

-- The loop `for _, x := range xs { s = body(s, x) }`.
unfoldable pub for_each {ℓ κ} :
    {A : Type ℓ} {S : Type κ} → List A → (A → S → Result S) → S → Result S
for_each [] body s = ok s
for_each (x ∷ xs) body s = body x s >>= λ s'. for_each xs body s'

-- A `return` in the middle of a handler is an `if` around what follows.
module _ {ℓ κ} {A : Type ℓ} {B : Type κ} where
  pub >>=-eq-ok :
      (start : Result A) (rest : A → Result B) {out : B}
      → (start >>= rest) ≡ ok out
      → (mid : A) × (start ≡ ok mid) × (rest mid ≡ ok out)
  >>=-eq-ok (panic why) rest e = cc
  >>=-eq-ok (ok mid) rest e = (mid, refl, e)

module _ {ℓ} {A : Type ℓ} where
  pub if-eq-ok :
      (b : Bool) (m n : Result A) {a : A}
      → (if b then m else n) ≡ ok a
      → ((b ≡ true) × (m ≡ ok a)) ⊎ ((b ≡ false) × (n ≡ ok a))
  if-eq-ok true m n h = inl (refl, h)
  if-eq-ok false m n h = inr (refl, h)

  pub ok-injective : {a b : A} → ok a ≡ ok b → a ≡ b
  ok-injective h = cc

  pub index-eq-ok : (xs : List A) (i : ℕ) {a : A} → index xs i ≡ ok a → get_elem? xs i ≡ some a
  index-eq-ok xs i h = ground arith

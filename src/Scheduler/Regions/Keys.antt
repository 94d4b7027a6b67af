-- ===== src/Scheduler/Regions/Keys.antt =====
-- scheduler/server/core/region_tree.go: the regions, and the order of keys (bytes.Compare).
use Prim.Native.Nat.{Ordering, lt, eq, gt}
use tinykv.Prelude.{
  ℕ, ◌≡◌, ◌⊎◌, refl, sym, ap, subst, inl, inr, Bool, true, false, [], ◌∷◌, arith, Bytes,
  compare_bytes, is_lt, is_le, compare_bytes_refl, compare_bytes-eq, compare_bytes_flip_lt,
  compare_bytes_flip_gt, compare_bytes_trans,
}

-- What the tree reads of a RegionInfo.
pub record Region : Type 0 where
  pub id : ℕ
  pub start_key : Bytes
  pub end_key : Bytes

-- bytes.Compare(a, b) < 0, <= 0 and bytes.Equal
abbrev pub before : Bytes → Bytes → Bool
before a b = is_lt (compare_bytes a b)

abbrev pub upto : Bytes → Bytes → Bool
upto a b = is_le (compare_bytes a b)

abbrev is_eq : Ordering → Bool
is_eq lt = false
is_eq eq = true
is_eq gt = false

abbrev pub same : Bytes → Bytes → Bool
same a b = is_eq (compare_bytes a b)

abbrev pub is_empty : Bytes → Bool
is_empty [] = true
is_empty (b ∷ bs) = false

Ordering-cases : (o : Ordering) → (o ≡ lt) ⊎ (o ≡ eq) ⊎ (o ≡ gt)
Ordering-cases lt = inl refl
Ordering-cases eq = inr (inl refl)
Ordering-cases gt = inr (inr refl)

pub before_irrefl : (a : Bytes) → before a a ≡ false
before_irrefl a = ap is_lt (compare_bytes_refl a)

pub before_cases : (a b : Bytes) → (before a b ≡ true) ⊎ (a ≡ b) ⊎ (before b a ≡ true)
before_cases a b = elim (Ordering-cases (compare_bytes a b)) [
  | inl l ↦ inl (ap is_lt l)
  | inr (inl e) ↦ inr (inl (compare_bytes-eq a b e))
  | inr (inr g) ↦ inr (inr (ap is_lt (compare_bytes_flip_lt a b g)))
]

is_lt-eq : (o : Ordering) → is_lt o ≡ true → o ≡ lt
is_lt-eq lt h = refl
is_lt-eq eq h = cc
is_lt-eq gt h = cc

pub before_trans : (a b c : Bytes) → before a b ≡ true → before b c ≡ true → before a c ≡ true
before_trans a b c h k =
    ap is_lt
      (compare_bytes_trans a b c (is_lt-eq (compare_bytes a b) h) (is_lt-eq (compare_bytes b c) k))

pub before_asym : (a b : Bytes) → before a b ≡ true → before b a ≡ false
before_asym a b h = ap is_lt (compare_bytes_flip_gt a b (is_lt-eq (compare_bytes a b) h))

pub upto-before : (a b : Bytes) → upto a b ≡ true → before b a ≡ false
upto-before a b h = elim (before_cases a b) [
  | inl l ↦ before_asym a b l
  | inr (inl e) ↦ subst (λ x. before x a ≡ false) e (before_irrefl a)
  | inr (inr g) ↦ absurd (flip (compare_bytes_flip_gt b a (is_lt-eq (compare_bytes b a) g)))
]
  where
    flip : compare_bytes a b ≡ gt → ⊥
    flip g = ground (arith, ap is_le g, h)

pub not-upto-before : (a b : Bytes) → upto a b ≡ false → before b a ≡ true
not-upto-before a b h = elim (Ordering-cases (compare_bytes a b)) [
  | inl l ↦ absurd (ground (arith, ap is_le l, h))
  | inr (inl e) ↦ absurd (ground (arith, ap is_le e, h))
  | inr (inr g) ↦ ap is_lt (compare_bytes_flip_lt a b g)
]

-- a ≤ b is before b a ≡ false.
pub le_lt_trans : (a b c : Bytes) → before b a ≡ false → before b c ≡ true → before a c ≡ true
le_lt_trans a b c h k = elim (before_cases a b) [
  | inl l ↦ before_trans a b c l k
  | inr (inl e) ↦ subst (λ x. before x c ≡ true) (sym e) k
  | inr (inr g) ↦ absurd (ground (arith, g, h))
]

pub le_trans : (a b c : Bytes) → before b a ≡ false → before c b ≡ false → before c a ≡ false
le_trans a b c h k = elim (before_cases c a) [
  | inl l ↦ absurd (ground (arith, h, le_lt_trans b c a k l))
  | inr (inl e) ↦ subst (λ x. before x a ≡ false) (sym e) (before_irrefl a)
  | inr (inr g) ↦ before_asym a c g
]

pub le_antisym : (a b : Bytes) → before b a ≡ false → before a b ≡ false → a ≡ b
le_antisym a b h k = elim (before_cases a b) [
  | inl l ↦ absurd (ground (arith, l, k))
  | inr (inl e) ↦ e
  | inr (inr g) ↦ absurd (ground (arith, g, h))
]

pub same-eq : (a b : Bytes) → same a b ≡ true → a ≡ b
same-eq a b h = elim (Ordering-cases (compare_bytes a b)) [
  | inl l ↦ absurd (ground (arith, ap is_eq l, h))
  | inr (inl e) ↦ compare_bytes-eq a b e
  | inr (inr g) ↦ absurd (ground (arith, ap is_eq g, h))
]

pub same_refl : (a : Bytes) → same a a ≡ true
same_refl a = ap is_eq (compare_bytes_refl a)

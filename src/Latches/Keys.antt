-- ===== src/Latches/Keys.antt =====
-- kv/transaction/latches/latches.go: what the loops over keys do to the latch map.
use tinykv.Prelude.{
  ℕ, ◌≡◌, refl, sym, ap, ap₂, ◌∙◌, subst, arith, Bool, true, false, ◌&&◌, ◌||◌, none, some, List,
  [], ◌∷◌, ◌==◌, if◌then◌else◌, Bool-cases, inl, inr, ==→eq, Option-cases,
}
use tinykv.Latches.{
  Key, same_key, latch_of, set_latch, delete_latch, first_latched, latch_all, unlatch_all,
}

pub same_key→eq : (a b : Key) → same_key a b ≡ true → a ≡ b
unfolding same_key
same_key→eq [] [] h = refl
same_key→eq [] (b ∷ bs) h = cc
same_key→eq (a ∷ cs) [] h = cc
same_key→eq (a ∷ cs) (b ∷ bs) h = elim (Bool-cases (a == b)) [
  | inl e ↦
      ap₂ (λ x xs. x ∷ xs) (==→eq a b e)
        (same_key→eq cs bs (sym (ap (λ t. t && same_key cs bs) e) ∙ h))
  | inr e ↦ absurd (ground (arith, h, e))
]

pub same_key_refl : (a : Key) → same_key a a ≡ true
unfolding same_key
same_key_refl [] = refl
same_key_refl (a ∷ cs) = ground (arith, same_key_refl cs)

apart : (i j k : Key) → same_key i j ≡ false → same_key i k ≡ true → same_key j k ≡ false
apart i j k ne e = elim (Bool-cases (same_key j k)) [
  | inl e' ↦
      let q : i ≡ j = same_key→eq i k e ∙ sym (same_key→eq j k e') in
      absurd (ground (arith, ne, ap (λ x. same_key x j) q, same_key_refl j))
  | inr e' ↦ e'
]

abbrev pub contains : Key → List Key → Bool
contains k [] = false
contains k (j ∷ js) = same_key j k || contains k js

latch_of-set_latch :
    (k j : Key) (g : ℕ) (m : List (Key × ℕ))
    → latch_of k (set_latch j g m) ≡ (if same_key j k then some g else latch_of k m)
unfolding latch_of set_latch
latch_of-set_latch k j g [] = refl
latch_of-set_latch k j g ((i, old) ∷ m) = elim (Bool-cases (same_key i j)) [
  | inl e ↦
      let q : same_key i k ≡ same_key j k = ap (λ x. same_key x k) (same_key→eq i j e) in
      ground (arith, e, q)
  | inr e ↦ ground (arith, e, latch_of-set_latch k j g m, apart i j k e)
]

latch_of-delete_latch :
    (k j : Key) (m : List (Key × ℕ))
    → latch_of k (delete_latch j m) ≡ (if same_key j k then none else latch_of k m)
unfolding latch_of delete_latch
latch_of-delete_latch k j [] = ground arith
latch_of-delete_latch k j ((i, old) ∷ m) = elim (Bool-cases (same_key i j)) [
  | inl e ↦
      let q : same_key i k ≡ same_key j k = ap (λ x. same_key x k) (same_key→eq i j e) in
      ground (arith, e, q, latch_of-delete_latch k j m)
  | inr e ↦ ground (arith, e, latch_of-delete_latch k j m, apart i j k e)
]

pub latch_of-latch_all :
    (k : Key) (g : ℕ) (keys : List Key) (m : List (Key × ℕ))
    → latch_of k (latch_all g keys m) ≡ (if contains k keys then some g else latch_of k m)
unfolding latch_all
latch_of-latch_all k g [] m = refl
latch_of-latch_all k g (j ∷ js) m =
    ground (arith, latch_of-latch_all k g js (set_latch j g m), latch_of-set_latch k j g m)

pub latch_of-unlatch_all :
    (k : Key) (keys : List Key) (m : List (Key × ℕ))
    → latch_of k (unlatch_all keys m) ≡ (if contains k keys then none else latch_of k m)
unfolding unlatch_all
latch_of-unlatch_all k [] m = refl
latch_of-unlatch_all k (j ∷ js) m =
    ground (arith, latch_of-unlatch_all k js (delete_latch j m), latch_of-delete_latch k j m)

-- No key of the list is latched.
pub first_latched-eq-none :
    (k : Key) (keys : List Key) (m : List (Key × ℕ))
    → first_latched keys m ≡ none
    → contains k keys ≡ true
    → latch_of k m ≡ none
unfolding first_latched
first_latched-eq-none k [] m h c = cc
first_latched-eq-none k (j ∷ js) m h c = elim (Option-cases (latch_of j m)) [
  | inl e ↦ elim (Bool-cases (same_key j k)) [
    | inl s ↦ subst (λ i. latch_of i m ≡ none) (same_key→eq j k s) e
    | inr s ↦ first_latched-eq-none k js m (ground (arith, h, e)) (ground (arith, c, s))
  ]
  | inr (g, e) ↦ absurd (ground (arith, h, e))
]

-- The wait group that a caller is given is that of a key it asked for.
pub first_latched-eq-some :
    (keys : List Key) (m : List (Key × ℕ)) (g : ℕ)
    → first_latched keys m ≡ some g
    → (k : Key) × (contains k keys ≡ true) × (latch_of k m ≡ some g)
unfolding first_latched
first_latched-eq-some [] m g h = cc
first_latched-eq-some (j ∷ js) m g h = elim (Option-cases (latch_of j m)) [
  | inl e ↦
      let (k, i, l) = first_latched-eq-some js m g (ground (arith, h, e)) in
      (k, ground (arith, i), l)
  | inr (g', e) ↦ (j, ground (arith, same_key_refl j), ground (arith, h, e))
]

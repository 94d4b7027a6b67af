-- ===== src/Latches/Exclusion.antt =====
-- kv/transaction/latches/latches.go: commands that acquire and release latches, in any order.
use tinykv.Prelude.{
  ℕ, zero, suc, ◌+◌, ◌-◌, ◌≤◌, ◌≡◌, refl, ◌∙◌, arith, true, Option, none, some, List, [], ◌∷◌, ◌++◌,
  length, get_elem?, set, ◌==◌, if◌then◌else◌, Option-cases, inl, inr, ok, All,
}
use tinykv.Latches.{
  Key, Latches, new_latches, latch_of, first_latched, acquire_latches, latch_all, done,
  release_latches,
}
use tinykv.Latches.Keys.{contains, latch_of-latch_all, first_latched-eq-none}

-- A command between its acquiring and its releasing: the keys, and the wait group made for them.
pub record Holder : Type 0 where
  pub group : ℕ
  pub keys : List Key

-- One of the holders, and the others.
pub data Removed (h : Holder) : List Holder → List Holder → Type 0 where
  here : {hs : List Holder} → Removed h (h ∷ hs) hs
  there : {g : Holder} {hs rest : List Holder} → Removed h hs rest → Removed h (g ∷ hs) (g ∷ rest)

pub data Step (l : Latches) (hs : List Holder) : Latches → List Holder → Type 0 where
  acquired :
      (keys : List Key) {l' : Latches}
      → acquire_latches l keys ≡ (l', none)
      → Step l hs l' (record { group = length l.groups; keys = keys } ∷ hs)
  refused :
      (keys : List Key) (g : ℕ) {l' : Latches}
      → acquire_latches l keys ≡ (l', some g)
      → Step l hs l' hs
  released :
      (h : Holder) {rest : List Holder} {l' : Latches}
      → Removed h hs rest
      → release_latches l h.keys ≡ ok l'
      → Step l hs l' rest

pub data Reach : Latches → List Holder → Type 0 where
  start : Reach new_latches []
  next : {l l' : Latches} {hs hs' : List Holder} → Reach l hs → Step l hs l' hs' → Reach l' hs'

-- How many commands have latched the key.
abbrev pub holders : Key → List Holder → ℕ
holders k [] = 0
holders k (h ∷ hs) = (if contains k h.keys then 1 else 0) + holders k hs

-- How many of them wait groups are for the group.
abbrev pub uses : ℕ → List Holder → ℕ
uses g [] = 0
uses g (h ∷ hs) = (if h.group == g then 1 else 0) + uses g hs

abbrev pub count_at : List ℕ → ℕ → ℕ
count_at ns g = elim (get_elem? ns g) [ some n ↦ n | none ↦ 0 ]

abbrev pub latched : Option ℕ → ℕ
latched none = 0
latched (some g) = 1

abbrev pub Owns : Latches → Holder → Type 0
Owns l h = (k : Key) → contains k h.keys ≡ true → latch_of k l.latch_map ≡ some h.group

pub record Consistent (l : Latches) (hs : List Holder) : Type 0 where
  pub owned : (k : Key) → holders k hs ≡ latched (latch_of k l.latch_map)
  pub owns : All (Owns l) hs
  pub counted : (g : ℕ) → uses g hs ≤ count_at l.groups g

count_at-append :
    (ns : List ℕ) (g : ℕ)
    → count_at (ns ++ (1 ∷ [])) g ≡ count_at ns g + (if length ns == g then 1 else 0)
count_at-append [] zero = refl
count_at-append [] (suc g) = ground arith
count_at-append (n ∷ ns) zero = ground arith
count_at-append (n ∷ ns) (suc g) = ground (arith, count_at-append ns g)

pub count_at-set :
    (ns : List ℕ) (g i n : ℕ)
    → get_elem? ns g ≡ some n
    → count_at (set ns g (n - 1)) i ≡ count_at ns i - (if g == i then 1 else 0)
count_at-set [] g i n h = cc
count_at-set (m ∷ ns) zero zero n h = ground arith
count_at-set (m ∷ ns) zero (suc i) n h = ground arith
count_at-set (m ∷ ns) (suc g) zero n h = ground arith
count_at-set (m ∷ ns) (suc g) (suc i) n h = ground (arith, count_at-set ns g i n)

pub uses-Removed :
    {h : Holder} {hs rest : List Holder} (g : ℕ)
    → Removed h hs rest
    → uses g hs ≡ (if h.group == g then 1 else 0) + uses g rest
uses-Removed g here = refl
uses-Removed g (there r) = omega (arith, uses-Removed g r)

pub holders-Removed :
    {h : Holder} {hs rest : List Holder} (k : Key)
    → Removed h hs rest
    → holders k hs ≡ (if contains k h.keys then 1 else 0) + holders k rest
holders-Removed k here = refl
holders-Removed k (there r) = omega (arith, holders-Removed k r)

pub Owns-Removed :
    (l : Latches) {h : Holder} {hs rest : List Holder}
    → Removed h hs rest
    → All (Owns l) hs
    → Owns l h × All (Owns l) rest
Owns-Removed l here a = a
Owns-Removed l (there r) a = let p = Owns-Removed l r a.1 in (p.0, (a.0, p.1))

-- What every holder owns, it still does where its keys keep their latches.
pub Owns-kept :
    (l l' : Latches) (hs : List Holder)
    → ((k : Key) → 1 ≤ holders k hs → latch_of k l'.latch_map ≡ latch_of k l.latch_map)
    → All (Owns l) hs
    → All (Owns l') hs
Owns-kept l l' [] same a = a
Owns-kept l l' (h ∷ hs) same a = (
  λ k c. same k (ground (arith, c)) ∙ a.0 k c,
  Owns-kept l l' hs (λ k n. same k (omega arith)) a.1,
)

abbrev pub granted : Latches → List Key → Latches
granted l keys = record {
  latch_map = latch_all (length l.groups) keys l.latch_map;
  groups = l.groups ++ (1 ∷ []);
}

pub granted-Consistent :
    (l : Latches) (hs : List Holder) (keys : List Key)
    → first_latched keys l.latch_map ≡ none
    → Consistent l hs
    → Consistent (granted l keys) (record { group = length l.groups; keys = keys } ∷ hs)
granted-Consistent l hs keys free c = record {
  owned = λ k. ground (arith, all k, free_of k, c.owned k);
  owns = (
    λ k i. all k ∙ ground (arith, i),
    Owns-kept l (granted l keys) hs (λ k n. ground (arith, all k, free_of k, c.owned k, n)) c.owns,
  );
  counted = λ g. ground (arith, c.counted g, count_at-append l.groups g);
}
  where
    all :
        (k : Key)
        → latch_of k (granted l keys).latch_map
          ≡ (if contains k keys then some (length l.groups) else latch_of k l.latch_map)
    all k = latch_of-latch_all k (length l.groups) keys l.latch_map

    free_of : (k : Key) → contains k keys ≡ true → latch_of k l.latch_map ≡ none
    free_of k = first_latched-eq-none k keys l.latch_map free

-- The counter of a holder's wait group is positive, so Done does not panic.
pub done_lem :
    (groups : List ℕ) (g : ℕ)
    → 1 ≤ count_at groups g
    → (n : ℕ) × (get_elem? groups g ≡ some n) × (done groups g ≡ ok (set groups g (n - 1)))
unfolding done
done_lem groups g h = elim (Option-cases (get_elem? groups g)) [
  | inl e ↦ absurd (ground (arith, h, e))
  | inr (n, e) ↦ (n, e, ground (arith, h, e))
]

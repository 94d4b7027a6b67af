-- ===== src/Latches/Release.antt =====
-- kv/transaction/latches/latches.go: ReleaseLatches by a command that holds its keys.
use tinykv.Prelude.{
  ℕ, ◌+◌, ◌-◌, ◌≤◌, ◌≡◌, refl, sym, ap, ◌∙◌, subst, arith, true, none, some, List, [], ◌∷◌, length,
  get_elem?, set, if◌then◌else◌, Option-cases, inl, inr, ok, ◌⊎◌, ◌↔◌, ok-injective, >>=-eq-ok,
  or_panic, nil_dereference,
}
use tinykv.Latches.{
  Key, Latches, new_latches, latch_of, first_latched, acquire_latches, unlatch_all, release_latches,
  grant, done,
}
use tinykv.Latches.Keys.{
  contains, latch_of-latch_all, latch_of-unlatch_all, first_latched-eq-some, first_latched-eq-none,
  same_key_refl,
}
use tinykv.Latches.Exclusion.{
  Holder, Removed, Step, Step.acquired, Step.refused, Step.released, Reach, Reach.start, Reach.next,
  holders, count_at-set, Consistent, uses-Removed, holders-Removed, Owns-Removed, Owns-kept,
  latched, granted, granted-Consistent, done_lem,
}

module _ (l : Latches) (hs rest : List Holder) (g : ℕ) (c : Consistent l hs) where
  abbrev freed : Key → List Key → ℕ → Latches
  freed k ks n = record {
    latch_map = unlatch_all (k ∷ ks) l.latch_map;
    groups = set l.groups g (n - 1);
  }

  freed-Consistent :
      (k : Key) (ks : List Key) (n : ℕ)
      → Removed (record { group = g; keys = k ∷ ks }) hs rest
      → get_elem? l.groups g ≡ some n
      → Consistent (freed k ks n) rest
  freed-Consistent k ks n r e = record {
    owned = λ j. ground (arith, all j, held j, c.owned j);
    owns =
        Owns-kept l (freed k ks n) rest (λ j m. ground (arith, all j, held j, c.owned j, m))
          (Owns-Removed l r c.owns).1;
    counted = λ i. ground (arith, c.counted i, uses-Removed i r, count_at-set l.groups g i n e);
  }
    where
      all :
          (j : Key)
          → latch_of j (freed k ks n).latch_map
            ≡ (if contains j (k ∷ ks) then none else latch_of j l.latch_map)
      all j = latch_of-unlatch_all j (k ∷ ks) l.latch_map

      held : (j : Key) → holders j hs ≡ (if contains j (k ∷ ks) then 1 else 0) + holders j rest
      held j = holders-Removed j r

  release-Consistent :
      (keys : List Key)
      → Removed (record { group = g; keys = keys }) hs rest
      → (l' : Latches) × (release_latches l keys ≡ ok l') × Consistent l' rest
  unfolding release_latches
  release-Consistent [] r = (
    l,
    refl,
    record {
      owned = λ k. omega (arith, holders-Removed k r, c.owned k);
      owns = (Owns-Removed l r c.owns).1;
      counted = λ i. omega (arith, c.counted i, uses-Removed i r);
    },
  )
  release-Consistent (k ∷ ks) r =
      let mine : latch_of k l.latch_map ≡ some g =
        (Owns-Removed l r c.owns).0 k (ground (arith, same_key_refl k)) in
      let (n, e, d) = done_lem l.groups g (ground (arith, c.counted g, uses-Removed g r)) in
      (freed k ks n, ground (arith, mine, d), freed-Consistent k ks n r e)

acquire-cases :
    (l : Latches) (keys : List Key)
    → ((g : ℕ) × (k : Key) × (acquire_latches l keys ≡ (l, some g))
        × (contains k keys ≡ true)
        × (latch_of k l.latch_map ≡ some g))
      ⊎ ((first_latched keys l.latch_map ≡ none)
          × (acquire_latches l keys ≡ (granted l keys, none)))
unfolding acquire_latches
acquire-cases l keys = elim (Option-cases (first_latched keys l.latch_map)) [
  | inl e ↦ inr (e, ap (grant l keys) e)
  | inr (g, e) ↦
      let (k, i, m) = first_latched-eq-some keys l.latch_map g e in
      inl (g, k, ap (grant l keys) e, i, m)
]

Step-Consistent :
    (l l' : Latches) (hs hs' : List Holder) → Step l hs l' hs' → Consistent l hs → Consistent l' hs'
Step-Consistent l l' hs hs' (acquired keys e) c = elim (acquire-cases l keys) [
  | inl (g, k, e', i, m) ↦ absurd cc
  | inr (free, e') ↦
      subst (λ a. Consistent a (record { group = length l.groups; keys = keys } ∷ hs))
        (ap (λ p. p.0) (sym e' ∙ e)) (granted-Consistent l hs keys free c)
]
Step-Consistent l l' hs hs' (refused keys g e) c = elim (acquire-cases l keys) [
  | inl (g', k, e', i, m) ↦ subst (λ a. Consistent a hs) (ap (λ p. p.0) (sym e' ∙ e)) c
  | inr (free, e') ↦ absurd cc
]
Step-Consistent l l' hs hs' (released h r e) c =
    let (a, e', c') = release-Consistent l hs hs' h.group c h.keys r in
    subst (λ a. Consistent a hs') (ok-injective (sym e' ∙ e)) c'

start-Consistent : Consistent new_latches []
unfolding new_latches latch_of
start-Consistent = record { owned = λ k. refl; owns = tt; counted = λ g. omega arith }

Reach-Consistent : (l : Latches) (hs : List Holder) → Reach l hs → Consistent l hs
Reach-Consistent l hs start = start-Consistent
Reach-Consistent l hs (next r s) = Step-Consistent _ l _ hs s (Reach-Consistent _ _ r)

-- In whatever order commands acquire and release latches, two of them never hold the same key at
-- once, and a key is latched exactly when a command holds it.
pub Reach-exclusive :
    (l : Latches) (hs : List Holder)
    → Reach l hs
    → (k : Key) → (holders k hs ≤ 1) × ((holders k hs ≡ 0) ↔ (latch_of k l.latch_map ≡ none))
Reach-exclusive l hs r k =
    let c = (Reach-Consistent l hs r).owned k in
    (ground (arith, c), (λ z. ground (arith, z, c), λ z. ground (arith, z, c)))

release_latches-latch_of :
    (l l' : Latches) (keys : List Key)
    → release_latches l keys ≡ ok l'
    → (k : Key)
    → latch_of k l'.latch_map ≡ (if contains k keys then none else latch_of k l.latch_map)
unfolding release_latches
release_latches-latch_of l l' [] e k =
    ap (λ (a : Latches). latch_of k a.latch_map) (sym (ok-injective e))
release_latches-latch_of l l' (j ∷ ks) e k =
    let (g, latched, rest) = >>=-eq-ok (or_panic nil_dereference (latch_of j l.latch_map)) _ e in
    let (groups, told, out) = >>=-eq-ok (done l.groups g) _ rest in
    ap (λ (a : Latches). latch_of k a.latch_map) (sym (ok-injective out))
    ∙ latch_of-unlatch_all k (j ∷ ks) l.latch_map

-- A command that holds latches can always release them: ReleaseLatches does not panic, it deletes
-- the latches of exactly the command's keys, and the others hold theirs as before.
pub release_latches-total :
    (l : Latches) (hs rest : List Holder) (h : Holder)
    → Reach l hs
    → Removed h hs rest
    → (l' : Latches) × (release_latches l h.keys ≡ ok l')
      × Reach l' rest
      × ((k : Key)
          → latch_of k l'.latch_map ≡ (if contains k h.keys then none else latch_of k l.latch_map))
release_latches-total l hs rest h r m =
    let c = Reach-Consistent l hs r in
    let (l', e, c') = release-Consistent l hs rest h.group c h.keys m in
    (l', e, next r (released h m e), release_latches-latch_of l l' h.keys e)

-- AcquireLatches, in a state that commands reach, gives all keys or none: either it returns nil,
-- no command holds any of the keys, and all of them get the new wait group; or it returns the wait
-- group of one of the keys, which exactly one command holds, and latches nothing.
pub acquire_latches-AllOrNone :
    (l : Latches) (hs : List Holder) (keys : List Key)
    → Reach l hs
    → ((l' : Latches) × (acquire_latches l keys ≡ (l', none))
        × ((k : Key) → contains k keys ≡ true → holders k hs ≡ 0)
        × ((k : Key) → contains k keys ≡ true → latch_of k l'.latch_map ≡ some (length l.groups)))
      ⊎ ((g : ℕ) × (k : Key) × (acquire_latches l keys ≡ (l, some g))
          × (contains k keys ≡ true)
          × (holders k hs ≡ 1)
          × (latch_of k l.latch_map ≡ some g))
acquire_latches-AllOrNone l hs keys r = elim (acquire-cases l keys) [
  | inl (g, k, e, i, m) ↦ inr (g, k, e, i, (Reach-Consistent l hs r).owned k ∙ ap latched m, m)
  | inr (free, e) ↦ inl (
    granted l keys,
    e,
    λ k i.
        (Reach-Consistent l hs r).owned k
        ∙ ap latched (first_latched-eq-none k keys l.latch_map free i),
    λ k i. ground (arith, i, latch_of-latch_all k (length l.groups) keys l.latch_map),
  )
]

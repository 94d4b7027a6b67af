-- ===== src/Tests/Store.antt =====
-- An etcd that is a function from keys to values, and reports no errors.
use tinykv.Prelude.{
  ◌≡◌, ◌≢◌, ◌⊎◌, refl, sym, ap, subst, ◌∙◌, arith, Bool, true, false, ◌&&◌, Bool-cases,
  Option-cases, inl, inr, if◌then◌else◌, if_true, if_false, Option, none, some, List, [], ◌∷◌,
  Bytes, All, ◌==◌,
}
use tinykv.Scheduler.Etcd.{
  Etcd, EtcdKey, alloc_id, leader, timestamp, Comparison, not_created, value_is, Outcome, succeeded,
  not_succeeded, failed, found, Holds, Puts, Same,
}

abbrev pub Values : Type 0
Values = EtcdKey → Option Bytes

abbrev pub same_key : EtcdKey → EtcdKey → Bool
same_key leader leader = true
same_key alloc_id alloc_id = true
same_key timestamp timestamp = true
same_key leader alloc_id = false
same_key leader timestamp = false
same_key alloc_id leader = false
same_key alloc_id timestamp = false
same_key timestamp leader = false
same_key timestamp alloc_id = false

same_key-eq : (j k : EtcdKey) → same_key j k ≡ true → j ≡ k
same_key-eq leader leader h = refl
same_key-eq alloc_id alloc_id h = refl
same_key-eq timestamp timestamp h = refl
same_key-eq leader alloc_id h = cc
same_key-eq leader timestamp h = cc
same_key-eq alloc_id leader h = cc
same_key-eq alloc_id timestamp h = cc
same_key-eq timestamp leader h = cc
same_key-eq timestamp alloc_id h = cc

same_key_refl : (k : EtcdKey) → same_key k k ≡ true
same_key_refl leader = refl
same_key_refl alloc_id = refl
same_key_refl timestamp = refl

abbrev pub same_bytes : Bytes → Bytes → Bool
same_bytes [] [] = true
same_bytes [] (y ∷ ys) = false
same_bytes (x ∷ xs) [] = false
same_bytes (x ∷ xs) (y ∷ ys) = x == y && same_bytes xs ys

same_bytes-eq : (xs ys : Bytes) → same_bytes xs ys ≡ true → xs ≡ ys
same_bytes-eq [] [] h = refl
same_bytes-eq [] (y ∷ ys) h = cc
same_bytes-eq (x ∷ xs) [] h = cc
same_bytes-eq (x ∷ xs) (y ∷ ys) h = ground (arith, h, same_bytes-eq xs ys)

abbrev pub check : Values → Comparison → Bool
check s (not_created k) = elim (s k) [ none ↦ true | some v ↦ false ]
check s (value_is k v) = elim (s k) [ none ↦ false | some w ↦ same_bytes w v ]

abbrev pub check_all : Values → List Comparison → Bool
check_all s [] = true
check_all s (c ∷ cs) = check s c && check_all s cs

abbrev pub put : Values → EtcdKey → Bytes → Values
put s k v j = if same_key j k then some v else s j

abbrev pub commit_values : Values → List Comparison → EtcdKey → Bytes → Values × Outcome
commit_values s cs k v = if check_all s cs then (put s k v, succeeded) else (s, not_succeeded)

check-Holds : (s : Values) (c : Comparison) → check s c ≡ true → Holds s c
check-Holds s (not_created k) h = ground (arith, h)
check-Holds s (value_is k v) h = elim (Option-cases (s k)) [
  | inl e ↦ ground (arith, h, e)
  | inr (w, e) ↦ ground (arith, h, e, same_bytes-eq w v)
]

check_all-All : (s : Values) (cs : List Comparison) → check_all s cs ≡ true → All (Holds s) cs
check_all-All s [] h = tt
check_all-All s (c ∷ cs) h =
    (check-Holds s c (ground (arith, h)), check_all-All s cs (ground (arith, h)))

put-Puts : (s : Values) (k : EtcdKey) (v : Bytes) → Puts s (put s k v) k v
put-Puts s k v = (if_true _ _ (same_key_refl k), λ j ne. ground (arith, ne, same_key-eq j k))

commit_values-cases :
    (s : Values) (cs : List Comparison) (k : EtcdKey) (v : Bytes)
    → ((check_all s cs ≡ true) × (commit_values s cs k v ≡ (put s k v, succeeded)))
      ⊎ (commit_values s cs k v ≡ (s, not_succeeded))
commit_values-cases s cs k v = elim (Bool-cases (check_all s cs)) [
  | inl h ↦ inl (h, if_true _ _ h)
  | inr h ↦ inr (if_false _ _ h)
]

pub commit_values-succeeded :
    (s t : Values) (cs : List Comparison) (k : EtcdKey) (v : Bytes)
    → commit_values s cs k v ≡ (t, succeeded)
    → All (Holds s) cs × Puts s t k v
commit_values-succeeded s t cs k v h = elim (commit_values-cases s cs k v) [
  | inl (held, e) ↦ (
    check_all-All s cs held,
    subst (λ u. Puts s u k v) (ap (λ (p : Values × Outcome). p.0) (sym e ∙ h)) (put-Puts s k v),
  )
  | inr e ↦ absurd (ground (arith, ap (λ (p : Values × Outcome). p.1) (sym e ∙ h)))
]

pub commit_values-not_succeeded :
    (s t : Values) (cs : List Comparison) (k : EtcdKey) (v : Bytes)
    → commit_values s cs k v ≡ (t, not_succeeded)
    → Same s t
commit_values-not_succeeded s t cs k v h = elim (commit_values-cases s cs k v) [
  | inl (held, e) ↦ absurd (ground (arith, ap (λ (p : Values × Outcome). p.1) (sym e ∙ h)))
  | inr e ↦ λ j. ap (λ (p : Values × Outcome). p.0 j) (sym h ∙ e)
]

pub commit_values-failed :
    (s t : Values) (cs : List Comparison) (k : EtcdKey) (v : Bytes)
    → commit_values s cs k v ≢ (t, failed)
commit_values-failed s t cs k v h = elim (commit_values-cases s cs k v) [
  | inl (held, e) ↦ ground (arith, ap (λ (p : Values × Outcome). p.1) (sym e ∙ h))
  | inr e ↦ ground (arith, ap (λ (p : Values × Outcome). p.1) (sym e ∙ h))
]

abbrev pub etcd : Etcd
etcd = record {
  State = Values;
  values = λ s. s;
  get = λ s k. found (s k);
  commit = commit_values;
  get_found = λ s k v h. sym (ground (arith, h));
  commit_succeeded = commit_values-succeeded;
  commit_not_succeeded = commit_values-not_succeeded;
  commit_failed = λ s t cs k v h. absurd (commit_values-failed s t cs k v h);
}

-- The leader's name is 7.
abbrev pub led : Values
led leader = some (7 ∷ [])
led alloc_id = none
led timestamp = none

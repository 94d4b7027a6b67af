-- ===== src/Tests/SortedTree.antt =====
-- scheduler/pkg/btree: a sorted list with the interface of the B-tree.
use mathlib.Core.List.{Memᴰ, Memᴰ.head, Memᴰ.tail}
use tinykv.Prelude.{
  ◌≡◌, ◌≢◌, ◌⊎◌, refl, sym, subst, inl, inr, Bool, true, Bool-cases, if◌then◌else◌, if_true,
  if_false, List, [], ◌∷◌, arith, All, All_map,
}
use tinykv.Scheduler.Regions.Keys.{Region, before, before_cases, before_trans}
use tinykv.Scheduler.Regions.Find.{All-Mem}

abbrev pub Sorted : List Region → Type 0
Sorted [] = Unit
Sorted (r ∷ rest) = All (λ (q : Region). before r.start_key q.start_key ≡ true) rest × Sorted rest

abbrev pub keep : (Region → Bool) → List Region → List Region
keep p [] = []
keep p (r ∷ rest) = if p r then r ∷ keep p rest else keep p rest

pub Mem-keep :
    (p : Region → Bool) (r : Region) (rs : List Region)
    → Memᴰ r (keep p rs)
    → Memᴰ r rs × (p r ≡ true)
Mem-keep p r [] m = absurd (elim m [ ])
Mem-keep p r (x ∷ rs) m = elim (Bool-cases (p x)) [
  | inl held ↦ elim (subst (Memᴰ r) (if_true _ _ held) m) [
    | head e ↦ (head e, subst (λ q. p q ≡ true) (sym e) held)
    | tail n ↦ (tail (Mem-keep p r rs n).0, (Mem-keep p r rs n).1)
  ]
  | inr gone ↦ let n = Mem-keep p r rs (subst (Memᴰ r) (if_false _ _ gone) m) in (tail n.0, n.1)
]

pub keep-Mem :
    (p : Region → Bool) (r : Region) (rs : List Region)
    → Memᴰ r rs
    → p r ≡ true
    → Memᴰ r (keep p rs)
keep-Mem p r [] m h = absurd (elim m [ ])
keep-Mem p r (x ∷ rs) (head e) h =
    subst (Memᴰ r) (sym (if_true _ _ (subst (λ q. p q ≡ true) e h))) (head e)
keep-Mem p r (x ∷ rs) (tail m) h = elim (Bool-cases (p x)) [
  | inl held ↦ subst (Memᴰ r) (sym (if_true _ _ held)) (tail (keep-Mem p r rs m h))
  | inr gone ↦ subst (Memᴰ r) (sym (if_false _ _ gone)) (keep-Mem p r rs m h)
]

All_of : (P : Region → Type 0) (rs : List Region) → ((r : Region) → Memᴰ r rs → P r) → All P rs
All_of P [] f = tt
All_of P (r ∷ rs) f = (f r (head refl), All_of P rs (λ q m. f q (tail m)))

pub Sorted-keep : (p : Region → Bool) (rs : List Region) → Sorted rs → Sorted (keep p rs)
Sorted-keep p [] s = tt
Sorted-keep p (r ∷ rs) s = elim (Bool-cases (p r)) [
  | inl held ↦ subst Sorted (sym (if_true _ _ held)) (
    All_of (λ q. before r.start_key q.start_key ≡ true) (keep p rs)
        (λ q m. All-Mem (λ q. before r.start_key q.start_key ≡ true) s.0 (Mem-keep p q rs m).0),
    Sorted-keep p rs s.1,
  )
  | inr gone ↦ subst Sorted (sym (if_false _ _ gone)) (Sorted-keep p rs s.1)
]

abbrev pub place : Region → List Region → List Region
place x [] = x ∷ []
place x (r ∷ rs) = if before x.start_key r.start_key then x ∷ r ∷ rs else r ∷ place x rs

pub Mem-place : (x r : Region) (rs : List Region) → Memᴰ r (place x rs) → (r ≡ x) ⊎ Memᴰ r rs
Mem-place x r [] (head e) = inl e
Mem-place x r [] (tail m) = absurd (elim m [ ])
Mem-place x r (q ∷ rs) m = elim (Bool-cases (before x.start_key q.start_key)) [
  | inl first ↦ elim (subst (Memᴰ r) (if_true _ _ first) m) [ head e ↦ inl e | tail n ↦ inr n ]
  | inr later ↦ elim (subst (Memᴰ r) (if_false _ _ later) m) [
    | head e ↦ inr (head e)
    | tail n ↦ elim (Mem-place x r rs n) [ inl e ↦ inl e | inr there ↦ inr (tail there) ]
  ]
]

pub place-Mem : (x r : Region) (rs : List Region) → (r ≡ x) ⊎ Memᴰ r rs → Memᴰ r (place x rs)
place-Mem x r [] (inl e) = head e
place-Mem x r [] (inr m) = absurd (elim m [ ])
place-Mem x r (q ∷ rs) either = elim (Bool-cases (before x.start_key q.start_key)) [
  | inl first ↦
      subst (Memᴰ r) (sym (if_true _ _ first)) (elim either [ inl e ↦ head e | inr m ↦ tail m ])
  | inr later ↦ subst (Memᴰ r) (sym (if_false _ _ later)) (elim either [
    | inl e ↦ tail (place-Mem x r rs (inl e))
    | inr (head e) ↦ head e
    | inr (tail m) ↦ tail (place-Mem x r rs (inr m))
  ])
]

pub Sorted-place :
    (x : Region) (rs : List Region)
    → Sorted rs
    → ((r : Region) → Memᴰ r rs → r.start_key ≢ x.start_key)
    → Sorted (place x rs)
Sorted-place x [] s apart = (tt, tt)
Sorted-place x (q ∷ rs) s apart = elim (Bool-cases (before x.start_key q.start_key)) [
  | inl first ↦
      subst Sorted (sym (if_true _ _ first)) (
        (first, All_map (λ r h. before_trans x.start_key q.start_key r.start_key first h) rs s.0),
        s,
      )
  | inr later ↦
      let ahead : before q.start_key x.start_key ≡ true =
        elim (before_cases q.start_key x.start_key) [
          | inl l ↦ l
          | inr (inl e) ↦ absurd (apart q (head refl) e)
          | inr (inr g) ↦ absurd (ground (arith, g, later))
        ] in
      subst Sorted (sym (if_false _ _ later)) (
        All_of (λ r. before q.start_key r.start_key ≡ true) (place x rs)
            (λ r m. elim (Mem-place x r rs m) [
              | inl e ↦ subst (λ (z : Region). before q.start_key z.start_key ≡ true) (sym e) ahead
              | inr n ↦ All-Mem (λ r. before q.start_key r.start_key ≡ true) s.0 n
            ]),
        Sorted-place x rs s.1 (λ r m. apart r (tail m)),
      )
]

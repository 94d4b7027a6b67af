-- ===== src/Scheduler/Regions/Overlaps.antt =====
-- scheduler/server/core/region_tree.go: getOverlaps gives the regions that share a key with the new
-- one.
use mathlib.Core.List.{Memᴰ, Memᴰ.head, Memᴰ.tail}
use tinykv.Prelude.{
  ◌≡◌, sym, subst, inl, inr, Bool, true, false, not, ◌&&◌, Bool-cases, Option-cases, if_true,
  if_false, List, [], ◌∷◌, arith, Bytes, ◌↔◌,
}
use tinykv.Scheduler.Regions.{contains, take_overlaps, first_overlap, find, get_overlaps}
use tinykv.Scheduler.Regions.Keys.{
  Region, before, upto, is_empty, le_lt_trans, le_trans, before_irrefl, before_asym, upto-before,
  not-upto-before,
}
use tinykv.Scheduler.Regions.Btree.{BTree, Ascending}
use tinykv.Scheduler.Regions.Find.{
  All-Mem, Valid, contains-start, contains-between, find-Has, find-contains,
}

abbrev pub Overlap : Region → Region → Type 0
Overlap r x = (k : Bytes) × (contains r k ≡ true) × (contains x k ≡ true)

-- The region is behind the end of x.
abbrev behind : Region → Region → Bool
behind x r = not (is_empty x.end_key) && upto x.end_key r.start_key

take_overlaps-Mem :
    (x r : Region) (items : List Region)
    → Memᴰ r (take_overlaps x items)
    → Memᴰ r items × (behind x r ≡ false)
unfolding take_overlaps
take_overlaps-Mem x r [] m = absurd (elim m [ ])
take_overlaps-Mem x r (o ∷ rest) m = elim (Bool-cases (behind x o)) [
  | inl past ↦ absurd (elim (subst (Memᴰ r) (if_true _ _ past) m) [ ])
  | inr near ↦ elim (subst (Memᴰ r) (if_false _ _ near) m) [
    | head e ↦ (head e, subst (λ q. behind x q ≡ false) (sym e) near)
    | tail n ↦ let (there, free) = take_overlaps-Mem x r rest n in (tail there, free)
  ]
]

behind-before :
    (x o r : Region)
    → before r.start_key o.start_key ≡ false
    → behind x r ≡ false
    → behind x o ≡ false
behind-before x o r h near = elim (Bool-cases (upto x.end_key o.start_key)) [
  | inr free ↦ ground (arith, free)
  | inl past ↦ elim (Bool-cases (upto x.end_key r.start_key)) [
    | inl reached ↦ ground (arith, reached, near)
    | inr left ↦
        let ahead =
          le_lt_trans o.start_key r.start_key x.end_key h
            (not-upto-before x.end_key r.start_key left) in
        absurd (ground (arith, ahead, upto-before x.end_key o.start_key past))
  ]
]

Mem-take_overlaps :
    (x r : Region) (items : List Region)
    → Ascending items
    → Memᴰ r items
    → behind x r ≡ false
    → Memᴰ r (take_overlaps x items)
unfolding take_overlaps
Mem-take_overlaps x r [] asc m near = absurd (elim m [ ])
Mem-take_overlaps x r (o ∷ rest) asc (head e) near =
    subst (Memᴰ r) (sym (if_false _ _ (subst (λ q. behind x q ≡ false) e near))) (head e)
Mem-take_overlaps x r (o ∷ rest) asc (tail m) near =
    let free =
      behind-before x o r (All-Mem (λ q. before q.start_key o.start_key ≡ false) asc.0 m) near in
    subst (Memᴰ r) (sym (if_false _ _ free)) (tail (Mem-take_overlaps x r rest asc.1 m near))

-- A region that begins in x, before its end, shares its start key.
start-Overlap :
    (x r : Region)
    → contains r r.start_key ≡ true
    → before r.start_key x.start_key ≡ false
    → behind x r ≡ false
    → Overlap r x
unfolding contains
start-Overlap x r proper after near =
    (r.start_key, proper, ground (arith, after, near, not-upto-before x.end_key r.start_key))

Overlap-behind : (x r : Region) → Overlap r x → behind x r ≡ false
unfolding contains
Overlap-behind x r (k, in_r, in_x) = elim (Bool-cases (upto x.end_key r.start_key)) [
  | inr free ↦ ground (arith, free)
  | inl past ↦ ground (
    arith,
    in_x,
    upto-before x.end_key r.start_key past,
    le_lt_trans r.start_key k x.end_key (contains-start r k in_r),
  )
]

module _ (b : BTree) where
  open b use {Tree, Has, ascend_greater_or_equal, has_ascend, ascend_has, ascending}

  abbrev begin : Tree → Region → Region
  begin t x = first_overlap b x (find b t x)

  Has-Overlap :
      (t : Tree) (x r : Region)
      → Valid b t
      → contains x x.start_key ≡ true
      → Has t r
      → before r.start_key (begin t x).start_key ≡ false
      → behind x r ≡ false
      → Overlap r x
  unfolding first_overlap
  Has-Overlap t x r v proper has h near = elim (Option-cases (find b t x)) [
    | inl n ↦
        start-Overlap x r (v.proper r has)
          (subst (λ m. before r.start_key (first_overlap b x m).start_key ≡ false) n h) near
    | inr (f, s) ↦
        let after = subst (λ m. before r.start_key (first_overlap b x m).start_key ≡ false) s h in
        let (has_f, in_f) = find-Has b t x f s in
        elim (Bool-cases (before r.start_key x.start_key)) [
          | inr later ↦ start-Overlap x r (v.proper r has) later near
          | inl earlier ↦
              let mine : contains f r.start_key ≡ true =
                contains-between f r.start_key x.start_key in_f after
                  (before_asym r.start_key x.start_key earlier) in
              let equal : f ≡ r = v.disjoint f r r.start_key has_f has mine (v.proper r has) in
              (
                x.start_key,
                subst (λ (q : Region). contains q x.start_key ≡ true) equal in_f,
                proper,
              )
        ]
  ]

  Overlap-begin :
      (t : Tree) (x r : Region)
      → Valid b t
      → Has t r
      → Overlap r x
      → before r.start_key (begin t x).start_key ≡ false
  unfolding first_overlap
  Overlap-begin t x r v has (k, in_r, in_x) = elim (Bool-cases (before r.start_key x.start_key)) [
    | inl earlier ↦
        let mine : contains r x.start_key ≡ true =
          contains-between r x.start_key k in_r (before_asym r.start_key x.start_key earlier)
            (contains-start x k in_x) in
        subst (λ m. before r.start_key (first_overlap b x m).start_key ≡ false)
          (sym (find-contains b t x r v has mine)) (before_irrefl r.start_key)
    | inr later ↦ elim (Option-cases (find b t x)) [
      | inl n ↦
          subst (λ m. before r.start_key (first_overlap b x m).start_key ≡ false) (sym n) later
      | inr (f, s) ↦
          subst (λ m. before r.start_key (first_overlap b x m).start_key ≡ false) (sym s)
            (le_trans f.start_key x.start_key r.start_key
              (contains-start f x.start_key (find-Has b t x f s).1) later)
    ]
  ]

  -- In a valid tree, getOverlaps gives exactly the regions of the tree that share a key with the
  -- region, which contains its own start key.
  pub get_overlaps-Overlap :
      (t : Tree) (x r : Region)
      → Valid b t
      → contains x x.start_key ≡ true
      → Memᴰ r (get_overlaps b t x) ↔ (Has t r × Overlap r x)
  unfolding get_overlaps
  get_overlaps-Overlap t x r v proper = (
    λ m.
        let (there, near) = take_overlaps-Mem x r (ascend_greater_or_equal t (begin t x)) m in
        let (has, after) = has_ascend t (begin t x) r there in
        (has, Has-Overlap t x r v proper has after near),
    λ p.
        Mem-take_overlaps x r (ascend_greater_or_equal t (begin t x)) (ascending t (begin t x))
          (ascend_has t (begin t x) r p.0 (Overlap-begin t x r v p.0 p.1)) (Overlap-behind x r p.1),
  )

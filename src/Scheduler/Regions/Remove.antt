-- ===== src/Scheduler/Regions/Remove.antt =====
-- scheduler/server/core/region_tree.go: remove deletes the region with the id, if it is found at the
-- start key.
use tinykv.Prelude.{
  ◌≡◌, ◌↔◌, sym, ap, ◌∙◌, subst, inl, inr, arith, true, not, ◌==◌, ==→eq, Bool-cases, Option-cases,
  if◌then◌else◌, if_true, if_false, Option, none, some, Bytes,
}
use tinykv.Scheduler.Regions.{contains, find, remove, search}
use tinykv.Scheduler.Regions.Keys.{Region}
use tinykv.Scheduler.Regions.Btree.{BTree}
use tinykv.Scheduler.Regions.Find.{Valid, find-Has, find-contains, search-Has}

module _ (b : BTree) where
  open b use {Tree, Has, len, delete, has_len, has_one, has_delete, delete_keeps}

  abbrev Meant : Region → Region → Type 0
  Meant x r = (r.id ≡ x.id) × (contains r x.start_key ≡ true)

  -- What is left after the region that was found is looked at.
  abbrev Left : Tree → Region → Tree → Type 0
  Left t x t' =
      ((r : Region) → Has t' r → Has t r × (Meant x r → ⊥))
      × ((r : Region) → Has t r → (Meant x r → ⊥) → Has t' r)

  delete-Left :
      (t : Tree) (x f : Region) (v : Valid b t)
      → Has t f
      → contains f x.start_key ≡ true
      → f.id ≡ x.id
      → Left t x (delete t f)
  delete-Left t x f v has_f in_f mine = (
    λ r h.
        let (has, differ) = has_delete t f r h in
        (has, λ m. differ (ap Region.start_key (v.disjoint r f x.start_key has has_f m.1 in_f))),
    λ r has free. delete_keeps t f r has (λ same.
        let equal : f ≡ r = sym (has_one t r f has has_f same) in
        free (subst (Meant x) equal (mine, in_f))),
  )

  same-Left : (t : Tree) (x : Region) → ((r : Region) → Has t r → Meant x r → ⊥) → Left t x t
  same-Left t x free = (λ r h. (h, free r h), λ r h f. h)

  remove-Left : (t : Tree) (x : Region) → Valid b t → Left t x (remove b t x)
  unfolding remove
  remove-Left t x v = elim (Bool-cases (len t == 0)) [
    | inl empty ↦
        subst (Left t x) (sym (if_true _ _ empty))
          (same-Left t x (λ r h m. has_len t r h (==→eq (len t) 0 empty)))
    | inr filled ↦ subst (Left t x) (sym (if_false _ _ filled)) (elim (Option-cases (find b t x)) [
      | inl n ↦
          subst
            (λ (m : Option Region).
              Left t x
                (elim m [ none ↦ t | some r ↦ if not (r.id == x.id) then t else delete t r ]))
            (sym n) (same-Left t x (λ r h m. ground (arith, sym n ∙ find-contains b t x r v h m.1)))
      | inr (f, s) ↦
          subst
            (λ (m : Option Region).
              Left t x
                (elim m [ none ↦ t | some r ↦ if not (r.id == x.id) then t else delete t r ]))
            (sym s) (found f s)
    ])
  ]
    where
      found :
          (f : Region)
          → find b t x ≡ some f
          → Left t x (if not (f.id == x.id) then t else delete t f)
      found f s =
          let (has_f, in_f) = find-Has b t x f s in
          elim (Bool-cases (f.id == x.id)) [
            | inl mine ↦
                subst (Left t x) (sym (if_false _ _ (ap not mine)))
                  (delete-Left t x f v has_f in_f (==→eq f.id x.id mine))
            | inr strange ↦ subst (Left t x) (sym (if_true _ _ (ap not strange))) (
                same-Left t x (λ r h m.
                  let equal : r ≡ f = v.disjoint r f x.start_key h has_f m.1 in_f in
                  ground (arith, strange, sym (ap Region.id equal) ∙ m.0)))
          ]

  remove-Valid : (t : Tree) (x : Region) → Valid b t → Valid b (remove b t x)
  remove-Valid t x v = record {
    proper = λ r h. v.proper r ((remove-Left t x v).0 r h).0;
    disjoint =
        λ r q k h g. v.disjoint r q k ((remove-Left t x v).0 r h).0 ((remove-Left t x v).0 q g).0;
  }

  -- After a removal from a valid tree, search finds what it found before, but for a region with the
  -- id of the removed one that contains its start key.
  pub search-remove :
      (t : Tree) (x : Region)
      → Valid b t
      → (k : Bytes) (r : Region)
      → (search b (remove b t x) k ≡ some r)
        ↔ ((search b t k ≡ some r) × ((r.id ≡ x.id) × (contains r x.start_key ≡ true) → ⊥))
  search-remove t x v k r = (
    λ found.
        let (h, in_r) = (search-Has b (remove b t x) k r (remove-Valid t x v)).0 found in
        let (has, free) = (remove-Left t x v).0 r h in ((search-Has b t k r v).1 (has, in_r), free),
    λ p.
        let (has, in_r) = (search-Has b t k r v).0 p.0 in
        (search-Has b (remove b t x) k r (remove-Valid t x v)).1
          ((remove-Left t x v).1 r has p.1, in_r),
  )

-- ===== src/Scheduler/Regions/Find.antt =====
-- scheduler/server/core/region_tree.go: find and search give the one region that contains the key.
use mathlib.Core.List.{Memᴰ, Memᴰ.head, Memᴰ.tail}
use tinykv.Prelude.{
  ◌≡◌, refl, sym, ap, ◌∙◌, subst, inl, inr, true, false, Bool-cases, if_true, if_false, none, some,
  List, [], ◌∷◌, arith, Bytes, All, ◌↔◌,
}
use tinykv.Scheduler.Regions.{contains, first_containing, find, search, at_key}
use tinykv.Scheduler.Regions.Keys.{Region, before, le_lt_trans}
use tinykv.Scheduler.Regions.Btree.{BTree, Descending}

pub All-Mem : (P : Region → Type 0) {r : Region} {rs : List Region} → All P rs → Memᴰ r rs → P r
All-Mem P all (head e) = subst P (sym e) all.0
All-Mem P all (tail m) = All-Mem P all.1 m

pub contains-start : (r : Region) (k : Bytes) → contains r k ≡ true → before k r.start_key ≡ false
unfolding contains
contains-start r k h = ground (arith, h)

-- A region contains the keys between its start and a key that it contains.
pub contains-between :
    (r : Region) (j k : Bytes)
    → contains r k ≡ true
    → before j r.start_key ≡ false
    → before k j ≡ false
    → contains r j ≡ true
unfolding contains
contains-between r j k h above below = ground (arith, h, above, le_lt_trans j k r.end_key below)

module _ (b : BTree) where
  open b use {Tree, Has, descend_less_or_equal, has_descend, descend_has, descending}

  -- Each region contains its start key, and no two share a key.
  pub record Valid (t : Tree) : Type 0 where
    pub proper : (r : Region) → Has t r → contains r r.start_key ≡ true
    pub disjoint :
        (r q : Region) (k : Bytes)
        → Has t r
        → Has t q
        → contains r k ≡ true
        → contains q k ≡ true
        → r ≡ q

  pub find-Has :
      (t : Tree) (x f : Region) → find b t x ≡ some f → Has t f × (contains f x.start_key ≡ true)
  unfolding find first_containing
  find-Has t x f h = of_items (descend_less_or_equal t x) (λ r m. (has_descend t x r m).0) h
    where
      of_items :
          (items : List Region)
          → ((r : Region) → Memᴰ r items → Has t r)
          → first_containing x.start_key items ≡ some f
          → Has t f × (contains f x.start_key ≡ true)
      of_items [] has g = cc
      of_items (r ∷ rest) has g = elim (Bool-cases (contains r x.start_key)) [
        | inl holds ↦
            let found : r ≡ f = ground (arith, sym (if_true (some r) none holds) ∙ g) in
            (
              subst (Has t) found (has r (head refl)),
              subst (λ (q : Region). contains q x.start_key ≡ true) found holds,
            )
        | inr fails ↦ absurd (ground (arith, sym (if_false (some r) none fails) ∙ g))
      ]

  pub find-contains :
      (t : Tree) (x r : Region)
      → Valid t
      → Has t r
      → contains r x.start_key ≡ true
      → find b t x ≡ some r
  unfolding find first_containing
  find-contains t x r v has h =
      of_items (descend_less_or_equal t x) (λ q m. has_descend t x q m)
        (descend_has t x r has (contains-start r x.start_key h)) (descending t x)
    where
      of_items :
          (items : List Region)
          → ((q : Region) → Memᴰ q items → Has t q × (before x.start_key q.start_key ≡ false))
          → Memᴰ r items
          → Descending items
          → first_containing x.start_key items ≡ some r
      of_items [] all m d = absurd (elim m [ ])
      of_items (f ∷ rest) all m d =
          let (has_f, below) = all f (head refl) in
          let same : r ≡ f = elim m [
            | head e ↦ e
            | tail n ↦
                v.disjoint r f f.start_key has has_f
                  (contains-between r f.start_key x.start_key h
                    (All-Mem (λ q. before f.start_key q.start_key ≡ false) d.0 n) below)
                  (v.proper f has_f)
          ] in
          if_true _ _ (subst (λ (q : Region). contains q x.start_key ≡ true) same h)
          ∙ ap some (sym same)

  -- In a valid tree, search finds a region exactly if it is in the tree and contains the key.
  pub search-Has :
      (t : Tree) (k : Bytes) (r : Region)
      → Valid t
      → (search b t k ≡ some r) ↔ (Has t r × (contains r k ≡ true))
  unfolding search at_key
  search-Has t k r v = (λ h. find-Has t (at_key k) r h, λ p. find-contains t (at_key k) r v p.0 p.1)

-- ===== src/Scheduler/Regions/Btree.antt =====
-- What the region tree asks of its B-tree (scheduler/pkg/btree/btree.go, a copy of google/btree),
-- whose items are compared by the start keys of their regions.
use mathlib.Core.List.{Memᴰ}
use tinykv.Prelude.{ℕ, ◌≡◌, ◌≢◌, ◌⊎◌, false, List, [], ◌∷◌, All}
use tinykv.Scheduler.Regions.Keys.{Region, before}

abbrev pub Ascending : List Region → Type 0
Ascending [] = Unit
Ascending (r ∷ rest) =
    All (λ (q : Region). before q.start_key r.start_key ≡ false) rest × Ascending rest

abbrev pub Descending : List Region → Type 0
Descending [] = Unit
Descending (r ∷ rest) =
    All (λ (q : Region). before r.start_key q.start_key ≡ false) rest × Descending rest

pub record BTree : Type 1 where
  pub Tree : Type 0
  pub Has : Tree → Region → Type 0
  pub len : Tree → ℕ
  pub delete : Tree → Region → Tree
  pub replace_or_insert : Tree → Region → Tree
  pub ascend_greater_or_equal : Tree → Region → List Region
  pub descend_less_or_equal : Tree → Region → List Region
  pub has_len : (t : Tree) (r : Region) → Has t r → len t ≢ 0
  pub has_one : (t : Tree) (a b : Region) → Has t a → Has t b → a.start_key ≡ b.start_key → a ≡ b
  pub has_delete :
      (t : Tree) (x r : Region) → Has (delete t x) r → Has t r × (r.start_key ≢ x.start_key)
  pub delete_keeps :
      (t : Tree) (x r : Region) → Has t r → r.start_key ≢ x.start_key → Has (delete t x) r
  pub has_insert :
      (t : Tree) (x r : Region)
      → Has (replace_or_insert t x) r
      → (r ≡ x) ⊎ (Has t r × (r.start_key ≢ x.start_key))
  pub insert_has : (t : Tree) (x : Region) → Has (replace_or_insert t x) x
  pub insert_keeps :
      (t : Tree) (x r : Region)
      → Has t r
      → r.start_key ≢ x.start_key
      → Has (replace_or_insert t x) r
  pub has_ascend :
      (t : Tree) (x r : Region)
      → Memᴰ r (ascend_greater_or_equal t x)
      → Has t r × (before r.start_key x.start_key ≡ false)
  pub ascend_has :
      (t : Tree) (x r : Region)
      → Has t r
      → before r.start_key x.start_key ≡ false
      → Memᴰ r (ascend_greater_or_equal t x)
  pub ascending : (t : Tree) (x : Region) → Ascending (ascend_greater_or_equal t x)
  pub has_descend :
      (t : Tree) (x r : Region)
      → Memᴰ r (descend_less_or_equal t x)
      → Has t r × (before x.start_key r.start_key ≡ false)
  pub descend_has :
      (t : Tree) (x r : Region)
      → Has t r
      → before x.start_key r.start_key ≡ false
      → Memᴰ r (descend_less_or_equal t x)
  pub descending : (t : Tree) (x : Region) → Descending (descend_less_or_equal t x)

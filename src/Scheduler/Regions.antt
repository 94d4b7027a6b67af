-- ===== src/Scheduler/Regions.antt =====
-- scheduler/server/core/region_tree.go: the regions by their ranges of keys, in a B-tree. The B-tree
-- (scheduler/pkg/btree) is a copy of google/btree and a parameter.
pub mod Keys
pub mod Btree
pub mod Find
pub mod Overlaps
pub mod Update
pub mod Remove
use tinykv.Prelude.{
  ℕ, Bool, not, ◌||◌, ◌&&◌, ◌==◌, if◌then◌else◌, Option, none, some, List, [], ◌∷◌, Bytes,
}
use tinykv.Scheduler.Regions.Keys.{Region, before, upto, same, is_empty}
use tinykv.Scheduler.Regions.Btree.{BTree}

unfoldable pub contains : Region → Bytes → Bool
contains r key = not (before key r.start_key) && (is_empty r.end_key || before key r.end_key)

-- The first of the items, if it contains the key.
unfoldable pub first_containing : Bytes → List Region → Option Region
unfolding contains
first_containing key [] = none
first_containing key (r ∷ rest) = if contains r key then some r else none

-- The items up to the first one behind the end of the region.
unfoldable pub take_overlaps : Region → List Region → List Region
take_overlaps region [] = []
take_overlaps region (over ∷ rest) =
    if not (is_empty region.end_key) && upto region.end_key over.start_key
    then []
    else over ∷ take_overlaps region rest

-- A region that has only a start key.
unfoldable pub at_key : Bytes → Region
at_key key = record { id = 0; start_key = key; end_key = [] }

-- The first of the items with another start key.
unfoldable pub first_other : Bytes → List Region → Option Region
first_other key [] = none
first_other key (r ∷ rest) = if same key r.start_key then first_other key rest else some r

-- The items that f is called on.
unfoldable pub visited : (Region → Bool) → List Region → List Region
visited f [] = []
visited f (r ∷ rest) = if f r then r ∷ visited f rest else r ∷ []

module _ (b : BTree) where
  open b use {Tree, len, delete, replace_or_insert, ascend_greater_or_equal, descend_less_or_equal}

  unfoldable pub find : Tree → Region → Option Region
  unfolding first_containing
  find t region = first_containing region.start_key (descend_less_or_equal t region)

  -- Where the overlapping regions begin.
  unfoldable pub first_overlap : Region → Option Region → Region
  first_overlap region none = region
  first_overlap region (some f) = f

  unfoldable pub get_overlaps : Tree → Region → List Region
  unfolding find first_overlap take_overlaps
  get_overlaps t region =
      take_overlaps region (ascend_greater_or_equal t (first_overlap region (find t region)))

  unfoldable pub delete_all : Tree → List Region → Tree
  delete_all t [] = t
  delete_all t (r ∷ rest) = delete_all (delete t r) rest

  unfoldable pub update : Tree → Region → Tree × List Region
  unfolding get_overlaps delete_all
  update t region =
      let overlaps = get_overlaps t region in
      (replace_or_insert (delete_all t overlaps) region, overlaps)

  unfoldable pub remove : Tree → Region → Tree
  unfolding find
  remove t region = if len t == 0 then t else elim (find t region) [
    | none ↦ t
    | some r ↦ if not (r.id == region.id) then t else delete t r
  ]

  unfoldable pub search : Tree → Bytes → Option Region
  unfolding find at_key
  search t key = find t (at_key key)

  unfoldable pub get_adjacent_regions : Tree → Region → Option Region × Option Region
  unfolding at_key first_other
  get_adjacent_regions t region =
      let item = at_key region.start_key in
      (
        first_other region.start_key (descend_less_or_equal t item),
        first_other region.start_key (ascend_greater_or_equal t item),
      )

  unfoldable pub search_prev : Tree → Bytes → Option Region
  unfolding find at_key get_adjacent_regions
  search_prev t key = elim (find t (at_key key)) [
    | none ↦ none
    | some current ↦ elim (get_adjacent_regions t current).0 [
      | none ↦ none
      | some prev ↦ if not (same prev.end_key current.start_key) then none else some prev
    ]
  ]

  -- The regions that f is called on, in their order.
  unfoldable pub scan_range : Tree → Bytes → (Region → Bool) → List Region
  unfolding find at_key first_overlap visited
  scan_range t start_key f =
      let region = at_key start_key in
      visited f (ascend_greater_or_equal t (first_overlap region (find t region)))

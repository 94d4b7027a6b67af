-- ===== src/Tests/Ranges.antt =====
-- scheduler/server/core/region_tree.go: two regions, and a third that covers the second and more.
use mathlib.Core.List.{Memᴰ, Memᴰ.head, Memᴰ.tail}
use tinykv.Prelude.{
  ◌≡◌, ◌≢◌, ◌⊎◌, ◌↔◌, refl, sym, ap, ◌∙◌, subst, inl, inr, Bool, true, false, not, some, List, [],
  ◌∷◌, arith, All, All_map, length, compare_bytes,
}
use tinykv.Scheduler.Regions.Keys.{
  Region, before, same, same-eq, same_refl, before_asym, before_irrefl,
}
use tinykv.Scheduler.Regions.Btree.{BTree, Ascending, Descending}
use tinykv.Scheduler.Regions.{contains, get_overlaps, update, search, remove}
use tinykv.Scheduler.Regions.Find.{All-Mem, Valid, search-Has}
use tinykv.Scheduler.Regions.Overlaps.{Overlap, get_overlaps-Overlap}
use tinykv.Scheduler.Regions.Update.{update-Valid, search-update}
use tinykv.Scheduler.Regions.Remove.{search-remove}
use tinykv.Tests.SortedTree.{
  Sorted, keep, Mem-keep, keep-Mem, Sorted-keep, place, Mem-place, place-Mem, Sorted-place,
}

abbrev pile : List Region → List Region → List Region
pile done [] = done
pile done (r ∷ rs) = pile (r ∷ done) rs

Mem-pile : (r : Region) (done rs : List Region) → Memᴰ r (pile done rs) → Memᴰ r done ⊎ Memᴰ r rs
Mem-pile r done [] m = inl m
Mem-pile r done (x ∷ rs) m = elim (Mem-pile r (x ∷ done) rs m) [
  | inl (head e) ↦ inr (head e)
  | inl (tail n) ↦ inl n
  | inr n ↦ inr (tail n)
]

pile-Mem : (r : Region) (done rs : List Region) → Memᴰ r done ⊎ Memᴰ r rs → Memᴰ r (pile done rs)
pile-Mem r done [] (inl m) = m
pile-Mem r done [] (inr m) = absurd (elim m [ ])
pile-Mem r done (x ∷ rs) (inl m) = pile-Mem r (x ∷ done) rs (inl (tail m))
pile-Mem r done (x ∷ rs) (inr (head e)) = pile-Mem r (x ∷ done) rs (inl (head e))
pile-Mem r done (x ∷ rs) (inr (tail m)) = pile-Mem r (x ∷ done) rs (inr m)

Descending-pile :
    (done rs : List Region)
    → Sorted rs
    → Descending done
    → All (λ (r : Region). All (λ (q : Region). before r.start_key q.start_key ≡ false) done) rs
    → Descending (pile done rs)
Descending-pile done [] s d h = d
Descending-pile done (r ∷ rs) s d h = Descending-pile (r ∷ done) rs s.1 (h.0, d) (extend rs s.0 h.1)
  where
    extend :
        (qs : List Region)
        → All (λ (q : Region). before r.start_key q.start_key ≡ true) qs
        → All (λ (q : Region). All (λ (z : Region). before q.start_key z.start_key ≡ false) done) qs
        → All
            (λ (q : Region).
              All (λ (z : Region). before q.start_key z.start_key ≡ false) (r ∷ done))
            qs
    extend [] above old = tt
    extend (q ∷ qs) above old =
        ((before_asym r.start_key q.start_key above.0, old.0), extend qs above.1 old.1)

all_none :
    (rs : List Region)
    → All (λ (r : Region). All (λ (q : Region). before r.start_key q.start_key ≡ false) []) rs
all_none [] = tt
all_none (r ∷ rs) = (tt, all_none rs)

Sorted-Ascending : (rs : List Region) → Sorted rs → Ascending rs
Sorted-Ascending [] s = tt
Sorted-Ascending (r ∷ rs) s =
    (All_map (λ q h. before_asym r.start_key q.start_key h) rs s.0, Sorted-Ascending rs s.1)

ahead-differ : (r b : Region) → before r.start_key b.start_key ≡ true → r.start_key ≢ b.start_key
ahead-differ r b h e =
    ground (arith, subst (λ k. before k b.start_key ≡ true) e h, before_irrefl b.start_key)

Sorted-one :
    (rs : List Region) (a b : Region)
    → Sorted rs
    → Memᴰ a rs
    → Memᴰ b rs
    → a.start_key ≡ b.start_key
    → a ≡ b
Sorted-one [] a b s m n e = absurd (elim m [ ])
Sorted-one (r ∷ rs) a b s (head e) (head e') same = e ∙ sym e'
Sorted-one (r ∷ rs) a b s (head e) (tail n) same = absurd (
    ahead-differ r b (All-Mem (λ q. before r.start_key q.start_key ≡ true) s.0 n)
      (ap Region.start_key (sym e) ∙ same))
Sorted-one (r ∷ rs) a b s (tail m) (head e) same = absurd (
    ahead-differ r a (All-Mem (λ q. before r.start_key q.start_key ≡ true) s.0 m)
      (ap Region.start_key (sym e) ∙ sym same))
Sorted-one (r ∷ rs) a b s (tail m) (tail n) same = Sorted-one rs a b s.1 m n same

Mem-length : (r : Region) (rs : List Region) → Memᴰ r rs → length rs ≢ 0
Mem-length r [] m h = elim m [ ]
Mem-length r (x ∷ rs) m h = omega (arith, h)

abbrev SortedTree : Type 0
SortedTree = (rs : List Region) × Sorted rs

abbrev other : Region → Region → Bool
other x r = not (same r.start_key x.start_key)

other-differ : (x r : Region) → other x r ≡ true → r.start_key ≢ x.start_key
other-differ x r h e =
    ground (arith, h, subst (λ k. same r.start_key k ≡ true) e (same_refl r.start_key))

differ-other : (x r : Region) → r.start_key ≢ x.start_key → other x r ≡ true
differ-other x r h = ground (arith, h, same-eq r.start_key x.start_key)

abbrev btree : BTree
btree = record {
  Tree = SortedTree;
  Has = λ t r. Memᴰ r t.0;
  len = λ t. length t.0;
  delete = λ t x. (keep (other x) t.0, Sorted-keep (other x) t.0 t.1);
  replace_or_insert = λ t x. (
    place x (keep (other x) t.0),
    Sorted-place x (keep (other x) t.0) (Sorted-keep (other x) t.0 t.1)
        (λ r m. other-differ x r (Mem-keep (other x) r t.0 m).1),
  );
  ascend_greater_or_equal = λ t x. keep (λ r. not (before r.start_key x.start_key)) t.0;
  descend_less_or_equal = λ t x. pile [] (keep (λ r. not (before x.start_key r.start_key)) t.0);
  has_len = λ t r m. Mem-length r t.0 m;
  has_one = λ t a b m n e. Sorted-one t.0 a b t.1 m n e;
  has_delete =
      λ t x r m. ((Mem-keep (other x) r t.0 m).0, other-differ x r (Mem-keep (other x) r t.0 m).1);
  delete_keeps = λ t x r m h. keep-Mem (other x) r t.0 m (differ-other x r h);
  has_insert = λ t x r m. elim (Mem-place x r (keep (other x) t.0) m) [
    | inl e ↦ inl e
    | inr n ↦ inr ((Mem-keep (other x) r t.0 n).0, other-differ x r (Mem-keep (other x) r t.0 n).1)
  ];
  insert_has = λ t x. place-Mem x x (keep (other x) t.0) (inl refl);
  insert_keeps = λ t x r m h.
      place-Mem x r (keep (other x) t.0) (inr (keep-Mem (other x) r t.0 m (differ-other x r h)));
  has_ascend = λ t x r m.
      let n = Mem-keep (λ r. not (before r.start_key x.start_key)) r t.0 m in
      (n.0, ground (arith, n.1));
  ascend_has = λ t x r m h. keep-Mem (λ r. not (before r.start_key x.start_key)) r t.0 m (ap not h);
  ascending =
      λ t x. Sorted-Ascending _ (Sorted-keep (λ r. not (before r.start_key x.start_key)) t.0 t.1);
  has_descend = λ t x r m. elim (Mem-pile r [] _ m) [
    | inl n ↦ absurd (elim n [ ])
    | inr n ↦
        let kept = Mem-keep (λ r. not (before x.start_key r.start_key)) r t.0 n in
        (kept.0, ground (arith, kept.1))
  ];
  descend_has = λ t x r m h.
      pile-Mem r [] _
        (inr (keep-Mem (λ r. not (before x.start_key r.start_key)) r t.0 m (ap not h)));
  descending = λ t x.
      Descending-pile [] _ (Sorted-keep (λ r. not (before x.start_key r.start_key)) t.0 t.1) tt
        (all_none _);
}

abbrev left : Region
left = record { id = 1; start_key = []; end_key = 5 ∷ [] }

abbrev right : Region
right = record { id = 2; start_key = 5 ∷ []; end_key = [] }

-- From within the left region to within the right one.
abbrev middle : Region
middle = record { id = 3; start_key = 4 ∷ []; end_key = 6 ∷ [] }

empty-Valid : Valid btree ([], tt)
empty-Valid = record { proper = λ r m. elim m [ ]; disjoint = λ r q k m n. elim m [ ] }

abbrev one_region : SortedTree
one_region = (update btree ([], tt) left).0

one_region-Valid : Valid btree one_region
unfolding contains compare_bytes
one_region-Valid = update-Valid btree ([], tt) left empty-Valid refl

abbrev two_regions : SortedTree
two_regions = (update btree one_region right).0

update-Valid_example : Valid btree two_regions
unfolding contains compare_bytes
update-Valid_example = update-Valid btree one_region right one_region-Valid refl

two_regions-Valid : Valid btree two_regions
unfolding contains compare_bytes
two_regions-Valid = update-Valid btree one_region right one_region-Valid refl

search-update_example : (search btree (update btree two_regions middle).0 (7 ∷ []) ≡ some right) ↔ (
    ((right ≡ middle) × (contains middle (7 ∷ []) ≡ true))
    ⊎ ((search btree two_regions (7 ∷ []) ≡ some right) × (Overlap right middle → ⊥)))
unfolding contains compare_bytes
search-update_example = search-update btree two_regions middle two_regions-Valid refl (7 ∷ []) right

get_overlaps-Overlap_example :
    Memᴰ left (get_overlaps btree two_regions middle)
    ↔ (Memᴰ left two_regions.0 × Overlap left middle)
unfolding contains compare_bytes
get_overlaps-Overlap_example =
    get_overlaps-Overlap btree two_regions middle left two_regions-Valid refl

search-remove_example : (search btree (remove btree two_regions right) (7 ∷ []) ≡ some left) ↔ (
    (search btree two_regions (7 ∷ []) ≡ some left)
    × ((left.id ≡ right.id) × (contains left right.start_key ≡ true) → ⊥))
search-remove_example = search-remove btree two_regions right two_regions-Valid (7 ∷ []) left

search-Has_example :
    (search btree two_regions (7 ∷ []) ≡ some right)
    ↔ (Memᴰ right two_regions.0 × (contains right (7 ∷ []) ≡ true))
search-Has_example = search-Has btree two_regions (7 ∷ []) right two_regions-Valid

-- ===== src/Scheduler/Regions/Update.antt =====
-- scheduler/server/core/region_tree.go: update overrides the regions that overlap the new one.
use mathlib.Core.List.{Memᴰ, Memᴰ.head, Memᴰ.tail}
use tinykv.Prelude.{
  ◌≡◌, ◌≢◌, ◌⊎◌, refl, sym, ap, ◌∙◌, subst, inl, inr, true, some, List, [], ◌∷◌, Bytes, ◌↔◌,
}
use tinykv.Scheduler.Regions.{contains, delete_all, get_overlaps, update, search}
use tinykv.Scheduler.Regions.Keys.{Region}
use tinykv.Scheduler.Regions.Btree.{BTree}
use tinykv.Scheduler.Regions.Find.{Valid, search-Has}
use tinykv.Scheduler.Regions.Overlaps.{Overlap, get_overlaps-Overlap}

module _ (b : BTree) where
  open b use {
    Tree, Has, delete, has_one, has_delete, delete_keeps, has_insert, insert_has, insert_keeps,
  }

  abbrev Apart : Region → List Region → Type 0
  Apart r os = (o : Region) → Memᴰ o os → r.start_key ≢ o.start_key

  delete_all-Has :
      (os : List Region) (t : Tree) (r : Region) → Has (delete_all b t os) r → Has t r × Apart r os
  unfolding delete_all
  delete_all-Has [] t r h = (h, λ o m. elim m [ ])
  delete_all-Has (x ∷ os) t r h =
      let (kept, apart) = delete_all-Has os (delete t x) r h in
      let (has, differ) = has_delete t x r kept in
      (
        has,
        λ o m. elim m [
          | head e ↦ λ same. differ (same ∙ ap Region.start_key e)
          | tail n ↦ apart o n
        ],
      )

  Has-delete_all :
      (os : List Region) (t : Tree) (r : Region) → Has t r → Apart r os → Has (delete_all b t os) r
  unfolding delete_all
  Has-delete_all [] t r h apart = h
  Has-delete_all (x ∷ os) t r h apart =
      Has-delete_all os (delete t x) r (delete_keeps t x r h (apart x (head refl)))
        (λ o m. apart o (tail m))

  module _ (t : Tree) (x : Region) (v : Valid b t) (proper : contains x x.start_key ≡ true) where
    abbrev updated : Tree
    updated = (update b t x).0

    Has-update : (r : Region) → Has updated r → (r ≡ x) ⊎ (Has t r × (Overlap r x → ⊥))
    unfolding update
    Has-update r h = elim (has_insert (delete_all b t (get_overlaps b t x)) x r h) [
      | inl e ↦ inl e
      | inr (kept, differ) ↦
          let (has, apart) = delete_all-Has (get_overlaps b t x) t r kept in
          inr (has, λ o. apart r ((get_overlaps-Overlap b t x r v proper).1 (has, o)) refl)
    ]

    update-Has : (r : Region) → Has t r → (Overlap r x → ⊥) → Has updated r
    unfolding update
    update-Has r has free =
        insert_keeps (delete_all b t (get_overlaps b t x)) x r
          (Has-delete_all (get_overlaps b t x) t r has (λ o m same.
            let (has_o, shared) = (get_overlaps-Overlap b t x o v proper).0 m in
            free (subst (λ q. Overlap q x) (sym (has_one t r o has has_o same)) shared)))
          (λ same.
            free (x.start_key, subst (λ k. contains r k ≡ true) same (v.proper r has), proper))

    update-new : Has updated x
    unfolding update
    update-new = insert_has (delete_all b t (get_overlaps b t x)) x

    -- Update keeps the tree valid: each region contains its start key, and no two share a key. The
    -- new region contains its own start key.
    pub update-Valid : Valid b updated
    update-Valid = record {
      proper = λ r h. elim (Has-update r h) [
        | inl e ↦ subst (λ (q : Region). contains q q.start_key ≡ true) (sym e) proper
        | inr (has, free) ↦ v.proper r has
      ];
      disjoint = λ r q k h g in_r in_q. elim (Has-update r h) [
        | inl e ↦ elim (Has-update q g) [
          | inl e' ↦ e ∙ sym e'
          | inr (has, free) ↦ absurd (free (k, in_q, subst (λ z. contains z k ≡ true) e in_r))
        ]
        | inr (has, free) ↦ elim (Has-update q g) [
          | inl e' ↦ absurd (free (k, in_r, subst (λ z. contains z k ≡ true) e' in_q))
          | inr (has', free') ↦ v.disjoint r q k has has' in_r in_q
        ]
      ];
    }

    -- After an update of a valid tree with a region that contains its own start key, search finds
    -- that region for the keys that it contains, and for the others what it found before, unless that
    -- shared a key with the new region: then it finds nothing.
    pub search-update :
        (k : Bytes) (r : Region)
        → (search b updated k ≡ some r)
          ↔ (((r ≡ x) × (contains x k ≡ true)) ⊎ ((search b t k ≡ some r) × (Overlap r x → ⊥)))
    search-update k r = (
      λ found.
          let (h, in_r) = (search-Has b updated k r update-Valid).0 found in
          elim (Has-update r h) [
            | inl e ↦ inl (e, subst (λ z. contains z k ≡ true) e in_r)
            | inr (has, free) ↦ inr ((search-Has b t k r v).1 (has, in_r), free)
          ],
      λ either. (search-Has b updated k r update-Valid).1 (elim either [
        | inl (e, in_x) ↦
            (subst (Has updated) (sym e) update-new, subst (λ z. contains z k ≡ true) (sym e) in_x)
        | inr (before, free) ↦
            let (has, in_r) = (search-Has b t k r v).0 before in (update-Has r has free, in_r)
      ]),
    )

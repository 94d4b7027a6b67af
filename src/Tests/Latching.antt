-- ===== src/Tests/Latching.antt =====
-- kv/transaction/latches/latches.go: two commands with different keys.
use tinykv.Prelude.{ℕ, ◌≤◌, ◌≡◌, ◌⊎◌, ◌↔◌, refl, List, [], ◌∷◌, none, some, true, ok, if◌then◌else◌}
use tinykv.Latches.{
  Key, Latches, new_latches, same_key, latch_of, set_latch, first_latched, latch_all, grant,
  acquire_latches, release_latches,
}
use tinykv.Latches.Keys.{contains}
use tinykv.Latches.Exclusion.{
  Holder, Removed.here, Removed.there, Reach, Reach.start, Reach.next, Step.acquired, holders,
}
use tinykv.Latches.Release.{Reach-exclusive, release_latches-total, acquire_latches-AllOrNone}

abbrev a_and_b : List Key
a_and_b = (97 ∷ []) ∷ (98 ∷ []) ∷ []

abbrev c_only : List Key
c_only = (99 ∷ []) ∷ []

abbrev first : Holder
first = record { group = 0; keys = a_and_b }

abbrev second : Holder
second = record { group = 1; keys = c_only }

abbrev both : Latches
both = record {
  latch_map = ((97 ∷ []), 0) ∷ ((98 ∷ []), 0) ∷ ((99 ∷ []), 1) ∷ [];
  groups = 1 ∷ 1 ∷ [];
}

both-Reach : Reach both (second ∷ first ∷ [])
unfolding acquire_latches grant first_latched latch_of latch_all set_latch same_key new_latches
both-Reach = next (next start (acquired a_and_b refl)) (acquired c_only refl)

Reach-exclusive_example :
    (holders (98 ∷ []) (second ∷ first ∷ []) ≤ 1)
    × ((holders (98 ∷ []) (second ∷ first ∷ []) ≡ 0) ↔ (latch_of (98 ∷ []) both.latch_map ≡ none))
Reach-exclusive_example = Reach-exclusive both (second ∷ first ∷ []) both-Reach (98 ∷ [])

release_latches-total_example :
    (l' : Latches) × (release_latches both a_and_b ≡ ok l')
    × Reach l' (second ∷ [])
    × ((k : Key)
        → latch_of k l'.latch_map
          ≡ (if contains k a_and_b then none else latch_of k both.latch_map))
release_latches-total_example =
    release_latches-total both (second ∷ first ∷ []) (second ∷ []) first both-Reach (there here)

acquire_latches-AllOrNone_example :
    ((l' : Latches) × (acquire_latches both ((98 ∷ []) ∷ []) ≡ (l', none))
      × ((k : Key) → contains k ((98 ∷ []) ∷ []) ≡ true → holders k (second ∷ first ∷ []) ≡ 0)
      × ((k : Key) → contains k ((98 ∷ []) ∷ []) ≡ true → latch_of k l'.latch_map ≡ some 2))
    ⊎ ((g : ℕ) × (k : Key) × (acquire_latches both ((98 ∷ []) ∷ []) ≡ (both, some g))
        × (contains k ((98 ∷ []) ∷ []) ≡ true)
        × (holders k (second ∷ first ∷ []) ≡ 1)
        × (latch_of k both.latch_map ≡ some g))
acquire_latches-AllOrNone_example =
    acquire_latches-AllOrNone both (second ∷ first ∷ []) ((98 ∷ []) ∷ []) both-Reach

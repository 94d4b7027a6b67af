-- ===== src/Raft/Log/Reads.antt =====
-- raft/log.go: what unstableEntries, nextEnts and hasNextEnts return of a valid log.
use tinykv.Prelude.{
  ℕ, ◌+◌, ◌-◌, ◌≤◌, ◌≡◌, refl, ap, ◌∙◌, List, take, drop, length, ltb, arith, ok, ◌>>=◌,
}
use tinykv.Raft.Pb.{Entry}
use tinykv.Raft.Log.{
  RaftLog, above, real_idx, last_index, unstable_entries, has_next_ents, next_ents, collect,
}
use tinykv.Raft.Log.Shape.{IsValid, last_index-contig, real_idx-bind, collect_lem}

-- The slice of the entries with indices from `lo` + 1 to `hi`.
abbrev pub between : RaftLog → ℕ → ℕ → List Entry
between l lo hi = take (hi - lo) (drop (lo - l.last_idx_of_snapshot) l.entries)

module _ (l : RaftLog) where
  slice :
      (lo hi : ℕ)
      → l.last_idx_of_snapshot ≤ lo
      → ok (
          take
            (hi - l.last_idx_of_snapshot - (lo - l.last_idx_of_snapshot))
            (drop (lo - l.last_idx_of_snapshot) l.entries))
        ≡ ok (between l lo hi)
  slice lo hi h = ap (λ n. ok (take n (drop (lo - l.last_idx_of_snapshot) l.entries))) (omega arith)

module _ (l : RaftLog) (v : IsValid l) where
  -- In a valid log nextEnts does not panic, and returns exactly the entries behind `applied` up to
  -- `committed`.
  pub next_ents_lem : next_ents l ≡ ok (between l l.applied l.committed)
  unfolding next_ents
  next_ents_lem =
      real_idx-bind l l.applied _
        (λ a. real_idx l l.committed >>= λ q. collect l.entries a (above q - a)) (omega arith)
        (λ p. refl)
      ∙ real_idx-bind l l.committed _
          (λ c.
            collect l.entries (l.applied - l.last_idx_of_snapshot)
              (c - (l.applied - l.last_idx_of_snapshot)))
          (omega arith) (λ q. refl)
      ∙ collect_lem l.entries (l.applied - l.last_idx_of_snapshot) _ (omega arith)
      ∙ slice l l.applied l.committed v.snapshot_le

  -- hasNextEnts says exactly whether something committed is not applied.
  pub has_next_ents_lem : has_next_ents l ≡ ok (ltb l.applied l.committed)
  unfolding has_next_ents
  has_next_ents_lem =
      real_idx-bind l l.applied _ (λ a. real_idx l l.committed >>= λ q. ok (ltb a (above q)))
        (omega arith) (λ p. refl)
      ∙ real_idx-bind l l.committed _ (λ c. ok (ltb (l.applied - l.last_idx_of_snapshot) c))
          (omega arith) (λ q. refl)
      ∙ ground arith

  -- unstableEntries returns exactly the entries behind `stabled`.
  pub unstable_entries_lem : unstable_entries l ≡ ok (between l l.stabled (last_index l))
  unfolding unstable_entries
  unstable_entries_lem =
      let e : last_index l ≡ l.last_idx_of_snapshot + length l.entries =
        last_index-contig l v.contig in
      real_idx-bind l l.stabled _
        (λ a. real_idx l (last_index l) >>= λ q. collect l.entries a (above q - a)) (omega arith)
        (λ p. refl)
      ∙ real_idx-bind l (last_index l) _
          (λ c.
            collect l.entries (l.stabled - l.last_idx_of_snapshot)
              (c - (l.stabled - l.last_idx_of_snapshot)))
          (omega arith) (λ q. refl)
      ∙ collect_lem l.entries (l.stabled - l.last_idx_of_snapshot) _ (omega arith)
      ∙ slice l l.stabled (last_index l) v.stabled_ge

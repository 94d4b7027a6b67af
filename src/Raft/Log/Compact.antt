-- ===== src/Raft/Log/Compact.antt =====
-- raft/log.go: maybeCompact drops from memory what the storage has compacted.
use tinykv.Prelude.{
  ℕ, ◌+◌, ◌-◌, ◌≤◌, ◌<◌, ◌≡◌, refl, ◌∙◌, drop, length, length-drop, leb, arith, ok, panic, explicit,
  false, Bool-cases, inl, inr, leb→le, leb→gt, gt→leb, sub64, sub64-eq, u64_mod,
}
use tinykv.Raft.Storage.{value}
use tinykv.Raft.Log.{RaftLog, last_index, maybe_compact, term, real_idx}
use tinykv.Raft.Log.Shape.{IsValid, IsContig-drop, last_index-contig, real_idx-inside, term_total}

-- The storage's first index, where it has compacted no further than the node has applied and
-- has made stable, and not the last entry.
pub record Compacts (l : RaftLog) (first : ℕ) : Type 0 where
  pub answer : l.storage.first_index ≡ value first
  pub pos : 1 ≤ first
  pub applied : first - 1 ≤ l.applied
  pub stabled : first - 1 ≤ l.stabled
  pub kept : first ≤ l.last_idx_of_snapshot + length l.entries
  pub small : first < u64_mod

-- What maybeCompact leaves: the marks stay, and the entries from the storage's first index on.
pub record Compacted (l l' : RaftLog) (first : ℕ) : Type 0 where
  pub valid : IsValid l'
  pub last : last_index l' ≡ last_index l
  pub marks : (l'.committed ≡ l.committed) × (l'.applied ≡ l.applied) × (l'.stabled ≡ l.stabled)
  pub pending : l'.pending_snapshot ≡ l.pending_snapshot
  pub from : l'.entries ≡ drop (l'.last_idx_of_snapshot - l.last_idx_of_snapshot) l.entries
  pub covers : first - 1 ≤ l'.last_idx_of_snapshot

-- No entry is behind the last one.
real_idx-behind :
    (l : RaftLog) (i : ℕ)
    → l.last_idx_of_snapshot + length l.entries < i
    → real_idx l i ≡ panic explicit
unfolding real_idx
real_idx-behind l i h = ground arith

module _ (l : RaftLog) (first : ℕ) (v : IsValid l) (c : Compacts l first) where
  snap_idx : sub64 first 1 ≡ first - 1
  snap_idx = sub64-eq first 1 c.pos c.small

  unfolded : (t : ℕ) → RaftLog
  unfolded t = record l {
    last_term_of_snapshot = t;
    entries = drop (first - 1 - l.last_idx_of_snapshot) l.entries;
    last_idx_of_snapshot = first - 1;
  }

  abbrev rest_length :
      l.last_idx_of_snapshot < first - 1
      → length (drop (first - 1 - l.last_idx_of_snapshot) l.entries)
        ≡ length l.entries - (first - 1 - l.last_idx_of_snapshot)
  rest_length h = length-drop (first - 1 - l.last_idx_of_snapshot) l.entries

  unfolded-IsValid : (t : ℕ) → l.last_idx_of_snapshot < first - 1 → IsValid (unfolded t)
  unfolding unfolded
  unfolded-IsValid t h = record {
    contig =
        IsContig-drop _ l.last_idx_of_snapshot _ l.entries (omega arith) (omega arith) v.contig;
    snapshot_le = c.applied;
    applied_le = v.applied_le;
    committed_le = omega (arith, rest_length h);
    stabled_ge = c.stabled;
    stabled_le = omega (arith, rest_length h);
    fits = omega (arith, rest_length h);
  }

  unfolded-Compacted : (t : ℕ) → l.last_idx_of_snapshot < first - 1 → Compacted l (unfolded t) first
  unfolding unfolded
  unfolded-Compacted t h = record {
    valid = unfolded-IsValid t h;
    last = omega (
      arith,
      rest_length h,
      last_index-contig (unfolded t) (unfolded-IsValid t h).contig,
      last_index-contig l v.contig,
    );
    marks = (refl, refl, refl);
    pending = refl;
    from = refl;
    covers = omega arith;
  }

  compact_run :
      (t : ℕ)
      → term l (first - 1) ≡ ok t
      → l.last_idx_of_snapshot < first - 1
      → maybe_compact l ≡ ok (unfolded t)
  unfolding maybe_compact unfolded
  compact_run t et h =
      let k : l.last_idx_of_snapshot < first = omega arith in
      let p : first - l.last_idx_of_snapshot - 1 ≡ first - 1 - l.last_idx_of_snapshot =
        omega arith in
      ground (arith, c.answer, snap_idx, gt→leb _ _ h, et, real_idx-inside l first k c.kept)

  -- Where the storage has compacted no further than this node has applied and made stable, and
  -- still has the last entry, maybeCompact does not panic: the log stays valid with the same marks
  -- and last index, and keeps the entries that the storage has not compacted.
  pub maybe_compact-Compacted : (l' : RaftLog) × (maybe_compact l ≡ ok l') × Compacted l l' first
  unfolding maybe_compact
  maybe_compact-Compacted = elim (Bool-cases (leb (first - 1) l.last_idx_of_snapshot)) [
    | inl done ↦ (
      l,
      ground (arith, c.answer, snap_idx, done),
      record {
        valid = v;
        last = refl;
        marks = (refl, refl, refl);
        pending = refl;
        from = let z : l.last_idx_of_snapshot - l.last_idx_of_snapshot ≡ 0 = omega arith in rw z;
        covers = leb→le _ _ done;
      },
    )
    | inr more ↦
        let (t, et) = term_total l (first - 1) (omega arith) in
        (unfolded t, compact_run t et (leb→gt _ _ more), unfolded-Compacted t (leb→gt _ _ more))
  ]

-- If the storage has compacted all entries of a valid log that has some, maybeCompact panics, however
-- much this node has applied: it looks for the entry behind the last one.
pub maybe_compact-Panics :
    (l : RaftLog)
    → IsValid l
    → 1 ≤ length l.entries
    → l.storage.first_index ≡ value (last_index l + 1)
    → maybe_compact l ≡ panic explicit
unfolding maybe_compact
maybe_compact-Panics l v some_entries e =
    let k = last_index-contig l v.contig in
    let snap_idx : sub64 (last_index l + 1) 1 ≡ last_index l =
      sub64-eq (last_index l + 1) 1 (omega arith) (omega (arith, k, v.fits)) ∙ omega arith in
    let (t, et) = term_total l (last_index l) (omega (arith, k)) in
    let more : leb (last_index l) l.last_idx_of_snapshot ≡ false = gt→leb _ _ (omega (arith, k)) in
    ground (arith, e, snap_idx, et, more, real_idx-behind l (last_index l + 1) (omega (arith, k)))

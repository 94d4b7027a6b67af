-- ===== src/Raft/RawNode/Handover.antt =====
-- raft/rawnode.go: the cycle of Ready and Advance.
use tinykv.Prelude.{
  ℕ, suc, ◌+◌, ◌-◌, ◌≤◌, ◌≡◌, refl, sym, ap, ap₂, ◌∙◌, subst, true, false, List, [], ◌∷◌, arith,
  length, take, drop, get_last?, ok, ◌>>=◌, length-take, length-drop, take-append-drop, le→ltb,
}
use tinykv.Raft.Pb.{Entry}
use tinykv.Raft.Log.{RaftLog, last_index, maybe_compact, has_unstable_ents}
use tinykv.Raft.Log.Shape.{
  IsContig, IsValid, last_index-contig, IsContig-drop, IsContig-append_left,
}
use tinykv.Raft.Log.Reads.{between, next_ents_lem, unstable_entries_lem, has_next_ents_lem}
use tinykv.Raft.Log.Compact.{Compacts, maybe_compact-Compacted}
use tinykv.Raft.Node.{hard_state}
use tinykv.Raft.RawNode.{
  RawNode, Ready, ready, advance, has_ready, index_or, soft_state, soft_state_equal, taken,
  ready_of, hard_state_equal, is_empty_snap,
}
use tinykv.Raft.RawNode.Handed.{HandsOut, taken-HandsOut, taken-soft, taken-hard, taken-snapshot}

last-contig : (b : ℕ) (es : List Entry) → IsContig b es → index_or b (get_last? es) ≡ b + length es
unfolding index_or
last-contig b [] c = omega arith
last-contig b (e ∷ es) c = nonempty b b e es c
  where
    nonempty :
        (d b : ℕ) (e : Entry) (es : List Entry)
        → IsContig b (e ∷ es)
        → index_or d (get_last? (e ∷ es)) ≡ b + length (e ∷ es)
    nonempty d b e [] c = omega arith
    nonempty d b e (f ∷ es) c = omega (arith, nonempty d (suc b) f es c.1)

-- The last index of a slice of the log is the slice's end.
between-last :
    (l : RaftLog) (lo hi : ℕ)
    → IsContig l.last_idx_of_snapshot l.entries
    → l.last_idx_of_snapshot ≤ lo
    → lo ≤ hi
    → hi ≤ l.last_idx_of_snapshot + length l.entries
    → index_or lo (get_last? (between l lo hi)) ≡ hi
between-last l lo hi c h k f =
    let rest = drop (lo - l.last_idx_of_snapshot) l.entries in
    let d : IsContig lo rest =
      IsContig-drop (lo - l.last_idx_of_snapshot) l.last_idx_of_snapshot lo l.entries (omega arith)
        (omega arith) c in
    let t : IsContig lo (take (hi - lo) rest) =
      IsContig-append_left lo (take (hi - lo) rest) (drop (hi - lo) rest)
        (subst (IsContig lo) (sym (take-append-drop (hi - lo) rest)) d) in
    last-contig lo (between l lo hi) t
    ∙ omega (arith, length-take (hi - lo) rest, length-drop (lo - l.last_idx_of_snapshot) l.entries)

-- From a valid log, Ready does not panic. It hands out exactly the entries that are not stable, the
-- entries that are committed and not applied, and all messages; the soft state, the hard state and
-- the snapshot, or nothing where the state is the previous one and the snapshot is empty. It leaves
-- the node as it was, all of its log included, but for no messages and no snapshot to hand out, and
-- has nothing new in the soft and hard states.
pub ready-HandsOut :
    (rn : RawNode)
    → IsValid rn.raft.raft_log
    → (rn' : RawNode) × (rd : Ready) × (ready rn ≡ ok (rn', rd)) × HandsOut rn rn' rd
unfolding ready
ready-HandsOut rn v =
    let l = rn.raft.raft_log in
    (
      taken rn,
      ready_of rn (between l l.stabled (last_index l)) (between l l.applied l.committed),
      rw (unstable_entries_lem l v, next_ents_lem l v),
      taken-HandsOut rn v,
    )

-- The log when all that Ready handed out is stable and applied.
abbrev pub marked : RaftLog → RaftLog
marked l = record l { stabled = last_index l; applied = l.committed }

marked-IsValid : (l : RaftLog) → IsValid l → IsValid (marked l)
marked-IsValid l v =
    let k = last_index-contig l v.contig in
    record {
      contig = v.contig;
      snapshot_le = omega arith;
      applied_le = omega arith;
      committed_le = v.committed_le;
      stabled_ge = omega arith;
      stabled_le = omega arith;
      fits = v.fits;
    }

advance_log :
    (l : RaftLog)
    → IsValid l
    → record l {
      stabled = index_or l.stabled (get_last? (between l l.stabled (last_index l)));
      applied = index_or l.applied (get_last? (between l l.applied l.committed));
    }
      ≡ marked l
advance_log l v =
    let k = last_index-contig l v.contig in
    ap₂ (λ s a. record l { stabled = s; applied = a })
      (between-last l l.stabled (last_index l) v.contig v.stabled_ge (omega arith) (omega arith))
      (between-last l l.applied l.committed v.contig v.snapshot_le v.applied_le v.committed_le)

-- A node without work: nothing to send, store, apply or report.
idle-has_ready :
    (rn : RawNode)
    → IsValid rn.raft.raft_log
    → rn.raft.msgs ≡ []
    → soft_state_equal (soft_state rn.raft) rn.prev_soft_state ≡ true
    → hard_state_equal (hard_state rn.raft) rn.prev_hard_state ≡ true
    → is_empty_snap rn.raft.raft_log.pending_snapshot ≡ true
    → rn.raft.raft_log.stabled ≡ last_index rn.raft.raft_log
    → rn.raft.raft_log.applied ≡ rn.raft.raft_log.committed
    → has_ready rn ≡ ok false
unfolding has_ready has_unstable_ents
idle-has_ready rn v m s h e st a = ground (
  arith,
  ap length m,
  has_next_ents_lem rn.raft.raft_log v,
  le→ltb rn.raft.raft_log.committed rn.raft.raft_log.applied,
)

module _ (rn : RawNode) (v : IsValid rn.raft.raft_log) where
  taken-IsValid : IsValid (taken rn).raft.raft_log
  unfolding taken
  taken-IsValid = record {
    contig = v.contig;
    snapshot_le = v.snapshot_le;
    applied_le = v.applied_le;
    committed_le = v.committed_le;
    stabled_ge = v.stabled_ge;
    stabled_le = v.stabled_le;
    fits = v.fits;
  }

  taken-marks :
      (last_index (taken rn).raft.raft_log ≡ last_index rn.raft.raft_log)
      × ((taken rn).raft.raft_log.committed ≡ rn.raft.raft_log.committed)
      × ((taken rn).raft.msgs ≡ [])
  unfolding taken last_index
  taken-marks = (refl, refl, refl)

  taken-Compacts :
      (first : ℕ)
      → Compacts (marked rn.raft.raft_log) first
      → Compacts (marked (taken rn).raft.raft_log) first
  unfolding taken last_index
  taken-Compacts first c = record {
    answer = c.answer;
    pos = c.pos;
    applied = c.applied;
    stabled = c.stabled;
    kept = c.kept;
    small = c.small;
  }

  abbrev handed : Ready
  handed =
      let l = rn.raft.raft_log in
      ready_of rn (between l l.stabled (last_index l)) (between l l.applied l.committed)

  abbrev stored : RaftLog → RawNode
  stored l = record (taken rn) { raft = record (taken rn).raft { raft_log = l } }

  advance_run :
      (l : RaftLog)
      → maybe_compact (marked (taken rn).raft.raft_log) ≡ ok l
      → advance (taken rn) handed ≡ ok (stored l)
  unfolding advance ready_of taken last_index
  advance_run l run =
      ap (λ x. x >>= λ l'. ok (stored l'))
        (ap maybe_compact (advance_log (taken rn).raft.raft_log taken-IsValid) ∙ run)

  stored-hard :
      (l : RaftLog)
      → l.committed ≡ (taken rn).raft.raft_log.committed
      → hard_state_equal (hard_state (stored l).raft) (taken rn).prev_hard_state ≡ true
  unfolding hard_state
  stored-hard l e =
      ap
        (λ c.
          hard_state_equal
            (record { term = (taken rn).raft.term; vote = (taken rn).raft.vote; commit = c })
            (taken rn).prev_hard_state)
        e
      ∙ taken-hard rn

  stored-soft :
      (l : RaftLog)
      → soft_state_equal (soft_state (stored l).raft) (taken rn).prev_soft_state ≡ true
  unfolding soft_state
  stored-soft l = taken-soft rn

-- One cycle of the application's loop: from a valid log, Ready and then Advance run without a
-- panic; Ready hands out all that there is, the hard state included, and the node is left with a
-- valid log, everything up to its last index stable, everything committed applied, and nothing
-- ready. The storage is assumed to have compacted no further than the commit index, and not to have
-- compacted the last entry.
pub ready-advance :
    (rn : RawNode) (first : ℕ)
    → IsValid rn.raft.raft_log
    → Compacts (marked rn.raft.raft_log) first
    → (rn' : RawNode) × (rd : Ready) × (rn'' : RawNode) × (ready rn ≡ ok (rn', rd))
      × HandsOut rn rn' rd
      × (advance rn' rd ≡ ok rn'')
      × IsValid rn''.raft.raft_log
      × (rn''.raft.raft_log.stabled ≡ last_index rn.raft.raft_log)
      × (rn''.raft.raft_log.applied ≡ rn.raft.raft_log.committed)
      × (has_ready rn'' ≡ ok false)
unfolding ready
ready-advance rn first v c =
    let l = rn.raft.raft_log in
    let v1 = taken-IsValid rn v in
    let (l2, run, done) =
      maybe_compact-Compacted (marked (taken rn).raft.raft_log) first (marked-IsValid _ v1)
        (taken-Compacts rn v first c) in
    (
      taken rn,
      handed rn v,
      stored rn v l2,
      rw (unstable_entries_lem l v, next_ents_lem l v),
      taken-HandsOut rn v,
      advance_run rn v l2 run,
      done.valid,
      done.marks.2 ∙ (taken-marks rn v).0,
      done.marks.1 ∙ (taken-marks rn v).1,
      idle-has_ready (stored rn v l2) done.valid (taken-marks rn v).2 (stored-soft rn v l2)
          (stored-hard rn v l2 done.marks.0) (ap is_empty_snap done.pending ∙ taken-snapshot rn)
          (done.marks.2 ∙ marked_last ∙ sym done.last) (done.marks.1 ∙ sym done.marks.0),
    )
  where
    marked_last : last_index (taken rn).raft.raft_log ≡ last_index (marked (taken rn).raft.raft_log)
    marked_last = unfold last_index in refl

-- ===== src/Raft/Append/Cases.antt =====
-- raft/raft.go: all cases of handleAppendEntries together.
use tinykv.Prelude.{
  ℕ, ◌+◌, ◌≤◌, ◌<◌, ◌≡◌, refl, sym, ◌∙◌, subst, false, arith, length, drop, ltb, Bool-cases, inl,
  inr, ltb→ge, ok, ok-injective, max64, max64_bounds, max64_le, min64, u64_mod, if_true, if_false,
}
use tinykv.Raft.Pb.{Message}
use tinykv.Raft.Log.{RaftLog, last_index}
use tinykv.Raft.Log.Shape.{IsContig, IsValid, last_index-contig}
use tinykv.Raft.Log.Survives.{Survives, Survives-committed}
use tinykv.Raft.Node.{Raft, send}
use tinykv.Raft.Append.{handle_append_entries, learn_commit, follow}
use tinykv.Raft.Append.Split.{holds}
use tinykv.Raft.Append.Merge.{NoCommittedConflict}
use tinykv.Raft.Append.Follower.{
  at_prev, handle_append_entries-Accepted, follow-raft_log, IsValid-committed,
}
use tinykv.Raft.Append.Reject.{reject-raft_log, missed}

-- The leader's entries that a node takes are as the leader must send them.
pub record AppendOk (r : Raft) (m : Message) : Type 0 where
  pub contig : IsContig m.index m.entries
  pub agree : NoCommittedConflict r.raft_log (drop (at_prev r m) r.raft_log.entries) m.entries
  pub fits : m.index + length m.entries + 1 < u64_mod

-- A log that is still valid, has committed no less, and has the committed entries that no snapshot
-- covers.
pub record LogStep (l l' : RaftLog) : Type 0 where
  pub valid : IsValid l'
  pub committed : l.committed ≤ l'.committed
  pub snapshot : l.last_idx_of_snapshot ≤ l'.last_idx_of_snapshot
  pub survives : Survives l l'

pub LogStep-same : {l l' : RaftLog} → IsValid l → l' ≡ l → LogStep l l'
LogStep-same {l} {l'} v e = subst (LogStep l) (sym e) (record {
  valid = v;
  committed = omega arith;
  snapshot = omega arith;
  survives = λ i h k. refl;
})

learn_commit-LogStep :
    (r r' : Raft) (c : ℕ)
    → IsValid r.raft_log
    → learn_commit r c ≡ ok r'
    → LogStep r.raft_log r'.raft_log
unfolding learn_commit
learn_commit-LogStep r r' c v h = elim (Bool-cases (ltb (last_index r.raft_log) c)) [
  | inl far ↦ let e = sym (if_true _ _ far) ∙ h in cc
  | inr near ↦
      let b = max64_bounds r.raft_log.committed c in
      let k =
        max64_le r.raft_log.committed c
          (r.raft_log.last_idx_of_snapshot + length r.raft_log.entries) v.committed_le
          (omega (arith, ltb→ge _ _ near, last_index-contig r.raft_log v.contig)) in
      subst (λ (s : Raft). LogStep r.raft_log s.raft_log)
        (ok-injective (sym (if_false _ _ near) ∙ h))
        (record {
          valid = IsValid-committed r.raft_log _ v b.0 k;
          committed = b.0;
          snapshot = omega arith;
          survives = Survives-committed r.raft_log (max64 r.raft_log.committed c);
        })
]

-- Whatever append or commit message arrives, a node that goes on has a valid log, has committed no
-- less than before, and still has what was committed.
pub handle_append_entries-LogStep :
    (r r' : Raft) (m : Message)
    → IsValid r.raft_log
    → (m.commit_use ≡ false → AppendOk r m)
    → handle_append_entries r m ≡ ok r'
    → LogStep r.raft_log r'.raft_log
unfolding handle_append_entries send
handle_append_entries-LogStep r r' m v good h = elim (Bool-cases m.commit_use) [
  | inl cu ↦ learn_commit-LogStep r r' m.commit v (sym (if_true _ _ cu) ∙ h)
  | inr cu ↦ elim (Bool-cases (ltb m.term r.term)) [
    | inl old ↦
        subst (λ (s : Raft). LogStep r.raft_log s.raft_log)
          (ok-injective (sym (if_false _ _ cu ∙ if_true _ _ old) ∙ h)) (LogStep-same v refl)
    | inr cur ↦ elim (Bool-cases (holds r.raft_log m.index m.log_term)) [
      | inl hit ↦
          let ok_m = good cu in
          let (s, run, a) =
            handle_append_entries-Accepted r m v cu (ltb→ge _ _ cur) hit ok_m.contig ok_m.agree
              ok_m.fits in
          subst (λ (s : Raft). LogStep r.raft_log s.raft_log) (ok-injective (sym run ∙ h))
            (record {
              valid = a.valid;
              snapshot = omega (arith, a.snapshot);
              survives = a.survives;
              committed = omega (
                arith,
                a.committed,
                max64_bounds (min64 m.commit (m.index + length m.entries)) r.raft_log.committed,
              );
            })
      | inr miss ↦
          let r1 : Raft = record r { term = m.term; lead = m.from } in
          let r2 : Raft = follow r.state r1 m in
          let log : r2.raft_log ≡ r.raft_log = follow-raft_log r.state r1 m in
          LogStep-same v (
            reject-raft_log r2 r' m (missed r r2 m log v miss)
              (sym (if_false _ _ cu ∙ if_false _ _ cur) ∙ h)
            ∙ log)
    ]
  ]
]

-- ===== src/Raft/RawNode/Handed.antt =====
-- raft/rawnode.go: what Ready hands out.
use tinykv.Prelude.{
  ◌≡◌, refl, ◌⊎◌, true, none, some, List, [], arith, Bool-cases, inl, inr, if_true, if_false,
}
use tinykv.Raft.Pb.{Entry, HardState}
use tinykv.Raft.Log.{last_index}
use tinykv.Raft.Log.Shape.{IsValid}
use tinykv.Raft.Log.Reads.{between}
use tinykv.Raft.Node.{StateType, state_follower, state_candidate, state_leader, hard_state}
use tinykv.Raft.RawNode.{
  RawNode, Ready, SoftState, soft_state, soft_state_equal, same_state, taken, ready_of,
  hard_state_equal, empty_hard_state, is_empty_snap,
}

same_state_refl : (s : StateType) → same_state s s ≡ true
unfolding same_state
same_state_refl state_follower = refl
same_state_refl state_candidate = refl
same_state_refl state_leader = refl

soft_state_equal_refl : (s : SoftState) → soft_state_equal s s ≡ true
unfolding soft_state_equal
soft_state_equal_refl s = ground (arith, same_state_refl s.raft_state)

soft_state_equal_sym : (a b : SoftState) → soft_state_equal a b ≡ true → soft_state_equal b a ≡ true
unfolding soft_state_equal same_state
soft_state_equal_sym a b h = ground arith

hard_state_equal_refl : (s : HardState) → hard_state_equal s s ≡ true
unfolding hard_state_equal
hard_state_equal_refl s = ground arith

hard_state_equal_sym : (a b : HardState) → hard_state_equal a b ≡ true → hard_state_equal b a ≡ true
unfolding hard_state_equal
hard_state_equal_sym a b h = ground arith

-- What Ready hands out, and the node that it leaves.
pub record HandsOut (rn rn' : RawNode) (rd : Ready) : Type 0 where
  pub entries :
      rd.entries ≡ between rn.raft.raft_log rn.raft.raft_log.stabled (last_index rn.raft.raft_log)
  pub committed_entries :
      rd.committed_entries
      ≡ between rn.raft.raft_log rn.raft.raft_log.applied rn.raft.raft_log.committed
  pub messages : rd.messages ≡ rn.raft.msgs
  pub told_soft :
      (rd.soft_state ≡ some (soft_state rn.raft))
      ⊎ ((rd.soft_state ≡ none) × (soft_state rn.raft ≡ rn.prev_soft_state))
  pub told_hard :
      (rd.hard_state ≡ hard_state rn.raft)
      ⊎ ((rd.hard_state ≡ empty_hard_state) × (hard_state rn.raft ≡ rn.prev_hard_state))
  pub told_snapshot :
      (rd.snapshot ≡ rn.raft.raft_log.pending_snapshot)
      ⊎ ((rd.snapshot ≡ none) × (is_empty_snap rn.raft.raft_log.pending_snapshot ≡ true))
  pub node : rn'.raft ≡ record rn.raft {
    msgs = [];
    raft_log = record rn.raft.raft_log { pending_snapshot = rn'.raft.raft_log.pending_snapshot };
  }
  pub soft : soft_state_equal (soft_state rn'.raft) rn'.prev_soft_state ≡ true
  pub hard : hard_state_equal (hard_state rn'.raft) rn'.prev_hard_state ≡ true
  pub no_snapshot : is_empty_snap rn'.raft.raft_log.pending_snapshot ≡ true

pub taken-soft :
    (rn : RawNode) → soft_state_equal (soft_state (taken rn).raft) (taken rn).prev_soft_state ≡ true
unfolding taken soft_state
taken-soft rn = elim (Bool-cases (soft_state_equal rn.prev_soft_state (soft_state rn.raft))) [
  | inl e ↦ rw (if_true rn.prev_soft_state (soft_state rn.raft) e) (soft_state_equal_sym _ _ e)
  | inr e ↦ rw (if_false rn.prev_soft_state (soft_state rn.raft) e) (soft_state_equal_refl _)
]

pub taken-hard :
    (rn : RawNode) → hard_state_equal (hard_state (taken rn).raft) (taken rn).prev_hard_state ≡ true
unfolding taken hard_state
taken-hard rn = elim (Bool-cases (hard_state_equal rn.prev_hard_state (hard_state rn.raft))) [
  | inl e ↦ rw (if_true rn.prev_hard_state (hard_state rn.raft) e) (hard_state_equal_sym _ _ e)
  | inr e ↦ rw (if_false rn.prev_hard_state (hard_state rn.raft) e) (hard_state_equal_refl _)
]

pub taken-snapshot : (rn : RawNode) → is_empty_snap (taken rn).raft.raft_log.pending_snapshot ≡ true
unfolding taken is_empty_snap
taken-snapshot rn = ground arith

soft_state-eq : (a b : SoftState) → soft_state_equal a b ≡ true → b ≡ a
unfolding soft_state_equal same_state
soft_state-eq a b h = ground arith

hard_state-eq : (a b : HardState) → hard_state_equal a b ≡ true → b ≡ a
unfolding hard_state_equal
hard_state-eq a b h = ground arith

module _ (rn : RawNode) (unstable committed : List Entry) where
  handed_soft :
      ((ready_of rn unstable committed).soft_state ≡ some (soft_state rn.raft))
      ⊎ (((ready_of rn unstable committed).soft_state ≡ none)
          × (soft_state rn.raft ≡ rn.prev_soft_state))
  unfolding ready_of
  handed_soft = elim (Bool-cases (soft_state_equal rn.prev_soft_state (soft_state rn.raft))) [
    | inl same ↦ inr (if_true _ _ same, soft_state-eq _ _ same)
    | inr new ↦ inl (if_false _ _ new)
  ]

  handed_hard :
      ((ready_of rn unstable committed).hard_state ≡ hard_state rn.raft)
      ⊎ (((ready_of rn unstable committed).hard_state ≡ empty_hard_state)
          × (hard_state rn.raft ≡ rn.prev_hard_state))
  unfolding ready_of
  handed_hard = elim (Bool-cases (hard_state_equal rn.prev_hard_state (hard_state rn.raft))) [
    | inl same ↦ inr (if_true _ _ same, hard_state-eq _ _ same)
    | inr new ↦ inl (if_false _ _ new)
  ]

  handed_snapshot :
      ((ready_of rn unstable committed).snapshot ≡ rn.raft.raft_log.pending_snapshot)
      ⊎ (((ready_of rn unstable committed).snapshot ≡ none)
          × (is_empty_snap rn.raft.raft_log.pending_snapshot ≡ true))
  unfolding ready_of
  handed_snapshot = elim (Bool-cases (is_empty_snap rn.raft.raft_log.pending_snapshot)) [
    | inl empty ↦ inr (if_true _ _ empty, empty)
    | inr full ↦ inl (if_false _ _ full)
  ]

pub taken-HandsOut :
    (rn : RawNode)
    → IsValid rn.raft.raft_log
    → let l = rn.raft.raft_log in
      HandsOut rn
        (taken rn)
        (ready_of rn (between l l.stabled (last_index l)) (between l l.applied l.committed))
taken-HandsOut rn v =
    let l = rn.raft.raft_log in
    record {
      entries = unfold ready_of in refl;
      committed_entries = unfold ready_of in refl;
      messages = unfold ready_of in refl;
      told_soft =
          handed_soft rn (between l l.stabled (last_index l)) (between l l.applied l.committed);
      told_hard =
          handed_hard rn (between l l.stabled (last_index l)) (between l l.applied l.committed);
      told_snapshot =
          handed_snapshot rn (between l l.stabled (last_index l)) (between l l.applied l.committed);
      node = unfold taken in refl;
      soft = taken-soft rn;
      hard = taken-hard rn;
      no_snapshot = taken-snapshot rn;
    }

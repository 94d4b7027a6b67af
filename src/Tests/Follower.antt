-- ===== src/Tests/Follower.antt =====
-- raft/raft.go: append messages at the sample node.
use tinykv.Prelude.{◌≡◌, refl, [], ◌∷◌, ok, arith}
use tinykv.Raft.Pb.{Message, message, msg_append}
use tinykv.Raft.Node.{Raft, state_follower}
use tinykv.Raft.Append.{handle_append_entries, first_conflict}
use tinykv.Raft.Append.Follower.{Accepted, handle_append_entries-Accepted}
use tinykv.Raft.Append.Cases.{AppendOk, LogStep}
use tinykv.Raft.Append.Reject.{Rejected, handle_append_entries-Rejected}
use tinykv.Raft.Append.Merge.{NoCommittedConflict}
use tinykv.Raft.Step.{step, step_follower}
use tinykv.Raft.Invariant.{step-LogStep}
use tinykv.Tests.Samples.{node, entry, log_of-IsValid}

-- The leader of term 3 overwrites entry 3 and adds entry 4.
abbrev overwrite : Message
overwrite = record (message msg_append) {
  from = 2;
  to = 1;
  term = 3;
  log_term = 1;
  index = 2;
  commit = 3;
  entries = entry 3 3 ∷ entry 4 3 ∷ [];
}

agree : NoCommittedConflict (node state_follower).raft_log (entry 3 2 ∷ []) overwrite.entries
unfolding first_conflict
agree d h = ground arith

handle_append_entries-Accepted_example :
    (r' : Raft) × (handle_append_entries (node state_follower) overwrite ≡ ok r')
    × Accepted (node state_follower) r' overwrite
handle_append_entries-Accepted_example =
    handle_append_entries-Accepted (node state_follower) overwrite log_of-IsValid refl (omega arith)
      refl (omega arith) agree (omega arith)

-- An append behind an entry that the node does not have.
abbrev gap : Message
gap = record overwrite { index = 7 }

handle_append_entries-Rejected_example :
    (r' : Raft) × (handle_append_entries (node state_follower) gap ≡ ok r')
    × Rejected (node state_follower) r' gap
handle_append_entries-Rejected_example =
    handle_append_entries-Rejected (node state_follower) gap log_of-IsValid refl (omega arith)
      (omega arith) refl

overwrite-AppendOk : AppendOk (node state_follower) overwrite
overwrite-AppendOk = record { contig = omega arith; agree = agree; fits = omega arith }

overwrite_run :
    (r' : Raft) × (step (node state_follower) overwrite ≡ ok r')
    × Accepted (node state_follower) r' overwrite
unfolding step step_follower
overwrite_run =
    handle_append_entries-Accepted (node state_follower) overwrite log_of-IsValid refl (omega arith)
      refl (omega arith) agree (omega arith)

step-LogStep_example : LogStep (node state_follower).raft_log (overwrite_run.0).raft_log
step-LogStep_example =
    step-LogStep (node state_follower) overwrite_run.0 overwrite log_of-IsValid
      (λ _ _. overwrite-AppendOk) (λ s md e d. absurd (ground arith)) (omega arith) overwrite_run.1

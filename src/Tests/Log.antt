-- ===== src/Tests/Log.antt =====
-- raft/log.go and raft/rawnode.go at the sample node.
use tinykv.Prelude.{◌≡◌, refl, [], ◌∷◌, false, ok, panic, explicit, arith}
use tinykv.Raft.Log.{RaftLog, maybe_compact, last_index, next_ents, real_idx, collect}
use tinykv.Raft.Log.Shape.{IsValid}
use tinykv.Raft.Log.Compact.{Compacts, Compacted, maybe_compact-Compacted, maybe_compact-Panics}
use tinykv.Raft.Node.{state_follower}
use tinykv.Raft.RawNode.{RawNode, Ready, ready, advance, has_ready}
use tinykv.Raft.RawNode.Handed.{HandsOut}
use tinykv.Raft.RawNode.Handover.{ready-HandsOut, marked, ready-advance}
use tinykv.Tests.Samples.{storage_from, log_of, three, log_of-IsValid, node, entry}

next_ents_run : next_ents (log_of 2 three) ≡ ok (entry 2 1 ∷ [])
unfolding next_ents real_idx collect
next_ents_run = refl

compacts : Compacts (log_of 1 three) 2
compacts = record {
  answer = refl;
  pos = omega arith;
  applied = omega arith;
  stabled = omega arith;
  kept = omega arith;
  small = omega arith;
}

maybe_compact-Compacted_example :
    (l' : RaftLog) × (maybe_compact (log_of 1 three) ≡ ok l') × Compacted (log_of 1 three) l' 2
maybe_compact-Compacted_example = maybe_compact-Compacted (log_of 1 three) 2 log_of-IsValid compacts

-- The storage has compacted all three entries.
abbrev all_compacted : RaftLog
all_compacted = record (log_of 1 three) { storage = storage_from 4 }

maybe_compact-Panics_example : maybe_compact all_compacted ≡ panic explicit
maybe_compact-Panics_example =
    maybe_compact-Panics all_compacted
      (record {
        contig = log_of-IsValid.contig;
        snapshot_le = omega arith;
        applied_le = omega arith;
        committed_le = omega arith;
        stabled_ge = omega arith;
        stabled_le = omega arith;
        fits = omega arith;
      })
      (omega arith) (unfold last_index in refl)

abbrev raw : RawNode
raw = record {
  raft = node state_follower;
  prev_soft_state = record { lead = 3; raft_state = state_follower };
  prev_hard_state = record { term = 1; vote = 0; commit = 1 };
}

ready-HandsOut_example :
    (rn' : RawNode) × (rd : Ready) × (ready raw ≡ ok (rn', rd)) × HandsOut raw rn' rd
ready-HandsOut_example = ready-HandsOut raw log_of-IsValid

marked-Compacts : Compacts (marked raw.raft.raft_log) 2
unfolding last_index
marked-Compacts = record {
  answer = refl;
  pos = omega arith;
  applied = omega arith;
  stabled = omega arith;
  kept = omega arith;
  small = omega arith;
}

ready-advance_example :
    (rn' : RawNode) × (rd : Ready) × (rn'' : RawNode) × (ready raw ≡ ok (rn', rd))
    × HandsOut raw rn' rd
    × (advance rn' rd ≡ ok rn'')
    × IsValid rn''.raft.raft_log
    × (rn''.raft.raft_log.stabled ≡ last_index (log_of 1 three))
    × (rn''.raft.raft_log.applied ≡ 1)
    × (has_ready rn'' ≡ ok false)
ready-advance_example = ready-advance raw 2 log_of-IsValid marked-Compacts

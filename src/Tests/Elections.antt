-- ===== src/Tests/Elections.antt =====
-- raft/raft.go: votes and heartbeats at the sample node.
use tinykv.Prelude.{ℕ, ◌≡◌, refl, inr, ok, arith}
use tinykv.Raft.Pb.{Message, message, msg_request_vote, msg_heartbeat}
use tinykv.Raft.Log.{last_index, term, real_idx}
use tinykv.Raft.Node.{Raft, state_follower}
use tinykv.Raft.Election.{handle_vote_request, handle_heartbeat}
use tinykv.Raft.Election.Votes.{
  Answered, handle_vote_request-Answered, vote_after_heartbeat, UpToDate,
}
use tinykv.Tests.Samples.{node, log_of-IsValid}

abbrev request : Message
request = record (message msg_request_vote) { from = 3; to = 1; term = 2; log_term = 2; index = 3 }

handle_vote_request-Answered_example :
    (r' : Raft) × (t : ℕ) × (handle_vote_request (node state_follower) request ≡ ok r')
    × (term (node state_follower).raft_log (last_index (node state_follower).raft_log) ≡ ok t)
    × Answered (node state_follower) r' request t
handle_vote_request-Answered_example =
    handle_vote_request-Answered (node state_follower) request log_of-IsValid

-- The node has voted for 2, whose heartbeat comes in the same term.
abbrev voter : Raft
voter = record (node state_follower) { vote = 2 }

abbrev beat : Message
beat = record (message msg_heartbeat) { from = 2; to = 1; term = 2 }

last_term : term voter.raft_log (last_index voter.raft_log) ≡ ok 2
unfolding term real_idx last_index
last_term = refl

fresh : UpToDate request 2 (last_index voter.raft_log)
unfolding last_index
fresh = inr (refl, omega arith)

vote_after_heartbeat_example :
    (r' : Raft) × (handle_vote_request (handle_heartbeat voter beat) request ≡ ok r')
    × (r'.vote ≡ 3)
    × (r'.term ≡ 2)
vote_after_heartbeat_example = vote_after_heartbeat voter beat request 2 refl refl last_term fresh

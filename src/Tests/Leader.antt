-- ===== src/Tests/Leader.antt =====
-- raft/raft.go: the sample node as a leader.
use tinykv.Prelude.{
  occurrences, ℕ, ◌≤◌, ◌<◌, ◌≡◌, ◌⊎◌, inr, refl, List, [], ◌∷◌, true, some, ok, arith, lookup,
  insert, erase, ◌==◌, if◌then◌else◌, add64,
}
use tinykv.Raft.Pb.{
  Message, message, msg_append, msg_append_response, msg_propose, msg_heartbeat_response,
  msg_request_vote,
}
use tinykv.Raft.Log.{last_index, term, real_idx}
use tinykv.Raft.Node.{Raft, state_leader, send, progress, set_progress, contains_peer}
use tinykv.Raft.Replication.{
  send_append, handle_msg_propose, entry_at, propose_entries, propose_entry,
}
use tinykv.Raft.Replication.Propose.{Proposed, handle_msg_propose-Proposed}
use tinykv.Raft.Replication.Send.{send_append_lem}
use tinykv.Raft.Commit.{
  handle_msg_append_response, handle_accepted, maybe_commit, peers_at, send_commit,
}
use tinykv.Raft.Commit.Quorum.{Committed, handle_msg_append_response-Committed}
use tinykv.Raft.Member.{
  remove_peer, add_node, remove_node, count_matched, recommit, recommit_at, commit_after_removal,
}
use tinykv.Raft.Member.Peers.{remove_peer_lem, add_node-members}
use tinykv.Raft.Member.Recommit.{Recommitted, remove_node-Recommitted}
use tinykv.Raft.Step.{step, step_leader}
use tinykv.Raft.Terms.{term-step-le}
use tinykv.Raft.Election.Revote.{vote_after_stale_rejection}
use tinykv.Tests.Samples.{node, entry, log_of-IsValid, result_or}

-- Follower 2 has taken everything.
abbrev ack : Message
ack = record (message msg_append_response) { from = 2; to = 1; term = 2; index = 3 }

abbrev acked : Raft
acked = result_or (node state_leader) (handle_msg_append_response (node state_leader) ack)

ack_run : handle_msg_append_response (node state_leader) ack ≡ ok acked
unfolding handle_msg_append_response handle_accepted maybe_commit peers_at send_commit entry_at
    real_idx progress set_progress lookup insert send last_index add64
ack_run = refl

ack_commits : acked.raft_log.committed ≡ 3
unfolding handle_msg_append_response handle_accepted maybe_commit peers_at send_commit entry_at
    real_idx progress set_progress lookup insert send last_index add64
ack_commits = refl

handle_msg_append_response-Committed_example :
    (acked.raft_log ≡ (node state_leader).raft_log) ⊎ Committed (node state_leader) acked 2 3
handle_msg_append_response-Committed_example =
    handle_msg_append_response-Committed (node state_leader) acked ack refl refl (omega arith)
      ack_run

abbrev proposal : Message
proposal = record (message msg_propose) { from = 1; entries = entry 0 0 ∷ entry 0 0 ∷ [] }

abbrev proposed : Raft
proposed = result_or (node state_leader) (handle_msg_propose (node state_leader) proposal)

propose_run : handle_msg_propose (node state_leader) proposal ≡ ok proposed
unfolding handle_msg_propose propose_entries propose_entry progress set_progress lookup insert
    last_index add64
propose_run = refl

handle_msg_propose-Proposed_example : Proposed (node state_leader) proposed 2
handle_msg_propose-Proposed_example =
    handle_msg_propose-Proposed (node state_leader) proposed proposal log_of-IsValid (omega arith)
      propose_run

follower_progress : lookup 2 (node state_leader).prs ≡ some (record { match_index = 1; next = 2 })
unfolding lookup
follower_progress = refl

last_is_three : 2 ≤ last_index (node state_leader).raft_log
unfolding last_index
last_is_three = omega arith

send_append_lem_example :
    (t : ℕ) × (term (node state_leader).raft_log 1 ≡ ok t)
    × (send_append (node state_leader) 2
        ≡ ok (
            send (node state_leader) (record (message msg_append) {
              to = 2;
              from = 1;
              term = 2;
              log_term = t;
              index = 1;
              commit = 1;
              entries = entry 2 1 ∷ entry 3 2 ∷ [];
            })))
send_append_lem_example =
    send_append_lem (node state_leader) 2 (record { match_index = 1; next = 2 }) log_of-IsValid
      follower_progress (omega arith) last_is_three

remove_peer_lem_example : remove_peer (4 ∷ 5 ∷ 6 ∷ []) 5 ≡ ok (4 ∷ 6 ∷ [])
remove_peer_lem_example = remove_peer_lem 5 (4 ∷ 5 ∷ 6 ∷ []) (omega arith)

add_node-members_example :
    ((p : ℕ)
      → occurrences p (add_node (node state_leader) 4).peers
        ≡ (if p == 4 then 1 else occurrences p (node state_leader).peers))
    × ((add_node (node state_leader) 4).pending_conf_index ≡ 0)
add_node-members_example = add_node-members (node state_leader) 4 (omega arith)

-- Without member 3 the leader and member 2 are enough for entry 1 only, which is committed.
abbrev removed : Raft
removed = result_or (node state_leader) (remove_node (node state_leader) 3)

remove_run : remove_node (node state_leader) 3 ≡ ok removed
unfolding remove_node remove_peer commit_after_removal recommit recommit_at count_matched
    contains_peer progress lookup erase term real_idx last_index
remove_run = refl

remove_node-Recommitted_example :
    (removed.raft_log ≡ (node state_leader).raft_log)
    ⊎ ((peers : List ℕ) × (c : ℕ) × (remove_peer (1 ∷ 2 ∷ 3 ∷ []) 3 ≡ ok peers)
        × (removed.raft_log ≡ record (node state_leader).raft_log { committed = c })
        × Recommitted
            (record (node state_leader) { prs = erase 3 (node state_leader).prs; peers = peers })
            c)
remove_node-Recommitted_example =
    remove_node-Recommitted (node state_leader) removed 3 (unfold last_index in omega arith)
      remove_run

abbrev stepped : Raft
stepped = result_or (node state_leader) (step (node state_leader) ack)

step_run : step (node state_leader) ack ≡ ok stepped
unfolding step step_leader handle_msg_append_response handle_accepted maybe_commit peers_at
    send_commit entry_at real_idx progress set_progress lookup insert send last_index add64
step_run = refl

term-step-le_example : 2 ≤ stepped.term
term-step-le_example =
    term-step-le (node state_leader) stepped ack (omega arith) (λ e. absurd (ground arith))
      (λ e. absurd (ground arith)) step_run

abbrev stale : Message
stale = record (message msg_heartbeat_response) { from = 2; to = 1; term = 1; reject = true }

-- A candidate of the term that the leader has left.
abbrev late_request : Message
late_request = record (message msg_request_vote) {
  from = 3;
  to = 1;
  term = 1;
  log_term = 2;
  index = 3;
}

leader_last_term :
    term (node state_leader).raft_log (last_index (node state_leader).raft_log) ≡ ok 2
unfolding term real_idx last_index
leader_last_term = refl

vote_after_stale_rejection_example :
    (s : Raft) × (r' : Raft) × (step (node state_leader) stale ≡ ok s)
    × (step s late_request ≡ ok r')
    × (r'.vote ≡ 3)
    × (r'.term ≡ 1)
    × (r'.term < 2)
vote_after_stale_rejection_example =
    vote_after_stale_rejection (node state_leader) stale late_request 2 refl refl refl (omega arith)
      refl refl leader_last_term (inr (refl, unfold last_index in omega arith))

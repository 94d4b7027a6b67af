-- ===== src/Raft/Step.antt =====
-- raft/raft.go: Step, the dispatch of a message by the node's state, and leadership transfer.
use tinykv.Prelude.{ℕ, Bool, true, false, not, ◌||◌, ◌&&◌, ◌==◌, if◌then◌else◌, Result, ok, ◌>>=◌}
use tinykv.Raft.Pb.{
  Message, MessageType, message, msg_hup, msg_beat, msg_propose, msg_append, msg_append_response,
  msg_request_vote, msg_request_vote_response, msg_snapshot, msg_heartbeat, msg_heartbeat_response,
  msg_transfer_leader, msg_timeout_now,
}
use tinykv.Raft.Log.{last_index}
use tinykv.Raft.Node.{
  Raft, StateType, state_follower, state_candidate, state_leader, send, contains_peer, progress,
}
use tinykv.Raft.Replication.{send_append, handle_msg_propose, broad_cast_ae}
use tinykv.Raft.Commit.{handle_msg_append_response}
use tinykv.Raft.Append.{handle_append_entries}
use tinykv.Raft.Election.{
  campaign, send_heartbeats, handle_vote_request, handle_vote_response, handle_heartbeat,
  handle_heartbeat_response,
}
use tinykv.Raft.Member.{handle_snapshot}

-- `r.Step` of a MsgHup, as two handlers call it.
unfoldable pub step_hup : StateType → Raft → Result Raft
step_hup state_follower r = campaign r
step_hup state_candidate r = campaign r
step_hup state_leader r = ok r

is_candidate : StateType → Bool
is_candidate state_candidate = true
is_candidate state_follower = false
is_candidate state_leader = false

unfoldable pub handle_msg_time_out : Raft → Result Raft
unfolding is_candidate
handle_msg_time_out r =
    if is_candidate r.state || not (contains_peer r.peers r.id) then ok r else step_hup r.state r

-- The leader's part: only a peer other than itself and than the transferee under way is taken on.
unfoldable pub transfer_to : Raft → ℕ → Result Raft
transfer_to r transferee =
    if not (contains_peer r.peers transferee)
    then ok r
    else if transferee == r.id
    then ok r
    else if not (r.lead_transferee == 0) && r.lead_transferee == transferee
    then ok r
    else (do
      let r1 = record r { lead_transferee = transferee }
      pr ← progress r1 transferee
      if last_index r1.raft_log == pr.match_index
          then ok (send r1 (record (message msg_timeout_now) { to = transferee; from = r.id }))
          else send_append r1 transferee)

unfoldable pub handle_leader_transfer : StateType → Raft → Message → Result Raft
handle_leader_transfer state_leader r m = transfer_to r m.from
handle_leader_transfer other r m = if r.lead == 0 then ok r else step_hup other r

-- The three arms of the outer switch. A type without a case does nothing.
unfoldable pub step_follower : MessageType → Raft → Message → Result Raft
step_follower msg_snapshot r m = handle_snapshot r m
step_follower msg_append r m = handle_append_entries r m
step_follower msg_hup r m = campaign r
step_follower msg_request_vote r m = handle_vote_request r m
step_follower msg_heartbeat r m = ok (handle_heartbeat r m)
step_follower msg_timeout_now r m = handle_msg_time_out r
step_follower msg_transfer_leader r m = handle_leader_transfer r.state r m
step_follower _ r m = ok r

unfoldable pub step_candidate : MessageType → Raft → Message → Result Raft
step_candidate msg_snapshot r m = handle_snapshot r m
step_candidate msg_append r m = handle_append_entries r m
step_candidate msg_hup r m = campaign r
step_candidate msg_request_vote_response r m = handle_vote_response r m
step_candidate msg_request_vote r m = handle_vote_request r m
step_candidate msg_heartbeat r m = ok (handle_heartbeat r m)
step_candidate msg_timeout_now r m = handle_msg_time_out r
step_candidate msg_transfer_leader r m = handle_leader_transfer r.state r m
step_candidate _ r m = ok r

unfoldable pub step_leader : MessageType → Raft → Message → Result Raft
step_leader msg_snapshot r m = handle_snapshot r m
step_leader msg_beat r m = send_heartbeats (record r { heartbeat_elapsed = 0 })
step_leader msg_append r m = handle_append_entries r m
step_leader msg_propose r m = do r1 ← handle_msg_propose r m; broad_cast_ae r1
step_leader msg_append_response r m = handle_msg_append_response r m
step_leader msg_request_vote r m = handle_vote_request r m
step_leader msg_heartbeat r m = ok (handle_heartbeat r m)
step_leader msg_heartbeat_response r m = handle_heartbeat_response r m
step_leader msg_transfer_leader r m = handle_leader_transfer r.state r m
step_leader _ r m = ok r

unfoldable pub step_as : StateType → Raft → Message → Result Raft
step_as state_follower r m = step_follower m.msg_type r m
step_as state_candidate r m = step_candidate m.msg_type r m
step_as state_leader r m = step_leader m.msg_type r m

-- Go's Step always returns a nil error.
unfoldable pub step : Raft → Message → Result Raft
unfolding step_as
step r m = step_as r.state r m

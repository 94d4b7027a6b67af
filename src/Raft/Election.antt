-- ===== src/Raft/Election.antt =====
-- raft/raft.go: elections, votes and heartbeats.
pub mod Votes
pub mod Revote
use tinykv.Prelude.{
  ℕ, suc, ◌+◌, ◌/◌, Bool, true, false, ◌&&◌, ◌||◌, not, Option, none, some, List, [], ◌∷◌, ◌++◌,
  length, ltb, leb, ◌==◌, if◌then◌else◌, add64, Result, ok, ◌>>=◌, insert,
}
use tinykv.Raft.Pb.{
  Entry, entry_normal, Message, message, msg_propose, msg_append, msg_request_vote,
  msg_request_vote_response, msg_heartbeat, msg_heartbeat_response,
}
use tinykv.Raft.Log.{RaftLog, last_index, term}
use tinykv.Raft.Node.{
  Raft, StateType, state_follower, state_candidate, state_leader, send, reset_election,
  become_follower, for_others,
}
use tinykv.Raft.Replication.{send_append, send_snapshot, broad_cast_ae, handle_msg_propose}

send_heartbeat : Raft → ℕ → Result Raft
send_heartbeat r to =
    ok (send r (record (message msg_heartbeat) { to = to; from = r.id; term = r.term }))

unfoldable pub send_heartbeats : Raft → Result Raft
unfolding send_heartbeat
send_heartbeats r = for_others r.peers r.id send_heartbeat r

unfoldable pub request_vote : Raft → ℕ → Result Raft
request_vote r to = do
  let last_idx = last_index r.raft_log
  last_term ← term r.raft_log last_idx
  ok (
      send r (record (message msg_request_vote) {
        to = to;
        from = r.id;
        term = r.term;
        log_term = last_term;
        index = last_idx;
      }))

unfoldable pub request_votes : Raft → Result Raft
request_votes r = for_others r.peers r.id request_vote r

-- A new leader appends an entry without a payload in its term, and sends it out.
unfoldable pub become_leader : Raft → Result Raft
become_leader r = do
  let r1 = record r {
    state = state_leader;
    lead_transferee = 0;
    heartbeat_elapsed = 0;
    lead = r.id;
  }
  let noop : Entry = record {
    entry_type = entry_normal;
    term = r.term;
    index = add64 (last_index r.raft_log) 1;
    payload = [];
  }
  r2 ←
      handle_msg_propose r1
        (record (message msg_append) { to = r.id; from = r.id; entries = noop ∷ []; term = r.term })
  broad_cast_ae r2

unfoldable pub become_candidate : Raft → Result Raft
become_candidate r = do
  let r1 = reset_election (record r {
    term = add64 r.term 1;
    vote_received = 1;
    vote_total = 1;
    vote = r.id;
    votes = insert r.id true r.votes;
    state = state_candidate;
  })
  if length r1.peers == 1 then become_leader r1 else ok r1

-- The arm of MsgHup in Step, and the end of an election timeout in tick.
unfoldable pub campaign : Raft → Result Raft
campaign r = do r1 ← become_candidate r; request_votes r1

tick_election : Raft → Result Raft
tick_election r = if leb r.election_timeout_random r.election_elapsed then campaign r else ok r

tick_as : StateType → Raft → Result Raft
tick_as state_leader r =
    if leb r.heartbeat_timeout r.heartbeat_elapsed
    then send_heartbeats (record r { heartbeat_elapsed = 0 })
    else ok r
tick_as state_candidate r = tick_election r
tick_as state_follower r = tick_election r

unfoldable pub tick : Raft → Result Raft
unfolding tick_election tick_as
tick r = tick_as r.state (record r {
  election_elapsed = r.election_elapsed + 1;
  heartbeat_elapsed = r.heartbeat_elapsed + 1;
})

unfoldable pub is_follower : StateType → Bool
is_follower state_follower = true
is_follower state_candidate = false
is_follower state_leader = false

-- The request's term is newer, or it is this follower's and the vote is free or the candidate's.
unfoldable pub may_vote : Raft → Message → Bool
unfolding is_follower
may_vote r m =
    (r.term == m.term && (is_follower r.state && (r.vote == 0 || r.vote == m.from)))
    || ltb r.term m.term

-- The candidate's log is at least as up to date.
unfoldable pub up_to_date : Message → ℕ → ℕ → Bool
up_to_date m last_term last_index =
    ltb last_term m.log_term || (m.log_term == last_term && leb last_index m.index)

unfoldable pub handle_vote_request : Raft → Message → Result Raft
handle_vote_request r m =
    let response = record (message msg_request_vote_response) {
      to = m.from;
      from = r.id;
      reject = true;
    } in
    if may_vote r m
    then (do
      let last = last_index r.raft_log
      last_term ← term r.raft_log last
      let r1 = become_follower r m.term 0
      ok (
          if up_to_date m last_term last
          then send (record r1 { vote = m.from })
              (record response { reject = false; term = r1.term })
          else send r1 (record response { term = r1.term })))
    else ok (send r (record response { term = r.term }))

unfoldable pub handle_vote_response : Raft → Message → Result Raft
handle_vote_response r m =
    if m.term == r.term
    then (let counted = record r {
      vote_total = add64 r.vote_total 1;
      vote_received = if m.reject then r.vote_received else add64 r.vote_received 1;
    } in
        if not m.reject && ltb (length r.peers / 2) counted.vote_received
        then become_leader counted
        else if counted.vote_total == length r.peers
        then ok (become_follower counted r.term 0)
        else ok counted)
    else if ltb r.term m.term
    then ok (become_follower r m.term 0)
    else ok r

unfoldable pub handle_heartbeat : Raft → Message → Raft
handle_heartbeat r m =
    let msg = record (message msg_heartbeat_response) { to = m.from; from = r.id } in
    if ltb m.term r.term
    then send r (record msg { reject = true; term = r.term })
    else (let r1 = become_follower r m.term m.from in
        send r1 (record msg { index = last_index r1.raft_log }))

unfoldable pub handle_heartbeat_response : Raft → Message → Result Raft
handle_heartbeat_response r m =
    if m.reject
    then ok (become_follower r m.term 0)
    else if m.index == 0
    then send_snapshot r m.from
    else if ltb m.index (last_index r.raft_log)
    then send_append r m.from
    else ok r

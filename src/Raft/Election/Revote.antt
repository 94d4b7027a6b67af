-- ===== src/Raft/Election/Revote.antt =====
-- raft/raft.go: how a late heartbeat response lets a leader vote in a term that it has left.
use tinykv.Prelude.{ℕ, ◌<◌, ◌≡◌, refl, sym, ap, ◌∙◌, arith, true, inl, inr, ok}
use tinykv.Raft.Pb.{Message, msg_heartbeat_response, msg_request_vote}
use tinykv.Raft.Log.{last_index, term}
use tinykv.Raft.Node.{Raft, state_leader, become_follower}
use tinykv.Raft.Election.{handle_vote_request, handle_heartbeat_response}
use tinykv.Raft.Election.Votes.{
  UpToDate, UpToDate-up_to_date, MayVote-may_vote, voted, voted_lem, vote_granted,
}
use tinykv.Raft.Step.{step, step_as, step_leader, step_follower}

back_to_older :
    (r : Raft) (h : Message)
    → r.state ≡ state_leader
    → h.msg_type ≡ msg_heartbeat_response
    → h.reject ≡ true
    → step r h ≡ ok (become_follower r h.term 0)
unfolding step step_as step_leader handle_heartbeat_response
back_to_older r h s k j = ground arith

asked :
    (r : Raft) (h m : Message)
    → m.msg_type ≡ msg_request_vote
    → step (become_follower r h.term 0) m ≡ handle_vote_request (become_follower r h.term 0) m
unfolding step step_as step_follower become_follower
asked r h m k = ap (λ t. step_follower t (become_follower r h.term 0) m) k

-- A leader that gets a rejected heartbeat response of an older term goes back to that term, and
-- gives its vote there to the next candidate with an up-to-date log, whoever had its vote in that
-- term before. Here the term of the last entry can be read.
pub vote_after_stale_rejection :
    (r : Raft) (h m : Message) (t : ℕ)
    → r.state ≡ state_leader
    → h.msg_type ≡ msg_heartbeat_response
    → h.reject ≡ true
    → h.term < r.term
    → m.msg_type ≡ msg_request_vote
    → m.term ≡ h.term
    → term r.raft_log (last_index r.raft_log) ≡ ok t
    → UpToDate m t (last_index r.raft_log)
    → (s : Raft) × (r' : Raft) × (step r h ≡ ok s)
      × (step s m ≡ ok r')
      × (r'.vote ≡ m.from)
      × (r'.term ≡ h.term)
      × (r'.term < r.term)
unfolding become_follower
vote_after_stale_rejection r h m t s k j lt v same e fresh =
    let back : Raft = become_follower r h.term 0 in
    let (run, a) =
      vote_granted back m t e (MayVote-may_vote back m (inr (sym same, refl, inl refl)))
        (UpToDate-up_to_date m t _ fresh) in
    (
      back,
      voted back m,
      back_to_older r h s k j,
      asked r h m v ∙ run,
      (voted_lem back m).0,
      (voted_lem back m).1 ∙ same,
      omega (arith, (voted_lem back m).1),
    )

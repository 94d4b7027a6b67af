-- ===== src/Raft/Terms.antt =====
-- raft/raft.go: when Step moves a node's term, and who becomes leader.
use tinykv.Prelude.{
  ℕ, ◌+◌, ◌/◌, ◌≤◌, ◌<◌, ◌≡◌, refl, sym, ap, ◌∙◌, true, Option, none, some, List, [], ◌∷◌, arith,
  length, ltb, leb, ◌==◌, if◌then◌else◌, Bool-cases, inl, inr, ltb→ge, ok, >>=-eq-ok, if-eq-ok,
  ok-injective, u64_mod, not, ◌&&◌, add64-eq, if_true, if_false,
}
use tinykv.Raft.Pb.{
  Entry, Message, MessageType, msg_append, msg_snapshot, msg_hup, msg_beat, msg_propose,
  msg_append_response, msg_request_vote, msg_request_vote_response, msg_heartbeat,
  msg_heartbeat_response, msg_transfer_leader, msg_timeout_now,
}
use tinykv.Raft.Log.{last_index}
use tinykv.Raft.Node.{
  Raft, StateType, state_follower, state_candidate, state_leader, send, become_follower, progress,
  set_progress, reset_election,
}
use tinykv.Raft.Commit.{peers_at}
use tinykv.Raft.Replication.{
  entry_at, handle_msg_propose, broad_cast_ae, send_append, propose_entries, propose_entry,
}
use tinykv.Raft.Commit.{
  handle_msg_append_response, handle_accepted, handle_rejected, maybe_commit, send_commit,
}
use tinykv.Raft.Append.{handle_append_entries, append_or_reject, learn_commit, follow}
use tinykv.Raft.Append.Follower.{follow-term}
use tinykv.Raft.Election.{
  become_leader, become_candidate, campaign, request_votes, handle_vote_request, may_vote,
  handle_vote_response, handle_heartbeat, handle_heartbeat_response,
}
use tinykv.Raft.Member.{handle_snapshot, install_snapshot}
use tinykv.Raft.Step.{
  step, step_as, step_follower, step_candidate, step_leader, step_hup, handle_msg_time_out,
  handle_leader_transfer, transfer_to,
}
use tinykv.Raft.Frame.{
  send_append-SameCore, send_snapshot-SameCore, broad_cast_ae-SameCore, send_heartbeats-SameCore,
  request_votes-SameCore,
}

propose_entries-term : (es : List Entry) (r : Raft) → (propose_entries r es).term ≡ r.term
unfolding propose_entries propose_entry
propose_entries-term [] r = refl
propose_entries-term (e ∷ es) r = propose_entries-term es (propose_entry r e) ∙ ground arith

propose-term : (r r' : Raft) (m : Message) → handle_msg_propose r m ≡ ok r' → r'.term ≡ r.term
unfolding handle_msg_propose progress set_progress
propose-term r r' m h = ground (arith, propose_entries-term m.entries r)

become_leader-term : (r r' : Raft) → become_leader r ≡ ok r' → r'.term ≡ r.term
unfolding become_leader
become_leader-term r r' h =
    let (s, e, rest) = >>=-eq-ok (handle_msg_propose _ _) broad_cast_ae h in
    (broad_cast_ae-SameCore s r' rest).term ∙ propose-term _ s _ e

-- A campaign is for the next term.
campaign-term : (r r' : Raft) → r.term + 1 < u64_mod → campaign r ≡ ok r' → r'.term ≡ r.term + 1
unfolding campaign become_candidate reset_election
campaign-term r r' f h =
    let (s, e, rest) = >>=-eq-ok (become_candidate r) request_votes h in
    let q = (request_votes-SameCore s r' rest).term in
    let n = add64-eq r.term 1 f in
    elim (if-eq-ok (length r.peers == 1) _ _ e) [
      | inl (_, lead) ↦ q ∙ become_leader-term _ s lead ∙ n
      | inr (_, only) ↦ q ∙ sym (ap (λ (s : Raft). s.term) (ok-injective only)) ∙ n
    ]

append_or_reject-term :
    (r r' : Raft) (m : Message) (o : Option (List Entry × List Entry))
    → append_or_reject r m o ≡ ok r'
    → r'.term ≡ r.term
unfolding append_or_reject send
append_or_reject-term r r' m none h = ground arith
append_or_reject-term r r' m (some (k, d)) h = ground arith

append-term : (r r' : Raft) (m : Message) → handle_append_entries r m ≡ ok r' → r.term ≤ r'.term
unfolding handle_append_entries learn_commit send
append-term r r' m h = elim (if-eq-ok m.commit_use _ _ h) [
  | inl (_, c) ↦ ground arith
  | inr (_, rest) ↦ elim (if-eq-ok (ltb m.term r.term) _ _ rest) [
    | inl (_, old) ↦ ground arith
    | inr (cur, done) ↦
        let r1 : Raft = record r { term = m.term; lead = m.from } in
        omega (
          arith,
          append_or_reject-term (follow r.state r1 m) r' m _ done,
          follow-term r.state r1 m refl,
          ltb→ge _ _ cur,
        )
  ]
]

send_commit-term : (r : Raft) (c : ℕ) (ps : List ℕ) → (send_commit r c ps).term ≡ r.term
unfolding send_commit send
send_commit-term r c [] = refl
send_commit-term r c (p ∷ ps) = send_commit-term _ c ps

maybe_commit-term :
    (r r' : Raft) (from index : ℕ) → maybe_commit r from index ≡ ok r' → r'.term ≡ r.term
unfolding maybe_commit send
maybe_commit-term r r' from index h = elim (if-eq-ok (leb index r.raft_log.committed) _ _ h) [
  | inl (_, e) ↦ sym (ap (λ (s : Raft). s.term) (ok-injective e))
  | inr (_, rest) ↦
      let (e, found, rest1) = >>=-eq-ok (entry_at r.raft_log index) _ rest in
      elim (if-eq-ok (ltb e.term r.term) _ _ rest1) [
        | inl (_, z) ↦ sym (ap (λ (s : Raft). s.term) (ok-injective z))
        | inr (_, rest2) ↦
            let (others, at, z) = >>=-eq-ok (peers_at r from index r.peers) _ rest2 in
            sym (ap (λ (s : Raft). s.term) (ok-injective z)) ∙ counted others
      ]
]
  where
    counted :
        (others : List ℕ)
        → (if ltb (length r.peers / 2) (2 + length others)
            then send_commit
                (record r { raft_log = record r.raft_log { committed = index } })
                index
                (from ∷ others)
            else r).term
          ≡ r.term
    counted others = elim (Bool-cases (ltb (length r.peers / 2) (2 + length others))) [
      | inl y ↦ ap (λ (s : Raft). s.term) (if_true _ _ y) ∙ send_commit-term _ index (from ∷ others)
      | inr n ↦ ap (λ (s : Raft). s.term) (if_false _ _ n)
    ]

append_response-term :
    (r r' : Raft) (m : Message) → handle_msg_append_response r m ≡ ok r' → r'.term ≡ r.term
unfolding handle_msg_append_response handle_accepted handle_rejected set_progress send
append_response-term r r' m h = elim (if-eq-ok m.reject _ _ h) [
  | inl (_, rejected) ↦
      let (pr, _, rest) = >>=-eq-ok (progress r m.from) _ rejected in
      (send_append-SameCore m.from _ r' rest).term
  | inr (_, accepted) ↦
      let (pr, _, rest) = >>=-eq-ok (progress r m.from) _ accepted in
      elim (if-eq-ok (leb m.index pr.match_index) _ _ rest) [
        | inl (_, e) ↦ sym (ap (λ (s : Raft). s.term) (ok-injective e))
        | inr (_, last) ↦ maybe_commit-term _ r' m.from m.index last ∙ ground arith
      ]
]

vote_request-term : (r r' : Raft) (m : Message) → handle_vote_request r m ≡ ok r' → r.term ≤ r'.term
unfolding handle_vote_request may_vote send become_follower
vote_request-term r r' m h = ground arith

vote_response-term :
    (r r' : Raft) (m : Message) → handle_vote_response r m ≡ ok r' → r.term ≤ r'.term
unfolding handle_vote_response become_follower
vote_response-term r r' m h = elim (if-eq-ok (m.term == r.term) _ _ h) [
  | inl (_, counted) ↦ elim (if-eq-ok (not m.reject && _) _ _ counted) [
    | inl (_, lead) ↦ omega (arith, become_leader-term _ r' lead)
    | inr (_, rest) ↦ ground arith
  ]
  | inr (_, other) ↦ ground arith
]

heartbeat-term : (r : Raft) (m : Message) → r.term ≤ (handle_heartbeat r m).term
unfolding handle_heartbeat send become_follower
heartbeat-term r m = ground arith

heartbeat_response-term :
    (r r' : Raft) (m : Message)
    → (m.reject ≡ true → r.term ≤ m.term)
    → handle_heartbeat_response r m ≡ ok r'
    → r.term ≤ r'.term
unfolding handle_heartbeat_response become_follower
heartbeat_response-term r r' m fresh h = elim (if-eq-ok m.reject _ _ h) [
  | inl (j, e) ↦ let k = fresh j in ground arith
  | inr (_, rest) ↦ elim (if-eq-ok (m.index == 0) _ _ rest) [
    | inl (_, snap) ↦ omega (arith, (send_snapshot-SameCore m.from r r' snap).term)
    | inr (_, rest2) ↦ elim (if-eq-ok (ltb m.index (last_index r.raft_log)) _ _ rest2) [
      | inl (_, app) ↦ omega (arith, (send_append-SameCore m.from r r' app).term)
      | inr (_, e) ↦ ground arith
    ]
  ]
]

snapshot-term :
    (r r' : Raft) (m : Message) → r.term ≤ m.term → handle_snapshot r m ≡ ok r' → r.term ≤ r'.term
unfolding handle_snapshot install_snapshot become_follower send
snapshot-term r r' m fresh h = ground arith

transfer_to-term : (r r' : Raft) (to : ℕ) → transfer_to r to ≡ ok r' → r'.term ≡ r.term
unfolding transfer_to progress send
transfer_to-term r r' to h = ground (
  arith,
  λ (e : send_append (record r { lead_transferee = to }) to ≡ ok r').
      (send_append-SameCore to _ r' e).term,
)

module _ (r r' : Raft) (m : Message) (f : r.term + 1 < u64_mod)
    (rejected : m.msg_type ≡ msg_heartbeat_response → m.reject ≡ true → r.term ≤ m.term)
    (snapshot : m.msg_type ≡ msg_snapshot → r.term ≤ m.term) where
  idle-term : ok r ≡ ok r' → r.term ≤ r'.term
  idle-term h = ground arith

  hup-term : (s : StateType) → step_hup s r ≡ ok r' → r.term ≤ r'.term
  unfolding step_hup
  hup-term state_follower h = omega (arith, campaign-term r r' f h)
  hup-term state_candidate h = omega (arith, campaign-term r r' f h)
  hup-term state_leader h = idle-term h

  time_out-term : handle_msg_time_out r ≡ ok r' → r.term ≤ r'.term
  unfolding handle_msg_time_out
  time_out-term h = elim (if-eq-ok _ (ok r) (step_hup r.state r) h) [
    | inl (_, e) ↦ idle-term e
    | inr (_, e) ↦ hup-term r.state e
  ]

  transfer-term : (s : StateType) → handle_leader_transfer s r m ≡ ok r' → r.term ≤ r'.term
  unfolding handle_leader_transfer
  transfer-term state_leader h = omega (arith, transfer_to-term r r' m.from h)
  transfer-term s h = elim (if-eq-ok (r.lead == 0) _ _ h) [
    | inl (_, e) ↦ idle-term e
    | inr (_, e) ↦ hup-term _ e
  ]

  beat-term : ok (handle_heartbeat r m) ≡ ok r' → r.term ≤ r'.term
  beat-term h = omega (arith, heartbeat-term r m, ap (λ (s : Raft). s.term) (ok-injective h))

  follower-term :
      (t : MessageType) → m.msg_type ≡ t → step_follower t r m ≡ ok r' → r.term ≤ r'.term
  unfolding step_follower
  follower-term msg_snapshot e h = snapshot-term r r' m (snapshot e) h
  follower-term msg_append e h = append-term r r' m h
  follower-term msg_hup e h = omega (arith, campaign-term r r' f h)
  follower-term msg_request_vote e h = vote_request-term r r' m h
  follower-term msg_heartbeat e h = beat-term h
  follower-term msg_timeout_now e h = time_out-term h
  follower-term msg_transfer_leader e h = transfer-term r.state h
  follower-term _ e h = idle-term h

  candidate-term :
      (t : MessageType) → m.msg_type ≡ t → step_candidate t r m ≡ ok r' → r.term ≤ r'.term
  unfolding step_candidate
  candidate-term msg_snapshot e h = snapshot-term r r' m (snapshot e) h
  candidate-term msg_append e h = append-term r r' m h
  candidate-term msg_hup e h = omega (arith, campaign-term r r' f h)
  candidate-term msg_request_vote_response e h = vote_response-term r r' m h
  candidate-term msg_request_vote e h = vote_request-term r r' m h
  candidate-term msg_heartbeat e h = beat-term h
  candidate-term msg_timeout_now e h = time_out-term h
  candidate-term msg_transfer_leader e h = transfer-term r.state h
  candidate-term _ e h = idle-term h

  leader-term : (t : MessageType) → m.msg_type ≡ t → step_leader t r m ≡ ok r' → r.term ≤ r'.term
  unfolding step_leader
  leader-term msg_snapshot e h = snapshot-term r r' m (snapshot e) h
  leader-term msg_beat e h = omega (arith, (send_heartbeats-SameCore _ r' h).term)
  leader-term msg_append e h = append-term r r' m h
  leader-term msg_propose e h =
      let (s, p, rest) = >>=-eq-ok (handle_msg_propose r m) broad_cast_ae h in
      omega (arith, propose-term r s m p, (broad_cast_ae-SameCore s r' rest).term)
  leader-term msg_append_response e h = omega (arith, append_response-term r r' m h)
  leader-term msg_request_vote e h = vote_request-term r r' m h
  leader-term msg_heartbeat e h = beat-term h
  leader-term msg_heartbeat_response e h = heartbeat_response-term r r' m (rejected e) h
  leader-term msg_transfer_leader e h = transfer-term r.state h
  leader-term _ e h = idle-term h

  dispatch-term : (s : StateType) → step_as s r m ≡ ok r' → r.term ≤ r'.term
  unfolding step_as
  dispatch-term state_follower h = follower-term m.msg_type refl h
  dispatch-term state_candidate h = candidate-term m.msg_type refl h
  dispatch-term state_leader h = leader-term m.msg_type refl h

-- A step that does not panic never lowers the node's term, whatever its state and the message, if
-- rejected heartbeat responses and snapshots are not of an older term, and the term can still be
-- incremented.
pub term-step-le :
    (r r' : Raft) (m : Message)
    → r.term + 1 < u64_mod
    → (m.msg_type ≡ msg_heartbeat_response → m.reject ≡ true → r.term ≤ m.term)
    → (m.msg_type ≡ msg_snapshot → r.term ≤ m.term)
    → step r m ≡ ok r'
    → r.term ≤ r'.term
unfolding step
term-step-le r r' m f rejected snapshot h = dispatch-term r r' m f rejected snapshot r.state h

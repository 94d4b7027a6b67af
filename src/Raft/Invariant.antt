-- ===== src/Raft/Invariant.antt =====
-- raft/raft.go: Step keeps the log valid, and never takes back what is committed.
use tinykv.Prelude.{
  ℕ, ◌+◌, ◌≤◌, ◌<◌, ◌≡◌, refl, sym, ap, ◌∙◌, subst, false, some, arith, length, ltb, leb, ◌==◌, inl,
  inr, leb→gt, ok, >>=-eq-ok, if-eq-ok, ok-injective, u64_mod, or_panic, explicit, nil_dereference,
  not, ◌&&◌,
}
use tinykv.Raft.Pb.{
  Entry, Message, Snapshot, SnapshotMetadata, MessageType, msg_append, msg_snapshot, msg_hup,
  msg_beat, msg_propose, msg_append_response, msg_request_vote, msg_request_vote_response,
  msg_heartbeat, msg_heartbeat_response, msg_transfer_leader, msg_timeout_now,
}
use tinykv.Raft.Log.{RaftLog, last_index, real_idx}
use tinykv.Raft.Log.Shape.{IsValid, last_index-contig}
use tinykv.Raft.Log.Survives.{Survives-append, Survives-committed}
use tinykv.Raft.Node.{
  Raft, StateType, state_follower, state_candidate, state_leader, send, become_follower, progress,
  reset_election,
}
use tinykv.Raft.Replication.{handle_msg_propose, broad_cast_ae, entry_at, send_append}
use tinykv.Raft.Replication.Propose.{handle_msg_propose-Proposed, Proposed-IsValid}
use tinykv.Raft.Commit.{handle_msg_append_response}
use tinykv.Raft.Commit.Quorum.{handle_msg_append_response-LogOrStep}
use tinykv.Raft.Append.Follower.{IsValid-committed}
use tinykv.Raft.Append.Cases.{LogStep, LogStep-same, AppendOk, handle_append_entries-LogStep}
use tinykv.Raft.Election.{
  become_leader, become_candidate, campaign, request_votes, handle_vote_request,
  handle_vote_response, handle_heartbeat, handle_heartbeat_response,
}
use tinykv.Raft.Member.{handle_snapshot, install_snapshot}
use tinykv.Raft.Step.{
  step, step_as, step_follower, step_candidate, step_leader, step_hup, handle_msg_time_out,
  handle_leader_transfer, transfer_to,
}
use tinykv.Raft.Frame.{
  send_append-SameCore, send_snapshot-SameCore, broad_cast_ae-SameCore, send_heartbeats-SameCore,
  request_votes-SameCore,
}

-- Room in the index space for `n` more entries.
abbrev pub HasRoom : Raft → ℕ → Type 0
HasRoom r n = r.raft_log.last_idx_of_snapshot + length r.raft_log.entries + n + 1 < u64_mod

LogStep-trans_same : {l k m : RaftLog} → LogStep l k → m ≡ k → LogStep l m
LogStep-trans_same {l} p e = subst (LogStep l) (sym e) p

propose-LogStep :
    (r r' : Raft) (m : Message)
    → IsValid r.raft_log
    → HasRoom r (length m.entries)
    → handle_msg_propose r m ≡ ok r'
    → LogStep r.raft_log r'.raft_log
propose-LogStep r r' m v f h =
    let a = handle_msg_propose-Proposed r r' m v (omega arith) h in
    let p = Proposed-IsValid r r' (length m.entries) v f a in
    record {
      valid = p.0;
      committed = p.1;
      snapshot = omega (arith, a.snapshot);
      survives = Survives-append r.raft_log r'.raft_log a.extra v a.snapshot a.entries;
    }

become_leader-LogStep :
    (r r' : Raft)
    → IsValid r.raft_log
    → HasRoom r 1
    → become_leader r ≡ ok r'
    → LogStep r.raft_log r'.raft_log
unfolding become_leader
become_leader-LogStep r r' v f h =
    let (s, e, rest) = >>=-eq-ok (handle_msg_propose _ _) broad_cast_ae h in
    LogStep-trans_same (propose-LogStep _ s _ v f e) (broad_cast_ae-SameCore s r' rest).raft_log

campaign-LogStep :
    (r r' : Raft)
    → IsValid r.raft_log
    → HasRoom r 1
    → campaign r ≡ ok r'
    → LogStep r.raft_log r'.raft_log
unfolding campaign become_candidate reset_election
campaign-LogStep r r' v f h =
    let (s, e, rest) = >>=-eq-ok (become_candidate r) request_votes h in
    let q = (request_votes-SameCore s r' rest).raft_log in
    elim (if-eq-ok (length r.peers == 1) _ _ e) [
      | inl (_, lead) ↦ LogStep-trans_same (become_leader-LogStep _ s v f lead) q
      | inr (_, only) ↦ LogStep-same v (q ∙ sym (ap (λ (s : Raft). s.raft_log) (ok-injective only)))
    ]

vote_request-raft_log :
    (r r' : Raft) (m : Message) → handle_vote_request r m ≡ ok r' → r'.raft_log ≡ r.raft_log
unfolding handle_vote_request send become_follower
vote_request-raft_log r r' m h = ground arith

vote_response-LogStep :
    (r r' : Raft) (m : Message)
    → IsValid r.raft_log
    → HasRoom r 1
    → handle_vote_response r m ≡ ok r'
    → LogStep r.raft_log r'.raft_log
unfolding handle_vote_response become_follower
vote_response-LogStep r r' m v f h = elim (if-eq-ok (m.term == r.term) _ _ h) [
  | inl (_, counted) ↦ elim (if-eq-ok (not m.reject && _) _ _ counted) [
    | inl (_, lead) ↦ become_leader-LogStep _ r' v f lead
    | inr (_, rest) ↦ LogStep-same v (ground arith)
  ]
  | inr (_, other) ↦ LogStep-same v (ground arith)
]

heartbeat-raft_log : (r : Raft) (m : Message) → (handle_heartbeat r m).raft_log ≡ r.raft_log
unfolding handle_heartbeat send become_follower
heartbeat-raft_log r m = ground arith

heartbeat_response-raft_log :
    (r r' : Raft) (m : Message) → handle_heartbeat_response r m ≡ ok r' → r'.raft_log ≡ r.raft_log
unfolding handle_heartbeat_response become_follower
heartbeat_response-raft_log r r' m h = elim (if-eq-ok m.reject _ _ h) [
  | inl (_, e) ↦ sym (ap (λ (s : Raft). s.raft_log) (ok-injective e))
  | inr (_, rest) ↦ elim (if-eq-ok (m.index == 0) _ _ rest) [
    | inl (_, snap) ↦ (send_snapshot-SameCore m.from r r' snap).raft_log
    | inr (_, rest2) ↦ elim (if-eq-ok (ltb m.index (last_index r.raft_log)) _ _ rest2) [
      | inl (_, app) ↦ (send_append-SameCore m.from r r' app).raft_log
      | inr (_, e) ↦ sym (ap (λ (s : Raft). s.raft_log) (ok-injective e))
    ]
  ]
]

transfer_to-raft_log : (r r' : Raft) (to : ℕ) → transfer_to r to ≡ ok r' → r'.raft_log ≡ r.raft_log
unfolding transfer_to progress send
transfer_to-raft_log r r' to h = ground (
  arith,
  λ (e : send_append (record r { lead_transferee = to }) to ≡ ok r').
      (send_append-SameCore to _ r' e).raft_log,
)

entry_at-range :
    (l : RaftLog) (i : ℕ) {e : Entry}
    → l.last_idx_of_snapshot < i
    → entry_at l i ≡ ok e
    → i ≤ l.last_idx_of_snapshot + length l.entries
unfolding entry_at real_idx
entry_at-range l i h e = ground arith

append_response-LogStep :
    (r r' : Raft) (m : Message)
    → IsValid r.raft_log
    → handle_msg_append_response r m ≡ ok r'
    → LogStep r.raft_log r'.raft_log
append_response-LogStep r r' m v h = elim (handle_msg_append_response-LogOrStep r r' m h) [
  | inl e ↦ LogStep-same v e
  | inr s ↦
      let k =
        entry_at-range r.raft_log m.index (omega (arith, s.forward, v.snapshot_le, v.applied_le))
          s.found in
      subst (LogStep r.raft_log) (sym s.log) (record {
        valid = IsValid-committed r.raft_log m.index v (omega (arith, s.forward)) k;
        committed = omega (arith, s.forward);
        snapshot = omega arith;
        survives = Survives-committed r.raft_log m.index;
      })
]

-- The index of the snapshot that a message carries leaves room behind it.
abbrev pub SnapshotFits : Message → Type 0
SnapshotFits m =
    (s : Snapshot) (md : SnapshotMetadata)
    → m.snapshot ≡ some s
    → s.metadata ≡ some md
    → md.index + 1 < u64_mod

snapshot-LogStep :
    (r r' : Raft) (m : Message)
    → IsValid r.raft_log
    → SnapshotFits m
    → handle_snapshot r m ≡ ok r'
    → LogStep r.raft_log r'.raft_log
unfolding handle_snapshot install_snapshot become_follower send
snapshot-LogStep r r' m v fits h =
    let (s, e, has) = >>=-eq-ok (or_panic explicit m.snapshot) _ h in
    let (md, d, rest) = >>=-eq-ok (or_panic nil_dereference s.metadata) _ has in
    let f : md.index + 1 < u64_mod = fits s md (ground arith) (ground arith) in
    elim (if-eq-ok (leb md.index (last_index r.raft_log)) _ _ rest) [
      | inl (_, old) ↦ LogStep-same v (sym (ap (λ (s : Raft). s.raft_log) (ok-injective old)))
      | inr (new, install) ↦
          let (conf, c, done) = >>=-eq-ok (or_panic nil_dereference md.conf_state) _ install in
          let k = last_index-contig r.raft_log v.contig in
          subst (λ (t : Raft). LogStep r.raft_log t.raft_log) (ok-injective done)
            (record {
              valid = record {
                contig = tt;
                snapshot_le = omega arith;
                applied_le = omega arith;
                committed_le = omega arith;
                stabled_ge = omega arith;
                stabled_le = omega arith;
                fits = omega arith;
              };
              committed = omega (arith, leb→gt _ _ new, v.committed_le);
              snapshot = omega (arith, leb→gt _ _ new, v.committed_le, v.applied_le, v.snapshot_le);
              survives = λ i h j. absurd (omega (arith, leb→gt _ _ new, v.committed_le));
            })
    ]

module _ (r r' : Raft) (m : Message) (v : IsValid r.raft_log) (fits : SnapshotFits m)
    (room : HasRoom r (length m.entries + 1)) where
  hup-LogStep : (s : StateType) → step_hup s r ≡ ok r' → LogStep r.raft_log r'.raft_log
  unfolding step_hup
  hup-LogStep state_follower h = campaign-LogStep r r' v (omega arith) h
  hup-LogStep state_candidate h = campaign-LogStep r r' v (omega arith) h
  hup-LogStep state_leader h = LogStep-same v (sym (ap (λ (s : Raft). s.raft_log) (ok-injective h)))

  time_out-LogStep : handle_msg_time_out r ≡ ok r' → LogStep r.raft_log r'.raft_log
  unfolding handle_msg_time_out
  time_out-LogStep h = elim (if-eq-ok _ (ok r) (step_hup r.state r) h) [
    | inl (_, e) ↦ LogStep-same v (sym (ap (λ (s : Raft). s.raft_log) (ok-injective e)))
    | inr (_, e) ↦ hup-LogStep r.state e
  ]

  transfer-LogStep :
      (s : StateType) → handle_leader_transfer s r m ≡ ok r' → LogStep r.raft_log r'.raft_log
  unfolding handle_leader_transfer
  transfer-LogStep state_leader h = LogStep-same v (transfer_to-raft_log r r' m.from h)
  transfer-LogStep s h = elim (if-eq-ok (r.lead == 0) _ _ h) [
    | inl (_, e) ↦ LogStep-same v (sym (ap (λ (s : Raft). s.raft_log) (ok-injective e)))
    | inr (_, e) ↦ hup-LogStep _ e
  ]

  idle-LogStep : ok r ≡ ok r' → LogStep r.raft_log r'.raft_log
  idle-LogStep h = LogStep-same v (sym (ap (λ (s : Raft). s.raft_log) (ok-injective h)))

  heartbeat-LogStep : ok (handle_heartbeat r m) ≡ ok r' → LogStep r.raft_log r'.raft_log
  heartbeat-LogStep h =
      LogStep-same v (sym (ap (λ (s : Raft). s.raft_log) (ok-injective h)) ∙ heartbeat-raft_log r m)

  follower-LogStep :
      (t : MessageType)
      → (t ≡ msg_append → m.commit_use ≡ false → AppendOk r m)
      → step_follower t r m ≡ ok r'
      → LogStep r.raft_log r'.raft_log
  unfolding step_follower
  follower-LogStep msg_snapshot a h = snapshot-LogStep r r' m v fits h
  follower-LogStep msg_append a h = handle_append_entries-LogStep r r' m v (a refl) h
  follower-LogStep msg_hup a h = campaign-LogStep r r' v (omega arith) h
  follower-LogStep msg_request_vote a h = LogStep-same v (vote_request-raft_log r r' m h)
  follower-LogStep msg_heartbeat a h = heartbeat-LogStep h
  follower-LogStep msg_timeout_now a h = time_out-LogStep h
  follower-LogStep msg_transfer_leader a h = transfer-LogStep r.state h
  follower-LogStep _ a h = idle-LogStep h

  candidate-LogStep :
      (t : MessageType)
      → (t ≡ msg_append → m.commit_use ≡ false → AppendOk r m)
      → step_candidate t r m ≡ ok r'
      → LogStep r.raft_log r'.raft_log
  unfolding step_candidate
  candidate-LogStep msg_snapshot a h = snapshot-LogStep r r' m v fits h
  candidate-LogStep msg_append a h = handle_append_entries-LogStep r r' m v (a refl) h
  candidate-LogStep msg_hup a h = campaign-LogStep r r' v (omega arith) h
  candidate-LogStep msg_request_vote_response a h = vote_response-LogStep r r' m v (omega arith) h
  candidate-LogStep msg_request_vote a h = LogStep-same v (vote_request-raft_log r r' m h)
  candidate-LogStep msg_heartbeat a h = heartbeat-LogStep h
  candidate-LogStep msg_timeout_now a h = time_out-LogStep h
  candidate-LogStep msg_transfer_leader a h = transfer-LogStep r.state h
  candidate-LogStep _ a h = idle-LogStep h

  leader-LogStep :
      (t : MessageType)
      → (t ≡ msg_append → m.commit_use ≡ false → AppendOk r m)
      → step_leader t r m ≡ ok r'
      → LogStep r.raft_log r'.raft_log
  unfolding step_leader
  leader-LogStep msg_snapshot a h = snapshot-LogStep r r' m v fits h
  leader-LogStep msg_beat a h = LogStep-same v (send_heartbeats-SameCore _ r' h).raft_log
  leader-LogStep msg_append a h = handle_append_entries-LogStep r r' m v (a refl) h
  leader-LogStep msg_propose a h =
      let (s, e, rest) = >>=-eq-ok (handle_msg_propose r m) broad_cast_ae h in
      LogStep-trans_same (propose-LogStep r s m v (omega arith) e)
        (broad_cast_ae-SameCore s r' rest).raft_log
  leader-LogStep msg_append_response a h = append_response-LogStep r r' m v h
  leader-LogStep msg_request_vote a h = LogStep-same v (vote_request-raft_log r r' m h)
  leader-LogStep msg_heartbeat a h = heartbeat-LogStep h
  leader-LogStep msg_heartbeat_response a h = LogStep-same v (heartbeat_response-raft_log r r' m h)
  leader-LogStep msg_transfer_leader a h = transfer-LogStep r.state h
  leader-LogStep _ a h = idle-LogStep h

  dispatch-LogStep :
      (s : StateType)
      → (m.msg_type ≡ msg_append → m.commit_use ≡ false → AppendOk r m)
      → step_as s r m ≡ ok r'
      → LogStep r.raft_log r'.raft_log
  unfolding step_as
  dispatch-LogStep state_follower a h = follower-LogStep m.msg_type a h
  dispatch-LogStep state_candidate a h = candidate-LogStep m.msg_type a h
  dispatch-LogStep state_leader a h = leader-LogStep m.msg_type a h

-- A step that does not panic, of a node with a valid log, in whatever state and at whatever
-- message, keeps the log valid; neither the commit index nor the snapshot goes back, and at every
-- index that was committed the log still has the entry's term, unless the snapshot covers it. An
-- append is assumed to be contiguous and in conflict with nothing committed, and the log, with what
-- the message brings, to have room below 2^64.
pub step-LogStep :
    (r r' : Raft) (m : Message)
    → IsValid r.raft_log
    → (m.msg_type ≡ msg_append → m.commit_use ≡ false → AppendOk r m)
    → SnapshotFits m
    → HasRoom r (length m.entries + 1)
    → step r m ≡ ok r'
    → LogStep r.raft_log r'.raft_log
unfolding step
step-LogStep r r' m v append fits room h = dispatch-LogStep r r' m v fits room r.state append h

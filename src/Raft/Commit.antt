-- ===== src/Raft/Commit.antt =====
-- raft/raft.go: handleMsgAppendResponse, by which the leader learns what its followers hold,
-- commits what a majority holds, and backs up after a rejection.
pub mod Quorum
use tinykv.Prelude.{
  ℕ, suc, ◌+◌, ◌/◌, Bool, true, false, ◌&&◌, ◌||◌, Option, none, some, List, [], ◌∷◌, ◌++◌, length,
  ltb, leb, ◌==◌, if◌then◌else◌, add64, max64, Result, ok, ◌>>=◌,
}
use tinykv.Raft.Pb.{Entry, Message, message, msg_append, msg_timeout_now}
use tinykv.Raft.Log.{RaftLog, last_index}
use tinykv.Raft.Node.{Raft, Progress, send, progress, set_progress}
use tinykv.Raft.Replication.{send_append, entry_at}

-- Of the peers but `from` and the node itself, those that match at least up to `index`.
unfoldable pub peers_at : Raft → ℕ → ℕ → List ℕ → Result (List ℕ)
peers_at r from index [] = ok []
peers_at r from index (p ∷ ps) = do
  rest ← peers_at r from index ps
  if p == from || p == r.id
      then ok rest
      else do pr ← progress r p; ok (if leb index pr.match_index then p ∷ rest else rest)

commit_message : Raft → ℕ → ℕ → Message
commit_message r to commit = record (message msg_append) {
  term = r.term;
  from = r.id;
  to = to;
  commit_use = true;
  commit = commit;
}

unfoldable pub send_commit : Raft → ℕ → List ℕ → Raft
unfolding commit_message
send_commit r commit [] = r
send_commit r commit (p ∷ ps) = send_commit (send r (commit_message r p commit)) commit ps

-- `counts` is 2, the node itself and `from`, and one for each of `peers_at`.
unfoldable pub maybe_commit : Raft → ℕ → ℕ → Result Raft
unfolding commit_message
maybe_commit r from index =
    if leb index r.raft_log.committed then ok (send r (commit_message r from index)) else do
      e ← entry_at r.raft_log index
      if ltb e.term r.term then ok r else do
        others ← peers_at r from index r.peers
        ok (
            if ltb (length r.peers / 2) (2 + length others)
            then send_commit (record r { raft_log = record r.raft_log { committed = index } }) index
                (from ∷ others)
            else r)

-- The transferee has caught up.
maybe_timeout_now : Raft → ℕ → ℕ → Raft
maybe_timeout_now r from match_index =
    if from == r.lead_transferee && match_index == last_index r.raft_log
    then send r (record (message msg_timeout_now) { to = from; from = r.id })
    else r

unfoldable pub handle_accepted : Raft → Message → Result Raft
unfolding maybe_timeout_now
handle_accepted r m = do
  pr ← progress r m.from
  if leb m.index pr.match_index then ok r else do
    let r1 = set_progress r m.from (record { match_index = m.index; next = add64 m.index 1 })
    maybe_commit (maybe_timeout_now r1 m.from m.index) m.from m.index

-- Behind the last entry of the conflicting term, among the entries up to the first later term.
unfoldable pub after_conflict_term : List Entry → ℕ → Option ℕ → Option ℕ
after_conflict_term [] t found = found
after_conflict_term (e ∷ es) t found =
    let found' = if e.term == t then some (add64 e.index 1) else found in
    if ltb t e.term then found' else after_conflict_term es t found'

or_next : Option ℕ → ℕ → ℕ
or_next none index = add64 index 1
or_next (some next) index = next

unfoldable pub next_after_reject : List Entry → Message → Progress → ℕ
unfolding or_next
next_after_reject entries m pr =
    if m.conflict_term == 0
    then max64 (add64 m.index 1) (add64 pr.match_index 1)
    else or_next (after_conflict_term entries m.conflict_term none) m.index

unfoldable pub handle_rejected : Raft → Message → Result Raft
handle_rejected r m = do
  pr ← progress r m.from
  let next = next_after_reject r.raft_log.entries m pr
  send_append (set_progress r m.from (record pr { next = next })) m.from

unfoldable pub handle_msg_append_response : Raft → Message → Result Raft
handle_msg_append_response r m = if m.reject then handle_rejected r m else handle_accepted r m

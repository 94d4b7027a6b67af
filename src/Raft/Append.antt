-- ===== src/Raft/Append.antt =====
-- raft/raft.go: handleAppendEntries, the follower's side of log replication.
pub mod Split
pub mod Merge
pub mod Follower
pub mod Reject
pub mod Cases
use tinykv.Prelude.{
  ℕ, suc, ◌-◌, ◌^◌, ◌≤◌, Bool, true, false, ◌&&◌, not, Option, none, some, List, [], ◌∷◌, ◌++◌,
  length, get_last?, ltb, leb, ◌==◌, if◌then◌else◌, sub64, min64, max64, Result, ok, panic,
  explicit, out_of_range, u64_mod, index, ◌>>=◌,
}
use tinykv.Raft.Pb.{Entry, Message, message, msg_append_response}
use tinykv.Raft.Log.{RaftLog, last_index, real_idx}
use tinykv.Raft.Node.{
  Raft, StateType, state_follower, state_candidate, state_leader, send, become_follower,
}

cons_kept : Entry → Option (List Entry × List Entry) → Option (List Entry × List Entry)
cons_kept e none = none
cons_kept e (some (kept, dropped)) = some (e ∷ kept, dropped)

-- The entries up to the first that has the index and the term, and those behind it.
unfoldable pub split_entries : List Entry → ℕ → ℕ → Option (List Entry × List Entry)
unfolding cons_kept
split_entries [] i t = none
split_entries (e ∷ es) i t =
    if e.index == i && e.term == t then some (e ∷ [], es) else cons_kept e (split_entries es i t)

-- Where the leader's previous entry is found in the log; `none` is a rejection.
unfoldable pub split_log : RaftLog → Message → Option (List Entry × List Entry)
split_log l m =
    if m.index == l.last_idx_of_snapshot && m.log_term == l.last_term_of_snapshot
    then some ([], l.entries)
    else split_entries l.entries m.index m.log_term

-- Same index and term.
unfoldable pub same_entry : Entry → Entry → Bool
same_entry a b = a.index == b.index && a.term == b.term

-- The first of the old entries that is not at its place among the new ones.
unfoldable pub first_conflict : List Entry → List Entry → Option Entry
unfolding same_entry
first_conflict [] new = none
first_conflict (d ∷ ds) [] = none
first_conflict (d ∷ ds) (e ∷ es) = if same_entry d e then first_conflict ds es else some d

-- `stabled` goes back before a conflict; the old entries stay if there are more of them than new
-- ones and none conflicts.
unfoldable pub merge_conflict :
    RaftLog → List Entry → List Entry → List Entry → Option Entry → RaftLog
merge_conflict l kept dropped new (some d) = record l {
  stabled = min64 l.stabled (sub64 d.index 1);
  entries = kept ++ new;
}
merge_conflict l kept dropped new none = record l {
  entries = kept ++ (if leb (length dropped) (length new) then new else dropped);
}

unfoldable pub merge_entries : RaftLog → List Entry → List Entry → List Entry → RaftLog
unfolding merge_conflict first_conflict
merge_entries l kept dropped [] = record l { entries = kept ++ dropped }
merge_entries l kept dropped (e ∷ es) =
    merge_conflict l kept dropped (e ∷ es) (first_conflict dropped (e ∷ es))

last_new_index : Message → Option Entry → ℕ
last_new_index m none = m.index
last_new_index m (some e) = e.index

unfoldable pub advance_commit : RaftLog → Message → Result RaftLog
unfolding last_new_index
advance_commit l m =
    let c = max64 (min64 m.commit (last_new_index m (get_last? m.entries))) l.committed in
    if leb m.commit l.committed
    then ok l
    else if ltb (last_index l) c
    then panic explicit
    else ok (record l { committed = c })

-- The reply of a rejection, before its conflict is filled in.
unfoldable pub reply_to : Raft → Message → Message
reply_to r m = record (message msg_append_response) {
  from = r.id;
  to = m.from;
  reject = true;
  term = r.term;
}

-- An int has 64 bits: a uint64 from here on becomes a negative one.
abbrev pub int_limit : ℕ
int_limit = 2 ^ 63

-- `Max(int(lastIdxOfSnapshot), realIdx(m.Index))`, where `none` is -1, the greatest negative int.
max_place : ℕ → Option ℕ → Option ℕ
max_place snap none = if ltb snap int_limit then some snap else none
max_place snap (some i) = if ltb snap int_limit && ltb i snap then some snap else some i

-- `index == int(lastIdxOfSnapshot)`; 2^64 - 1 becomes -1.
is_snapshot_place : ℕ → Option ℕ → Bool
is_snapshot_place snap none = snap == u64_mod - 1
is_snapshot_place snap (some i) = ltb snap int_limit && i == snap

entry_term_at : RaftLog → Option ℕ → Result ℕ
entry_term_at l none = panic out_of_range
entry_term_at l (some i) = do e ← index l.entries i; ok e.term

-- The index before the first entry of the term; 0 where there is none.
unfoldable pub before_term : List Entry → ℕ → ℕ
before_term [] t = 0
before_term (e ∷ es) t = if e.term == t then sub64 e.index 1 else before_term es t

unfoldable pub conflict_term_at : RaftLog → Option ℕ → Result ℕ
unfolding is_snapshot_place entry_term_at
conflict_term_at l at =
    if is_snapshot_place l.last_idx_of_snapshot at
    then ok l.last_term_of_snapshot
    else entry_term_at l at

unfoldable pub reject_reply : RaftLog → Message → Message → Result Message
unfolding max_place
reject_reply l m reply =
    if ltb (last_index l) m.index
    then ok (record reply { index = last_index l; conflict_term = 0 })
    else if length l.entries == 0
    then ok (record reply { conflict_term = l.last_term_of_snapshot })
    else do
      at ← real_idx l m.index
      t ← conflict_term_at l (max_place l.last_idx_of_snapshot at)
      ok (record reply { conflict_term = t; index = before_term l.entries t })

unfoldable pub append_or_reject : Raft → Message → Option (List Entry × List Entry) → Result Raft
append_or_reject r m none = do reply ← reject_reply r.raft_log m (reply_to r m); ok (send r reply)
append_or_reject r m (some (kept, dropped)) = do
  let merged = merge_entries r.raft_log kept dropped m.entries
  l ← advance_commit merged m
  ok (
      send (record r { raft_log = l })
        (record (reply_to r m) { reject = false; index = last_index merged }))

-- A node that is no follower steps down; a follower keeps its vote and its election timer.
pub follow : StateType → Raft → Message → Raft
unfolding become_follower
follow state_follower r m = r
follow state_candidate r m = become_follower r m.term m.from
follow state_leader r m = become_follower r m.term m.from

-- A message that only tells the commit index.
unfoldable pub learn_commit : Raft → ℕ → Result Raft
learn_commit r commit =
    if ltb (last_index r.raft_log) commit
    then panic explicit
    else ok (record r {
      raft_log = record r.raft_log { committed = max64 r.raft_log.committed commit };
    })

unfoldable pub handle_append_entries : Raft → Message → Result Raft
unfolding follow
handle_append_entries r m =
    if m.commit_use
    then learn_commit r m.commit
    else if ltb m.term r.term
    then ok (send r (reply_to r m))
    else do
      let r1 = record r { term = m.term; lead = m.from }
      let r2 = follow r.state r1 m
      append_or_reject r2 m (split_log r2.raft_log m)

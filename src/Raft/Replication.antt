-- ===== src/Raft/Replication.antt =====
-- raft/raft.go: the leader's side of log replication, and proposals.
pub mod Propose
pub mod Send
use tinykv.Prelude.{
  ℕ, zero, suc, ◌+◌, ◌-◌, ◌≤◌, ◌/◌, Bool, true, false, ◌&&◌, ◌||◌, Option, none, some, List, [],
  ◌∷◌, ◌++◌, length, ltb, leb, ◌==◌, if◌then◌else◌, add64, max64, Result, ok, panic, out_of_range,
  nil_dereference, or_panic, index, ◌>>=◌,
}
use tinykv.Raft.Pb.{
  Entry, EntryType, entry_normal, entry_conf_change, Message, message, msg_append, msg_snapshot,
  msg_timeout_now, msg_append_response, Snapshot,
}
use tinykv.Raft.Storage.{Reply, value, error}
use tinykv.Raft.Log.{RaftLog, real_idx, last_index, term, append_entry}
use tinykv.Raft.Node.{Raft, Progress, send, progress, set_progress, for_others}

unfoldable pub need_snapshot : Raft → ℕ → Bool
need_snapshot r next_idx = leb next_idx r.raft_log.last_idx_of_snapshot

snapshot_sent : Raft → ℕ → Reply Snapshot → Result Raft
snapshot_sent r to (error e) = ok r
snapshot_sent r to (value snapshot) = do
  pr ← progress r to
  md ← or_panic nil_dereference snapshot.metadata
  let r' = set_progress r to (record pr { next = add64 md.index 1 })
  ok (
      send r' (record (message msg_snapshot) {
        to = to;
        from = r.id;
        term = r.term;
        snapshot = some snapshot;
      }))

unfoldable pub send_snapshot : Raft → ℕ → Result Raft
unfolding snapshot_sent
send_snapshot r to = snapshot_sent r to r.raft_log.storage.snapshot

-- The entry of a logical index; an index of the snapshot is Go's entries[-1].
entry_at_place : RaftLog → Option ℕ → Result Entry
entry_at_place l none = panic out_of_range
entry_at_place l (some i) = index l.entries i

unfoldable pub entry_at : RaftLog → ℕ → Result Entry
unfolding entry_at_place
entry_at l logical = do at ← real_idx l logical; entry_at_place l at

-- `for logicalIdx := from; rounds > 0; logicalIdx++`
unfoldable pub entries_from : RaftLog → ℕ → ℕ → Result (List Entry)
entries_from l from zero = ok []
entries_from l from (suc rounds) = do
  e ← entry_at l from
  rest ← entries_from l (from + 1) rounds
  ok (e ∷ rest)

-- The message that sendAppend builds for a follower whose next index is `next_idx`.
unfoldable pub append_message : Raft → ℕ → ℕ → Result Message
append_message r to next_idx = do
  let l = r.raft_log
  entries ← entries_from l next_idx (last_index l + 1 - next_idx)
  prev_term ← term l (next_idx - 1)
  ok (record (message msg_append) {
    to = to;
    from = r.id;
    term = r.term;
    log_term = prev_term;
    index = next_idx - 1;
    commit = l.committed;
    entries = entries;
  })

-- No caller reads Go's result of sendAppend, whether a message was sent.
unfoldable pub send_append : Raft → ℕ → Result Raft
send_append r to = do
  pr ← progress r to
  if need_snapshot r pr.next
      then send_snapshot r to
      else if ltb (last_index r.raft_log) pr.next
      then ok r
      else (do m ← append_message r to pr.next; ok (send r m))

unfoldable pub broad_cast_ae : Raft → Result Raft
broad_cast_ae r = for_others r.peers r.id send_append r

is_conf_change : EntryType → Bool
is_conf_change entry_conf_change = true
is_conf_change entry_normal = false

-- One round of the loop of handleMsgPropose.
unfoldable pub propose_entry : Raft → Entry → Raft
unfolding is_conf_change
propose_entry r entry =
    let e : Entry = record entry { term = r.term; index = add64 (last_index r.raft_log) 1 } in
    if is_conf_change entry.entry_type
    then (if r.pending_conf_index == 0
        then record r { pending_conf_index = e.index; raft_log = append_entry r.raft_log e }
        else r)
    else record r { raft_log = append_entry r.raft_log e }

unfoldable pub propose_entries : Raft → List Entry → Raft
propose_entries r [] = r
propose_entries r (e ∷ es) = propose_entries (propose_entry r e) es

unfoldable pub handle_msg_propose : Raft → Message → Result Raft
handle_msg_propose r m = do
  let r1 = propose_entries r m.entries
  let last = last_index r1.raft_log
  _ ← progress r1 r1.id
  let r2 = set_progress r1 r1.id (record { match_index = last; next = add64 last 1 })
  ok (
      if length r2.peers == 1
      then record r2 { raft_log = record r2.raft_log { committed = last } }
      else r2)

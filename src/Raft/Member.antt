-- ===== src/Raft/Member.antt =====
-- raft/raft.go: snapshots received, and changes of the membership.
pub mod Peers
pub mod Recommit
use tinykv.Prelude.{
  ℕ, zero, suc, ◌+◌, ◌-◌, ◌/◌, Bool, true, false, ◌&&◌, Option, none, some, List, [], ◌∷◌, ◌++◌,
  length, get_elem?, take, drop, ltb, leb, ◌==◌, if◌then◌else◌, add64, Result, ok, panic,
  out_of_range, explicit, nil_dereference, or_panic, ◌>>=◌, insert, erase,
}
use tinykv.Raft.Pb.{Message, message, Snapshot, SnapshotMetadata, ConfState, msg_append_response}
use tinykv.Raft.Log.{RaftLog, last_index, term}
use tinykv.Raft.Node.{
  Raft, Progress, StateType, state_follower, state_candidate, state_leader, send, become_follower,
  contains_peer, progress, init_progress,
}
use tinykv.Raft.Replication.{broad_cast_ae}

-- The state of the log is replaced by the snapshot's.
unfoldable pub install_snapshot : Raft → Snapshot → SnapshotMetadata → ConfState → Raft
install_snapshot r s md conf = record r {
  raft_log = record r.raft_log {
    last_idx_of_snapshot = md.index;
    last_term_of_snapshot = md.term;
    committed = md.index;
    applied = md.index;
    stabled = md.index;
    pending_snapshot = some s;
    entries = [];
  };
  peers = conf.nodes;
  prs = init_progress md.index (add64 md.index 1) conf.nodes r.prs;
}

unfoldable pub handle_snapshot : Raft → Message → Result Raft
handle_snapshot r m = do
  s ← or_panic explicit m.snapshot
  md ← or_panic nil_dereference s.metadata
  if leb md.index (last_index r.raft_log) then ok r else do
    conf ← or_panic nil_dereference md.conf_state
    let r1 = become_follower (install_snapshot r s md conf) m.term m.from
    ok (
        send r1 (record (message msg_append_response) {
          from = r1.id;
          to = m.from;
          term = r1.term;
          index = last_index r1.raft_log;
        }))

unfoldable pub add_node : Raft → ℕ → Raft
add_node r id = if contains_peer r.peers id then record r { pending_conf_index = 0 } else record r {
  peers = r.peers ++ id ∷ [];
  prs = insert id (record { match_index = 0; next = last_index r.raft_log }) r.prs;
  pending_conf_index = 0;
}

-- `append(s[:i], s[i+1:]...)` for the slice s of the first n cells: the cells behind i move down in
-- place, and the cell n-1 keeps its value.
unfoldable pub shift_down : List ℕ → ℕ → ℕ → List ℕ
shift_down cells i n = take i cells ++ drop (suc i) (take n cells) ++ drop (n - 1) cells

-- The loop of removePeer: it ranges over the cells that the slice had when the loop began, while
-- `r.peers` is the first n of them.
unfoldable pub remove_loop : ℕ → ℕ → ℕ → List ℕ → ℕ → Result (List ℕ)
unfolding shift_down
remove_loop zero i id cells n = ok (take n cells)
remove_loop (suc rounds) i id cells n = do
  peer ← or_panic out_of_range (get_elem? cells i)
  let hit = remove_loop rounds (suc i) id (shift_down cells i n) (n - 1)
  let miss = remove_loop rounds (suc i) id cells n
  if peer == id then (if ltb i n then hit else panic out_of_range) else miss

unfoldable pub remove_peer : List ℕ → ℕ → Result (List ℕ)
unfolding remove_loop
remove_peer peers id = remove_loop (length peers) 0 id peers (length peers)

-- How many of the peers match at least up to `index`.
unfoldable pub count_matched : Raft → ℕ → List ℕ → Result ℕ
count_matched r index [] = ok 0
count_matched r index (p ∷ ps) = do
  pr ← progress r p
  n ← count_matched r index ps
  ok (if leb index pr.match_index then suc n else n)

-- One round of the loop over the indices behind `committed`; the flag is Go's newCommit.
unfoldable pub recommit_at : Raft → ℕ → Bool → Result (Raft × Bool)
recommit_at r idx new_commit = do
  matched ← count_matched r idx r.peers
  t ← term r.raft_log idx
  ok (
      if t == r.term && ltb (length r.peers / 2) matched
      then (record r { raft_log = record r.raft_log { committed = idx } }, true)
      else (r, new_commit))

unfoldable pub recommit : ℕ → ℕ → Raft → Bool → Result (Raft × Bool)
recommit zero idx r new_commit = ok (r, new_commit)
recommit (suc rounds) idx r new_commit = do
  (r', new_commit') ← recommit_at r idx new_commit
  recommit rounds (idx + 1) r' new_commit'

-- A leader commits what the smaller group already holds, and sends it out.
unfoldable pub commit_after_removal : StateType → Raft → Result Raft
commit_after_removal state_follower r = ok r
commit_after_removal state_candidate r = ok r
commit_after_removal state_leader r = do
  let l = r.raft_log
  (r', new_commit) ← recommit (last_index l - l.committed) (l.committed + 1) r false
  if new_commit then broad_cast_ae r' else ok r'

unfoldable pub remove_node : Raft → ℕ → Result Raft
remove_node r id =
    if contains_peer r.peers id
    then (do
      peers ← remove_peer r.peers id
      r' ← commit_after_removal r.state (record r { prs = erase id r.prs; peers = peers })
      ok (record r' { pending_conf_index = 0 }))
    else ok r

-- ===== src/Raft/Replication/Send.antt =====
-- raft/raft.go: what sendAppend puts into a message.
use tinykv.Prelude.{
  ℕ, zero, suc, ◌+◌, ◌-◌, ◌≤◌, ◌<◌, ◌≡◌, refl, sym, ap, ◌∙◌, some, arith, length, take, drop,
  get_elem?-in_range, take-all, length-drop, gt→leb, le→ltb, ok, lookup,
}
use tinykv.Raft.Pb.{message, msg_append}
use tinykv.Raft.Log.{RaftLog, last_index, term}
use tinykv.Raft.Log.Shape.{IsValid, last_index-contig, real_idx-inside, term_total, drop-step}
use tinykv.Raft.Node.{Raft, Progress, send, progress}
use tinykv.Raft.Replication.{send_append, append_message, need_snapshot, entries_from, entry_at}

-- The loop over logical indices copies the slice of the entries.
entries_from_lem :
    (l : RaftLog) (n i : ℕ)
    → l.last_idx_of_snapshot < i
    → i + n ≤ l.last_idx_of_snapshot + length l.entries + 1
    → entries_from l i n ≡ ok (take n (drop (i - l.last_idx_of_snapshot - 1) l.entries))
unfolding entries_from entry_at
entries_from_lem l zero i lo hi = refl
entries_from_lem l (suc n) i lo hi =
    let j = i - l.last_idx_of_snapshot - 1 in
    let (e, found) = get_elem?-in_range l.entries j (omega arith) in
    let k : i + 1 - l.last_idx_of_snapshot - 1 ≡ suc j = omega arith in
    let ih = entries_from_lem l n (i + 1) (omega arith) (omega arith) in
    rw (real_idx-inside l i lo (omega arith))
      (rw (found, ih, k) (ap ok (sym (drop-step l.entries j n found))))

-- To a follower whose next entry is in the leader's valid log, sendAppend sends one message: all
-- entries from the next one on, behind the index and the term of the entry before them, with the
-- leader's term and commit index. It does not panic.
pub send_append_lem :
    (r : Raft) (to : ℕ) (pr : Progress)
    → IsValid r.raft_log
    → lookup to r.prs ≡ some pr
    → r.raft_log.last_idx_of_snapshot < pr.next
    → pr.next ≤ last_index r.raft_log
    → (t : ℕ) × (term r.raft_log (pr.next - 1) ≡ ok t)
      × (send_append r to
          ≡ ok (
              send r (record (message msg_append) {
                to = to;
                from = r.id;
                term = r.term;
                log_term = t;
                index = pr.next - 1;
                commit = r.raft_log.committed;
                entries = drop (pr.next - r.raft_log.last_idx_of_snapshot - 1) r.raft_log.entries;
              })))
unfolding send_append need_snapshot append_message progress
send_append_lem r to pr v found lo hi =
    let l = r.raft_log in
    let k = last_index-contig l v.contig in
    let (t, et) = term_total l (pr.next - 1) (omega arith) in
    let n = last_index l + 1 - pr.next in
    let rest = drop (pr.next - l.last_idx_of_snapshot - 1) l.entries in
    let es : entries_from l pr.next n ≡ ok rest =
      entries_from_lem l n pr.next lo (omega arith)
      ∙ ap ok (
          take-all n rest
            (omega (arith, length-drop (pr.next - l.last_idx_of_snapshot - 1) l.entries))) in
    (
      t,
      et,
      ground (
        arith,
        found,
        gt→leb pr.next l.last_idx_of_snapshot lo,
        le→ltb pr.next (last_index l) hi,
        es,
        et,
      ),
    )

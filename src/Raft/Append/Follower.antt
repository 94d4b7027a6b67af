-- ===== src/Raft/Append/Follower.antt =====
-- raft/raft.go: what handleAppendEntries does to a follower with a valid log.
use tinykv.Prelude.{
  ℕ, suc, ◌+◌, ◌-◌, ◌≤◌, ◌<◌, ◌≡◌, refl, sym, ap, ◌∙◌, subst, true, false, some, List, [], ◌∷◌,
  ◌++◌, arith, length, take, drop, get_last?, le→ltb, if_false, length-take, take-append-drop,
  min64, max64, u64_mod, ok, get_elem?, get_elem?-out_of_range, get_elem?-append_left,
  get_elem?-append_right, dec_lt, max64_le, max64_bounds, min64_le,
}
use tinykv.Raft.Pb.{Entry, Message}
use tinykv.Raft.Log.{RaftLog, last_index}
use tinykv.Raft.Log.Shape.{IsContig, IsValid, last_index-contig}
use tinykv.Raft.Log.Survives.{Survives, Survives-entries, Survives-committed}
use tinykv.Raft.Node.{Raft, StateType, state_follower, send, become_follower}
use tinykv.Raft.Append.{
  handle_append_entries, append_or_reject, advance_commit, last_new_index, merge_entries, split_log,
  reply_to, follow,
}
use tinykv.Raft.Append.Split.{holds, cut, split_log_lem}
use tinykv.Raft.Append.Merge.{Extends, Merged, NoCommittedConflict, merge_entries-Merged}

abbrev pub at_prev : Raft → Message → ℕ
at_prev r m = m.index - r.raft_log.last_idx_of_snapshot

-- What a node holds after it accepted an append: the log up to the previous index, then the
-- leader's entries; the commit index is the leader's, as far as these entries reach.
pub record Accepted (r r' : Raft) (m : Message) : Type 0 where
  pub valid : IsValid r'.raft_log
  pub tail : List Entry
  pub entries : r'.raft_log.entries ≡ take (at_prev r m) r.raft_log.entries ++ tail
  pub extends : Extends tail m.entries
  pub survives : Survives r.raft_log r'.raft_log
  pub snapshot : r'.raft_log.last_idx_of_snapshot ≡ r.raft_log.last_idx_of_snapshot
  pub committed :
      r'.raft_log.committed
      ≡ max64 (min64 m.commit (m.index + length m.entries)) r.raft_log.committed
  pub term : r'.term ≡ m.term
  pub lead : r'.lead ≡ m.from
  pub reply :
      r'.msgs
      ≡ r.msgs ++ record (reply_to r' m) { reject = false; index = last_index r'.raft_log } ∷ []

get_last?-contig :
    (b : ℕ) (e : Entry) (es : List Entry)
    → IsContig b (e ∷ es)
    → (x : Entry) × (get_last? (e ∷ es) ≡ some x) × (x.index ≡ b + length (e ∷ es))
get_last?-contig b e [] c = (e, refl, omega arith)
get_last?-contig b e (f ∷ es) c =
    let (x, p, q) = get_last?-contig (suc b) f es c.1 in (x, p, omega arith)

last_new-contig :
    (m : Message) (es : List Entry)
    → IsContig m.index es
    → last_new_index m (get_last? es) ≡ m.index + length es
unfolding last_new_index
last_new-contig m [] c = omega arith
last_new-contig m (e ∷ es) c = let (x, p, q) = get_last?-contig m.index e es c in rw p q

pub holds-range :
    (l : RaftLog) (i t : ℕ)
    → holds l i t ≡ true
    → (l.last_idx_of_snapshot ≤ i) × (i ≤ l.last_idx_of_snapshot + length l.entries)
holds-range l i t h =
    ground (arith, get_elem?-out_of_range l.entries (i - l.last_idx_of_snapshot - 1))

-- The commit index that an append teaches.
advance_commit_lem :
    (l : RaftLog) (m : Message) (n : ℕ)
    → last_new_index m (get_last? m.entries) ≡ n
    → n ≤ last_index l
    → l.committed ≤ last_index l
    → advance_commit l m ≡ ok (record l { committed = max64 (min64 m.commit n) l.committed })
unfolding advance_commit max64 min64
advance_commit_lem l m n e h k = ground arith

-- Stepping down changes neither the log nor the messages.
pub follow-raft_log :
    (s : StateType) (r : Raft) (m : Message) → (follow s r m).raft_log ≡ r.raft_log
unfolding follow become_follower
follow-raft_log state_follower r m = refl
follow-raft_log _ r m = refl

pub follow-msgs : (s : StateType) (r : Raft) (m : Message) → (follow s r m).msgs ≡ r.msgs
unfolding follow become_follower
follow-msgs state_follower r m = refl
follow-msgs _ r m = refl

pub follow-term :
    (s : StateType) (r : Raft) (m : Message) → r.term ≡ m.term → (follow s r m).term ≡ m.term
unfolding follow become_follower
follow-term state_follower r m e = e
follow-term _ r m e = refl

follow-lead :
    (s : StateType) (r : Raft) (m : Message) → r.lead ≡ m.from → (follow s r m).lead ≡ m.from
unfolding follow become_follower
follow-lead state_follower r m e = e
follow-lead _ r m e = refl

-- A valid log stays valid when its commit index moves within the committed and the last index.
pub IsValid-committed :
    (l : RaftLog) (c : ℕ)
    → IsValid l
    → l.committed ≤ c
    → c ≤ l.last_idx_of_snapshot + length l.entries
    → IsValid (record l { committed = c })
IsValid-committed l c v lo hi = record {
  contig = v.contig;
  snapshot_le = v.snapshot_le;
  applied_le = omega arith;
  committed_le = hi;
  stabled_ge = v.stabled_ge;
  stabled_le = v.stabled_le;
  fits = v.fits;
}

-- The accepting path, from what its calls return.
append_or_reject-accept :
    (r : Raft) (m : Message) (kept dropped : List Entry) (l' : RaftLog)
    → split_log r.raft_log m ≡ some (kept, dropped)
    → advance_commit (merge_entries r.raft_log kept dropped m.entries) m ≡ ok l'
    → append_or_reject r m (split_log r.raft_log m)
      ≡ ok (
          send
            (record r { raft_log = l' })
            (record (reply_to r m) {
              reject = false;
              index = last_index (merge_entries r.raft_log kept dropped m.entries);
            }))
unfolding append_or_reject
append_or_reject-accept r m kept dropped l' e a = ground arith

-- The node behind the guards of handleAppendEntries: `r2` has r's log and messages.
module _ (r r2 : Raft) (m : Message) (log : r2.raft_log ≡ r.raft_log) (same : r2.msgs ≡ r.msgs)
    (t : r2.term ≡ m.term) (ld : r2.lead ≡ m.from) (v : IsValid r.raft_log)
    (h : holds r.raft_log m.index m.log_term ≡ true) (c : IsContig m.index m.entries)
    (agree : NoCommittedConflict r.raft_log (drop (at_prev r m) r.raft_log.entries) m.entries)
    (f : m.index + length m.entries + 1 < u64_mod) where
  abbrev kept : List Entry
  kept = take (at_prev r m) r.raft_log.entries

  abbrev dropped : List Entry
  dropped = drop (at_prev r m) r.raft_log.entries

  abbrev merged : RaftLog
  merged = merge_entries r.raft_log kept dropped m.entries

  place : r.raft_log.last_idx_of_snapshot + length kept ≡ m.index
  place =
      let k = length-take (at_prev r m) r.raft_log.entries in
      let b = holds-range r.raft_log m.index m.log_term h in omega arith

  merged-Merged : Merged r.raft_log merged kept dropped m.entries
  merged-Merged =
      merge_entries-Merged r.raft_log kept dropped m.entries v
        (sym (take-append-drop (at_prev r m) r.raft_log.entries))
        (subst (λ b. IsContig b m.entries) (sym place) c) agree (omega (arith, place))

  -- A committed entry stands in the common part, or the leader sent it again.
  merged-Survives : Survives r.raft_log merged
  merged-Survives =
      Survives-entries r.raft_log merged v merged-Merged.snapshot λ j e found committed.
        let whole : kept ++ dropped ≡ r.raft_log.entries =
          take-append-drop (at_prev r m) r.raft_log.entries in
        let was : get_elem? (kept ++ dropped) j ≡ some e =
          ap (λ es. get_elem? es j) whole ∙ found in
        let now = ap (λ es. get_elem? es j) merged-Merged.entries in
        elim (dec_lt j (length kept)) [
          | yes front ↦ (
            e,
            now
                ∙ get_elem?-append_left kept merged-Merged.tail j front
                ∙ sym (get_elem?-append_left kept dropped j front)
                ∙ was,
            refl,
          )
          | no behind ↦
              let (x, there, t) =
                merged-Merged.keeps (j - length kept) e
                  (sym (get_elem?-append_right kept dropped j (omega arith)) ∙ was) (omega arith) in
              (x, now ∙ get_elem?-append_right kept merged-Merged.tail j (omega arith) ∙ there, t)
        ]

  abbrev new_commit : ℕ
  new_commit = max64 (min64 m.commit (m.index + length m.entries)) r.raft_log.committed

  merged_last : m.index + length m.entries ≤ last_index merged
  merged_last =
      omega
        (arith, place, merged-Merged.last_ge, last_index-contig merged merged-Merged.valid.contig)

  commit_bounds : (r.raft_log.committed ≤ new_commit) × (new_commit ≤ last_index merged)
  commit_bounds =
      let k : r.raft_log.committed ≤ last_index merged = omega (
        arith,
        merged-Merged.committed,
        merged-Merged.valid.committed_le,
        last_index-contig merged merged-Merged.valid.contig,
      ) in
      (
        (max64_bounds (min64 m.commit (m.index + length m.entries)) r.raft_log.committed).1,
        max64_le (min64 m.commit (m.index + length m.entries)) r.raft_log.committed
            (last_index merged)
            (omega (arith, min64_le m.commit (m.index + length m.entries), merged_last)) k,
      )

  advanced : advance_commit merged m ≡ ok (record merged { committed = new_commit })
  advanced =
      let k : merged.committed ≤ last_index merged = omega (
        arith,
        merged-Merged.valid.committed_le,
        last_index-contig merged merged-Merged.valid.contig,
      ) in
      advance_commit_lem merged m (m.index + length m.entries) (last_new-contig m m.entries c)
        merged_last k
      ∙ ap
          (λ c.
            ok
              (record merged { committed = max64 (min64 m.commit (m.index + length m.entries)) c }))
          merged-Merged.committed

  abbrev accepted : Raft
  accepted =
      send (record r2 { raft_log = record merged { committed = new_commit } })
        (record (reply_to r2 m) { reject = false; index = last_index merged })

  accepted_run : append_or_reject r2 m (split_log r2.raft_log m) ≡ ok accepted
  accepted_run =
      subst
        (λ l.
          append_or_reject r2 m (split_log r2.raft_log m)
          ≡ ok (
              send (record r2 { raft_log = record merged { committed = new_commit } })
                (record (reply_to r2 m) {
                  reject = false;
                  index = last_index (merge_entries l kept dropped m.entries);
                })))
        log
        (append_or_reject-accept r2 m kept dropped _
          (subst (λ l. split_log l m ≡ some (kept, dropped)) (sym log)
            (split_log_lem r.raft_log m v.contig ∙ ap (cut r.raft_log.entries (at_prev r m)) h))
          (subst
            (λ l.
              advance_commit (merge_entries l kept dropped m.entries) m
              ≡ ok (record merged { committed = new_commit }))
            (sym log) advanced))

  accepted-Accepted : Accepted r accepted m
  unfolding send reply_to last_index
  accepted-Accepted = record {
    valid =
        IsValid-committed merged new_commit merged-Merged.valid
          (omega (arith, commit_bounds, merged-Merged.committed))
          (omega (arith, commit_bounds, last_index-contig merged merged-Merged.valid.contig));
    tail = merged-Merged.tail;
    entries = merged-Merged.entries;
    extends = merged-Merged.extends;
    survives = λ i h k.
        Survives-committed merged new_commit i h (omega (arith, merged-Merged.committed))
        ∙ merged-Survives i h k;
    snapshot = merged-Merged.snapshot;
    committed = refl;
    term = t;
    lead = ld;
    reply =
        ap (λ ms. ms ++ record (reply_to r2 m) { reject = false; index = last_index merged } ∷ [])
          same;
  }

-- An append of no older term, whose previous entry the node's valid log holds, and whose entries
-- are contiguous, conflict with nothing committed and have room below 2^64, is accepted without a
-- panic: the log stays valid, keeps the part up to the previous entry and goes on with the
-- leader's entries (index and term), and no committed index changes its term; the commit index
-- follows the leader's; the reply acknowledges the last index of the log.
pub handle_append_entries-Accepted :
    (r : Raft) (m : Message)
    → IsValid r.raft_log
    → m.commit_use ≡ false
    → r.term ≤ m.term
    → holds r.raft_log m.index m.log_term ≡ true
    → IsContig m.index m.entries
    → NoCommittedConflict r.raft_log (drop (at_prev r m) r.raft_log.entries) m.entries
    → m.index + length m.entries + 1 < u64_mod
    → (r' : Raft) × (handle_append_entries r m ≡ ok r') × Accepted r r' m
unfolding handle_append_entries
handle_append_entries-Accepted r m v cu t h c agree f =
    let r1 : Raft = record r { term = m.term; lead = m.from } in
    let r2 : Raft = follow r.state r1 m in
    let log : r2.raft_log ≡ r.raft_log = follow-raft_log r.state r1 m in
    let same : r2.msgs ≡ r.msgs = follow-msgs r.state r1 m in
    (
      accepted r r2 m log same (follow-term r.state r1 m refl) (follow-lead r.state r1 m refl) v h c
          agree f,
      if_false _ _ cu
          ∙ if_false _ _ (le→ltb _ _ t)
          ∙ accepted_run r r2 m log same (follow-term r.state r1 m refl)
              (follow-lead r.state r1 m refl) v h c agree f,
      accepted-Accepted r r2 m log same (follow-term r.state r1 m refl)
          (follow-lead r.state r1 m refl) v h c agree f,
    )

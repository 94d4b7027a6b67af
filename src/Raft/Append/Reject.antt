-- ===== src/Raft/Append/Reject.antt =====
-- raft/raft.go: handleAppendEntries where it does not take the entries.
use tinykv.Prelude.{
  ℕ, suc, ◌+◌, ◌-◌, ◌≤◌, ◌<◌, ◌≡◌, refl, sym, ap, ◌∙◌, subst, true, false, Option, none, some, List,
  [], ◌∷◌, ◌++◌, arith, length, ltb, ◌==◌, Bool-cases, inl, inr, ◌⊎◌, ltb→ge, ok, ◌>>=◌, >>=-eq-ok,
  ok-injective, ◌&&◌, lt→ltb, u64_mod, if_true, if_false, le→ltb, get_elem?-in_range, sub64-eq,
  dec_le,
}
use tinykv.Raft.Pb.{Entry, Message}
use tinykv.Raft.Log.{RaftLog, last_index, real_idx}
use tinykv.Raft.Log.Shape.{IsContig, IsValid, last_index-contig, real_idx-inside, real_idx-covered}
use tinykv.Raft.Node.{Raft, send}
use tinykv.Raft.Append.{
  handle_append_entries, append_or_reject, split_log, reject_reply, conflict_term_at, max_place,
  int_limit, before_term, reply_to, follow,
}
use tinykv.Raft.Append.Split.{holds, cut, split_log_lem}
use tinykv.Raft.Append.Follower.{follow-raft_log, follow-msgs, follow-term}

-- The index in a rejection is at most the last one.
before_term-le :
    (b : ℕ) (es : List Entry) (t : ℕ)
    → IsContig b es
    → b + length es < u64_mod
    → before_term es t ≤ b + length es
unfolding before_term
before_term-le b [] t c f = omega arith
before_term-le b (e ∷ es) t c f = elim (Bool-cases (e.term == t)) [
  | inl hit ↦ rw hit (omega (arith, sub64-eq e.index 1))
  | inr miss ↦ rw miss (omega (arith, before_term-le (suc b) es t c.1))
]

-- The place whose term a rejection tells is in range, or the snapshot's.
conflict_term_total :
    (l : RaftLog) (i : ℕ)
    → l.last_idx_of_snapshot < int_limit
    → i < length l.entries ⊎ (i ≡ l.last_idx_of_snapshot)
    → (t : ℕ) × (conflict_term_at l (some i) ≡ ok t)
unfolding conflict_term_at
conflict_term_total l i small (inr e) = (l.last_term_of_snapshot, ground arith)
conflict_term_total l i small (inl h) =
    elim (Bool-cases (ltb l.last_idx_of_snapshot int_limit && i == l.last_idx_of_snapshot)) [
      | inl hit ↦ (l.last_term_of_snapshot, if_true _ _ hit)
      | inr miss ↦
          let (e, found) = get_elem?-in_range l.entries i h in
          (e.term, if_false _ _ miss ∙ rw found)
    ]

conflict_place :
    (l : RaftLog) (i : ℕ)
    → l.last_idx_of_snapshot < int_limit
    → i ≤ l.last_idx_of_snapshot + length l.entries
    → (p : Option ℕ) × (real_idx l i ≡ ok p)
      × (t : ℕ) × (conflict_term_at l (max_place l.last_idx_of_snapshot p) ≡ ok t)
unfolding max_place
conflict_place l i small h = elim (dec_le i l.last_idx_of_snapshot) [
  | yes k ↦
      let (t, e) = conflict_term_total l l.last_idx_of_snapshot small (inr refl) in
      (
        none,
        real_idx-covered l i k,
        t,
        ap (conflict_term_at l) (if_true _ _ (lt→ltb _ _ small)) ∙ e,
      )
  | no k ↦
      let j : ℕ = i - l.last_idx_of_snapshot - 1 in
      let run = real_idx-inside l i (omega arith) h in
      elim (Bool-cases (ltb l.last_idx_of_snapshot int_limit && ltb j l.last_idx_of_snapshot)) [
        | inl before ↦
            let (t, e) = conflict_term_total l l.last_idx_of_snapshot small (inr refl) in
            (some j, run, t, ap (conflict_term_at l) (if_true _ _ before) ∙ e)
        | inr behind ↦
            let (t, e) = conflict_term_total l j small (inl (omega arith)) in
            (some j, run, t, ap (conflict_term_at l) (if_false _ _ behind) ∙ e)
      ]
]

reply_run :
    (l : RaftLog) (i : ℕ) (reply : Message) (p : Option ℕ) (t : ℕ)
    → real_idx l i ≡ ok p
    → conflict_term_at l (max_place l.last_idx_of_snapshot p) ≡ ok t
    → (real_idx l i >>= λ at. conflict_term_at l (max_place l.last_idx_of_snapshot at) >>= λ t.
        ok (record reply { conflict_term = t; index = before_term l.entries t }))
      ≡ ok (record reply { conflict_term = t; index = before_term l.entries t })
reply_run l i reply p t e f = rw e (rw f)

-- A rejection can always be answered, with an index up to the last one.
reject_reply_total :
    (l : RaftLog) (m reply : Message)
    → IsValid l
    → l.last_idx_of_snapshot < int_limit
    → reply.index ≡ 0
    → (reply' : Message) × (reject_reply l m reply ≡ ok reply')
      × (reply'.index ≤ last_index l)
      × (reply'.reject ≡ reply.reject)
      × (reply'.term ≡ reply.term)
      × (reply'.to ≡ reply.to)
unfolding reject_reply
reject_reply_total l m reply v small z = elim (Bool-cases (ltb (last_index l) m.index)) [
  | inl far ↦ (
    record reply { index = last_index l; conflict_term = 0 },
    if_true _ _ far,
    omega arith,
    refl,
    refl,
    refl,
  )
  | inr near ↦ elim (Bool-cases (length l.entries == 0)) [
    | inl empty ↦ (
      record reply { conflict_term = l.last_term_of_snapshot },
      if_false _ _ near ∙ if_true _ _ empty,
      omega arith,
      refl,
      refl,
      refl,
    )
    | inr some_entries ↦
        let k : m.index ≤ l.last_idx_of_snapshot + length l.entries =
          omega (arith, ltb→ge _ _ near, last_index-contig l v.contig) in
        let (p, ep, t, et) = conflict_place l m.index small k in
        (
          record reply { conflict_term = t; index = before_term l.entries t },
          if_false _ _ near ∙ if_false _ _ some_entries ∙ reply_run l m.index reply p t ep et,
          omega (
            arith,
            before_term-le l.last_idx_of_snapshot l.entries t v.contig,
            last_index-contig l v.contig,
          ),
          refl,
          refl,
          refl,
        )
  ]
]

-- What a node answers when it does not hold the leader's previous entry.
pub record Rejected (r r' : Raft) (m : Message) : Type 0 where
  pub raft_log : r'.raft_log ≡ r.raft_log
  pub term : r'.term ≡ m.term
  pub reply : Message
  pub sent : r'.msgs ≡ r.msgs ++ reply ∷ []
  pub reject : reply.reject ≡ true
  pub reply_term : reply.term ≡ m.term
  pub to : reply.to ≡ m.from
  pub index_le : reply.index ≤ last_index r.raft_log

reject_run :
    (r : Raft) (m reply : Message)
    → split_log r.raft_log m ≡ none
    → reject_reply r.raft_log m (reply_to r m) ≡ ok reply
    → append_or_reject r m (split_log r.raft_log m) ≡ ok (send r reply)
unfolding append_or_reject
reject_run r m reply e f = rw e (rw f)

-- Whatever the index of the snapshot, a rejection leaves the log alone.
pub reject-raft_log :
    (r r' : Raft) (m : Message)
    → split_log r.raft_log m ≡ none
    → append_or_reject r m (split_log r.raft_log m) ≡ ok r'
    → r'.raft_log ≡ r.raft_log
unfolding append_or_reject send
reject-raft_log r r' m e h =
    let (reply, run, sent) =
      >>=-eq-ok (reject_reply r.raft_log m (reply_to r m)) _
        (sym (ap (append_or_reject r m) e) ∙ h) in
    ap (λ (s : Raft). s.raft_log) (sym (ok-injective sent))

pub missed :
    (r r2 : Raft) (m : Message)
    → r2.raft_log ≡ r.raft_log
    → IsValid r.raft_log
    → holds r.raft_log m.index m.log_term ≡ false
    → split_log r2.raft_log m ≡ none
missed r r2 m log v h =
    subst (λ l. split_log l m ≡ none) (sym log)
      (split_log_lem r.raft_log m v.contig
        ∙ ap (cut r.raft_log.entries (m.index - r.raft_log.last_idx_of_snapshot)) h)

module _ (r r2 : Raft) (m : Message) (log : r2.raft_log ≡ r.raft_log) (same : r2.msgs ≡ r.msgs)
    (t : r2.term ≡ m.term) (v : IsValid r.raft_log)
    (small : r.raft_log.last_idx_of_snapshot < int_limit)
    (h : holds r.raft_log m.index m.log_term ≡ false) where
  rejected :
      (r' : Raft) × (append_or_reject r2 m (split_log r2.raft_log m) ≡ ok r') × Rejected r r' m
  unfolding send reply_to
  rejected =
      let v2 : IsValid r2.raft_log = subst IsValid (sym log) v in
      let (reply, run, le, rej, tm, to) =
        reject_reply_total r2.raft_log m (reply_to r2 m) v2
          (subst (λ (l : RaftLog). l.last_idx_of_snapshot < int_limit) (sym log) small) refl in
      let miss = missed r r2 m log v h in
      (
        send r2 reply,
        reject_run r2 m reply miss run,
        record {
          raft_log = log;
          term = t;
          reply = reply;
          sent = ap (λ ms. ms ++ reply ∷ []) same;
          reject = rej;
          reply_term = tm ∙ t;
          to = to;
          index_le = subst (λ l. reply.index ≤ last_index l) log le;
        },
      )

-- An append of no older term, whose previous entry the node's valid log does not hold, is answered
-- by a rejection without a panic; the log stays as it is, and the index in the answer is at most
-- the last one. The index of the snapshot is below 2^63, so that it fits an int.
pub handle_append_entries-Rejected :
    (r : Raft) (m : Message)
    → IsValid r.raft_log
    → m.commit_use ≡ false
    → r.term ≤ m.term
    → r.raft_log.last_idx_of_snapshot < int_limit
    → holds r.raft_log m.index m.log_term ≡ false
    → (r' : Raft) × (handle_append_entries r m ≡ ok r') × Rejected r r' m
unfolding handle_append_entries
handle_append_entries-Rejected r m v cu t small h =
    let r1 : Raft = record r { term = m.term; lead = m.from } in
    let (r', run, done) =
      rejected r (follow r.state r1 m) m (follow-raft_log r.state r1 m) (follow-msgs r.state r1 m)
        (follow-term r.state r1 m refl) v small h in
    (r', if_false _ _ cu ∙ if_false _ _ (le→ltb _ _ t) ∙ run, done)

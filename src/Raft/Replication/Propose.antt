-- ===== src/Raft/Replication/Propose.antt =====
-- raft/raft.go: what a proposal does to the leader's log.
use mathlib.Core.List.{append-nil, append_assoc}
use tinykv.Prelude.{
  ℕ, suc, ◌+◌, ◌≤◌, ◌<◌, ◌≡◌, refl, sym, ap, ◌∙◌, subst, List, [], ◌∷◌, ◌++◌, arith, length,
  length-append, All, All-append, ◌==◌, if◌then◌else◌, Bool-cases, inl, inr, ◌⊎◌, u64_mod, add64,
  add64-eq, ok, >>=-eq-ok, ok-injective, if_true, if_false,
}
use tinykv.Raft.Pb.{Entry, Message}
use tinykv.Raft.Log.{RaftLog, last_index, append_entry}
use tinykv.Raft.Log.Shape.{IsContig, IsValid, last_index-contig, IsContig-append}
use tinykv.Raft.Node.{Raft, progress, set_progress}
use tinykv.Raft.Replication.{propose_entry, propose_entries, handle_msg_propose, is_conf_change}

-- The log with more entries at its end.
abbrev pub extended : RaftLog → List Entry → RaftLog
extended l extra = record l { entries = l.entries ++ extra }

-- At most n entries were added, all of the node's term and with the next indices.
pub record Appended (r r' : Raft) (n : ℕ) : Type 0 where
  pub extra : List Entry
  pub raft_log : r'.raft_log ≡ extended r.raft_log extra
  pub contig : IsContig (r.raft_log.last_idx_of_snapshot + length r.raft_log.entries) extra
  pub terms : All (λ e. e.term ≡ r.term) extra
  pub few : length extra ≤ n
  pub id : r'.id ≡ r.id
  pub term : r'.term ≡ r.term
  pub vote : r'.vote ≡ r.vote
  pub state : r'.state ≡ r.state
  pub lead : r'.lead ≡ r.lead
  pub peers : r'.peers ≡ r.peers

Appended-none :
    (r r' : Raft) (n : ℕ)
    → r'.raft_log ≡ r.raft_log
    → r'.id ≡ r.id
    → r'.term ≡ r.term
    → r'.vote ≡ r.vote
    → r'.state ≡ r.state
    → r'.lead ≡ r.lead
    → r'.peers ≡ r.peers
    → Appended r r' n
Appended-none r r' n log i t v s d p = record {
  extra = [];
  raft_log =
      log ∙ ap (λ es. record r.raft_log { entries = es }) (sym (append-nil r.raft_log.entries));
  contig = tt;
  terms = tt;
  few = omega arith;
  id = i;
  term = t;
  vote = v;
  state = s;
  lead = d;
  peers = p;
}

abbrev stamped : Raft → Entry → Entry
stamped r e = record e { term = r.term; index = add64 (last_index r.raft_log) 1 }

-- What a round does: nothing, or one entry more.
propose_entry-cases :
    (r : Raft) (e : Entry)
    → (propose_entry r e ≡ r)
      ⊎ ((p : ℕ) × (propose_entry r e ≡ record r {
        pending_conf_index = p;
        raft_log = append_entry r.raft_log (stamped r e);
      }))
unfolding propose_entry
propose_entry-cases r e = elim (Bool-cases (is_conf_change e.entry_type)) [
  | inl c ↦ elim (Bool-cases (r.pending_conf_index == 0)) [
    | inl z ↦ inr (add64 (last_index r.raft_log) 1, if_true _ _ c ∙ if_true _ _ z)
    | inr z ↦ inl (if_true _ _ c ∙ if_false _ _ z)
  ]
  | inr c ↦ inr (r.pending_conf_index, if_false _ _ c)
]

stamped-index :
    (r : Raft) (e : Entry)
    → IsContig r.raft_log.last_idx_of_snapshot r.raft_log.entries
    → r.raft_log.last_idx_of_snapshot + length r.raft_log.entries + 1 < u64_mod
    → add64 (last_index r.raft_log) 1
      ≡ suc (r.raft_log.last_idx_of_snapshot + length r.raft_log.entries)
stamped-index r e c f =
    let k = last_index-contig r.raft_log c in
    let s = add64-eq (last_index r.raft_log) 1 (omega arith) in omega arith

propose_entry-Appended :
    (r : Raft) (e : Entry)
    → IsContig r.raft_log.last_idx_of_snapshot r.raft_log.entries
    → r.raft_log.last_idx_of_snapshot + length r.raft_log.entries + 1 < u64_mod
    → Appended r (propose_entry r e) 1
unfolding append_entry
propose_entry-Appended r e c f = elim (propose_entry-cases r e) [
  | inl same ↦
      subst (λ s. Appended r s 1) (sym same)
        (Appended-none r r 1 refl refl refl refl refl refl refl)
  | inr (p, more) ↦
      subst (λ s. Appended r s 1) (sym more)
        (record {
          extra = stamped r e ∷ [];
          raft_log = refl;
          contig = (stamped-index r e c f, tt);
          terms = (refl, tt);
          few = omega arith;
          id = refl;
          term = refl;
          vote = refl;
          state = refl;
          lead = refl;
          peers = refl;
        })
]

Appended-trans : (a b c : Raft) (n k : ℕ) → Appended a b n → Appended b c k → Appended a c (n + k)
Appended-trans a b c n k p q = record {
  extra = p.extra ++ q.extra;
  raft_log =
      q.raft_log
      ∙ ap (λ l. extended l q.extra) p.raft_log
      ∙ ap (λ es. record a.raft_log { entries = es })
          (append_assoc a.raft_log.entries p.extra q.extra);
  contig =
      IsContig-append (a.raft_log.last_idx_of_snapshot + length a.raft_log.entries) _ p.extra
        q.extra p.contig
        (ap (λ n. a.raft_log.last_idx_of_snapshot + n) (length-append a.raft_log.entries p.extra)
          ∙ omega arith)
        (subst (λ l. IsContig (l.last_idx_of_snapshot + length l.entries) q.extra) p.raft_log
          q.contig);
  terms =
      All-append _ p.extra q.extra
        (p.terms, subst (λ t. All (λ e. e.term ≡ t) q.extra) p.term q.terms);
  few = omega (arith, length-append p.extra q.extra, p.few, q.few);
  id = q.id ∙ p.id;
  term = q.term ∙ p.term;
  vote = q.vote ∙ p.vote;
  state = q.state ∙ p.state;
  lead = q.lead ∙ p.lead;
  peers = q.peers ∙ p.peers;
}

Appended-IsContig :
    (a b : Raft) (n : ℕ)
    → Appended a b n
    → IsContig a.raft_log.last_idx_of_snapshot a.raft_log.entries
    → IsContig b.raft_log.last_idx_of_snapshot b.raft_log.entries
Appended-IsContig a b n p c =
    subst (λ l. IsContig l.last_idx_of_snapshot l.entries) (sym p.raft_log)
      (IsContig-append a.raft_log.last_idx_of_snapshot _ a.raft_log.entries p.extra c refl p.contig)

Appended-last :
    (a b : Raft) (n : ℕ)
    → Appended a b n
    → b.raft_log.last_idx_of_snapshot + length b.raft_log.entries
      ≤ a.raft_log.last_idx_of_snapshot + length a.raft_log.entries + n
Appended-last a b n p =
    subst
      (λ l.
        l.last_idx_of_snapshot + length l.entries
        ≤ a.raft_log.last_idx_of_snapshot + length a.raft_log.entries + n)
      (sym p.raft_log) (omega (arith, length-append a.raft_log.entries p.extra, p.few))

pub propose_entries-Appended :
    (es : List Entry) (r : Raft)
    → IsContig r.raft_log.last_idx_of_snapshot r.raft_log.entries
    → r.raft_log.last_idx_of_snapshot + length r.raft_log.entries + length es < u64_mod
    → Appended r (propose_entries r es) (length es)
unfolding propose_entries
propose_entries-Appended [] r c f = Appended-none r r 0 refl refl refl refl refl refl refl
propose_entries-Appended (e ∷ es) r c f =
    let p = propose_entry-Appended r e c (omega arith) in
    let n : 1 + length es ≡ suc (length es) = omega arith in
    subst (Appended r (propose_entries (propose_entry r e) es)) n (
      Appended-trans r (propose_entry r e) (propose_entries (propose_entry r e) es) 1 (length es) p
        (propose_entries-Appended es (propose_entry r e)
          (Appended-IsContig r (propose_entry r e) 1 p c)
          (omega (arith, Appended-last r (propose_entry r e) 1 p))))

-- What a proposal leaves: the old entries in front, at most n new ones behind them with the node's
-- term and the next indices, and the commit index of a group of one at the end.
pub record Proposed (r r' : Raft) (n : ℕ) : Type 0 where
  pub extra : List Entry
  pub entries : r'.raft_log.entries ≡ r.raft_log.entries ++ extra
  pub contig : IsContig (r.raft_log.last_idx_of_snapshot + length r.raft_log.entries) extra
  pub terms : All (λ e. e.term ≡ r.term) extra
  pub few : length extra ≤ n
  pub snapshot : r'.raft_log.last_idx_of_snapshot ≡ r.raft_log.last_idx_of_snapshot
  pub applied : r'.raft_log.applied ≡ r.raft_log.applied
  pub stabled : r'.raft_log.stabled ≡ r.raft_log.stabled
  pub committed :
      r'.raft_log.committed
      ≡ (if length r.peers == 1 then last_index r'.raft_log else r.raft_log.committed)
  pub id : r'.id ≡ r.id
  pub term : r'.term ≡ r.term
  pub vote : r'.vote ≡ r.vote
  pub state : r'.state ≡ r.state
  pub lead : r'.lead ≡ r.lead
  pub peers : r'.peers ≡ r.peers

finish : Raft → Raft
unfolding set_progress
finish r1 =
    let last = last_index r1.raft_log in
    let r2 = set_progress r1 r1.id (record { match_index = last; next = add64 last 1 }) in
    if length r2.peers == 1
    then record r2 { raft_log = record r2.raft_log { committed = last } }
    else r2

finish-Proposed : (r r1 : Raft) (n : ℕ) → Appended r r1 n → Proposed r (finish r1) n
unfolding finish last_index
finish-Proposed r r1 n a = elim (Bool-cases (length r1.peers == 1)) [
  | inl one ↦
      subst (λ s. Proposed r s n) (sym (if_true _ _ one))
        (record {
          extra = a.extra;
          entries = ap (λ (l : RaftLog). l.entries) a.raft_log;
          contig = a.contig;
          terms = a.terms;
          few = a.few;
          snapshot = ap (λ (l : RaftLog). l.last_idx_of_snapshot) a.raft_log;
          applied = ap (λ (l : RaftLog). l.applied) a.raft_log;
          stabled = ap (λ (l : RaftLog). l.stabled) a.raft_log;
          committed = sym (if_true _ _ (ap (λ ps. length ps == 1) (sym a.peers) ∙ one));
          id = a.id;
          term = a.term;
          vote = a.vote;
          state = a.state;
          lead = a.lead;
          peers = a.peers;
        })
  | inr more ↦
      subst (λ s. Proposed r s n) (sym (if_false _ _ more))
        (record {
          extra = a.extra;
          entries = ap (λ (l : RaftLog). l.entries) a.raft_log;
          contig = a.contig;
          terms = a.terms;
          few = a.few;
          snapshot = ap (λ (l : RaftLog). l.last_idx_of_snapshot) a.raft_log;
          applied = ap (λ (l : RaftLog). l.applied) a.raft_log;
          stabled = ap (λ (l : RaftLog). l.stabled) a.raft_log;
          committed =
              ap (λ (l : RaftLog). l.committed) a.raft_log
              ∙ sym (if_false _ _ (ap (λ ps. length ps == 1) (sym a.peers) ∙ more));
          id = a.id;
          term = a.term;
          vote = a.vote;
          state = a.state;
          lead = a.lead;
          peers = a.peers;
        })
]

-- A proposal to a node with a valid log and room for the entries below 2^64, where it does not
-- panic, only appends: the leader never overwrites or deletes an entry of its own log, each new
-- entry has its term and the next index, and only a group of one commits at once.
pub handle_msg_propose-Proposed :
    (r r' : Raft) (m : Message)
    → IsValid r.raft_log
    → r.raft_log.last_idx_of_snapshot + length r.raft_log.entries + length m.entries < u64_mod
    → handle_msg_propose r m ≡ ok r'
    → Proposed r r' (length m.entries)
unfolding handle_msg_propose finish
handle_msg_propose-Proposed r r' m v f h =
    let r1 : Raft = propose_entries r m.entries in
    let (pr, _, done) = >>=-eq-ok (progress r1 r1.id) (λ _. ok (finish r1)) h in
    subst (λ s. Proposed r s (length m.entries)) (ok-injective done)
      (finish-Proposed r r1 _ (propose_entries-Appended m.entries r v.contig f))

-- The log stays valid, and the commit index does not go back.
pub Proposed-IsValid :
    (r r' : Raft) (n : ℕ)
    → IsValid r.raft_log
    → r.raft_log.last_idx_of_snapshot + length r.raft_log.entries + n + 1 < u64_mod
    → Proposed r r' n
    → IsValid r'.raft_log × (r.raft_log.committed ≤ r'.raft_log.committed)
Proposed-IsValid r r' n v f p =
    let c : IsContig r'.raft_log.last_idx_of_snapshot r'.raft_log.entries =
      subst (IsContig r'.raft_log.last_idx_of_snapshot) (sym p.entries) (
        subst (λ b. IsContig b (r.raft_log.entries ++ p.extra)) (sym p.snapshot)
          (IsContig-append r.raft_log.last_idx_of_snapshot _ r.raft_log.entries p.extra v.contig
            refl p.contig)) in
    let n' : length r'.raft_log.entries ≡ length r.raft_log.entries + length p.extra =
      ap length p.entries ∙ length-append r.raft_log.entries p.extra in
    let last = last_index-contig r'.raft_log c in
    (
      record {
        contig = c;
        snapshot_le = omega (arith, p.snapshot, p.applied, v.snapshot_le);
        applied_le =
            ground
              (arith, p.applied, p.committed, v.applied_le, v.committed_le, last, n', p.snapshot);
        committed_le = ground (arith, p.committed, v.committed_le, last, n', p.snapshot);
        stabled_ge = omega (arith, p.snapshot, p.stabled, v.stabled_ge);
        stabled_le = omega (arith, p.snapshot, p.stabled, v.stabled_le);
        fits = omega (arith, p.few, p.snapshot);
      },
      ground (arith, p.committed, v.committed_le, last, n', p.snapshot),
    )

-- ===== src/Raft/Commit/Quorum.antt =====
-- raft/raft.go: when handleMsgAppendResponse moves the leader's commit index.
use tinykv.Prelude.{
  occurrences, ℕ, ◌+◌, ◌/◌, ◌≤◌, ◌<◌, ◌≡◌, ◌≢◌, refl, sym, ap, ◌∙◌, subst, Bool, false, ◌||◌, ◌&&◌,
  Option, none, some, List, [], ◌∷◌, arith, length, ltb, leb, ◌==◌, if◌then◌else◌, Bool-cases, inl,
  inr, ◌⊎◌, leb→gt, ltb→ge, ltb→lt, ok, >>=-eq-ok, ok-injective, if-eq-ok, lookup, lookup-insert,
  add64, if_true, if_false,
}
use tinykv.Raft.Pb.{Entry, Message}
use tinykv.Raft.Log.{RaftLog, last_index}
use tinykv.Raft.Node.{Raft, Progress, send, progress, set_progress}
use tinykv.Raft.Replication.{entry_at}
use tinykv.Raft.Commit.{
  peers_at, commit_message, send_commit, maybe_commit, handle_accepted, handle_msg_append_response,
  maybe_timeout_now, handle_rejected,
}
use tinykv.Raft.Frame.{send_append-SameCore}

-- Whether the leader has recorded that the peer matches at least up to the index.
abbrev pub matches : Option Progress → ℕ → Bool
matches none index = false
matches (some pr) index = leb index pr.match_index

-- The members that hold the index: the leader, the sender of the response, and those recorded.
abbrev pub holders : Raft → ℕ → ℕ → List ℕ → ℕ
holders r from index [] = 0
holders r from index (p ∷ ps) =
    (if p == from || p == r.id || matches (lookup p r.prs) index then 1 else 0)
    + holders r from index ps

-- The peers that the loop collects, with the leader and the sender, are the holders.
peers_at-holders :
    (r : Raft) (pr : Progress) (from index : ℕ) (ps others : List ℕ)
    → from ≢ r.id
    → peers_at (set_progress r from pr) from index ps ≡ ok others
    → holders r from index ps ≡ occurrences r.id ps + occurrences from ps + length others
unfolding peers_at progress set_progress
peers_at-holders r pr from index [] others ne h = ground arith
peers_at-holders r pr from index (p ∷ ps) others ne h =
    let (rest, e, step) = >>=-eq-ok (peers_at (set_progress r from pr) from index ps) _ h in
    let ih = peers_at-holders r pr from index ps rest ne e in
    ground (arith, ih, lookup-insert from p pr r.prs)

send_commit-raft_log :
    (r : Raft) (commit : ℕ) (ps : List ℕ) → (send_commit r commit ps).raft_log ≡ r.raft_log
unfolding send_commit send
send_commit-raft_log r commit [] = refl
send_commit-raft_log r commit (p ∷ ps) =
    send_commit-raft_log (send r (commit_message r p commit)) commit ps

-- A step of the commit index as the code makes it: the loop found `others`.
pub record Stepped (r r' : Raft) (from index : ℕ) : Type 0 where
  pub log : r'.raft_log ≡ record r.raft_log { committed = index }
  pub forward : r.raft_log.committed < index
  pub entry : Entry
  pub found : entry_at r.raft_log index ≡ ok entry
  pub current : r.term ≤ entry.term
  pub new : Progress
  pub others : List ℕ
  pub collected : peers_at (set_progress r from new) from index r.peers ≡ ok others
  pub enough : length r.peers / 2 < 2 + length others

abbrev pub LogOrStep : Raft → ℕ → ℕ → Raft → Type 0
LogOrStep r from index r' = (r'.raft_log ≡ r.raft_log) ⊎ Stepped r r' from index

-- `r1` is the leader after it recorded the match, and told a transferee that has caught up.
module _ (r r1 r' : Raft) (pr : Progress) (from index : ℕ)
    (same : (ps : List ℕ)
      → peers_at r1 from index ps ≡ peers_at (set_progress r from pr) from index ps)
    (log : r1.raft_log ≡ r.raft_log) (t : r1.term ≡ r.term) (members : r1.peers ≡ r.peers) where
  counted :
      (e : Entry) (others : List ℕ)
      → r.raft_log.committed < index
      → entry_at r1.raft_log index ≡ ok e
      → ltb e.term r1.term ≡ false
      → peers_at r1 from index r1.peers ≡ ok others
      → ok (
          if ltb (length r1.peers / 2) (2 + length others)
          then send_commit
              (record r1 { raft_log = record r1.raft_log { committed = index } })
              index
              (from ∷ others)
          else r1)
        ≡ ok r'
      → LogOrStep r from index r'
  counted e others lt found cur at h =
      elim (Bool-cases (ltb (length r1.peers / 2) (2 + length others))) [
        | inl many ↦
            let q : peers_at (set_progress r from pr) from index r.peers ≡ ok others =
              sym (same r.peers) ∙ ap (peers_at r1 from index) (sym members) ∙ at in
            inr (record {
              log =
                  sym (ap (λ (s : Raft). s.raft_log) (ok-injective h))
                  ∙ ap (λ (s : Raft). s.raft_log) (if_true _ _ many)
                  ∙ send_commit-raft_log _ index (from ∷ others)
                  ∙ ap (λ (l : RaftLog). record l { committed = index }) log;
              forward = lt;
              entry = e;
              found = subst (λ l. entry_at l index ≡ ok e) log found;
              current = omega (arith, ltb→ge _ _ cur, t);
              new = pr;
              others = others;
              collected = q;
              enough =
                  let members' : length r1.peers ≡ length r.peers = ap length members in
                  omega (arith, ltb→lt _ _ many);
            })
        | inr few ↦ inl (
            sym (ap (λ (s : Raft). s.raft_log) (ok-injective h))
            ∙ ap (λ (s : Raft). s.raft_log) (if_false _ _ few)
            ∙ log)
      ]

  maybe_commit-LogOrStep : maybe_commit r1 from index ≡ ok r' → LogOrStep r from index r'
  unfolding maybe_commit
  maybe_commit-LogOrStep h = elim (if-eq-ok (leb index r1.raft_log.committed) _ _ h) [
    | inl (_, e) ↦ inl (sym (ap (λ (s : Raft). s.raft_log) (ok-injective e)) ∙ sent ∙ log)
    | inr (lt, rest) ↦
        let (e, found, rest1) = >>=-eq-ok (entry_at r1.raft_log index) _ rest in
        elim (if-eq-ok (ltb e.term r1.term) _ _ rest1) [
          | inl (_, z) ↦ inl (sym (ap (λ (s : Raft). s.raft_log) (ok-injective z)) ∙ log)
          | inr (cur, rest2) ↦
              let (others, at, rest3) = >>=-eq-ok (peers_at r1 from index r1.peers) _ rest2 in
              let c : r1.raft_log.committed ≡ r.raft_log.committed =
                ap (λ (l : RaftLog). l.committed) log in
              counted e others (omega (arith, leb→gt _ _ lt)) found cur at rest3
        ]
  ]
    where
      sent : (send r1 (commit_message r1 from index)).raft_log ≡ r1.raft_log
      sent = unfold send in refl

peers_at-send :
    (r : Raft) (m : Message) (from index : ℕ) (ps : List ℕ)
    → peers_at (send r m) from index ps ≡ peers_at r from index ps
unfolding peers_at send progress
peers_at-send r m from index [] = refl
peers_at-send r m from index (p ∷ ps) = rw (peers_at-send r m from index ps)

-- A transferee that has caught up is told by one message, or nothing happens.
maybe_timeout_now-cases :
    (r : Raft) (from match_index : ℕ)
    → (maybe_timeout_now r from match_index ≡ r)
      ⊎ ((m : Message) × (maybe_timeout_now r from match_index ≡ send r m))
unfolding maybe_timeout_now
maybe_timeout_now-cases r from match_index =
    elim (Bool-cases (from == r.lead_transferee && match_index == last_index r.raft_log)) [
      | inl e ↦ inr (_, if_true _ _ e)
      | inr e ↦ inl (if_false _ _ e)
    ]

-- Handling an append response leaves the log, or steps the commit index.
pub handle_msg_append_response-LogOrStep :
    (r r' : Raft) (m : Message)
    → handle_msg_append_response r m ≡ ok r'
    → LogOrStep r m.from m.index r'
unfolding handle_msg_append_response handle_accepted handle_rejected
handle_msg_append_response-LogOrStep r r' m h = elim (if-eq-ok m.reject _ _ h) [
  | inl (_, rejected) ↦
      let (pr, _, rest) = >>=-eq-ok (progress r m.from) _ rejected in
      inl ((send_append-SameCore m.from _ r' rest).raft_log ∙ unfold set_progress in refl)
  | inr (_, accepted) ↦
      let (pr, _, rest) = >>=-eq-ok (progress r m.from) _ accepted in
      elim (if-eq-ok (leb m.index pr.match_index) _ _ rest) [
        | inl (_, e) ↦ inl (sym (ap (λ (s : Raft). s.raft_log) (ok-injective e)))
        | inr (_, last) ↦
            let new : Progress = record { match_index = m.index; next = add64 m.index 1 } in
            let r1 : Raft = set_progress r m.from new in
            elim (maybe_timeout_now-cases r1 m.from m.index) [
              | inl e ↦
                  maybe_commit-LogOrStep r r1 r' new m.from m.index (λ ps. refl)
                    (unfold set_progress in refl) (unfold set_progress in refl)
                    (unfold set_progress in refl)
                    (subst (λ s. maybe_commit s m.from m.index ≡ ok r') e last)
              | inr (n, e) ↦
                  maybe_commit-LogOrStep r (send r1 n) r' new m.from m.index
                    (peers_at-send r1 n m.from m.index) (unfold set_progress send in refl)
                    (unfold set_progress send in refl) (unfold set_progress send in refl)
                    (subst (λ s. maybe_commit s m.from m.index ≡ ok r') e last)
            ]
      ]
]

-- A step of the commit index and what it rests on: an entry of the current term or a later one,
-- and a majority of the members.
pub record Committed (r r' : Raft) (from index : ℕ) : Type 0 where
  pub log : r'.raft_log ≡ record r.raft_log { committed = index }
  pub forward : r.raft_log.committed < index
  pub entry : Entry
  pub found : entry_at r.raft_log index ≡ ok entry
  pub current : r.term ≤ entry.term
  pub majority : length r.peers / 2 < holders r from index r.peers

-- Handling an append response without a panic changes nothing in the leader's log but its commit
-- index; and that only forward, to an entry of the current term or a later one that a majority of
-- the members holds, the leader and the sender among them. Here the two are listed once each, and
-- differ.
pub handle_msg_append_response-Committed :
    (r r' : Raft) (m : Message)
    → occurrences r.id r.peers ≡ 1
    → occurrences m.from r.peers ≡ 1
    → m.from ≢ r.id
    → handle_msg_append_response r m ≡ ok r'
    → (r'.raft_log ≡ r.raft_log) ⊎ Committed r r' m.from m.index
handle_msg_append_response-Committed r r' m one two ne h =
    elim (handle_msg_append_response-LogOrStep r r' m h) [
      | inl e ↦ inl e
      | inr s ↦
          let k = peers_at-holders r s.new m.from m.index r.peers s.others ne s.collected in
          inr (record {
            log = s.log;
            forward = s.forward;
            entry = s.entry;
            found = s.found;
            current = s.current;
            majority = omega (arith, s.enough);
          })
    ]

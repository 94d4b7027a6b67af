-- ===== src/Raft/Member/Recommit.antt =====
-- raft/raft.go: removeNode, and the entries that a leader commits because the group is smaller.
use tinykv.Prelude.{
  ℕ, zero, suc, ◌+◌, ◌-◌, ◌/◌, ◌≤◌, ◌<◌, ◌≡◌, refl, sym, ap, ◌∙◌, subst, Bool, true, false, ◌&&◌,
  List, [], ◌∷◌, arith, length, ltb, ◌==◌, if◌then◌else◌, Bool-cases, inl, inr, ◌⊎◌, ok, >>=-eq-ok,
  if-eq-ok, ok-injective, if_true, if_false, erase,
}
use tinykv.Raft.Log.{last_index, term, real_idx}
use tinykv.Raft.Node.{
  Raft, StateType, state_follower, state_candidate, state_leader, contains_peer, progress,
}
use tinykv.Raft.Replication.{broad_cast_ae}
use tinykv.Raft.Frame.{broad_cast_ae-SameCore}
use tinykv.Raft.Member.{
  count_matched, recommit_at, recommit, commit_after_removal, remove_node, remove_peer,
}

abbrev pub moved : Raft → ℕ → Raft
moved r c = record r { raft_log = record r.raft_log { committed = c } }

-- A commit index that a removal may set: an entry of the node's own term behind what was committed,
-- which more than half of the peers match.
pub record Recommitted (r : Raft) (index : ℕ) : Type 0 where
  pub forward : r.raft_log.committed < index
  pub within : index ≤ last_index r.raft_log
  pub own_term : term r.raft_log index ≡ ok r.term
  pub matched : ℕ
  pub counted : count_matched r index r.peers ≡ ok matched
  pub majority : length r.peers / 2 < matched

-- The commit index has no part in what a round looks at.
count_matched-moved :
    (r : Raft) (c i : ℕ) (ps : List ℕ) → count_matched (moved r c) i ps ≡ count_matched r i ps
unfolding count_matched progress
count_matched-moved r c i [] = refl
count_matched-moved r c i (p ∷ ps) = rw (count_matched-moved r c i ps)

term-moved : (r : Raft) (c i : ℕ) → term (moved r c).raft_log i ≡ term r.raft_log i
unfolding term real_idx
term-moved r c i = refl

abbrev Justified : Raft → ℕ → Type 0
Justified r c = (c ≡ r.raft_log.committed) ⊎ Recommitted r c

round :
    (r s' : Raft) (c i : ℕ) (b b' : Bool)
    → r.raft_log.committed < i
    → i ≤ last_index r.raft_log
    → Justified r c
    → recommit_at (moved r c) i b ≡ ok (s', b')
    → (c' : ℕ) × (s' ≡ moved r c') × Justified r c'
unfolding recommit_at
round r s' c i b b' lo hi j h =
    let (n, counted, h1) = >>=-eq-ok (count_matched (moved r c) i r.peers) _ h in
    let (t, own, h2) = >>=-eq-ok (term (moved r c).raft_log i) _ h1 in
    elim (Bool-cases (t == r.term && ltb (length r.peers / 2) n)) [
      | inl y ↦ (
        i,
        ap (λ p. p.0) (sym (ok-injective h2) ∙ if_true _ _ y),
        inr (record {
          forward = lo;
          within = hi;
          own_term = sym (term-moved r c i) ∙ own ∙ ap ok (ground arith);
          matched = n;
          counted = sym (count_matched-moved r c i r.peers) ∙ counted;
          majority = ground arith;
        }),
      )
      | inr z ↦ (c, ap (λ p. p.0) (sym (ok-injective h2) ∙ if_false _ _ z), j)
    ]

recommit-Justified :
    (rounds i c : ℕ) (r s' : Raft) (b b' : Bool)
    → r.raft_log.committed < i
    → i + rounds ≤ last_index r.raft_log + 1
    → Justified r c
    → recommit rounds i (moved r c) b ≡ ok (s', b')
    → (c' : ℕ) × (s' ≡ moved r c') × Justified r c'
unfolding recommit
recommit-Justified zero i c r s' b b' lo hi j h = (c, ap (λ p. p.0) (sym (ok-injective h)), j)
recommit-Justified (suc n) i c r s' b b' lo hi j h =
    let ((s, b1), e, rest) = >>=-eq-ok (recommit_at (moved r c) i b) _ h in
    let (c1, es, j1) = round r s c i b b1 lo (omega arith) j e in
    recommit-Justified n (i + 1) c1 r s' b1 b' (omega arith) (omega arith) j1
      (subst (λ x. recommit n (i + 1) x b1 ≡ ok (s', b')) es rest)

-- Whatever a removal makes a node commit, is justified; the rest of its log stays.
commit_after_removal-Justified :
    (s : StateType) (r r' : Raft)
    → r.raft_log.committed ≤ last_index r.raft_log
    → commit_after_removal s r ≡ ok r'
    → (c : ℕ) × (r'.raft_log ≡ record r.raft_log { committed = c }) × Justified r c
unfolding commit_after_removal
commit_after_removal-Justified state_follower r r' v h =
    (r.raft_log.committed, sym (ap (λ (s : Raft). s.raft_log) (ok-injective h)), inl refl)
commit_after_removal-Justified state_candidate r r' v h =
    (r.raft_log.committed, sym (ap (λ (s : Raft). s.raft_log) (ok-injective h)), inl refl)
commit_after_removal-Justified state_leader r r' v h =
    let l = r.raft_log in
    let (p, e, rest) =
      >>=-eq-ok (recommit (last_index l - l.committed) (l.committed + 1) r false) _ h in
    let (c, es, j) =
      recommit-Justified (last_index l - l.committed) (l.committed + 1) l.committed r p.0 false p.1
        (omega arith) (omega arith) (inl refl) e in
    (c, sent p.0 p.1 rest ∙ ap (λ (s : Raft). s.raft_log) es, j)
  where
    sent :
        (s : Raft) (b : Bool)
        → (if b then broad_cast_ae s else ok s) ≡ ok r'
        → r'.raft_log ≡ s.raft_log
    sent s true h = (broad_cast_ae-SameCore s r' h).raft_log
    sent s false h = sym (ap (λ (s : Raft). s.raft_log) (ok-injective h))

-- Removing a node without a panic, where the commit index is at most the last one, changes nothing
-- in the log but the commit index, and that only to an entry of the node's own term behind it that
-- more than half of the remaining peers match.
pub remove_node-Recommitted :
    (r r' : Raft) (id : ℕ)
    → r.raft_log.committed ≤ last_index r.raft_log
    → remove_node r id ≡ ok r'
    → (r'.raft_log ≡ r.raft_log)
      ⊎ ((peers : List ℕ) × (c : ℕ) × (remove_peer r.peers id ≡ ok peers)
          × (r'.raft_log ≡ record r.raft_log { committed = c })
          × Recommitted (record r { prs = erase id r.prs; peers = peers }) c)
unfolding remove_node
remove_node-Recommitted r r' id v h = elim (if-eq-ok (contains_peer r.peers id) _ _ h) [
  | inr (_, e) ↦ inl (sym (ap (λ (s : Raft). s.raft_log) (ok-injective e)))
  | inl (_, rest) ↦
      let (peers, e, rest1) = >>=-eq-ok (remove_peer r.peers id) _ rest in
      let r1 : Raft = record r { prs = erase id r.prs; peers = peers } in
      let (s, e2, done) = >>=-eq-ok (commit_after_removal r.state r1) _ rest1 in
      let (c, log, j) = commit_after_removal-Justified r.state r1 s v e2 in
      let log' : r'.raft_log ≡ record r.raft_log { committed = c } =
        sym (ap (λ (s : Raft). s.raft_log) (ok-injective done)) ∙ log in
      elim j [
        | inl same ↦ inl (log' ∙ ap (λ c. record r.raft_log { committed = c }) same)
        | inr q ↦ inr (peers, c, e, log', q)
      ]
]

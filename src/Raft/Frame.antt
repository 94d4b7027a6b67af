-- ===== src/Raft/Frame.antt =====
-- raft/raft.go: what the handlers that only send messages, or only track progress, leave alone.
use tinykv.Prelude.{
  ℕ, ◌≡◌, refl, ◌∙◌, true, false, List, [], ◌∷◌, arith, ◌==◌, if◌then◌else◌, Result, ok, >>=-eq-ok,
  if-eq-ok, ok-injective, inl, inr, ◌⊎◌, subst,
}
use tinykv.Raft.Node.{Raft, send, progress, set_progress, for_others}
use tinykv.Raft.Replication.{send_append, send_snapshot, broad_cast_ae}
use tinykv.Raft.Election.{send_heartbeats, request_votes, request_vote}

-- Everything but the messages, the progress map and the timers is as it was.
pub record SameCore (r r' : Raft) : Type 0 where
  pub id : r'.id ≡ r.id
  pub term : r'.term ≡ r.term
  pub vote : r'.vote ≡ r.vote
  pub state : r'.state ≡ r.state
  pub lead : r'.lead ≡ r.lead
  pub peers : r'.peers ≡ r.peers
  pub raft_log : r'.raft_log ≡ r.raft_log

pub SameCore-refl : (r : Raft) → SameCore r r
SameCore-refl r = record {
  id = refl;
  term = refl;
  vote = refl;
  state = refl;
  lead = refl;
  peers = refl;
  raft_log = refl;
}

pub SameCore-trans : {a b c : Raft} → SameCore a b → SameCore b c → SameCore a c
SameCore-trans p q = record {
  id = q.id ∙ p.id;
  term = q.term ∙ p.term;
  vote = q.vote ∙ p.vote;
  state = q.state ∙ p.state;
  lead = q.lead ∙ p.lead;
  peers = q.peers ∙ p.peers;
  raft_log = q.raft_log ∙ p.raft_log;
}

-- A loop over the other peers keeps what each round keeps.
pub for_others-SameCore :
    (ps : List ℕ) (id : ℕ) (body : Raft → ℕ → Result Raft)
    → ((p : ℕ) (r r' : Raft) → body r p ≡ ok r' → SameCore r r')
    → (r r' : Raft) → for_others ps id body r ≡ ok r'
    → SameCore r r'
unfolding for_others
for_others-SameCore [] id body keep r r' h = subst (SameCore r) (ok-injective h) (SameCore-refl r)
for_others-SameCore (p ∷ ps) id body keep r r' h =
    let (s, e, rest) = >>=-eq-ok (if p == id then ok r else body r p) (for_others ps id body) h in
    SameCore-trans (round (if-eq-ok (p == id) (ok r) (body r p) e))
      (for_others-SameCore ps id body keep s r' rest)
  where
    round :
        {s : Raft}
        → (((p == id) ≡ true) × (ok r ≡ ok s)) ⊎ (((p == id) ≡ false) × (body r p ≡ ok s))
        → SameCore r s
    round (inl (_, e)) = subst (SameCore r) (ok-injective e) (SameCore-refl r)
    round {s} (inr (_, e)) = keep p r s e

pub send_snapshot-SameCore : (to : ℕ) (r r' : Raft) → send_snapshot r to ≡ ok r' → SameCore r r'
unfolding send_snapshot progress set_progress send
send_snapshot-SameCore to r r' h = ground arith

pub send_append-SameCore : (to : ℕ) (r r' : Raft) → send_append r to ≡ ok r' → SameCore r r'
unfolding send_append progress send
send_append-SameCore to r r' h = ground (arith, send_snapshot-SameCore to r r')

pub broad_cast_ae-SameCore : (r r' : Raft) → broad_cast_ae r ≡ ok r' → SameCore r r'
unfolding broad_cast_ae
broad_cast_ae-SameCore r r' h =
    for_others-SameCore r.peers r.id send_append send_append-SameCore r r' h

pub send_heartbeats-SameCore : (r r' : Raft) → send_heartbeats r ≡ ok r' → SameCore r r'
unfolding send_heartbeats send
send_heartbeats-SameCore r r' h =
    for_others-SameCore r.peers r.id _ (λ p s s' e. ground arith) r r' h

pub request_votes-SameCore : (r r' : Raft) → request_votes r ≡ ok r' → SameCore r r'
unfolding request_votes request_vote send
request_votes-SameCore r r' h =
    for_others-SameCore r.peers r.id request_vote (λ p s s' e. ground arith) r r' h

-- ===== src/Raft/Election/Votes.antt =====
-- raft/raft.go: what a request for a vote does, and how a heartbeat lets a node vote twice in a term.
use tinykv.Prelude.{
  ℕ, ◌≤◌, ◌<◌, ◌≡◌, refl, sym, ap, ◌∙◌, subst, true, false, [], ◌∷◌, ◌++◌, arith, Bool-cases, inl,
  inr, ◌⊎◌, ok, if_true, if_false,
}
use tinykv.Raft.Pb.{Message, message, msg_request_vote_response}
use tinykv.Raft.Log.{last_index, term}
use tinykv.Raft.Log.Shape.{IsValid, last_index-contig, term_total}
use tinykv.Raft.Node.{Raft, state_follower, send, become_follower}
use tinykv.Raft.Election.{handle_vote_request, handle_heartbeat, may_vote, up_to_date}

-- The last entry of the message's sender is at least as late as the one given.
abbrev pub UpToDate : Message → ℕ → ℕ → Type 0
UpToDate m last_term last = (last_term < m.log_term) ⊎ ((last_term ≡ m.log_term) × (last ≤ m.index))

-- A node may vote for the sender: the request's term is newer, or this node is a follower in that
-- term and has voted for nobody else.
abbrev pub MayVote : Raft → Message → Type 0
MayVote r m =
    (r.term < m.term)
    ⊎ ((r.term ≡ m.term) × (r.state ≡ state_follower) × ((r.vote ≡ 0) ⊎ (r.vote ≡ m.from)))

-- The answer to a request: the log stays, one response is sent, in the node's new term.
pub record Answered (r r' : Raft) (m : Message) (last_term : ℕ) : Type 0 where
  pub raft_log : r'.raft_log ≡ r.raft_log
  pub term_ge : r.term ≤ r'.term
  pub response : Message
  pub sent : r'.msgs ≡ r.msgs ++ response ∷ []
  pub to : (response.to ≡ m.from) × (response.from ≡ r.id) × (response.term ≡ r'.term)
  pub outcome :
      ((response.reject ≡ false)
        × (r'.vote ≡ m.from)
        × (r'.term ≡ m.term)
        × (r'.state ≡ state_follower)
        × UpToDate m last_term (last_index r.raft_log)
        × MayVote r m)
      ⊎ ((response.reject ≡ true) × ¬ (UpToDate m last_term (last_index r.raft_log) × MayVote r m))

up_to_date-UpToDate : (m : Message) (t i : ℕ) → up_to_date m t i ≡ true → UpToDate m t i
unfolding up_to_date
up_to_date-UpToDate m t i h = ground arith

pub UpToDate-up_to_date : (m : Message) (t i : ℕ) → UpToDate m t i → up_to_date m t i ≡ true
unfolding up_to_date
UpToDate-up_to_date m t i h = ground arith

may_vote-MayVote : (r : Raft) (m : Message) → may_vote r m ≡ true → MayVote r m
unfolding may_vote
may_vote-MayVote r m h = ground arith

pub MayVote-may_vote : (r : Raft) (m : Message) → MayVote r m → may_vote r m ≡ true
unfolding may_vote
MayVote-may_vote r m h = ground arith

abbrev response : Raft → Message → Message
response r m = record (message msg_request_vote_response) {
  to = m.from;
  from = r.id;
  reject = true;
}

-- The node that votes, the one that may but does not, and the one that may not.
pub voted : Raft → Message → Raft
voted r m =
    send (record (become_follower r m.term 0) { vote = m.from })
      (record (response r m) { reject = false; term = m.term })

declined : Raft → Message → Raft
declined r m = send (become_follower r m.term 0) (record (response r m) { term = m.term })

barred : Raft → Message → Raft
barred r m = send r (record (response r m) { term = r.term })

pub voted_lem : (r : Raft) (m : Message) → ((voted r m).vote ≡ m.from) × ((voted r m).term ≡ m.term)
unfolding voted become_follower send
voted_lem r m = (refl, refl)

module _ (r : Raft) (m : Message) (t : ℕ) (e : term r.raft_log (last_index r.raft_log) ≡ ok t) where
  pub vote_granted :
      may_vote r m ≡ true
      → up_to_date m t (last_index r.raft_log) ≡ true
      → (handle_vote_request r m ≡ ok (voted r m)) × Answered r (voted r m) m t
  unfolding handle_vote_request voted become_follower send
  vote_granted may fresh =
      let mv = may_vote-MayVote r m may in
      (
        if_true _ _ may ∙ rw e (ap ok (if_true _ _ fresh)),
        record {
          raft_log = refl;
          term_ge = ground arith;
          response = record (response r m) { reject = false; term = m.term };
          sent = refl;
          to = (refl, refl, refl);
          outcome = inl (refl, refl, refl, refl, up_to_date-UpToDate m t _ fresh, mv);
        },
      )

  vote_declined :
      may_vote r m ≡ true
      → up_to_date m t (last_index r.raft_log) ≡ false
      → (handle_vote_request r m ≡ ok (declined r m)) × Answered r (declined r m) m t
  unfolding handle_vote_request declined become_follower send
  vote_declined may stale =
      let mv = may_vote-MayVote r m may in
      (
        if_true _ _ may ∙ rw e (ap ok (if_false _ _ stale)),
        record {
          raft_log = refl;
          term_ge = ground arith;
          response = record (response r m) { term = m.term };
          sent = refl;
          to = (refl, refl, refl);
          outcome = inr (refl, λ p. let u = UpToDate-up_to_date m t _ p.0 in cc);
        },
      )

  vote_barred :
      may_vote r m ≡ false
      → (handle_vote_request r m ≡ ok (barred r m)) × Answered r (barred r m) m t
  unfolding handle_vote_request barred send
  vote_barred no_vote = (
    if_false _ _ no_vote,
    record {
      raft_log = refl;
      term_ge = omega arith;
      response = record (response r m) { term = r.term };
      sent = refl;
      to = (refl, refl, refl);
      outcome = inr (refl, λ p. let u = MayVote-may_vote r m p.1 in cc);
    },
  )

-- A node with a valid log answers every request for a vote, without a panic. It votes exactly for
-- a candidate whose last entry is at least as late as its own, in a newer term, or as a follower
-- in its own term that has voted for nobody else.
pub handle_vote_request-Answered :
    (r : Raft) (m : Message)
    → IsValid r.raft_log
    → (r' : Raft) × (t : ℕ) × (handle_vote_request r m ≡ ok r')
      × (term r.raft_log (last_index r.raft_log) ≡ ok t)
      × Answered r r' m t
handle_vote_request-Answered r m v =
    let (t, e) =
      term_total r.raft_log (last_index r.raft_log)
        (omega (arith, last_index-contig r.raft_log v.contig)) in
    elim (Bool-cases (may_vote r m)) [
      | inl may ↦ elim (Bool-cases (up_to_date m t (last_index r.raft_log))) [
        | inl fresh ↦ let (run, a) = vote_granted r m t e may fresh in (voted r m, t, run, e, a)
        | inr stale ↦ let (run, a) = vote_declined r m t e may stale in (declined r m, t, run, e, a)
      ]
      | inr no_vote ↦ let (run, a) = vote_barred r m t e no_vote in (barred r m, t, run, e, a)
    ]

-- A heartbeat of the node's own term takes back its vote: whoever had it, the next candidate of
-- the same term with an up-to-date log gets it too. Here the term of the last entry can be read.
pub vote_after_heartbeat :
    (r : Raft) (h m : Message) (t : ℕ)
    → h.term ≡ r.term
    → m.term ≡ r.term
    → term r.raft_log (last_index r.raft_log) ≡ ok t
    → UpToDate m t (last_index r.raft_log)
    → (r' : Raft) × (handle_vote_request (handle_heartbeat r h) m ≡ ok r')
      × (r'.vote ≡ m.from)
      × (r'.term ≡ r.term)
vote_after_heartbeat r h m t eh em e fresh =
    let s : Raft = handle_heartbeat r h in
    let (log, tm, vt, st) = beaten in
    let (run, a) =
      vote_granted s m t (subst (λ l. term l (last_index l) ≡ ok t) (sym log) e)
        (MayVote-may_vote s m (inr (tm ∙ sym em, st, inl vt)))
        (UpToDate-up_to_date m t _ (subst (λ l. UpToDate m t (last_index l)) (sym log) fresh)) in
    (voted s m, run, (voted_lem s m).0, (voted_lem s m).1 ∙ em)
  where
    beaten :
        ((handle_heartbeat r h).raft_log ≡ r.raft_log)
        × ((handle_heartbeat r h).term ≡ r.term)
        × ((handle_heartbeat r h).vote ≡ 0)
        × ((handle_heartbeat r h).state ≡ state_follower)
    beaten = unfold handle_heartbeat become_follower send in ground arith

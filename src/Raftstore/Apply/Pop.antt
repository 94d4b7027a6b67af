-- ===== src/Raftstore/Apply/Pop.antt =====
-- kv/raftstore/peer_msg_handler.go: popProposal, and the callbacks that are still to be called.
use tinykv.Prelude.{
  ℕ, ◌+◌, ◌≤◌, ◌≡◌, ap, subst, arith, ok, ok-injective, Option, none, some, List, [], ◌∷◌, ◌==◌,
  if◌then◌else◌,
}
use tinykv.Raftstore.Apply.{
  Proposal, Answer, Handler, popped, done, notify_stale_req, pop_proposal, done_if,
}

-- How often the callback is among the proposals, and among the calls there were.
abbrev pub waiting : ℕ → List Proposal → ℕ
waiting cb [] = 0
waiting cb (p ∷ ps) = (if p.cb == cb then 1 else 0) + waiting cb ps

abbrev pub called : ℕ → List (ℕ × Answer) → ℕ
called cb [] = 0
called cb ((c, a) ∷ rest) = (if c == cb then 1 else 0) + called cb rest

abbrev pub held : ℕ → Option Proposal → ℕ
held cb none = 0
held cb (some p) = if p.cb == cb then 1 else 0

pub waiting-popped :
    (cb term index : ℕ) (ps : List Proposal)
    → held cb (popped term index ps).found
        + held cb (popped term index ps).stale
        + waiting cb (popped term index ps).left
      ≤ waiting cb ps
unfolding popped
waiting-popped cb term index [] = omega arith
waiting-popped cb term index (p ∷ ps) = ground (arith, waiting-popped cb term index ps)

module _ {R : Type 0} where
  -- No callback is made up or called again: one that has been called may have been waiting.
  pub record Settles (h h' : Handler R) : Type 0 where
    pub owed :
        (cb : ℕ)
        → called cb h'.answers + waiting cb h'.proposals
          ≤ called cb h.answers + waiting cb h.proposals
    pub kept : (cb : ℕ) → called cb h.answers ≤ called cb h'.answers

  pub Settles-refl :
      {h h' : Handler R} → h'.answers ≡ h.answers → h'.proposals ≡ h.proposals → Settles h h'
  Settles-refl a p = record {
    owed = λ cb. omega (arith, ap (called cb) a, ap (waiting cb) p);
    kept = λ cb. omega (arith, ap (called cb) a);
  }

  pub Settles-trans : {a b c : Handler R} → Settles a b → Settles b c → Settles a c
  Settles-trans f g = record {
    owed = λ cb. omega (arith, f.owed cb, g.owed cb);
    kept = λ cb. omega (arith, f.kept cb, g.kept cb);
  }

  pub Settles-out : {h g out : Handler R} → ok g ≡ ok out → Settles h g → Settles h out
  Settles-out {h = h} e s = subst (Settles h) (ok-injective e) s

  pub Settles-out_left :
      {B : Type 0} {h : Handler R} {s out : Handler R × B}
      → ok s ≡ ok out
      → Settles h s.0
      → Settles h out.0
  Settles-out_left {B = B} {h = h} e k =
      subst (λ (x : Handler R × B). Settles h x.0) (ok-injective e) k

  -- What is popped is taken from the proposals.
  pub record Pops (h : Handler R) (s : Handler R × Option Proposal) : Type 0 where
    pub owed :
        (cb : ℕ)
        → held cb s.1 + (called cb s.0.answers + waiting cb s.0.proposals)
          ≤ called cb h.answers + waiting cb h.proposals
    pub kept : (cb : ℕ) → called cb h.answers ≤ called cb s.0.answers

  notified-Pops :
      (h : Handler R) (found stale : Option Proposal) (left : List Proposal)
      → ((cb : ℕ) → held cb found + held cb stale + waiting cb left ≤ waiting cb h.proposals)
      → Pops h (notify_stale_req (record h { proposals = left }) stale, found)
  unfolding notify_stale_req done
  notified-Pops h found none left le = record {
    owed = λ cb. omega (arith, le cb);
    kept = λ cb. omega arith;
  }
  notified-Pops h found (some q) left le = record {
    owed = λ cb. omega (arith, le cb);
    kept = λ cb. omega arith;
  }

  pub pop_proposal-Pops : (h : Handler R) (term index : ℕ) → Pops h (pop_proposal h term index)
  unfolding pop_proposal
  pop_proposal-Pops h term index =
      let p = popped term index h.proposals in
      notified-Pops h p.found p.stale p.left (λ cb. waiting-popped cb term index h.proposals)

  pub done_if-Settles :
      (h : Handler R) (s : Handler R × Option Proposal) (answer : Answer)
      → Pops h s
      → Settles h (done_if s answer)
  unfolding done_if done
  done_if-Settles h (g, none) answer p = record {
    owed = λ cb. omega (arith, p.owed cb);
    kept = p.kept;
  }
  done_if-Settles h (g, some q) answer p = record {
    owed = λ cb. omega (arith, p.owed cb);
    kept = λ cb. omega (arith, p.kept cb);
  }

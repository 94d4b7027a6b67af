-- ===== src/Raft/Node.antt =====
-- raft/raft.go: the state of a node, its configuration, and the parts that every handler shares.
-- Proofs and the handlers stand in modules of their own.
use tinykv.Prelude.{
  ℕ, suc, ◌+◌, ◌%◌, Bool, true, false, Option, none, some, List, [], ◌∷◌, ◌++◌, leb, ◌==◌,
  if◌then◌else◌, add64, max64, Result, ok, panic, nil_dereference, explicit, or_panic, ◌>>=◌,
  lookup, insert,
}
use tinykv.Raft.Pb.{Message, ConfState, HardState}
use tinykv.Raft.Storage.{Storage, or_die}
use tinykv.Raft.Log.{RaftLog, new_log, last_index}

pub data StateType : Type 0 where
  state_follower state_candidate state_leader : StateType

-- The storage is there by its type; Go's nil check of it has no counterpart.
pub record Config : Type 0 where
  pub id : ℕ
  pub peers : Option (List ℕ)
  pub election_tick : ℕ
  pub heartbeat_tick : ℕ
  pub storage : Storage
  pub applied : ℕ

pub data ConfigError : Type 0 where
  none_as_id bad_heartbeat_tick bad_election_tick : ConfigError

unfoldable pub validate : Config → Option ConfigError
validate c =
    if c.id == 0
    then some none_as_id
    else if leb c.heartbeat_tick 0
    then some bad_heartbeat_tick
    else if leb c.election_tick c.heartbeat_tick
    then some bad_election_tick
    else none

pub record Progress : Type 0 where
  pub match_index : ℕ
  pub next : ℕ

-- The tick counters and timeouts are Go ints, which would need 2^63 ticks to overflow.
-- `rand` is the sequence of what rand.Int() will return.
pub record Raft : Type 0 where
  pub id : ℕ
  pub term : ℕ
  pub vote : ℕ
  pub vote_total : ℕ
  pub vote_received : ℕ
  pub raft_log : RaftLog
  pub prs : List (ℕ × Progress)
  pub state : StateType
  pub votes : List (ℕ × Bool)
  pub msgs : List Message
  pub lead : ℕ
  pub heartbeat_timeout : ℕ
  pub election_timeout : ℕ
  pub election_timeout_random : ℕ
  pub heartbeat_elapsed : ℕ
  pub election_elapsed : ℕ
  pub lead_transferee : ℕ
  pub pending_conf_index : ℕ
  pub peers : List ℕ
  pub rand : ℕ → ℕ

-- A fresh entry of the progress map for each peer.
unfoldable pub init_progress : ℕ → ℕ → List ℕ → List (ℕ × Progress) → List (ℕ × Progress)
init_progress m n [] prs = prs
init_progress m n (p ∷ ps) prs =
    init_progress m n ps (insert p (record { match_index = m; next = n }) prs)

-- The peers of the configuration, or of the storage on a restart, and the applied index.
starting_peers : Option (List ℕ) → ConfState → List ℕ
starting_peers none conf = conf.nodes
starting_peers (some peers) conf = peers

starting_applied : Option (List ℕ) → ℕ → ℕ → ℕ
starting_applied none applied log_applied = max64 applied log_applied
starting_applied (some peers) applied log_applied = log_applied

check : Option ConfigError → Result (Unit {0})
check none = ok tt
check (some e) = panic explicit

unfoldable pub new_raft : Config → (ℕ → ℕ) → Result Raft
unfolding starting_peers starting_applied check validate
new_raft c rand = do
  _ ← check (validate c)
  log ← new_log c.storage
  (hard_state, conf) ← or_die c.storage.initial_state
  let peers = starting_peers c.peers conf
  let log' = record log {
    applied = starting_applied c.peers c.applied log.applied;
    committed = hard_state.commit;
  }
  ok (record {
    id = c.id;
    term = hard_state.term;
    vote = hard_state.vote;
    vote_total = 0;
    vote_received = 0;
    raft_log = log';
    prs = init_progress log'.last_idx_of_snapshot (add64 (last_index log') 1) peers [];
    state = state_follower;
    votes = [];
    msgs = [];
    lead = 0;
    heartbeat_timeout = c.heartbeat_tick;
    election_timeout = c.election_tick;
    election_timeout_random = c.election_tick + rand 0 % c.election_tick;
    heartbeat_elapsed = 0;
    election_elapsed = 0;
    lead_transferee = 0;
    pending_conf_index = 0;
    peers = peers;
    rand = λ n. rand (suc n);
  })

unfoldable pub hard_state : Raft → HardState
hard_state r = record { term = r.term; vote = r.vote; commit = r.raft_log.committed }

-- r.msgs = append(r.msgs, m)
unfoldable pub send : Raft → Message → Raft
send r m = record r { msgs = r.msgs ++ m ∷ [] }

-- `r.electionTimeout + rand.Int()%r.electionTimeout`, and the rest of the random numbers.
-- `validate` keeps the divisor above 0.
unfoldable pub reset_election : Raft → Raft
reset_election r = record r {
  election_elapsed = 0;
  election_timeout_random = r.election_timeout + r.rand 0 % r.election_timeout;
  rand = λ n. r.rand (suc n);
}

unfoldable pub become_follower : Raft → ℕ → ℕ → Raft
unfolding reset_election
become_follower r term lead =
    reset_election (record r { term = term; lead = lead; state = state_follower; vote = 0 })

unfoldable pub contains_peer : List ℕ → ℕ → Bool
contains_peer [] peer = false
contains_peer (id ∷ ids) peer = if id == peer then true else contains_peer ids peer

-- r.Prs[p] where Go then reads or writes a field of it.
unfoldable pub progress : Raft → ℕ → Result Progress
progress r p = or_panic nil_dereference (lookup p r.prs)

unfoldable pub set_progress : Raft → ℕ → Progress → Raft
set_progress r p pr = record r { prs = insert p pr r.prs }

-- `for _, p := range r.peers { if p == r.id { continue }; r = body(r, p) }`
unfoldable pub for_others : List ℕ → ℕ → (Raft → ℕ → Result Raft) → Raft → Result Raft
for_others [] id body r = ok r
for_others (p ∷ ps) id body r =
    (if p == id then ok r else body r p) >>= λ r'. for_others ps id body r'

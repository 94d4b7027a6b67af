-- ===== src/Tests/Samples.antt =====
-- A node of a group of three, in term 2, with three entries in its log.
use tinykv.Prelude.{ℕ, ◌+◌, List, [], ◌∷◌, none, some, Result, ok, panic, arith}
use tinykv.Raft.Pb.{Entry, entry_normal, Snapshot}
use tinykv.Raft.Storage.{Storage, value}
use tinykv.Raft.Log.{RaftLog}
use tinykv.Raft.Log.Shape.{IsValid}
use tinykv.Raft.Node.{Raft, StateType}

abbrev pub entry : ℕ → ℕ → Entry
entry i t = record { entry_type = entry_normal; term = t; index = i; payload = i ∷ [] }

abbrev pub empty_snapshot : Snapshot
empty_snapshot = record {
  payload = [];
  metadata = some (record { conf_state = some (record { nodes = [] }); index = 0; term = 0 });
}

-- A storage whose first index is given.
abbrev pub storage_from : ℕ → Storage
storage_from first = record {
  initial_state =
      value (record { term = 2; vote = 0; commit = 1 }, record { nodes = 1 ∷ 2 ∷ 3 ∷ [] });
  entries = λ lo hi. ok (value []);
  term = λ i. value 1;
  last_index = value 3;
  first_index = value first;
  snapshot = value empty_snapshot;
}

abbrev pub log_of : ℕ → List Entry → RaftLog
log_of committed entries = record {
  storage = storage_from 2;
  committed = committed;
  applied = 1;
  stabled = 2;
  entries = entries;
  pending_snapshot = none;
  last_idx_of_snapshot = 0;
  last_term_of_snapshot = 0;
}

abbrev pub three : List Entry
three = entry 1 1 ∷ entry 2 1 ∷ entry 3 2 ∷ []

pub log_of-IsValid : IsValid (log_of 1 three)
log_of-IsValid = record {
  contig = omega arith;
  snapshot_le = omega arith;
  applied_le = omega arith;
  committed_le = omega arith;
  stabled_ge = omega arith;
  stabled_le = omega arith;
  fits = omega arith;
}

abbrev pub node : StateType → Raft
node state = record {
  id = 1;
  term = 2;
  vote = 0;
  vote_total = 0;
  vote_received = 0;
  raft_log = log_of 1 three;
  prs =
      (1, record { match_index = 3; next = 4 })
      ∷ (2, record { match_index = 1; next = 2 })
      ∷ (3, record { match_index = 0; next = 2 })
      ∷ [];
  state = state;
  votes = [];
  msgs = [];
  lead = 0;
  heartbeat_timeout = 1;
  election_timeout = 10;
  election_timeout_random = 13;
  heartbeat_elapsed = 0;
  election_elapsed = 0;
  lead_transferee = 0;
  pending_conf_index = 0;
  peers = 1 ∷ 2 ∷ 3 ∷ [];
  rand = λ n. n + 5;
}

-- The value of a run that does not panic.
abbrev pub result_or : Raft → Result Raft → Raft
result_or r (ok s) = s
result_or r (panic e) = r

-- ===== src/Tests/Applied.antt =====
-- kv/raftstore/peer_msg_handler.go: a put that is committed, and the proposal that waits for it.
use tinykv.Prelude.{
  ◌≡◌, refl, List, [], ◌∷◌, none, some, true, false, compare_bytes, Result, ok, panic,
}
use tinykv.Raft.Pb.{Entry, entry_normal}
use tinykv.Raft.Node.{state_leader}
use tinykv.Raftstore.{absent, RaftLocalState, PeerStorage}
use tinykv.Raftstore.Cmd.{Region, put, RaftCmdRequest}
use tinykv.Raftstore.Apply.{Parameters, Handler, responses, put_done}
use tinykv.Raftstore.Apply.Commit.{handle_commit_ents}
use tinykv.Raftstore.Apply.Pop.{Settles}
use tinykv.Raftstore.Apply.Commit.Once.{handle_commit_ents-Settles}
use tinykv.Tests.Samples.{node}

abbrev put_a : RaftCmdRequest
put_a = record {
  header = some (record { conf_ver = 1; version = 1 });
  requests = put (100 ∷ []) (97 ∷ []) (1 ∷ []) ∷ [];
  admin_request = none;
}

-- Every command is the put, and the store's regions are a list.
abbrev parameters : Parameters
parameters = record {
  unmarshal = λ bytes. some put_a;
  unmarshal_conf_change = λ bytes. none;
  Ranges = List Region;
  replace_or_insert = λ regions region. region ∷ regions;
  delete_range = λ regions region. (true, []);
}

abbrev whole : Region
whole = record {
  id = 1;
  start_key = [];
  end_key = [];
  region_epoch = record { conf_ver = 1; version = 1 };
  peers = record { id = 1; store_id = 1 } ∷ [];
}

abbrev local_state : RaftLocalState
local_state = record {
  hard_state = record { term = 2; vote = 0; commit = 6 };
  last_index = 6;
  last_term = 2;
}

abbrev storage : PeerStorage
storage = record {
  raft_state = local_state;
  applied_index = 5;
  truncated_index = 5;
  truncated_term = 5;
  raft_log = λ i. absent;
  stored = local_state;
}

-- The entry of the first proposal has gone by, that of the second is the put, and that of the third is
-- still to come.
abbrev waiting_three : Handler (List Region)
waiting_three = record {
  meta = record { id = 1; store_id = 1 };
  region_id = 1;
  raft_group = record {
    raft = node state_leader;
    prev_soft_state = record { lead = 1; raft_state = state_leader };
    prev_hard_state = record { term = 2; vote = 0; commit = 1 };
  };
  peer_storage = storage;
  region = whole;
  proposals =
      record { index = 5; term = 2; cb = 10 }
      ∷ record { index = 6; term = 2; cb = 11 }
      ∷ record { index = 7; term = 2; cb = 12 }
      ∷ [];
  peer_cache = [];
  last_compacted_idx = 0;
  stopped = false;
  kv = record { values = λ k. none; apply_states = []; region_states = [] };
  regions = (1, whole) ∷ [];
  region_ranges = whole ∷ [];
  effects = [];
  answers = [];
}

abbrev committed : List Entry
committed = record { entry_type = entry_normal; term = 2; index = 6; payload = 1 ∷ [] } ∷ []

abbrev handler_or : Handler (List Region) → Result (Handler (List Region)) → Handler (List Region)
handler_or h (ok g) = g
handler_or h (panic e) = h

abbrev applied : Handler (List Region)
applied = handler_or waiting_three (handle_commit_ents parameters waiting_three committed)

applied_run : handle_commit_ents parameters waiting_three committed ≡ ok applied
unfolding handle_commit_ents compare_bytes
applied_run = refl

-- The first two proposals are popped, and the last one waits.
applied_proposals : applied.proposals ≡ record { index = 7; term = 2; cb = 12 } ∷ []
unfolding handle_commit_ents compare_bytes
applied_proposals = refl

-- The callback of the put is called, once.
applied_answers : applied.answers ≡ (11, responses (put_done ∷ [])) ∷ []
unfolding handle_commit_ents compare_bytes
applied_answers = refl

handle_commit_ents-Settles_example : Settles waiting_three applied
handle_commit_ents-Settles_example =
    handle_commit_ents-Settles parameters committed waiting_three applied_run

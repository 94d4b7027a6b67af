-- ===== src/Tests/PeerLog.antt =====
-- kv/raftstore/peer_storage.go: a peer with the entries 6 and 7, the latter of which is replaced.
use tinykv.Prelude.{ℕ, ◌<◌, ◌≡◌, ◌⊎◌, refl, arith, true, false, [], ◌∷◌, if◌then◌else◌, ◌==◌, ok}
use tinykv.Raft.Pb.{Entry, HardState, entry_normal}
use tinykv.Raftstore.{
  Slot, absent, holds, RaftLocalState, PeerStorage, value, entries, append, is_empty_hard_state,
  save_ready_state, restart, last_index,
}
use tinykv.Raftstore.Log.{Represents, entries-Represents, append-Represents}
use tinykv.Raftstore.Restart.{restart-save_ready_state}

abbrev entry_at : ℕ → ℕ → Entry
entry_at index term = record { entry_type = entry_normal; term = term; index = index; payload = [] }

abbrev state : RaftLocalState
state = record {
  hard_state = record { term = 2; vote = 0; commit = 6 };
  last_index = 7;
  last_term = 2;
}

abbrev two_entries : ℕ → Slot
two_entries i =
    if i == 6 then holds (entry_at 6 2) else if i == 7 then holds (entry_at 7 2) else absent

abbrev peer : PeerStorage
peer = record {
  raft_state = state;
  applied_index = 6;
  truncated_index = 5;
  truncated_term = 1;
  raft_log = two_entries;
  stored = state;
}

peer-Represents : Represents peer (entry_at 6 2 ∷ entry_at 7 2 ∷ [])
peer-Represents = record { there = (refl, refl, (refl, refl, tt)); ends = refl; room = omega arith }

entries-Represents_example : entries peer 7 8 ≡ value (entry_at 7 2 ∷ [])
entries-Represents_example =
    entries-Represents peer (entry_at 6 2 ∷ []) (entry_at 7 2 ∷ []) [] peer-Represents

append-Represents_example :
    Represents (append peer (entry_at 7 3 ∷ [])) (entry_at 6 2 ∷ entry_at 7 3 ∷ [])
    × ((i : ℕ) → 7 < i → (append peer (entry_at 7 3 ∷ [])).raft_log i ≡ two_entries i)
append-Represents_example =
    append-Represents peer (entry_at 6 2 ∷ []) (entry_at 7 2 ∷ []) (entry_at 7 3) [] peer-Represents
      (refl, tt) (omega arith)

-- Neither the term nor the vote nor the commit index is new.
abbrev no_hard_state : HardState
no_hard_state = record { term = 0; vote = 0; commit = 0 }

restart-save_ready_state_example :
    ((is_empty_hard_state no_hard_state ≡ false)
      × ((ps' : PeerStorage) × (restart (save_ready_state peer (entry_at 8 2 ∷ []) no_hard_state)
            ≡ ok ps')
          × Represents ps' (entry_at 6 2 ∷ entry_at 7 2 ∷ entry_at 8 2 ∷ [])))
    ⊎ ((is_empty_hard_state no_hard_state ≡ true)
        × ((ps' : PeerStorage) × (restart (save_ready_state peer (entry_at 8 2 ∷ []) no_hard_state)
              ≡ ok ps')
            × (last_index ps' ≡ 7)))
restart-save_ready_state_example =
    restart-save_ready_state peer (entry_at 6 2 ∷ entry_at 7 2 ∷ []) [] (entry_at 8 2) []
      no_hard_state peer-Represents (refl, tt) (omega arith) (omega arith) (omega arith)

-- ===== src/Raft/Storage.antt =====
-- raft/storage.go: the Storage interface as raft sees it, a record of the answers of its methods.
-- An error is a value; log.Panicf is a panic. MemoryStorage is in the child module.
pub mod Memory
use tinykv.Prelude.{ℕ, List, Result, ok, panic, explicit}
use tinykv.Raft.Pb.{Entry, Snapshot, HardState, ConfState}

pub data StorageError : Type 0 where
  compacted snap_out_of_date unavailable snapshot_temporarily_unavailable : StorageError

-- A Go pair (value, error).
pub data Reply {ℓ} (A : Type ℓ) : Type ℓ where
  value : A → Reply A
  error : StorageError → Reply A

pub record Storage : Type 0 where
  pub initial_state : Reply (HardState × ConfState)
  pub entries : ℕ → ℕ → Result (Reply (List Entry))
  pub term : ℕ → Reply ℕ
  pub last_index : Reply ℕ
  pub first_index : Reply ℕ
  pub snapshot : Reply Snapshot

-- `if err != nil { panic(...) }`
abbrev pub or_die {ℓ} : {A : Type ℓ} → Reply A → Result A
or_die (value a) = ok a
or_die (error e) = panic explicit

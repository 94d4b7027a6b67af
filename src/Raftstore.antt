-- ===== src/Raftstore.antt =====
-- kv/raftstore/peer_storage.go: the log of one region's peer in the engine, where raft reads it and a
-- Ready is saved.
pub mod Log
pub mod Restart
pub mod Cmd
pub mod Engine
pub mod Check
pub mod Apply
use tinykv.Prelude.{
  ℕ, zero, suc, ◌+◌, ◌-◌, Bool, not, ◌&&◌, ltb, leb, ◌==◌, if◌then◌else◌, Option, none, some, List,
  [], ◌∷◌, length, get_last?, add64, Result, ok, panic, explicit,
}
use tinykv.Raft.Pb.{Entry, HardState}
use tinykv.Raft.RawNode.{hard_state_equal, empty_hard_state}

-- What the engine has under the key of an entry; `broken` is an error of the engine.
pub data Slot : Type 0 where
  absent broken : Slot
  holds : Entry → Slot

pub record RaftLocalState : Type 0 where
  pub hard_state : HardState
  pub last_index : ℕ
  pub last_term : ℕ

-- The state in memory, the entries in the engine by their index, and the raft state there.
pub record PeerStorage : Type 0 where
  pub raft_state : RaftLocalState
  pub applied_index : ℕ
  pub truncated_index : ℕ
  pub truncated_term : ℕ
  pub raft_log : ℕ → Slot
  pub stored : RaftLocalState

pub data RangeError : Type 0 where
  low_above_high compacted out_of_bound unavailable engine_error : RangeError

pub data Reply {ℓ} (A : Type ℓ) : Type ℓ where
  value : A → Reply A
  error : RangeError → Reply A

-- `none` is no error.
unfoldable pub check_range : PeerStorage → ℕ → ℕ → Option RangeError
check_range ps low high =
    if ltb high low
    then some low_above_high
    else if leb low ps.truncated_index
    then some compacted
    else if ltb (add64 ps.raft_state.last_index 1) high
    then some out_of_bound
    else none

-- The slots from `low` on, in their order.
unfoldable pub slots : (ℕ → Slot) → ℕ → ℕ → List Slot
slots log low zero = []
slots log low (suc rounds) = log low ∷ slots log (low + 1) rounds

cons_entry : Entry → Option (List Entry) → Option (List Entry)
cons_entry e none = none
cons_entry e (some es) = some (e ∷ es)

-- The iteration: it skips what is not there, and ends at a gap.
unfoldable pub scan : ℕ → List Slot → Option (List Entry)
unfolding cons_entry
scan next_index [] = some []
scan next_index (absent ∷ rest) = scan next_index rest
scan next_index (broken ∷ rest) = none
scan next_index (holds e ∷ rest) =
    let others = scan (add64 next_index 1) rest in
    if not (e.index == next_index) then some [] else cons_entry e others

unfoldable pub all_read : ℕ → Option (List Entry) → Reply (List Entry)
all_read count none = error engine_error
all_read count (some buf) = if length buf == count then value buf else error unavailable

unfoldable pub entries : PeerStorage → ℕ → ℕ → Reply (List Entry)
unfolding check_range slots scan all_read
entries ps low high = elim (check_range ps low high) [
  | some e ↦ error e
  | none ↦
      if low == high
      then value []
      else all_read (high - low) (scan low (slots ps.raft_log low (high - low)))
]

unfoldable pub term_of : Slot → Reply ℕ
term_of (holds e) = value e.term
term_of absent = error engine_error
term_of broken = error engine_error

unfoldable pub term : PeerStorage → ℕ → Reply ℕ
unfolding check_range term_of
term ps idx =
    if idx == ps.truncated_index
    then value ps.truncated_term
    else elim (check_range ps idx (add64 idx 1)) [
      | some e ↦ error e
      | none ↦
          if ps.truncated_term == ps.raft_state.last_term
          then value ps.raft_state.last_term
          else if idx == ps.raft_state.last_index
          then value ps.raft_state.last_term
          else term_of (ps.raft_log idx)
    ]

unfoldable pub last_index : PeerStorage → ℕ
last_index ps = ps.raft_state.last_index

unfoldable pub first_index : PeerStorage → ℕ
first_index ps = add64 ps.truncated_index 1

-- SetMeta at the key of the entry.
unfoldable pub set_entry : (ℕ → Slot) → Entry → ℕ → Slot
set_entry log e i = if i == e.index then holds e else log i

unfoldable pub set_entries : (ℕ → Slot) → List Entry → ℕ → Slot
unfolding set_entry
set_entries log [] = log
set_entries log (e ∷ es) = set_entries (set_entry log e) es

-- The batch of writes is applied at once, by SaveReadyState.
unfoldable pub append : PeerStorage → List Entry → PeerStorage
unfolding set_entries
append ps es =
    let log = set_entries ps.raft_log es in
    elim (get_last? es) [
      | none ↦ record ps { raft_log = log }
      | some e ↦ record ps {
        raft_log = log;
        raft_state = record ps.raft_state { last_index = e.index; last_term = e.term };
      }
    ]

unfoldable pub is_empty_hard_state : HardState → Bool
is_empty_hard_state hs = hard_state_equal hs empty_hard_state

-- For a Ready without a snapshot.
unfoldable pub save_ready_state : PeerStorage → List Entry → HardState → PeerStorage
unfolding append
save_ready_state ps es hs =
    let ps' = append ps es in
    if not (is_empty_hard_state hs)
    then (let state = record ps'.raft_state { hard_state = hs } in
        record ps' { raft_state = state; stored = state })
    else ps'

-- NewPeerStorage on what the engine has; the apply state there is that in memory.
unfoldable pub restart : PeerStorage → Result PeerStorage
restart ps =
    if ltb ps.stored.last_index ps.applied_index
    then panic explicit
    else ok (record ps { raft_state = ps.stored })

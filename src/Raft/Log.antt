-- ===== src/Raft/Log.antt =====
-- raft/log.go: the entries that a node holds in memory, and the marks on them.
pub mod Shape
pub mod Reads
pub mod Compact
pub mod Survives
use tinykv.Prelude.{
  ℕ, zero, suc, ◌+◌, ◌-◌, ◌≤◌, Bool, true, false, Option, none, some, List, [], ◌∷◌, ◌++◌, length,
  drop, get_last?, ltb, leb, ◌==◌, if◌then◌else◌, add64, sub64, Result, ok, panic, Panic,
  out_of_range, explicit, ◌>>=◌, index,
}
use tinykv.Raft.Pb.{Entry, Snapshot, HardState, ConfState}
use tinykv.Raft.Storage.{Storage, Reply, value, error, or_die}

pub record RaftLog : Type 0 where
  pub storage : Storage
  pub committed : ℕ
  pub applied : ℕ
  pub stabled : ℕ
  pub entries : List Entry
  pub pending_snapshot : Option Snapshot
  pub last_idx_of_snapshot : ℕ
  pub last_term_of_snapshot : ℕ

-- The error of `Term` is dropped, and the value that comes with an error is 0.
value_or_zero : Reply ℕ → ℕ
value_or_zero (value t) = t
value_or_zero (error e) = 0

unfoldable pub new_log : Storage → Result RaftLog
unfolding value_or_zero
new_log storage = do
  first_idx ← or_die storage.first_index
  last_idx ← or_die storage.last_index
  found ← storage.entries first_idx (add64 last_idx 1)
  entries ← or_die found
  let snap_idx = sub64 first_idx 1
  (hard_state, _) ← or_die storage.initial_state
  ok (record {
    storage = storage;
    committed = hard_state.commit;
    applied = snap_idx;
    stabled = last_idx;
    entries = entries;
    pending_snapshot = none;
    last_idx_of_snapshot = snap_idx;
    last_term_of_snapshot = value_or_zero (storage.term snap_idx);
  })

-- The place of an index in `entries`; `none` is Go's -1, an index that the snapshot covers.
unfoldable pub real_idx : RaftLog → ℕ → Result (Option ℕ)
real_idx l logical =
    if leb logical l.last_idx_of_snapshot
    then ok none
    else if leb (length l.entries) (logical - l.last_idx_of_snapshot - 1)
    then panic explicit
    else ok (some (logical - l.last_idx_of_snapshot - 1))

index_of_last : ℕ → Option Entry → ℕ
index_of_last snap none = snap
index_of_last snap (some e) = e.index

unfoldable pub last_index : RaftLog → ℕ
unfolding index_of_last
last_index l = index_of_last l.last_idx_of_snapshot (get_last? l.entries)

term_at : RaftLog → Option ℕ → Result ℕ
term_at l none = ok l.last_term_of_snapshot
term_at l (some i) = do e ← index l.entries i; ok e.term

-- The error that Go's `Term` returns is always nil.
unfoldable pub term : RaftLog → ℕ → Result ℕ
unfolding term_at
term l i = do at ← real_idx l i; term_at l at

-- The slice `entries[from:]` from a place of `real_idx`; from -1 is a fault of the runtime.
suffix_from : List Entry → Option ℕ → Result (List Entry)
suffix_from es none = panic out_of_range
suffix_from es (some i) = ok (drop i es)

-- The test is the negation of Go's, whose other branch returns.
unfoldable pub maybe_compact : RaftLog → Result RaftLog
unfolding suffix_from
maybe_compact l = do
  storage_first_idx ← or_die l.storage.first_index
  let snap_idx = sub64 storage_first_idx 1
  if leb snap_idx l.last_idx_of_snapshot then ok l else do
    snap_term ← term l snap_idx
    at ← real_idx l storage_first_idx
    entries ← suffix_from l.entries at
    ok (record l {
      last_term_of_snapshot = snap_term;
      entries = entries;
      last_idx_of_snapshot = snap_idx;
    })

unfoldable pub has_unstable_ents : RaftLog → Bool
has_unstable_ents l = ltb l.stabled (last_index l)

-- Go's integers from -1 on, moved up by one.
abbrev pub above : Option ℕ → ℕ
above none = 0
above (some i) = suc i

-- `for idx := from; idx < from+rounds; idx++ { ents = append(ents, entries[idx]) }`
unfoldable pub collect : List Entry → ℕ → ℕ → Result (List Entry)
collect es from zero = ok []
collect es from (suc rounds) = do
  e ← index es from
  rest ← collect es (suc from) rounds
  ok (e ∷ rest)

unfoldable pub unstable_entries : RaftLog → Result (List Entry)
unstable_entries l = do
  at ← real_idx l l.stabled
  last ← real_idx l (last_index l)
  collect l.entries (above at) (above last - above at)

unfoldable pub has_next_ents : RaftLog → Result Bool
has_next_ents l = do
  applied ← real_idx l l.applied
  commit ← real_idx l l.committed
  ok (ltb (above applied) (above commit))

unfoldable pub next_ents : RaftLog → Result (List Entry)
next_ents l = do
  applied ← real_idx l l.applied
  commit ← real_idx l l.committed
  collect l.entries (above applied) (above commit - above applied)

unfoldable pub append_entry : RaftLog → Entry → RaftLog
append_entry l e = record l { entries = l.entries ++ e ∷ [] }

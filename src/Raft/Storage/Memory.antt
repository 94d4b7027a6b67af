-- ===== src/Raft/Storage/Memory.antt =====
-- raft/storage.go: MemoryStorage. Its mutex makes each method one step, and has no counterpart.
-- A method that may return an error gives back the storage beside it.
use tinykv.Prelude.{
  ℕ, suc, ◌-◌, ◌&&◌, not, Option, none, some, List, [], ◌∷◌, ◌++◌, length, take, drop, ltb, leb,
  ◌==◌, if◌then◌else◌, add64, sub64, Result, ok, panic, out_of_range, explicit, nil_dereference,
  or_panic, index, ◌>>=◌,
}
use tinykv.Raft.Pb.{Entry, entry_normal, Snapshot, HardState, ConfState}
use tinykv.Raft.Storage.{
  StorageError, Reply, value, error, compacted, snap_out_of_date, unavailable,
}

-- ents[0] is a dummy that has the index and the term of the last compacted entry.
pub record MemoryStorage : Type 0 where
  pub hard_state : HardState
  pub snapshot : Snapshot
  pub ents : List Entry

unfoldable pub dummy : ℕ → ℕ → Entry
dummy i t = record { entry_type = entry_normal; term = t; index = i; payload = [] }

unfoldable pub new_memory_storage : MemoryStorage
unfolding dummy
new_memory_storage = record {
  hard_state = record { term = 0; vote = 0; commit = 0 };
  snapshot = record {
    payload = [];
    metadata = some (record { conf_state = some (record { nodes = [] }); index = 0; term = 0 });
  };
  ents = dummy 0 0 ∷ [];
}

unfoldable pub set_hard_state : MemoryStorage → HardState → MemoryStorage
set_hard_state ms st = record ms { hard_state = st }

-- The error is always nil.
unfoldable pub initial_state : MemoryStorage → Result (HardState × ConfState)
initial_state ms = do
  md ← or_panic nil_dereference ms.snapshot.metadata
  conf ← or_panic nil_dereference md.conf_state
  ok (ms.hard_state, conf)

offset : MemoryStorage → Result ℕ
offset ms = do e ← index ms.ents 0; ok e.index

unfoldable pub last_index : MemoryStorage → Result ℕ
unfolding offset
last_index ms = do i ← offset ms; ok (sub64 (add64 i (length ms.ents)) 1)

unfoldable pub first_index : MemoryStorage → Result ℕ
unfolding offset
first_index ms = do i ← offset ms; ok (add64 i 1)

-- s[lo:hi]
unfoldable pub slice : List Entry → ℕ → ℕ → Result (List Entry)
slice es lo hi =
    if leb lo hi && leb hi (length es) then ok (take (hi - lo) (drop lo es)) else panic out_of_range

unfoldable pub entries : MemoryStorage → ℕ → ℕ → Result (Reply (List Entry))
unfolding offset
entries ms lo hi = do
  base ← offset ms
  last ← last_index ms
  if leb lo base
      then ok (error compacted)
      else if ltb (add64 last 1) hi
      then panic explicit
      else (do
        found ← slice ms.ents (lo - base) (hi - base)
        ok (
            if length ms.ents == 1 && not (length found == 0)
            then error unavailable
            else value found))

unfoldable pub term : MemoryStorage → ℕ → Result (Reply ℕ)
unfolding offset
term ms i = do
  base ← offset ms
  if ltb i base
      then ok (error compacted)
      else if leb (length ms.ents) (i - base)
      then ok (error unavailable)
      else (do e ← index ms.ents (i - base); ok (value e.term))

unfoldable pub apply_snapshot :
    MemoryStorage → Snapshot → Result (MemoryStorage × Option StorageError)
unfolding dummy
apply_snapshot ms snap = do
  old ← or_panic nil_dereference ms.snapshot.metadata
  new ← or_panic nil_dereference snap.metadata
  ok (
      if leb new.index old.index
      then (ms, some snap_out_of_date)
      else (record ms { snapshot = snap; ents = dummy new.index new.term ∷ [] }, none))

conf_or : Option ConfState → Option ConfState → Option ConfState
conf_or old none = old
conf_or old (some cs) = some cs

-- The metadata that Go overwrites in place are those of the stored snapshot.
unfoldable pub create_snapshot :
    MemoryStorage → ℕ → Option ConfState → List ℕ → Result (MemoryStorage × Reply Snapshot)
unfolding offset conf_or
create_snapshot ms i cs bytes = do
  old ← or_panic nil_dereference ms.snapshot.metadata
  if leb i old.index then ok (ms, error snap_out_of_date) else do
    base ← offset ms
    last ← last_index ms
    if ltb last i then panic explicit else if ltb i base then panic out_of_range else (do
      e ← index ms.ents (i - base)
      let snap : Snapshot = record {
        payload = bytes;
        metadata =
            some (record { conf_state = conf_or old.conf_state cs; index = i; term = e.term });
      }
      ok (record ms { snapshot = snap }, value snap))

unfoldable pub compact : MemoryStorage → ℕ → Result (MemoryStorage × Option StorageError)
unfolding offset dummy
compact ms i = do
  base ← offset ms
  last ← last_index ms
  if leb i base then ok (ms, some compacted) else if ltb last i then panic explicit else (do
    e ← index ms.ents (i - base)
    ok (record ms { ents = dummy e.index e.term ∷ drop (suc (i - base)) ms.ents }, none))

-- Entries that follow the dummy, put where their index belongs.
unfoldable pub append_at : MemoryStorage → ℕ → List Entry → Result MemoryStorage
append_at ms base [] = panic out_of_range
append_at ms base (e ∷ es) =
    if ltb (e.index - base) (length ms.ents)
    then ok (record ms { ents = take (e.index - base) ms.ents ++ (e ∷ es) })
    else if length ms.ents == e.index - base
    then ok (record ms { ents = ms.ents ++ (e ∷ es) })
    else panic explicit

unfoldable pub append : MemoryStorage → List Entry → Result MemoryStorage
unfolding offset
append ms [] = ok ms
append ms (e ∷ es) = do
  base ← offset ms
  first ← first_index ms
  if ltb (sub64 (add64 e.index (length (e ∷ es))) 1) first
      then ok ms
      else append_at ms base (if ltb e.index first then drop (first - e.index) (e ∷ es) else e ∷ es)

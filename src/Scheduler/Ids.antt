-- ===== src/Scheduler/Ids.antt =====
-- scheduler/server/id/id.go: unique ids, which each leader of the scheduler takes from etcd by the
-- thousand. The mutex makes each call one step of its allocator.

pub mod Calls
pub mod Unique
use tinykv.Prelude.{
  ℕ, ◌+◌, ◌<◌, Bool, true, false, Option, none, some, List, [], ◌∷◌, length, ◌==◌, not,
  if◌then◌else◌, Bytes, put_uint64, uint64_of, add64, sub64,
}
use tinykv.Scheduler.Etcd.{
  Etcd, Comparison, not_created, value_is, alloc_id, leader, succeeded, not_succeeded, failed,
  found, read_failed, Read, Outcome,
}

abbrev pub alloc_step : ℕ
alloc_step = 1000

pub record Allocator : Type 0 where
  pub base : ℕ
  pub end : ℕ

unfoldable pub new_allocator : Allocator
new_allocator = record { base = 0; end = 0 }

pub data IdError : Type 0 where
  etcd_error invalid_data not_leader : IdError

pub data Reply : Type 0 where
  id : ℕ → Reply
  error : IdError → Reply

-- typeutil.BytesToUint64
unfoldable pub bytes_to_uint64 : Bytes → Option ℕ
bytes_to_uint64 b = if length b == 8 then some (uint64_of b) else none

-- The end that the read value stands for, and the comparison that it is still there.
unfoldable pub previous_end : Option Bytes → Option (ℕ × Comparison)
unfolding bytes_to_uint64
previous_end none = some (0, not_created alloc_id)
previous_end (some value) = elim (bytes_to_uint64 value) [
  | none ↦ none
  | some end ↦ some (end, value_is alloc_id value)
]

module _ (e : Etcd) where
  open e use {State, get, commit}

  -- The outcome of the transaction that puts the new end.
  unfoldable pub generated : ℕ → State × Outcome → State × Reply
  generated end (s, succeeded) = (s, id end)
  generated end (s, not_succeeded) = (s, error not_leader)
  generated end (s, failed) = (s, error etcd_error)

  unfoldable pub generate_from : Bytes → State → Option (ℕ × Comparison) → State × Reply
  generate_from member s none = (s, error invalid_data)
  generate_from member s (some (end, still)) =
      let end' = add64 end alloc_step in
      generated end' (commit s (still ∷ value_is leader member ∷ []) alloc_id (put_uint64 end'))

  -- `was` is etcd's state when the value is read, `s` that when the transaction is committed:
  -- between the two others may write.
  unfoldable pub generate : Bytes → State → State → State × Reply
  generate member was s = elim (get was alloc_id) [
    | read_failed ↦ (s, error etcd_error)
    | found value ↦ generate_from member s (previous_end value)
  ]

  unfoldable pub next_id : Allocator → State → Allocator × State × Reply
  next_id a s = let base = add64 a.base 1 in (record a { base = base }, s, id base)

  unfoldable pub with_range : Allocator → State × Reply → Allocator × State × Reply
  unfolding next_id
  with_range a (s, error r) = (a, s, error r)
  with_range a (s, id end) = next_id (record { base = sub64 end alloc_step; end = end }) s

  unfoldable pub alloc : Bytes → State → State → Allocator → Allocator × State × Reply
  unfolding next_id with_range generate
  alloc member was s a =
      if a.base == a.end then with_range a (generate member was s) else next_id a s

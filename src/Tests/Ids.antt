-- ===== src/Tests/Ids.antt =====
-- scheduler/server/id/id.go: allocators over an etcd that is a function from keys to values.
use tinykv.Prelude.{
  ◌≤◌, refl, arith, [], ◌∷◌, put_uint64, big_endian, add64, number_from, sub64, occurrences,
}
use tinykv.Scheduler.Etcd.{alloc_id}
use tinykv.Tests.Store.{Values, put, etcd, led}
use tinykv.Scheduler.Ids.{
  new_allocator, alloc, generate, generate_from, generated, with_range, next_id, previous_end,
  bytes_to_uint64,
}
use tinykv.Scheduler.Ids.Unique.{
  Becomes.here, Reach, Reach.start, Reach.created, Reach.called, Reach-unique,
}

abbrev once : Values
once = put led alloc_id (put_uint64 1000)

-- Two allocators of the same leader: one takes the first thousand, the other the second.
two_allocators :
    Reach etcd 2
      (put once alloc_id (put_uint64 2000))
      (record { base = 1001; end = 2000 } ∷ record { base = 1; end = 1000 } ∷ [])
      (1001 ∷ 1 ∷ [])
unfolding alloc generate generate_from generated with_range next_id previous_end bytes_to_uint64
    new_allocator big_endian add64 number_from sub64
two_allocators =
    called (7 ∷ []) once (created (called (7 ∷ []) led (created (start led refl)) here refl)) here
      refl

Reach-unique_example : occurrences 1001 (1001 ∷ 1 ∷ []) ≤ 1
Reach-unique_example = Reach-unique etcd two_allocators (omega arith) 1001

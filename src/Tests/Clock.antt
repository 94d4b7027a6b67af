-- ===== src/Tests/Clock.antt =====
-- scheduler/server/tso/tso.go: two leaders, the second with a clock that is a second behind.
use tinykv.Prelude.{
  ℕ, ◌+◌, ◌*◌, ◌-◌, ◌^◌, ◌≤◌, ◌<◌, ◌≡◌, refl, subst, arith, true, false, inl, inr, Option, none,
  some, List, [], ◌∷◌, Bytes, All, put_uint64, big_endian, add64, sub64, number_from, ok, panic,
  nil_dereference,
}
use tinykv.Tests.Store.{Values, put, etcd, led}
use tinykv.Scheduler.Etcd.{leader, timestamp}
use tinykv.Scheduler.Ids.{bytes_to_uint64}
use tinykv.Scheduler.Time.{
  unix_epoch, millisecond, unix_nano, unix_milli, from_unix_nano, int64_lt, parse_timestamp,
  sub_time_by_wall_clock,
}
use tinykv.Scheduler.Tso.{
  AtomicObject, TimestampOracle, new_timestamp_oracle, sync_timestamp, sync_from, load_timestamp,
  load_value, next_after, save_and_store, save_timestamp, saved, store_if_saved, take_lease, store,
  get_round, round_from, get_resp_ts, get_rounds, update_timestamp, update_from, update_to,
  next_physical, Timestamp, given,
}
use tinykv.Scheduler.Tso.Saves.{Saved, Saved-unique}
use tinykv.Scheduler.Tso.Safe.{Given, Increasing}
use tinykv.Scheduler.Tso.Steps.{Early}
use tinykv.Scheduler.Tso.Constraints.{update_timestamp-Constraints}
use tinykv.Scheduler.Tso.Refill.{update_timestamp-Refills}
use tinykv.Scheduler.Tso.Reach.{
  Reach, Reach.start, Reach.elected, Reach.others, Reach.synced, Reach.round, Reach.not_leading,
}
use tinykv.Scheduler.Tso.Order.{Reach-Increasing, Reach-Reserved}

-- 3 seconds, and a time in 2001.
abbrev interval : ℕ
interval = 3 * 10 ^ 9

abbrev now : ℕ
now = unix_epoch + 10 ^ 18

abbrev saved_by_first : Values
saved_by_first = put led timestamp (put_uint64 (10 ^ 18 + interval))

abbrev first_oracle : ℕ → TimestampOracle
first_oracle logical = record {
  ts = some (record { physical = now; logical = logical });
  last_saved_time = now + interval;
  has_lease = true;
}

abbrev given_by_first : List Given
given_by_first =
    (record { physical = 10 ^ 12; logical = 5 }, 3)
    ∷ (record { physical = 10 ^ 12; logical = 2 }, 2)
    ∷ []

Early-unique :
    (v : Option Bytes) (b : ℕ)
    → Saved v b
    → Early interval b
    → (last : ℕ) → Saved v last
    → Early interval last
Early-unique v b st h last st' = subst (Early interval) (Saved-unique v b last st st') h

room_for :
    (a : AtomicObject) (count : ℕ)
    → a.logical + count < 2 ^ 63
    → (c : AtomicObject) → some a ≡ some c
    → c.logical + count < 2 ^ 63
room_for a count h c same =
    let objects : a ≡ c = cc in subst (λ (b : AtomicObject). b.logical + count < 2 ^ 63) objects h

first_leader : Reach etcd interval saved_by_first (first_oracle 5) given_by_first
unfolding sync_timestamp sync_from load_timestamp load_value next_after save_and_store
    save_timestamp saved store_if_saved take_lease store get_round round_from new_timestamp_oracle
    int64_lt sub_time_by_wall_clock sub64 add64 unix_milli unix_nano
first_leader =
    round 3 false
      (round 2 false
        (synced (7 ∷ []) now led (start led refl) refl (omega arith) (omega arith)
          (Early-unique none 0 (inl (refl, refl)) (omega arith)) refl)
        (room_for (record { physical = now; logical = 0 }) 2 (omega arith)) refl)
      (room_for (record { physical = now; logical = 2 }) 3 (omega arith)) refl

abbrev second_led : Values
second_led = put saved_by_first leader (9 ∷ [])

-- The first leader's saved time, and a millisecond.
abbrev resumed : ℕ
resumed = now + interval + millisecond

abbrev saved_by_second : Values
saved_by_second = put second_led timestamp (put_uint64 (10 ^ 18 + 2 * interval + millisecond))

abbrev second_oracle : AtomicObject → TimestampOracle
second_oracle c = record { ts = some c; last_saved_time = resumed + interval; has_lease = true }

abbrev given_by_both : List Given
given_by_both = (record { physical = 10 ^ 12 + 3001; logical = 1 }, 1) ∷ given_by_first

second_leader :
    Reach etcd interval saved_by_second
      (second_oracle (record { physical = resumed; logical = 1 }))
      given_by_both
unfolding sync_timestamp sync_from load_timestamp load_value parse_timestamp bytes_to_uint64
    from_unix_nano number_from big_endian next_after save_and_store save_timestamp saved
    store_if_saved take_lease store get_round round_from new_timestamp_oracle int64_lt
    sub_time_by_wall_clock sub64 add64 unix_milli unix_nano
second_leader =
    round 1 false
      (synced (9 ∷ []) (now - 10 ^ 9) second_led
        (elected new_timestamp_oracle (others second_led first_leader refl) (inl refl)) refl
        (omega arith) (omega arith)
        (Early-unique (second_led timestamp) (now + interval)
          (inr (refl, (omega arith, omega arith))) (omega arith))
        refl)
      (room_for (record { physical = resumed; logical = 0 }) 1 (omega arith)) refl

-- The first leader, which still has its oracle, is asked again; its lease is over.
first_asked :
    Reach etcd interval saved_by_second
      (second_oracle (record { physical = resumed; logical = 1 }))
      given_by_both
unfolding get_round round_from int64_lt add64
first_asked = not_leading (first_oracle 5) (first_oracle 9) 4 true second_leader refl refl

Reach-Increasing_example : Increasing given_by_both
Reach-Increasing_example = Reach-Increasing etcd interval first_asked

Reach-Reserved_example :
    ((saved : ℕ) × Saved (saved_by_second timestamp) saved × (resumed + interval ≤ saved))
    × (resumed < resumed + interval)
    × (resumed + interval ≤ resumed + interval)
    × All (λ (g : Given). g.0.logical < 2 ^ 18) given_by_both
Reach-Reserved_example =
    Reach-Reserved etcd interval (record { physical = resumed; logical = 1 }) (omega arith)
      first_asked refl (λ z. omega (arith, z))

abbrev used_up : ℕ
used_up = 5 + 2 ^ 17

busy_leader :
    Reach etcd interval saved_by_first
      (first_oracle used_up)
      ((record { physical = 10 ^ 12; logical = used_up }, 2 ^ 17) ∷ given_by_first)
unfolding get_round round_from int64_lt add64 unix_milli unix_nano
busy_leader =
    round (2 ^ 17) false first_leader
      (room_for (record { physical = now; logical = 5 }) (2 ^ 17) (omega arith)) refl

-- The next millisecond.
abbrev refilled : TimestampOracle
refilled = record {
  ts = some (record { physical = now + millisecond; logical = 0 });
  last_saved_time = now + interval;
  has_lease = true;
}

update_behind :
    update_timestamp etcd (7 ∷ []) interval (now - 10 ^ 9) saved_by_first (first_oracle used_up)
    ≡ ok (saved_by_first, refilled, none)
unfolding update_timestamp update_from update_to next_physical store int64_lt sub_time_by_wall_clock
    sub64 unix_nano
update_behind = refl

update_timestamp-Constraints_example :
    (c' : AtomicObject) × (refilled.ts ≡ some c')
    × (now ≤ c'.physical)
    × (now + interval ≤ now + interval)
    × (c'.physical < now + interval)
    × ((saved : ℕ) × Saved (saved_by_first timestamp) saved × (now + interval ≤ saved))
update_timestamp-Constraints_example =
    update_timestamp-Constraints etcd (7 ∷ []) interval (now - 10 ^ 9)
      (record { physical = now; logical = used_up }) (omega arith) busy_leader refl
      (λ z. omega (arith, z)) (omega arith) (omega arith) (omega arith) update_behind

update_timestamp-Refills_example :
    (answered : TimestampOracle) × (p : Timestamp) × (get_resp_ts 1000
        (λ i. false)
        (λ i o. o)
        refilled
      ≡ ok (answered, given p))
    × (p.logical ≡ 1000)
    × (unix_milli now < p.physical)
update_timestamp-Refills_example =
    update_timestamp-Refills etcd (7 ∷ []) interval (now - 10 ^ 9)
      (record { physical = now; logical = used_up }) 1000 (λ i. false) (λ i o. o) busy_leader refl
      (λ z. omega (arith, z)) refl (omega arith) (omega arith) (omega arith) (omega arith)
      (omega arith) update_behind (omega arith) (omega arith) refl

-- A server that has never been the leader is asked for a timestamp.
nil_on_first_use :
    get_resp_ts 1 (λ i. false) (λ i o. o) new_timestamp_oracle ≡ panic nil_dereference
unfolding get_resp_ts get_rounds get_round new_timestamp_oracle
nil_on_first_use = refl

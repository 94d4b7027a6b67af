-- ===== src/Scheduler/Tso/Clock.antt =====
-- scheduler/pkg/typeutil/time.go: times between 1970 and 2043, where the differences of times do not
-- wrap, not even that to the zero time.
use tinykv.Prelude.{
  ℕ, ◌+◌, ◌-◌, ◌/◌, ◌^◌, ◌≤◌, ◌<◌, ◌≡◌, arith, false, ltb, sub64, some, put_uint64,
}
use tinykv.Scheduler.Ids.Calls.{bytes_to_uint64-put_uint64}
use tinykv.Scheduler.Time.{
  zero_time, unix_epoch, millisecond, unix_nano, unix_milli, from_unix_nano, int64_lt,
  sub_time_by_wall_clock, parse_timestamp,
}

abbrev pub Timely : ℕ → Type 0
Timely t = (unix_epoch ≤ t) × (t < unix_epoch + 2 ^ 61)

-- Up to a guard beyond them.
abbrev Near : ℕ → Type 0
Near t = (unix_epoch ≤ t) × (t < unix_epoch + 2 ^ 62)

unix_nano-eq : (t : ℕ) → Near t → unix_nano t ≡ t - unix_epoch
unfolding unix_nano
unix_nano-eq t h = omega arith

pub unix_milli-eq : (t : ℕ) → Timely t → unix_milli t ≡ (t - unix_epoch) / millisecond
unfolding unix_milli
unix_milli-eq t h = ground (arith, unix_nano-eq t (omega arith, omega arith))

pub int64_lt-sub :
    (a b g : ℕ)
    → Near a
    → Near b
    → g < 2 ^ 62
    → (int64_lt (sub_time_by_wall_clock a b) g ≡ ltb a (b + g))
      × (int64_lt g (sub_time_by_wall_clock a b) ≡ ltb (b + g) a)
unfolding sub_time_by_wall_clock sub64 int64_lt
int64_lt-sub a b g h k l = (
  ground (arith, unix_nano-eq a h, unix_nano-eq b k),
  ground (arith, unix_nano-eq a h, unix_nano-eq b k),
)

pub int64_lt-sub_zero :
    (a : ℕ) → Timely a → int64_lt (sub_time_by_wall_clock a zero_time) millisecond ≡ false
unfolding sub_time_by_wall_clock sub64 int64_lt unix_nano
int64_lt-sub_zero a h = ground arith

pub parse_timestamp-put : (t : ℕ) → Timely t → parse_timestamp (put_uint64 (unix_nano t)) ≡ some t
unfolding parse_timestamp from_unix_nano
parse_timestamp-put t h =
    let nano = unix_nano-eq t (omega arith, omega arith) in
    ground (arith, nano, bytes_to_uint64-put_uint64 (unix_nano t) (omega (arith, nano)))

-- ===== src/Scheduler/Time.antt =====
-- scheduler/pkg/typeutil/time.go and tsoutil/tso.go. A time is the number of nanoseconds since the
-- zero time.Time, the first of January of the year 1; of what Go's package time promises, UnixNano
-- is an int64, which wraps. An int64 is its 64 bits, read as a uint64.
use tinykv.Prelude.{
  ℕ, ◌+◌, ◌*◌, ◌-◌, ◌/◌, ◌%◌, ◌^◌, Bool, Option, none, some, ltb, if◌then◌else◌, Bytes, u64_mod,
  sub64,
}
use tinykv.Scheduler.Ids.{bytes_to_uint64}

abbrev pub zero_time : ℕ
zero_time = 0

abbrev pub unix_epoch : ℕ
unix_epoch = 62135596800 * 10 ^ 9

abbrev pub millisecond : ℕ
millisecond = 10 ^ 6

-- t.UnixNano()
unfoldable pub unix_nano : ℕ → ℕ
unix_nano t = (t + 4 * u64_mod - unix_epoch) % u64_mod

-- t.UnixNano() / int64(time.Millisecond), which rounds towards 0.
unfoldable pub unix_milli : ℕ → ℕ
unfolding unix_nano
unix_milli t =
    if ltb (unix_nano t) (2 ^ 63)
    then unix_nano t / millisecond
    else sub64 0 ((u64_mod - unix_nano t) / millisecond)

-- time.Unix(0, int64(nano))
unfoldable pub from_unix_nano : ℕ → ℕ
from_unix_nano nano = if ltb nano (2 ^ 63) then unix_epoch + nano else unix_epoch + nano - u64_mod

-- < on int64
unfoldable pub int64_lt : ℕ → ℕ → Bool
int64_lt a b = ltb ((a + 2 ^ 63) % u64_mod) ((b + 2 ^ 63) % u64_mod)

unfoldable pub parse_timestamp : Bytes → Option ℕ
parse_timestamp bytes = elim (bytes_to_uint64 bytes) [
  | none ↦ none
  | some nano ↦ some (from_unix_nano nano)
]

unfoldable pub sub_time_by_wall_clock : ℕ → ℕ → ℕ
unfolding unix_nano
sub_time_by_wall_clock after before = sub64 (unix_nano after) (unix_nano before)

-- The time of tsoutil.ParseTS.
unfoldable pub parse_ts : ℕ → ℕ
parse_ts ts = unix_epoch + ts / 2 ^ 18 * millisecond

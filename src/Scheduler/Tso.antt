-- ===== src/Scheduler/Tso.antt =====
-- scheduler/server/tso/tso.go: the timestamp oracle of the scheduler's leader. A call is one step;
-- the rounds of GetRespTS are steps of their own. The clock's readings and the expiry of the lease
-- are arguments.

pub mod Clock
pub mod Saves
pub mod Safe
pub mod Steps
pub mod Rounds
pub mod Reach
pub mod Order
pub mod Constraints
pub mod Refill
use tinykv.Prelude.{
  ℕ, ◌+◌, ◌*◌, ◌/◌, ◌^◌, zero, suc, Bool, true, false, not, ◌||◌, Option, none, some, List, [], ◌∷◌,
  ◌==◌, if◌then◌else◌, Bytes, put_uint64, add64, Result, ok, panic, nil_dereference, ◌>>=◌,
}
use tinykv.Scheduler.Etcd.{
  Etcd, value_is, timestamp, leader, succeeded, not_succeeded, failed, found, read_failed, Outcome,
}
use tinykv.Scheduler.Time.{
  zero_time, millisecond, unix_nano, unix_milli, int64_lt, parse_timestamp, sub_time_by_wall_clock,
  parse_ts,
}

abbrev pub update_timestamp_guard : ℕ
update_timestamp_guard = millisecond

abbrev pub max_logical : ℕ
max_logical = 2 ^ 18

abbrev pub max_retry_count : ℕ
max_retry_count = 100

pub record AtomicObject : Type 0 where
  pub physical : ℕ
  pub logical : ℕ

-- The field ts is `none` for a nil pointer.
pub record TimestampOracle : Type 0 where
  pub ts : Option AtomicObject
  pub last_saved_time : ℕ
  pub has_lease : Bool

unfoldable pub new_timestamp_oracle : TimestampOracle
new_timestamp_oracle = record { ts = none; last_saved_time = zero_time; has_lease = false }

pub data TsoError : Type 0 where
  etcd_error invalid_data not_leader lease_expired too_small too_large no_count no_timestamp :
      TsoError

pub data Loaded : Type 0 where
  loaded : ℕ → Loaded
  not_loaded : TsoError → Loaded

pub record Timestamp : Type 0 where
  pub physical : ℕ
  pub logical : ℕ

pub data Round : Type 0 where
  retry : Round
  given : Timestamp → Round
  refused : TsoError → Round

unfoldable pub load_value : Option Bytes → Loaded
load_value none = loaded zero_time
load_value (some []) = loaded zero_time
load_value (some (b ∷ bs)) = elim (parse_timestamp (b ∷ bs)) [
  | none ↦ not_loaded invalid_data
  | some t ↦ loaded t
]

-- StorePointer of a new object.
unfoldable pub store : ℕ → TimestampOracle → TimestampOracle
store next o = record o { ts = some (record { physical = next; logical = 0 }) }

-- Where the clock is behind the saved time, the timestamps go on from the saved time.
unfoldable pub next_after : ℕ → ℕ → ℕ
next_after last now =
    if int64_lt (sub_time_by_wall_clock now last) update_timestamp_guard
    then last + update_timestamp_guard
    else now

-- The new physical time, if there is to be one.
unfoldable pub next_physical : ℕ → AtomicObject → Option ℕ
next_physical now prev =
    if int64_lt update_timestamp_guard (sub_time_by_wall_clock now prev.physical)
    then some now
    else if int64_lt (max_logical / 2) prev.logical
    then some (prev.physical + millisecond)
    else none

unfoldable pub reset_timestamp : TimestampOracle → TimestampOracle
unfolding store
reset_timestamp o = store zero_time o

unfoldable pub round_from : ℕ → Bool → TimestampOracle → AtomicObject → TimestampOracle × Round
round_from count expired o current =
    if current.physical == zero_time
    then (o, retry)
    else let logical = add64 current.logical count in
      let o' = record o { ts = some (record current { logical = logical }) } in
      if not (int64_lt logical max_logical)
      then (o', retry)
      else if not o.has_lease || expired
      then (o', refused lease_expired)
      else (o', given (record { physical = unix_milli current.physical; logical = logical }))

-- A round of GetRespTS's loop.
unfoldable pub get_round : ℕ → Bool → TimestampOracle → Result (TimestampOracle × Round)
unfolding round_from
get_round count expired o = elim o.ts [
  | none ↦ panic nil_dereference
  | some current ↦ ok (round_from count expired o current)
]

-- The rounds that are left: `expired` and `sleep` are what the lease and the other calls do in each.
unfoldable pub get_rounds :
    ℕ
    → ℕ
    → (ℕ → Bool)
    → (ℕ → TimestampOracle → TimestampOracle)
    → TimestampOracle
    → Result (TimestampOracle × Round)
get_rounds zero count expired sleep o = ok (o, refused no_timestamp)
get_rounds (suc rounds) count expired sleep o = get_round count (expired rounds) o >>= λ p.
    elim p.1 [
      | retry ↦ get_rounds rounds count expired sleep (sleep rounds p.0)
      | given t ↦ ok p
      | refused err ↦ ok p
    ]

unfoldable pub get_resp_ts :
    ℕ
    → (ℕ → Bool)
    → (ℕ → TimestampOracle → TimestampOracle)
    → TimestampOracle
    → Result (TimestampOracle × Round)
unfolding get_rounds
get_resp_ts count expired sleep o =
    if count == 0
    then ok (o, refused no_count)
    else get_rounds max_retry_count count expired sleep o

module _ (e : Etcd) (member : Bytes) (save_interval : ℕ) where
  open e use {State, get, commit}

  unfoldable pub load_timestamp : State → Loaded
  unfolding load_value
  load_timestamp s = elim (get s timestamp) [
    | read_failed ↦ not_loaded etcd_error
    | found value ↦ load_value value
  ]

  unfoldable pub saved :
      ℕ → TimestampOracle → State × Outcome → State × TimestampOracle × Option TsoError
  saved ts o (s, succeeded) = (s, record o { last_saved_time = ts }, none)
  saved ts o (s, not_succeeded) = (s, o, some not_leader)
  saved ts o (s, failed) = (s, o, some etcd_error)

  unfoldable pub save_timestamp :
      State → TimestampOracle → ℕ → State × TimestampOracle × Option TsoError
  unfolding saved
  save_timestamp s o ts =
      saved ts o (commit s (value_is leader member ∷ []) timestamp (put_uint64 (unix_nano ts)))

  -- What follows on a save: the new time is stored if there was no error.
  unfoldable pub store_if_saved :
      ℕ → State × TimestampOracle × Option TsoError → State × TimestampOracle × Option TsoError
  unfolding store
  store_if_saved next (s, o, none) = (s, store next o, none)
  store_if_saved next (s, o, some err) = (s, o, some err)

  unfoldable pub save_and_store :
      State → TimestampOracle → ℕ → State × TimestampOracle × Option TsoError
  unfolding save_timestamp store_if_saved
  save_and_store s o next = store_if_saved next (save_timestamp s o (next + save_interval))

  unfoldable pub take_lease :
      State × TimestampOracle × Option TsoError → State × TimestampOracle × Option TsoError
  take_lease (s, o, none) = (s, record o { has_lease = true }, none)
  take_lease (s, o, some err) = (s, o, some err)

  unfoldable pub sync_from :
      ℕ → State → TimestampOracle → Loaded → State × TimestampOracle × Option TsoError
  unfolding take_lease save_and_store next_after
  sync_from now s o (not_loaded err) = (s, o, some err)
  sync_from now s o (loaded last) = take_lease (save_and_store s o (next_after last now))

  -- `was` is etcd's state when the saved time is read, `s` that when the new one is saved.
  unfoldable pub sync_timestamp :
      ℕ → State → State → TimestampOracle → State × TimestampOracle × Option TsoError
  unfolding sync_from load_timestamp
  sync_timestamp now was s o = sync_from now s o (load_timestamp was)

  unfoldable pub update_to : State → TimestampOracle → ℕ → State × TimestampOracle × Option TsoError
  unfolding save_and_store store
  update_to s o next =
      if not (int64_lt update_timestamp_guard (sub_time_by_wall_clock o.last_saved_time next))
      then save_and_store s o next
      else (s, store next o, none)

  unfoldable pub update_from :
      ℕ → State → TimestampOracle → AtomicObject → State × TimestampOracle × Option TsoError
  unfolding update_to
  update_from now s o prev = elim (next_physical now prev) [
    | none ↦ (s, o, none)
    | some next ↦ update_to s o next
  ]

  unfoldable pub update_timestamp :
      ℕ → State → TimestampOracle → Result (State × TimestampOracle × Option TsoError)
  unfolding update_from
  update_timestamp now s o = elim o.ts [
    | none ↦ panic nil_dereference
    | some prev ↦ ok (update_from now s o prev)
  ]

  unfoldable pub reset_user_from :
      ℕ → State → TimestampOracle → ℕ → AtomicObject → State × TimestampOracle × Option TsoError
  unfolding save_and_store
  reset_user_from max_gap s o next prev =
      let gap = sub_time_by_wall_clock next prev.physical in
      if not (int64_lt (3 * update_timestamp_guard) gap)
      then (s, o, some too_small)
      else if not (int64_lt gap max_gap)
      then (s, o, some too_large)
      else save_and_store s o next

  unfoldable pub reset_user_timestamp :
      ℕ → ℕ → Bool → State → TimestampOracle → Result (State × TimestampOracle × Option TsoError)
  unfolding reset_user_from
  reset_user_timestamp max_gap tso expired s o =
      if not o.has_lease || expired then ok (s, o, some lease_expired) else elim o.ts [
        | none ↦ panic nil_dereference
        | some prev ↦ ok (reset_user_from max_gap s o (parse_ts tso + millisecond) prev)
      ]

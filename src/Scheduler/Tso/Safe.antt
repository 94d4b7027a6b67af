-- ===== src/Scheduler/Tso/Safe.antt =====
-- scheduler/server/tso/tso.go: the state in which no timestamp is given twice, and that storing a
-- new time keeps it.
use tinykv.Prelude.{
  ℕ, ◌+◌, ◌*◌, ◌-◌, ◌/◌, ◌^◌, ◌≤◌, ◌<◌, ◌≡◌, ◌⊎◌, refl, sym, subst, arith, inl, inr, Option, none,
  some, List, [], ◌∷◌, Bytes, All, All_map,
}
use tinykv.Scheduler.Time.{zero_time, unix_epoch, millisecond}
use tinykv.Scheduler.Tso.{AtomicObject, TimestampOracle, Timestamp, store}
use tinykv.Scheduler.Tso.Clock.{Timely}
use tinykv.Scheduler.Tso.Saves.{Saved}

-- The number that a client makes of a timestamp.
abbrev pub composed : Timestamp → ℕ
composed t = t.physical * 2 ^ 18 + t.logical

-- A timestamp as it was given, and how many it stands for: itself and the ones below it.
abbrev pub Given : Type 0
Given = Timestamp × ℕ

-- All of an answer's timestamps are above all those of the answers before it.
abbrev pub Increasing : List Given → Type 0
Increasing [] = Unit
Increasing ((t, count) ∷ rest) =
    All (λ (g : Given). composed g.0 + count ≤ composed t) rest × Increasing rest

-- The millisecond of the timestamp has begun, or is over, at the time.
abbrev pub Begun : ℕ → Given → Type 0
Begun time g = (g.0.logical < 2 ^ 18) × (unix_epoch + g.0.physical * millisecond ≤ time)

abbrev pub Over : ℕ → Given → Type 0
Over time g = (g.0.logical < 2 ^ 18) × (unix_epoch + (1 + g.0.physical) * millisecond ≤ time)

abbrev pub Idle : Option AtomicObject → Type 0
Idle ts = (ts ≡ none) ⊎ ((c : AtomicObject) × (ts ≡ some c) × (c.physical ≡ zero_time))

-- One physical time, the last time that the leader knows to be saved, and the saved one.
pub record Running (interval : ℕ) (o : TimestampOracle) (c : AtomicObject) (saved : ℕ)
    (issued : List Given) : Type 0 where
  pub current : o.ts ≡ some c
  pub timely : Timely c.physical
  pub reserved : c.physical ≤ o.last_saved_time
  pub below : 0 < interval → c.physical < o.last_saved_time
  pub narrow : o.last_saved_time ≤ c.physical + interval
  pub known : o.last_saved_time ≤ saved
  pub saved_timely : Timely o.last_saved_time
  pub begun : All (Begun c.physical) issued
  pub before :
      All
        (λ (g : Given). composed g.0 ≤ (c.physical - unix_epoch) / millisecond * 2 ^ 18 + c.logical)
        issued

pub record Safe (interval : ℕ) (stored : Option Bytes) (o : TimestampOracle) (issued : List Given)
    : Type 0 where
  pub saved : ℕ
  pub is_saved : Saved stored saved
  pub covered : All (Begun saved) issued
  pub increasing : Increasing issued
  pub state : Idle o.ts ⊎ ((c : AtomicObject) × Running interval o c saved issued)

pub Begun-Over :
    (time next : ℕ) (issued : List Given)
    → time + millisecond ≤ next
    → All (Begun time) issued
    → All (Over next) issued
Begun-Over time next issued h = All_map (λ g b. (b.0, omega (arith, b.1, h))) issued

pub Over-Begun :
    (next time : ℕ) (issued : List Given)
    → next ≤ time
    → All (Over next) issued
    → All (Begun time) issued
Over-Begun next time issued h = All_map (λ g b. (b.0, omega (arith, b.1, h))) issued

-- The new time is stored, behind everything that was given.
pub store-Safe :
    (interval : ℕ) (stored : Option Bytes) (o : TimestampOracle) (next saved : ℕ)
    (issued : List Given)
    → Saved stored saved
    → Increasing issued
    → All (Over next) issued
    → Timely next
    → Timely o.last_saved_time
    → next ≤ o.last_saved_time
    → (0 < interval → next < o.last_saved_time)
    → o.last_saved_time ≤ next + interval
    → o.last_saved_time ≤ saved
    → Safe interval stored (store next o) issued
unfolding store
store-Safe interval stored o next saved issued st inc over t tl h less k l = record {
  saved = saved;
  is_saved = st;
  covered = Over-Begun next saved issued (omega arith) over;
  increasing = inc;
  state = inr (
    record { physical = next; logical = 0 },
    record {
      current = refl;
      timely = t;
      reserved = h;
      below = less;
      narrow = k;
      known = l;
      saved_timely = tl;
      begun = Over-Begun next next issued (omega arith) over;
      before = All_map (λ g b. omega (arith, b)) issued over;
    },
  );
}

-- The oracle stays as it is, and the saved time may have become a later one.
pub kept-Safe :
    (interval : ℕ) (before after : Option Bytes) (o : TimestampOracle) (next : ℕ)
    (issued : List Given)
    → (safe : Safe interval before o issued) → All (Over next) issued
    → o.last_saved_time ≤ next + interval ⊎ Idle o.ts
    → (after ≡ before) ⊎ Saved after (next + interval)
    → Safe interval after o issued
kept-Safe interval before after o next issued safe over room (inl same) =
    subst (λ v. Safe interval v o issued) (sym same) safe
kept-Safe interval before after o next issued safe over room (inr st) = record {
  saved = next + interval;
  is_saved = st;
  covered = Over-Begun next (next + interval) issued (omega arith) over;
  increasing = safe.increasing;
  state = elim room [
    | inr idle ↦ inl idle
    | inl enough ↦ elim safe.state [
      | inl idle ↦ inl idle
      | inr (c, r) ↦ inr (
        c,
        record {
          current = r.current;
          timely = r.timely;
          reserved = r.reserved;
          below = r.below;
          narrow = r.narrow;
          known = enough;
          saved_timely = r.saved_timely;
          begun = r.begun;
          before = r.before;
        },
      )
    ]
  ];
}

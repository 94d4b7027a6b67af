-- ===== src/Scheduler/Tso/Reach.antt =====
-- scheduler/server/tso/tso.go: the calls of one leader after another, and of the other servers, over
-- one etcd.
use tinykv.Prelude.{
  ℕ, ◌+◌, ◌^◌, ◌≤◌, ◌<◌, ◌≡◌, ◌≢◌, ap, ◌∙◌, Bool, Bool-cases, not, ◌||◌, inl, inr, Option, none,
  some, List, [], Bytes, ok, panic, if_true, if_false, ◌==◌, nil_dereference, add64, true,
}
use tinykv.Scheduler.Etcd.{Etcd, timestamp}
use tinykv.Scheduler.Time.{zero_time, unix_epoch, millisecond, parse_ts, int64_lt}
use tinykv.Scheduler.Tso.{
  AtomicObject, TimestampOracle, TsoError, Round, new_timestamp_oracle, round_from, get_round,
  reset_timestamp, sync_timestamp, update_timestamp, reset_user_timestamp, max_logical,
}
use tinykv.Scheduler.Tso.Saves.{Saved}
use tinykv.Scheduler.Tso.Safe.{Given, Idle}
use tinykv.Scheduler.Tso.Steps.{Early}
use tinykv.Scheduler.Tso.Rounds.{give}

-- The oracle has been synchronised with etcd, and early enough.
abbrev pub Synced : ℕ → TimestampOracle → Type 0
Synced interval o =
    (c : AtomicObject) × (o.ts ≡ some c)
    × (c.physical ≢ zero_time)
    × Early interval (c.physical + millisecond)

pub get_round-none :
    (count : ℕ) (expired : Bool) (o : TimestampOracle)
    → o.ts ≡ none
    → get_round count expired o ≡ panic nil_dereference
unfolding get_round
get_round-none count expired o gone =
    ap
      (λ (m : Option AtomicObject). elim m [
        | none ↦ panic nil_dereference
        | some c ↦ ok (round_from count expired o c)
      ])
      gone

pub get_round-some :
    (count : ℕ) (expired : Bool) (o : TimestampOracle) (c : AtomicObject)
    → o.ts ≡ some c
    → get_round count expired o ≡ ok (round_from count expired o c)
unfolding get_round
get_round-some count expired o c has =
    ap
      (λ (m : Option AtomicObject). elim m [
        | none ↦ panic nil_dereference
        | some c ↦ ok (round_from count expired o c)
      ])
      has

-- Without a valid lease no timestamp is given.
pub round_from-unleased :
    (count : ℕ) (expired : Bool) (o : TimestampOracle) (c : AtomicObject) (issued : List Given)
    → (not o.has_lease || expired) ≡ true
    → give count (round_from count expired o c).1 issued ≡ issued
unfolding round_from
round_from-unleased count expired o c issued over = elim (Bool-cases (c.physical == zero_time)) [
  | inl unset ↦ ap (λ (p : TimestampOracle × Round). give count p.1 issued) (if_true _ _ unset)
  | inr set ↦
      ap (λ (p : TimestampOracle × Round). give count p.1 issued) (if_false _ _ set)
      ∙ elim (Bool-cases (int64_lt (add64 c.logical count) max_logical)) [
        | inr full ↦
            ap (λ (p : TimestampOracle × Round). give count p.1 issued) (if_true _ _ (ap not full))
        | inl fits ↦
            ap (λ (p : TimestampOracle × Round). give count p.1 issued)
              (if_false _ _ (ap not fits) ∙ if_true _ _ over)
      ]
]

module _ (e : Etcd) (interval : ℕ) where
  open e use {State, values}

  -- Reach s o issued: the state of etcd, the oracle of the leader, and the timestamps that there
  -- have been, the newest first. All times are before 2043, and only the leader writes the
  -- timestamp. A next leader's oracle is unused or reset. Every other server, former leaders with
  -- whatever is in their oracles included, may be asked too, but has no valid lease.
  pub data Reach : State → TimestampOracle → List Given → Type 0 where
    start : (s : State) → values s timestamp ≡ none → Reach s new_timestamp_oracle []
    elected :
        {s : State} {o : TimestampOracle} {issued : List Given} (o' : TimestampOracle)
        → Reach s o issued
        → Idle o'.ts
        → Reach s o' issued
    others :
        {s : State} {o : TimestampOracle} {issued : List Given} (t : State)
        → Reach s o issued
        → values t timestamp ≡ values s timestamp
        → Reach t o issued
    synced :
        {s t : State} {o o' : TimestampOracle} {issued : List Given} {err : Option TsoError}
        (member : Bytes) (now : ℕ) (was : State)
        → Reach s o issued
        → values was timestamp ≡ values s timestamp
        → unix_epoch ≤ now
        → Early interval now
        → ((last : ℕ) → Saved (values s timestamp) last → Early interval last)
        → sync_timestamp e member interval now was s o ≡ (t, o', err)
        → Reach t o' issued
    updated :
        {s t : State} {o o' : TimestampOracle} {issued : List Given} {err : Option TsoError}
        (member : Bytes) (now : ℕ)
        → Reach s o issued
        → Synced interval o
        → unix_epoch ≤ now
        → Early interval now
        → update_timestamp e member interval now s o ≡ ok (t, o', err)
        → Reach t o' issued
    user_reset :
        {s t : State} {o o' : TimestampOracle} {issued : List Given} {err : Option TsoError}
        (member : Bytes) (max_gap tso : ℕ) (expired : Bool)
        → Reach s o issued
        → Synced interval o
        → Early interval (parse_ts tso + millisecond)
        → reset_user_timestamp e member interval max_gap tso expired s o ≡ ok (t, o', err)
        → Reach t o' issued
    reset :
        {s : State} {o : TimestampOracle} {issued : List Given}
        → Reach s o issued
        → Reach s (reset_timestamp o) issued
    round :
        {s : State} {o o' : TimestampOracle} {issued : List Given} {r : Round} (count : ℕ)
        (expired : Bool)
        → Reach s o issued
        → ((c : AtomicObject) → o.ts ≡ some c → c.logical + count < 2 ^ 63)
        → get_round count expired o ≡ ok (o', r)
        → Reach s o' (give count r issued)
    not_leading :
        {s : State} {o : TimestampOracle} {issued : List Given} {r : Round} (d d' : TimestampOracle)
        (count : ℕ) (expired : Bool)
        → Reach s o issued
        → (not d.has_lease || expired) ≡ true
        → get_round count expired d ≡ ok (d', r)
        → Reach s o (give count r issued)

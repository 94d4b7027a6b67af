-- ===== src/Scheduler/Tso/Refill.antt =====
-- scheduler/server/tso/tso.go: a leader that has used up its logical times goes on after an update.
use tinykv.Prelude.{
  ℕ, suc, ◌+◌, ◌/◌, ◌^◌, ◌≤◌, ◌<◌, ◌≡◌, ◌≢◌, refl, sym, ap, ◌∙◌, subst, arith, Bool, true, false,
  Bool-cases, not, ◌||◌, ◌==◌, inl, inr, Option, none, some, List, [], Bytes, ok, ◌>>=◌,
  ok-injective, if_true, if_false, add64, add64-eq,
}
use tinykv.Scheduler.Etcd.{Etcd}
use tinykv.Scheduler.Time.{
  zero_time, unix_epoch, millisecond, unix_milli, int64_lt, sub_time_by_wall_clock,
}
use tinykv.Scheduler.Tso.{
  AtomicObject, TimestampOracle, TsoError, Timestamp, Round, retry, given, refused, store,
  round_from, get_round, get_rounds, get_resp_ts, update_timestamp, update_from, update_to,
  next_physical, save_and_store, max_logical, update_timestamp_guard,
}
use tinykv.Scheduler.Tso.Clock.{Timely, unix_milli-eq}
use tinykv.Scheduler.Tso.Saves.{Stored, save_and_store-Stored}
use tinykv.Scheduler.Tso.Safe.{Given}
use tinykv.Scheduler.Tso.Steps.{Early, next_physical-bounds}
use tinykv.Scheduler.Tso.Reach.{Reach, get_round-some}
use tinykv.Scheduler.Tso.Order.{Reach-Safe, running, update_timestamp-some}

-- The answer to a request for the logical times of a new physical time.
abbrev first_answer : TimestampOracle → ℕ → ℕ → TimestampOracle × Round
first_answer o next count = (
  record o { ts = some (record { physical = next; logical = count }) },
  given (record { physical = unix_milli next; logical = count }),
)

module _ (o : TimestampOracle) (next count : ℕ) (ne : next ≢ zero_time) (some_asked : 0 < count)
    (few_asked : count < max_logical) (lease : o.has_lease ≡ true) where
  round_from-answers :
      round_from count false (store next o) (record { physical = next; logical = 0 })
      ≡ first_answer o next count
  unfolding round_from store
  round_from-answers =
      let sum : add64 0 count ≡ count = add64-eq 0 count (omega (arith, few_asked)) ∙ omega arith in
      let fits : int64_lt (add64 0 count) max_logical ≡ true =
        unfold int64_lt in ground (arith, sum, few_asked) in
      let held : (not o.has_lease || false) ≡ false = ground (arith, lease) in
      let synced : (next == zero_time) ≡ false = ground (arith, ne) in
      if_false _ _ synced
      ∙ if_false _ _ (ap not fits)
      ∙ if_false _ _ held
      ∙ ap (first_answer o next) sum

  get_rounds-answers :
      (rounds : ℕ) (expired : ℕ → Bool) (sleep : ℕ → TimestampOracle → TimestampOracle)
      → expired rounds ≡ false
      → get_rounds (suc rounds) count expired sleep (store next o) ≡ ok (first_answer o next count)
  unfolding get_rounds store
  get_rounds-answers rounds expired sleep valid =
      let round : get_round count (expired rounds) (store next o) ≡ ok (first_answer o next count) =
        ap (λ b. get_round count b (store next o)) valid
        ∙ get_round-some count false (store next o) (record { physical = next; logical = 0 }) refl
        ∙ ap ok round_from-answers in
      ap
        (λ m. m >>= λ (p : TimestampOracle × Round). elim p.1 [
          | retry ↦ get_rounds rounds count expired sleep (sleep rounds p.0)
          | given t ↦ ok p
          | refused err ↦ ok p
        ])
        round

  get_resp_ts-answers :
      (expired : ℕ → Bool) (sleep : ℕ → TimestampOracle → TimestampOracle)
      → expired 99 ≡ false
      → get_resp_ts count expired sleep (store next o) ≡ ok (first_answer o next count)
  unfolding get_resp_ts
  get_resp_ts-answers expired sleep valid =
      let asked : (count == 0) ≡ false = ground (arith, some_asked) in
      if_false _ _ asked ∙ get_rounds-answers 99 expired sleep valid

module _ (e : Etcd) (member : Bytes) (interval : ℕ) where
  open e use {State, values}

  update_to-stores :
      (s t : State) (o o' : TimestampOracle) (next : ℕ)
      → Timely (next + interval)
      → update_to e member interval s o next ≡ (t, o', none)
      → (o1 : TimestampOracle) × (o' ≡ store next o1) × (o1.has_lease ≡ o.has_lease)
  unfolding update_to
  update_to-stores s t o o' next h q =
      elim (Bool-cases
        (int64_lt update_timestamp_guard (sub_time_by_wall_clock o.last_saved_time next))) [
          | inl wide ↦ (
            o,
            sym (
                ap (λ (p : State × TimestampOracle × Option TsoError). p.1)
                  (sym (if_false _ _ (ap not wide)) ∙ q)),
            refl,
          )
          | inr tight ↦
              let saving : save_and_store e member interval s o next ≡ (t, o', none) =
                sym (if_true _ _ (ap not tight)) ∙ q in
              elim (subst (Stored e member interval s o next) saving
                (save_and_store-Stored e member interval s o next h)) [
                  | inl (done, same, st) ↦
                      (record o { last_saved_time = next + interval }, same, refl)
                  | inr ((x, fault), same, st) ↦ absurd (ground (arith, fault))
                ]
        ]

  update_from-stores :
      (now : ℕ) (s t : State) (o o' : TimestampOracle) (c : AtomicObject)
      → Timely c.physical
      → unix_epoch ≤ now
      → Early interval now
      → Early interval (c.physical + millisecond)
      → max_logical / 2 < c.logical
      → c.logical < 2 ^ 63
      → update_from e member interval now s o c ≡ (t, o', none)
      → (next : ℕ) × (o1 : TimestampOracle) × (c.physical + millisecond ≤ next)
        × Timely next
        × (o' ≡ store next o1)
        × (o1.has_lease ≡ o.has_lease)
  unfolding update_from next_physical
  update_from-stores now s t o o' c tm h k l used room q =
      elim (next_physical-bounds e member interval [] now c tm h k l) [
        | inl same ↦
            let test : int64_lt (max_logical / 2) c.logical ≡ true =
              unfold int64_lt in ground (arith, used, room) in
            absurd (ground (arith, test, same))
        | inr (next, new, later, early) ↦
            let runs : update_to e member interval s o next ≡ (t, o', none) =
              sym (
                ap
                  (λ (n : Option ℕ). elim n [
                    | none ↦ (s, o, none)
                    | some next ↦ update_to e member interval s o next
                  ])
                  new)
              ∙ q in
            let (o1, stored, lease) =
              update_to-stores s t o o' next (omega (arith, later, tm), omega (arith, early))
                runs in
            (next, o1, later, (omega (arith, later, tm), omega (arith, early)), stored, lease)
      ]

  -- When more than half of the logical times are used up, an UpdateTimestamp without an error makes
  -- room whatever the clock says: a request for up to 2^18 - 1 timestamps is answered in its first
  -- round, of a later millisecond, while the lease is valid.
  pub update_timestamp-Refills :
      {s t : State} {o o' : TimestampOracle} {issued : List Given} (now : ℕ) (c : AtomicObject)
      (count : ℕ) (expired : ℕ → Bool) (sleep : ℕ → TimestampOracle → TimestampOracle)
      → Reach e interval s o issued
      → o.ts ≡ some c
      → c.physical ≢ zero_time
      → o.has_lease ≡ true
      → unix_epoch ≤ now
      → Early interval now
      → Early interval (c.physical + millisecond)
      → max_logical / 2 < c.logical
      → c.logical < 2 ^ 63
      → update_timestamp e member interval now s o ≡ ok (t, o', none)
      → 0 < count
      → count < max_logical
      → expired 99 ≡ false
      → (answered : TimestampOracle) × (p : Timestamp) × (get_resp_ts count expired sleep o'
          ≡ ok (answered, given p))
        × (p.logical ≡ count)
        × (unix_milli c.physical < p.physical)
  update_timestamp-Refills {s = s} {t = t} {o = o} {o' = o'} {issued = issued} now c count expired
        sleep x has ne lease h k l used room q asked few valid =
      let safe = Reach-Safe e interval x in
      let r = running e interval s o issued c safe has ne in
      let runs = ok-injective (sym (update_timestamp-some e interval member now s o c has) ∙ q) in
      let (next, o1, later, timely, stored, kept) =
        update_from-stores now s t o o' c r.timely h k l used room runs in
      let answer =
        get_resp_ts-answers o1 next count (λ z. omega (arith, later, r.timely, z)) asked few
          (kept ∙ lease) expired sleep valid in
      (
        (first_answer o1 next count).0,
        record { physical = unix_milli next; logical = count },
        ap (get_resp_ts count expired sleep) stored ∙ answer,
        refl,
        omega
            (arith, unix_milli-eq c.physical r.timely, unix_milli-eq next timely, later, r.timely),
      )

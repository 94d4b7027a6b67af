-- ===== src/Scheduler/Tso/Steps.antt =====
-- scheduler/server/tso/tso.go: each operation keeps the state safe.
use tinykv.Prelude.{
  ℕ, ◌+◌, ◌*◌, ◌/◌, ◌^◌, ◌≤◌, ◌<◌, ◌≡◌, ◌⊎◌, sym, ap, ◌∙◌, subst, arith, Bool-cases, not, ltb,
  if◌then◌else◌, if_true, if_false, ltb→lt, inl, inr, Option, none, some, List, Bytes, All,
}
use tinykv.Scheduler.Etcd.{Etcd, timestamp}
use tinykv.Scheduler.Time.{unix_epoch, millisecond, int64_lt, sub_time_by_wall_clock}
use tinykv.Scheduler.Tso.{
  AtomicObject, TimestampOracle, TsoError, loaded, next_after, next_physical, save_and_store,
  take_lease, sync_from, sync_timestamp, update_to, update_from, reset_user_from, max_logical,
  update_timestamp_guard,
}
use tinykv.Scheduler.Tso.Clock.{Timely, int64_lt-sub, int64_lt-sub_zero}
use tinykv.Scheduler.Tso.Saves.{Saved, Stored, save_and_store-Stored, load_timestamp-cases}
use tinykv.Scheduler.Tso.Safe.{Given, Over, Idle, Running, Safe, Begun-Over, store-Safe, kept-Safe}

-- Early enough for what is saved to be before 2043.
abbrev pub Early : ℕ → ℕ → Type 0
Early interval n = n + interval + millisecond < unix_epoch + 2 ^ 61

next_after-bounds :
    (interval last now : ℕ) (v : Option Bytes)
    → Saved v last
    → unix_epoch ≤ now
    → Early interval now
    → Early interval last
    → let next = next_after last now in
      (last + millisecond ≤ next) × Timely next × Timely (next + interval)
unfolding next_after
next_after-bounds interval last now v (inl (e, z)) h k l =
    let same : next_after last now ≡ now =
      ap (λ b. next_after b now) z
      ∙ if_false _ _ (int64_lt-sub_zero now (omega arith, omega (arith, k))) in
    (
      omega (arith, same, z, h),
      (omega (arith, same, h), omega (arith, same, k)),
      (omega (arith, same, h), omega (arith, same, k)),
    )
next_after-bounds interval last now v (inr (e, t)) h k l =
    let test =
      (int64_lt-sub now last millisecond (omega arith, omega (arith, k))
        (omega arith, omega (arith, t)) (omega arith)).0 in
    let same : next_after last now
        ≡ (if ltb now (last + millisecond) then last + millisecond else now) =
      ap (λ b. if b then last + millisecond else now) test in
    ground (arith, same, h, k, l, t)

module _ (e : Etcd) (member : Bytes) (interval : ℕ) (issued : List Given) where
  open e use {State, values}

  abbrev SafeAfter : State × TimestampOracle × Option TsoError → Type 0
  SafeAfter (t, o, err) = Safe interval (values t timestamp) o issued

  Stored-Safe :
      (s : State) (o : TimestampOracle) (next : ℕ) (p : State × TimestampOracle × Option TsoError)
      → Safe interval (values s timestamp) o issued
      → All (Over next) issued
      → Timely next
      → Timely (next + interval)
      → o.last_saved_time ≤ next + interval ⊎ Idle o.ts
      → Stored e member interval s o next p
      → SafeAfter p
  Stored-Safe s o next (t, o', err) safe over h k room (inl (done, same, st)) =
      subst (λ q. Safe interval (values t timestamp) q issued) (sym same)
        (store-Safe interval (values t timestamp) (record o { last_saved_time = next + interval })
          next (next + interval) issued st safe.increasing over h k (omega arith)
          (λ p. omega (arith, p)) (omega arith) (omega arith))
  Stored-Safe s o next (t, o', err) safe over h k room (inr (fault, same, st)) =
      subst (λ q. Safe interval (values t timestamp) q issued) (sym same)
        (kept-Safe interval (values s timestamp) (values t timestamp) o next issued safe over room
          st)

  take_lease-Safe :
      (p : State × TimestampOracle × Option TsoError)
      → SafeAfter p
      → SafeAfter (take_lease e member interval p)
  unfolding take_lease
  take_lease-Safe (t, o, some err) safe = safe
  take_lease-Safe (t, o, none) safe = record {
    saved = safe.saved;
    is_saved = safe.is_saved;
    covered = safe.covered;
    increasing = safe.increasing;
    state = elim safe.state [
      | inl idle ↦ inl idle
      | inr (c, r) ↦ inr (
        c,
        record {
          current = r.current;
          timely = r.timely;
          reserved = r.reserved;
          below = r.below;
          narrow = r.narrow;
          known = r.known;
          saved_timely = r.saved_timely;
          begun = r.begun;
          before = r.before;
        },
      )
    ];
  }

  sync_from-Safe :
      (now : ℕ) (s : State) (o : TimestampOracle)
      → (safe : Safe interval (values s timestamp) o issued) → unix_epoch ≤ now
      → Early interval now
      → Early interval safe.saved
      → SafeAfter (sync_from e member interval now s o (loaded safe.saved))
  unfolding sync_from
  sync_from-Safe now s o safe h k l =
      let next = next_after safe.saved now in
      let (above, t, t') = next_after-bounds interval safe.saved now _ safe.is_saved h k l in
      let room : o.last_saved_time ≤ next + interval ⊎ Idle o.ts = elim safe.state [
        | inl idle ↦ inr idle
        | inr (c, r) ↦ inl (omega (arith, r.known, above))
      ] in
      take_lease-Safe _ (
        Stored-Safe s o next _ safe (Begun-Over safe.saved next issued above safe.covered) t t' room
          (save_and_store-Stored e member interval s o next t'))

  pub sync_timestamp-Safe :
      (now : ℕ) (was s : State) (o : TimestampOracle)
      → (safe : Safe interval (values s timestamp) o issued)
      → values was timestamp ≡ values s timestamp
      → unix_epoch ≤ now
      → Early interval now
      → Early interval safe.saved
      → SafeAfter (sync_timestamp e member interval now was s o)
  unfolding sync_timestamp sync_from
  sync_timestamp-Safe now was s o safe same h k l =
      elim (load_timestamp-cases e member interval was safe.saved
        (subst (λ v. Saved v safe.saved) (sym same) safe.is_saved)) [
          | inl read ↦
              subst (λ r. SafeAfter (sync_from e member interval now s o r)) (sym read)
                (sync_from-Safe now s o safe h k l)
          | inr fail ↦
              subst (λ r. SafeAfter (sync_from e member interval now s o r)) (sym fail) safe
        ]

  -- The new time is behind the physical time of a running oracle.
  module _ (s : State) (o : TimestampOracle) (c : AtomicObject)
      (safe : Safe interval (values s timestamp) o issued)
      (r : Running interval o c safe.saved issued) (next : ℕ)
      (later : c.physical + millisecond ≤ next) (early : Early interval next) where
    abbrev over : All (Over next) issued
    over = Begun-Over c.physical next issued later r.begun

    save-Safe : SafeAfter (save_and_store e member interval s o next)
    save-Safe =
        Stored-Safe s o next _ safe over (omega (arith, later, r.timely), omega (arith, early))
          (omega (arith, later, r.timely), omega (arith, early))
          (inl (omega (arith, r.narrow, later)))
          (save_and_store-Stored e member interval s o next
            (omega (arith, later, r.timely), omega (arith, early)))

    update_to-Safe : SafeAfter (update_to e member interval s o next)
    unfolding update_to
    update_to-Safe =
        elim (Bool-cases
          (int64_lt update_timestamp_guard (sub_time_by_wall_clock o.last_saved_time next))) [
            | inl wide ↦
                let reach : next + millisecond < o.last_saved_time =
                  ltb→lt (next + millisecond) o.last_saved_time (
                    sym
                      (int64_lt-sub o.last_saved_time next millisecond
                        (omega (arith, r.saved_timely), omega (arith, r.saved_timely))
                        (omega (arith, later, r.timely), omega (arith, early)) (omega arith)).1
                    ∙ wide) in
                subst SafeAfter (sym (if_false _ _ (ap not wide))) (
                  store-Safe interval (values s timestamp) o next safe.saved issued safe.is_saved
                    safe.increasing over (omega (arith, later, r.timely), omega (arith, early))
                    r.saved_timely (omega (arith, reach)) (λ p. omega (arith, reach))
                    (omega (arith, r.narrow, later)) r.known)
            | inr tight ↦ subst SafeAfter (sym (if_true _ _ (ap not tight))) save-Safe
          ]

  pub next_physical-bounds :
      (now : ℕ) (c : AtomicObject)
      → Timely c.physical
      → unix_epoch ≤ now
      → Early interval now
      → Early interval (c.physical + millisecond)
      → (next_physical now c ≡ none)
        ⊎ ((next : ℕ) × (next_physical now c ≡ some next)
            × (c.physical + millisecond ≤ next)
            × Early interval next)
  unfolding next_physical
  next_physical-bounds now c t h k l =
      elim (Bool-cases (int64_lt update_timestamp_guard (sub_time_by_wall_clock now c.physical))) [
        | inl behind ↦
            let later : c.physical + millisecond < now = ltb→lt (c.physical + millisecond) now (
              sym
                (int64_lt-sub now c.physical millisecond (omega arith, omega (arith, k))
                  (omega (arith, t), omega (arith, t)) (omega arith)).1
              ∙ behind) in
            inr (now, if_true _ _ behind, omega (arith, later), k)
        | inr near ↦ elim (Bool-cases (int64_lt (max_logical / 2) c.logical)) [
          | inl full ↦
              inr (c.physical + millisecond, if_false _ _ near ∙ if_true _ _ full, omega arith, l)
          | inr free ↦ inl (if_false _ _ near ∙ if_false _ _ free)
        ]
      ]

  pub update_from-Safe :
      (now : ℕ) (s : State) (o : TimestampOracle) (c : AtomicObject)
      (safe : Safe interval (values s timestamp) o issued)
      → Running interval o c safe.saved issued
      → unix_epoch ≤ now
      → Early interval now
      → Early interval (c.physical + millisecond)
      → SafeAfter (update_from e member interval now s o c)
  unfolding update_from
  update_from-Safe now s o c safe r h k l = elim (next_physical-bounds now c r.timely h k l) [
    | inl same ↦
        subst
          (λ (n : Option ℕ).
            SafeAfter
              (elim n [ none ↦ (s, o, none) | some next ↦ update_to e member interval s o next ]))
          (sym same) safe
    | inr (next, new, later, early) ↦
        subst
          (λ (n : Option ℕ).
            SafeAfter
              (elim n [ none ↦ (s, o, none) | some next ↦ update_to e member interval s o next ]))
          (sym new) (update_to-Safe s o c safe r next later early)
  ]

  pub reset_user_from-Safe :
      (max_gap next : ℕ) (s : State) (o : TimestampOracle) (c : AtomicObject)
      (safe : Safe interval (values s timestamp) o issued)
      → Running interval o c safe.saved issued
      → unix_epoch ≤ next
      → Early interval next
      → SafeAfter (reset_user_from e member interval max_gap s o next c)
  unfolding reset_user_from
  reset_user_from-Safe max_gap next s o c safe r h k =
      elim (Bool-cases
        (int64_lt (3 * update_timestamp_guard) (sub_time_by_wall_clock next c.physical))) [
          | inr small ↦ subst SafeAfter (sym (if_true _ _ (ap not small))) safe
          | inl enough ↦
              let later : c.physical + 3 * millisecond < next =
                ltb→lt (c.physical + 3 * millisecond) next (
                  sym
                    (int64_lt-sub next c.physical (3 * millisecond) (omega arith, omega (arith, k))
                      (omega (arith, r.timely), omega (arith, r.timely)) (omega arith)).1
                  ∙ enough) in
              subst SafeAfter (sym (if_false _ _ (ap not enough)))
                (elim (Bool-cases (int64_lt (sub_time_by_wall_clock next c.physical) max_gap)) [
                  | inr large ↦ subst SafeAfter (sym (if_true _ _ (ap not large))) safe
                  | inl fits ↦
                      subst SafeAfter (sym (if_false _ _ (ap not fits)))
                        (save-Safe s o c safe r next (omega (arith, later)) k)
                ])
        ]

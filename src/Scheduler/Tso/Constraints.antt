-- ===== src/Scheduler/Tso/Constraints.antt =====
-- scheduler/server/tso/tso.go: the three constraints in UpdateTimestamp's comment.
use tinykv.Prelude.{
  ℕ, ◌+◌, ◌≤◌, ◌<◌, ◌≡◌, ◌≢◌, refl, sym, ap, ◌∙◌, subst, arith, Bool-cases, not, inl, inr, Option,
  none, some, List, Bytes, ok, ok-injective, if_true, if_false,
}
use tinykv.Scheduler.Etcd.{Etcd, timestamp}
use tinykv.Scheduler.Time.{zero_time, unix_epoch, millisecond, int64_lt, sub_time_by_wall_clock}
use tinykv.Scheduler.Tso.{
  AtomicObject, TimestampOracle, TsoError, store, save_and_store, update_to, update_from,
  update_timestamp, update_timestamp_guard,
}
use tinykv.Scheduler.Tso.Saves.{Saved, Stored, save_and_store-Stored}
use tinykv.Scheduler.Tso.Safe.{Given, Running}
use tinykv.Scheduler.Tso.Steps.{Early, next_physical-bounds}
use tinykv.Scheduler.Tso.Reach.{Reach, Reach.updated}
use tinykv.Scheduler.Tso.Order.{Reach-Safe, Reach-Reserved, running, update_timestamp-some}

-- The physical time and the time that is known to be saved do not go back.
pub record Forward (o : TimestampOracle) (c : AtomicObject) (o' : TimestampOracle) : Type 0 where
  pub next : AtomicObject
  pub current : o'.ts ≡ some next
  pub physical : c.physical ≤ next.physical
  pub saved : o.last_saved_time ≤ o'.last_saved_time

module _ (e : Etcd) (member : Bytes) (interval : ℕ) where
  open e use {State, values}

  Stored-Forward :
      (s : State) (o : TimestampOracle) (c : AtomicObject) (next : ℕ)
      (p : State × TimestampOracle × Option TsoError)
      → o.ts ≡ some c
      → c.physical ≤ next
      → o.last_saved_time ≤ next + interval
      → Stored e member interval s o next p
      → Forward o c p.1
  unfolding store
  Stored-Forward s o c next (t, o', err) has h k (inl (done, same, st)) =
      subst (Forward o c) (sym same) (record {
        next = record { physical = next; logical = 0 };
        current = refl;
        physical = h;
        saved = k;
      })
  Stored-Forward s o c next (t, o', err) has h k (inr (fault, same, st)) =
      subst (Forward o c) (sym same)
        (record { next = c; current = has; physical = omega arith; saved = omega arith })

  update_to-Forward :
      (s : State) (o : TimestampOracle) (c : AtomicObject) (next : ℕ)
      → o.ts ≡ some c
      → c.physical ≤ next
      → o.last_saved_time ≤ next + interval
      → Early interval next
      → unix_epoch ≤ next
      → Forward o c (update_to e member interval s o next).1
  unfolding update_to store
  update_to-Forward s o c next has h k early begun =
      elim (Bool-cases
        (int64_lt update_timestamp_guard (sub_time_by_wall_clock o.last_saved_time next))) [
          | inl wide ↦
              subst (λ (p : State × TimestampOracle × Option TsoError). Forward o c p.1)
                (sym (if_false _ _ (ap not wide)))
                (record {
                  next = record { physical = next; logical = 0 };
                  current = refl;
                  physical = h;
                  saved = omega arith;
                })
          | inr tight ↦
              subst (λ (p : State × TimestampOracle × Option TsoError). Forward o c p.1)
                (sym (if_true _ _ (ap not tight)))
                (Stored-Forward s o c next (save_and_store e member interval s o next) has h k (
                  save_and_store-Stored e member interval s o next
                    (omega (arith, begun), omega (arith, early))))
        ]

  update_from-Forward :
      (now : ℕ) (s : State) (o : TimestampOracle) (c : AtomicObject) (saved : ℕ)
      (issued : List Given)
      → Running interval o c saved issued
      → unix_epoch ≤ now
      → Early interval now
      → Early interval (c.physical + millisecond)
      → Forward o c (update_from e member interval now s o c).1
  unfolding update_from
  update_from-Forward now s o c saved issued r h k l =
      elim (next_physical-bounds e member interval issued now c r.timely h k l) [
        | inl same ↦
            subst
              (λ (n : Option ℕ).
                let p : State × TimestampOracle × Option TsoError = elim n [
                  | none ↦ (s, o, none)
                  | some next ↦ update_to e member interval s o next
                ] in
                Forward o c p.1)
              (sym same)
              (record {
                next = c;
                current = r.current;
                physical = omega arith;
                saved = omega arith;
              })
        | inr (next, new, later, early) ↦
            subst
              (λ (n : Option ℕ).
                let p : State × TimestampOracle × Option TsoError = elim n [
                  | none ↦ (s, o, none)
                  | some next ↦ update_to e member interval s o next
                ] in
                Forward o c p.1)
              (sym new)
              (update_to-Forward s o c next r.current (omega (arith, later))
                (omega (arith, r.narrow, later)) early (omega (arith, later, r.timely)))
      ]

  -- The three constraints in UpdateTimestamp's comment, at a call in whatever state the calls before
  -- it have left, with or without an error: the physical time does not go back, nor does the saved
  -- time that the leader knows of, and the physical time is then less than that saved time, which is
  -- at most what is saved in etcd. The oracle is synced, the interval is not 0, and times are before
  -- 2043.
  pub update_timestamp-Constraints :
      {s t : State} {o o' : TimestampOracle} {issued : List Given} {err : Option TsoError} (now : ℕ)
      (c : AtomicObject)
      → 0 < interval
      → Reach e interval s o issued
      → o.ts ≡ some c
      → c.physical ≢ zero_time
      → unix_epoch ≤ now
      → Early interval now
      → Early interval (c.physical + millisecond)
      → update_timestamp e member interval now s o ≡ ok (t, o', err)
      → (c' : AtomicObject) × (o'.ts ≡ some c')
        × (c.physical ≤ c'.physical)
        × (o.last_saved_time ≤ o'.last_saved_time)
        × (c'.physical < o'.last_saved_time)
        × ((saved : ℕ) × Saved (values t timestamp) saved × (o'.last_saved_time ≤ saved))
  update_timestamp-Constraints {s = s} {o = o} {o' = o'} {issued = issued} now c pos x has ne h k l
        q =
      let safe = Reach-Safe e interval x in
      let r = running e interval s o issued c safe has ne in
      let f : Forward o c o' =
        subst (λ (p : State × TimestampOracle × Option TsoError). Forward o c p.1)
          (ok-injective (sym (update_timestamp-some e interval member now s o c has) ∙ q))
          (update_from-Forward now s o c safe.saved issued r h k l) in
      let after =
        Reach-Reserved e interval f.next pos (updated member now x (c, has, ne, l) h k q) f.current
          (λ z. omega (arith, z, f.physical, r.timely)) in
      (f.next, f.current, f.physical, f.saved, after.1, after.0)

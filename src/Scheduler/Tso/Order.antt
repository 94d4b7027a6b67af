-- ===== src/Scheduler/Tso/Order.antt =====
-- scheduler/server/tso/tso.go: the timestamps of one leader after another over one etcd.
use tinykv.Prelude.{
  ℕ, ◌+◌, ◌^◌, ◌≤◌, ◌<◌, ◌≡◌, ◌≢◌, refl, sym, ap, ◌∙◌, subst, arith, Bool, Bool-cases, not, ◌||◌,
  inl, inr, Option, Option-cases, none, some, List, Bytes, All, All_map, ok, panic, ok-injective,
  if_true, if_false, ◌==◌, nil_dereference,
}
use tinykv.Scheduler.Etcd.{Etcd, timestamp}
use tinykv.Scheduler.Time.{zero_time, millisecond, parse_ts}
use tinykv.Scheduler.Tso.{
  AtomicObject, TimestampOracle, TsoError, Round, new_timestamp_oracle, round_from, reset_timestamp,
  store, update_timestamp, update_from, reset_user_timestamp, reset_user_from,
}
use tinykv.Scheduler.Tso.Saves.{Saved}
use tinykv.Scheduler.Tso.Safe.{Given, Increasing, Idle, Running, Safe}
use tinykv.Scheduler.Tso.Steps.{Early, sync_timestamp-Safe, update_from-Safe, reset_user_from-Safe}
use tinykv.Scheduler.Tso.Rounds.{give, round_from-Safe}
use tinykv.Scheduler.Tso.Reach.{
  Reach, get_round-none, get_round-some, round_from-unleased, Reach.start, Reach.elected,
  Reach.others, Reach.synced, Reach.updated, Reach.user_reset, Reach.reset, Reach.round,
  Reach.not_leading,
}

some-injective : {a b : AtomicObject} → some a ≡ some b → a ≡ b
some-injective h = cc

module _ (e : Etcd) (interval : ℕ) where
  open e use {State, values}

  pub update_timestamp-some :
      (member : Bytes) (now : ℕ) (s : State) (o : TimestampOracle) (c : AtomicObject)
      → o.ts ≡ some c
      → update_timestamp e member interval now s o ≡ ok (update_from e member interval now s o c)
  unfolding update_timestamp
  update_timestamp-some member now s o c has =
      ap
        (λ (m : Option AtomicObject). elim m [
          | none ↦ panic nil_dereference
          | some prev ↦ ok (update_from e member interval now s o prev)
        ])
        has

  abbrev pub SafeState : State → TimestampOracle → List Given → Type 0
  SafeState s o issued = Safe interval (values s timestamp) o issued

  pub running :
      (s : State) (o : TimestampOracle) (issued : List Given) (c : AtomicObject)
      (safe : SafeState s o issued)
      → o.ts ≡ some c
      → c.physical ≢ zero_time
      → Running interval o c safe.saved issued
  running s o issued c safe h ne = elim safe.state [
    | inl (inl gone) ↦ absurd (ground (arith, sym gone ∙ h))
    | inl (inr (d, has, zeroed)) ↦
        absurd (ne (sym (ap AtomicObject.physical (some-injective (sym has ∙ h))) ∙ zeroed))
    | inr (d, r) ↦
        subst (λ q. Running interval o q safe.saved issued) (some-injective (sym r.current ∙ h)) r
  ]

  user_reset-Safe :
      (member : Bytes) (max_gap tso : ℕ) (expired : Bool) (s : State) (o : TimestampOracle)
      (issued : List Given) (c : AtomicObject) (safe : SafeState s o issued)
      → o.ts ≡ some c
      → c.physical ≢ zero_time
      → Early interval (parse_ts tso + millisecond)
      → (p : State × TimestampOracle × Option TsoError)
      → reset_user_timestamp e member interval max_gap tso expired s o ≡ ok p
      → SafeState p.0 p.1 issued
  unfolding reset_user_timestamp parse_ts
  user_reset-Safe member max_gap tso expired s o issued c safe has ne k p q =
      elim (Bool-cases (not o.has_lease || expired)) [
        | inl over ↦
            subst (λ p. SafeState p.0 p.1 issued) (ok-injective (sym (if_true _ _ over) ∙ q)) safe
        | inr held ↦
            let next = parse_ts tso + millisecond in
            let runs : ok (reset_user_from e member interval max_gap s o next c) ≡ ok p =
              sym (
                ap
                  (λ (m : Option AtomicObject). elim m [
                    | none ↦ panic nil_dereference
                    | some prev ↦ ok (reset_user_from e member interval max_gap s o next prev)
                  ])
                  has)
              ∙ sym (if_false _ _ held)
              ∙ q in
            subst (λ p. SafeState p.0 p.1 issued) (ok-injective runs)
              (reset_user_from-Safe e member interval issued max_gap next s o c safe
                (running s o issued c safe has ne) (omega arith) k)
      ]

  round_from-SafeState :
      (s : State) (o : TimestampOracle) (issued : List Given) (c : AtomicObject) (count : ℕ)
      (expired : Bool) (safe : SafeState s o issued)
      → o.ts ≡ some c
      → c.logical + count < 2 ^ 63
      → let p = round_from count expired o c in SafeState s p.0 (give count p.1 issued)
  unfolding round_from
  round_from-SafeState s o issued c count expired safe has room =
      elim (Bool-cases (c.physical == zero_time)) [
        | inl unset ↦
            subst (λ (p : TimestampOracle × Round). SafeState s p.0 (give count p.1 issued))
              (sym (if_true _ _ unset)) safe
        | inr set ↦
            round_from-Safe interval (values s timestamp) issued o c safe
              (running s o issued c safe has (λ z. ground (arith, z, set))) count expired room
      ]

  Idle-Safe :
      (s : State) (o o' : TimestampOracle) (issued : List Given)
      → SafeState s o issued
      → Idle o'.ts
      → SafeState s o' issued
  Idle-Safe s o o' issued safe idle = record {
    saved = safe.saved;
    is_saved = safe.is_saved;
    covered = safe.covered;
    increasing = safe.increasing;
    state = inl idle;
  }

  pub Reach-Safe :
      {s : State} {o : TimestampOracle} {issued : List Given}
      → Reach e interval s o issued
      → SafeState s o issued
  unfolding new_timestamp_oracle reset_timestamp store
  Reach-Safe (start s unset) = record {
    saved = zero_time;
    is_saved = inl (unset, refl);
    covered = tt;
    increasing = tt;
    state = inl (inl refl);
  }
  Reach-Safe (elected {s = s} {o = o} {issued = issued} o' x idle) =
      Idle-Safe s o o' issued (Reach-Safe x) idle
  Reach-Safe (others {s = s} {o = o} {issued = issued} t x same) =
      subst (λ v. Safe interval v o issued) (sym same) (Reach-Safe x)
  Reach-Safe (synced {s = s} {o = o} {issued = issued} member now was x same h k early q) =
      let safe = Reach-Safe x in
      subst (λ p. SafeState p.0 p.1 issued) q
        (sync_timestamp-Safe e member interval issued now was s o safe same h k
          (early safe.saved safe.is_saved))
  Reach-Safe (updated {s = s} {o = o} {issued = issued} member now x (c, has, ne, l) h k q) =
      let safe = Reach-Safe x in
      subst (λ p. SafeState p.0 p.1 issued)
        (ok-injective (sym (update_timestamp-some member now s o c has) ∙ q))
        (update_from-Safe e member interval issued now s o c safe (running s o issued c safe has ne)
          h k l)
  Reach-Safe
        (user_reset {s = s} {o = o} {issued = issued} member max_gap tso expired x
          (c, has, ne, l)
          k
          q) =
      let safe = Reach-Safe x in
      user_reset-Safe member max_gap tso expired s o issued c safe has ne k _ q
  Reach-Safe (reset {s = s} {o = o} {issued = issued} x) =
      Idle-Safe s o (reset_timestamp o) issued (Reach-Safe x) (inr (_, refl, refl))
  Reach-Safe (round {s = s} {o = o} {issued = issued} count expired x room q) =
      let safe = Reach-Safe x in
      elim (Option-cases o.ts) [
        | inl gone ↦ absurd (ground (arith, sym (get_round-none count expired o gone) ∙ q))
        | inr (c, has) ↦
            subst (λ (p : TimestampOracle × Round). SafeState s p.0 (give count p.1 issued))
              (ok-injective (sym (get_round-some count expired o c has) ∙ q))
              (round_from-SafeState s o issued c count expired safe has (room c has))
      ]
  Reach-Safe (not_leading {s = s} {o = o} {issued = issued} d d' count expired x over q) =
      elim (Option-cases d.ts) [
        | inl gone ↦ absurd (ground (arith, sym (get_round-none count expired d gone) ∙ q))
        | inr (c, has) ↦
            subst (λ given. SafeState s o given)
              (sym (round_from-unleased count expired d c issued over)
                ∙ ap (λ (p : TimestampOracle × Round). give count p.1 issued)
                    (ok-injective (sym (get_round-some count expired d c has) ∙ q)))
              (Reach-Safe x)
      ]

  -- Whatever leaders there have been, whatever their clocks, and with errors that may hide a save: the
  -- timestamps of each answer are above all that were given before, also where former leaders and
  -- other servers are asked, whose leases are not valid. Times are before 2043, and the logical part
  -- of a leader, an int64, does not wrap. Only leaders write the saved time, one at a time.
  pub Reach-Increasing :
      {s : State} {o : TimestampOracle} {issued : List Given}
      → Reach e interval s o issued
      → Increasing issued
  Reach-Increasing x = (Reach-Safe x).increasing

  -- Whatever leaders and calls there have been, the physical time of a synced oracle is less than the
  -- time that it knows to be saved, which is at most what is saved and ahead of the physical time by
  -- no more than the interval; and each timestamp's logical part has 18 bits. The interval is not 0,
  -- times are before 2043, and the int64 of the logical part does not wrap.
  pub Reach-Reserved :
      {s : State} {o : TimestampOracle} {issued : List Given} (c : AtomicObject)
      → 0 < interval
      → Reach e interval s o issued
      → o.ts ≡ some c
      → c.physical ≢ zero_time
      → ((saved : ℕ) × Saved (values s timestamp) saved × (o.last_saved_time ≤ saved))
        × (c.physical < o.last_saved_time)
        × (o.last_saved_time ≤ c.physical + interval)
        × All (λ (g : Given). g.0.logical < 2 ^ 18) issued
  Reach-Reserved {s = s} {o = o} {issued = issued} c pos x has ne =
      let safe = Reach-Safe x in
      let r = running s o issued c safe has ne in
      (
        (safe.saved, safe.is_saved, r.known),
        r.below pos,
        r.narrow,
        All_map (λ g b. b.0) issued r.begun,
      )

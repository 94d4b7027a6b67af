-- ===== src/Scheduler/Tso/Rounds.antt =====
-- scheduler/server/tso/tso.go: a round of GetRespTS keeps the state safe.
use tinykv.Prelude.{
  ℕ, ◌+◌, ◌^◌, ◌≤◌, ◌<◌, ◌≡◌, refl, sym, ap, ◌∙◌, subst, arith, Bool, false, Bool-cases, not, ◌||◌,
  ◌==◌, ltb, if_true, if_false, ltb→lt, inl, inr, Option, some, List, ◌∷◌, Bytes, All_map, add64,
  add64-eq,
}
use tinykv.Scheduler.Time.{zero_time, unix_milli, int64_lt}
use tinykv.Scheduler.Tso.{
  AtomicObject, TimestampOracle, Timestamp, Round, retry, given, refused, round_from, max_logical,
}
use tinykv.Scheduler.Tso.Clock.{unix_milli-eq}
use tinykv.Scheduler.Tso.Safe.{Given, Running, Safe}

abbrev pub give : ℕ → Round → List Given → List Given
give count retry issued = issued
give count (given t) issued = (t, count) ∷ issued
give count (refused err) issued = issued

module _ (interval : ℕ) (stored : Option Bytes) (issued : List Given) (o : TimestampOracle)
    (c : AtomicObject) (safe : Safe interval stored o issued)
    (r : Running interval o c safe.saved issued) where
  abbrev raised : ℕ → TimestampOracle
  raised logical = record o { ts = some (record c { logical = logical }) }

  raised-Safe : (logical : ℕ) → c.logical ≤ logical → Safe interval stored (raised logical) issued
  raised-Safe logical h = record {
    saved = safe.saved;
    is_saved = safe.is_saved;
    covered = safe.covered;
    increasing = safe.increasing;
    state = inr (
      record c { logical = logical },
      record {
        current = refl;
        timely = r.timely;
        reserved = r.reserved;
        below = r.below;
        narrow = r.narrow;
        known = r.known;
        saved_timely = r.saved_timely;
        begun = r.begun;
        before = All_map (λ g b. omega (arith, b, h)) issued r.before;
      },
    );
  }

  raised-given :
      (count logical : ℕ)
      → logical ≡ c.logical + count
      → logical < max_logical
      → let t : Timestamp = record { physical = unix_milli c.physical; logical = logical } in
        Safe interval stored (raised logical) ((t, count) ∷ issued)
  raised-given count logical sum fits =
      let milli = unix_milli-eq c.physical r.timely in
      record {
        saved = safe.saved;
        is_saved = safe.is_saved;
        covered = ((fits, omega (arith, milli, r.reserved, r.known, r.timely)), safe.covered);
        increasing =
            (All_map (λ g b. omega (arith, b, sum, milli)) issued r.before, safe.increasing);
        state = inr (
          record c { logical = logical },
          record {
            current = refl;
            timely = r.timely;
            reserved = r.reserved;
            below = r.below;
            narrow = r.narrow;
            known = r.known;
            saved_timely = r.saved_timely;
            begun = ((fits, omega (arith, milli, r.timely)), r.begun);
            before = (omega (arith, milli), All_map (λ g b. omega (arith, b, sum)) issued r.before);
          },
        );
      }

  abbrev RoundSafe : ℕ → TimestampOracle × Round → Type 0
  RoundSafe count p = Safe interval stored p.0 (give count p.1 issued)

  pub round_from-Safe :
      (count : ℕ) (expired : Bool)
      → c.logical + count < 2 ^ 63
      → RoundSafe count (round_from count expired o c)
  unfolding round_from
  round_from-Safe count expired h =
      let sum = add64-eq c.logical count (omega (arith, h)) in
      let synced : (c.physical == zero_time) ≡ false = ground (arith, r.timely) in
      let test : int64_lt (add64 c.logical count) max_logical
          ≡ ltb (add64 c.logical count) max_logical =
        unfold int64_lt in ground (arith, sum, h) in
      subst (RoundSafe count) (sym (if_false _ _ synced))
        (elim (Bool-cases (int64_lt (add64 c.logical count) max_logical)) [
          | inr used_up ↦
              subst (RoundSafe count) (sym (if_true _ _ (ap not used_up)))
                (raised-Safe (add64 c.logical count) (omega (arith, sum)))
          | inl fits ↦
              subst (RoundSafe count) (sym (if_false _ _ (ap not fits)))
                (elim (Bool-cases (not o.has_lease || expired)) [
                  | inl over ↦
                      subst (RoundSafe count) (sym (if_true _ _ over))
                        (raised-Safe (add64 c.logical count) (omega (arith, sum)))
                  | inr held ↦ subst (RoundSafe count) (sym (if_false _ _ held)) (
                      raised-given count (add64 c.logical count) sum
                        (ltb→lt (add64 c.logical count) max_logical (sym test ∙ fits)))
                ])
        ])

-- ===== src/Scheduler/Ids/Unique.antt =====
-- scheduler/server/id/id.go: several allocators, of one leader after another or at the same time,
-- over one etcd.
use tinykv.Prelude.{
  ℕ, ◌+◌, ◌*◌, ◌≤◌, ◌<◌, ◌≡◌, ◌⊎◌, refl, sym, ap, ◌∙◌, subst, arith, Bool-cases, inl, inr, none,
  List, [], ◌∷◌, ◌==◌, if◌then◌else◌, Bytes, occurrences, leb, ltb, ◌&&◌, put_uint64, add64,
  add64-eq, u64_mod, All,
}
use tinykv.Scheduler.Etcd.{Etcd, alloc_id, Puts, Same}
use tinykv.Scheduler.Ids.{Allocator, new_allocator, alloc_step, Reply, id, error, alloc}
use tinykv.Scheduler.Ids.Calls.{Stored, Allocated, alloc-Allocated}

-- One of the allocators, and what it becomes.
pub data Becomes (a a' : Allocator) : List Allocator → List Allocator → Type 0 where
  here : {rest : List Allocator} → Becomes a a' (a ∷ rest) (a' ∷ rest)
  there :
      {o : Allocator} {before after : List Allocator}
      → Becomes a a' before after
      → Becomes a a' (o ∷ before) (o ∷ after)

abbrev pub issue : Reply → List ℕ → List ℕ
issue (id n) issued = n ∷ issued
issue (error r) issued = issued

-- The ids that the allocator may give without asking etcd.
abbrev inside : ℕ → Allocator → ℕ
inside n a = if ltb a.base n && leb n a.end then 1 else 0

abbrev all_inside : ℕ → List Allocator → ℕ
all_inside n [] = 0
all_inside n (a ∷ rest) = inside n a + all_inside n rest

abbrev Below : ℕ → Allocator → Type 0
Below b a = (a.base ≤ a.end) × (a.end ≤ b)

Becomes-inside :
    {a a' : Allocator} {before after : List Allocator} (n : ℕ)
    → Becomes a a' before after
    → all_inside n after + inside n a ≡ all_inside n before + inside n a'
Becomes-inside n here = omega arith
Becomes-inside n (there b) = omega (arith, Becomes-inside n b)

inside-Becomes :
    {a a' : Allocator} {before after : List Allocator} (n : ℕ)
    → Becomes a a' before after
    → (inside n a ≤ all_inside n before) × (inside n a' ≤ all_inside n after)
inside-Becomes n here = (omega arith, omega arith)
inside-Becomes n (there b) =
    (omega (arith, (inside-Becomes n b).0), omega (arith, (inside-Becomes n b).1))

Becomes-Below :
    {a a' : Allocator} {before after : List Allocator} (old new : ℕ)
    → old ≤ new
    → Becomes a a' before after
    → All (Below old) before
    → Below old a × (Below new a' → All (Below new) after)
Becomes-Below old new h here held = (held.0, λ k. (k, All-Below _ held.1))
  where
    All-Below : (rest : List Allocator) → All (Below old) rest → All (Below new) rest
    All-Below [] all = all
    All-Below (o ∷ rest) all = ((all.0.0, omega (arith, h, all.0.1)), All-Below rest all.1)
Becomes-Below old new h (there b) held =
    let rest = Becomes-Below old new h b held.1 in
    (rest.0, λ k. ((held.0.0, omega (arith, h, held.0.1)), rest.1 k))

module _ (e : Etcd) where
  open e use {State, values}

  -- Reach calls s allocators issued: the calls that there have been, the state of etcd, the
  -- allocators that the leaders have, and the ids that they have given.
  pub data Reach : ℕ → State → List Allocator → List ℕ → Type 0 where
    start : (s : State) → values s alloc_id ≡ none → Reach 0 s [] []
    created :
        {calls : ℕ} {s : State} {allocators : List Allocator} {issued : List ℕ}
        → Reach calls s allocators issued
        → Reach calls s (new_allocator ∷ allocators) issued
    others :
        {calls : ℕ} {s t : State} {allocators : List Allocator} {issued : List ℕ}
        → Reach calls s allocators issued
        → values t alloc_id ≡ values s alloc_id
        → Reach calls t allocators issued
    called :
        {calls : ℕ} {s t : State} {before after : List Allocator} {issued : List ℕ}
        {a a' : Allocator} {r : Reply} (member : Bytes) (was : State)
        → Reach calls s before issued
        → Becomes a a' before after
        → alloc e member was s a ≡ (a', t, r)
        → Reach (1 + calls) t after (issue r issued)

  record Consistent (calls : ℕ) (s : State) (allocators : List Allocator) (issued : List ℕ)
      : Type 0 where
    stored : ℕ
    is_stored : Stored (values s alloc_id) stored
    bounded : stored ≤ alloc_step * calls
    ranges : All (Below stored) allocators
    fresh : (n : ℕ) → stored < n → (occurrences n issued ≡ 0) × (all_inside n allocators ≡ 0)
    once : (n : ℕ) → occurrences n issued + all_inside n allocators ≤ 1

  -- After a call no id is given or owned that was not before, but those of a range past the stored
  -- end.
  step-Consistent :
      (calls : ℕ) (s t : State) (before after : List Allocator) (issued issued' : List ℕ)
      (a a' : Allocator) (stored' : ℕ) (c : Consistent calls s before issued)
      → Becomes a a' before after
      → Stored (values t alloc_id) stored'
      → c.stored ≤ stored'
      → stored' ≤ c.stored + alloc_step
      → (Below c.stored a → Below stored' a')
      → ((n : ℕ)
          → (occurrences n issued' + inside n a' ≤ occurrences n issued + inside n a)
            ⊎ ((c.stored < n)
                × (n ≤ stored')
                × (occurrences n issued' + inside n a' ≤ 1 + occurrences n issued)))
      → Consistent (1 + calls) t after issued'
  step-Consistent calls s t before after issued issued' a a' stored' c b st h k below gain =
      record {
        stored = stored';
        is_stored = st;
        bounded = omega (arith, k, c.bounded);
        ranges = let (old, new) = Becomes-Below c.stored stored' h b c.ranges in new (below old);
        fresh = λ n m.
            let (none_issued, none_inside) = c.fresh n (omega (arith, h, m)) in
            elim (gain n) [
              | inl g ↦ (
                omega (arith, g, none_issued, none_inside, Becomes-inside n b, inside-Becomes n b),
                omega (arith, g, none_issued, none_inside, Becomes-inside n b, inside-Becomes n b),
              )
              | inr (above, upto, g) ↦ absurd (omega (arith, upto, m))
            ];
        once = λ n. elim (gain n) [
          | inl g ↦ omega (arith, g, Becomes-inside n b, c.once n)
          | inr (above, upto, g) ↦
              let (none_issued, none_inside) = c.fresh n above in
              omega (arith, g, none_issued, none_inside, Becomes-inside n b, inside-Becomes n b)
        ];
      }

  left_over :
      {calls : ℕ} {s t : State} {allocators : List Allocator} {issued : List ℕ}
      (c : Consistent calls s allocators issued)
      → Same (values s) (values t)
        ⊎ Puts (values s) (values t) alloc_id (put_uint64 (c.stored + alloc_step))
      → (stored' : ℕ) × Stored (values t alloc_id) stored'
        × (c.stored ≤ stored')
        × (stored' ≤ c.stored + alloc_step)
  left_over c (inl same) = (
    c.stored,
    subst (λ v. Stored v c.stored) (sym (same alloc_id)) c.is_stored,
    omega arith,
    omega arith,
  )
  left_over c (inr put) = (c.stored + alloc_step, inr put.0, omega arith, omega arith)

  called-Consistent :
      (calls : ℕ) (s t : State) (before after : List Allocator) (issued : List ℕ) (a a' : Allocator)
      (r : Reply) (c : Consistent calls s before issued)
      → alloc_step * (1 + calls) < u64_mod
      → Becomes a a' before after
      → Allocated e s a c.stored (a', t, r)
      → Consistent (1 + calls) t after (issue r issued)
  called-Consistent calls s t before after issued a a' r c f b (inl (et, ea, er, left)) =
      let (own, upto) = (Becomes-Below c.stored c.stored (omega arith) b c.ranges).0 in
      let one : add64 a.base 1 ≡ a.base + 1 =
        add64-eq a.base 1 (omega (arith, upto, c.bounded, f, own, left)) in
      let from : a'.base ≡ a.base + 1 = ap Allocator.base ea ∙ one in
      let to : a'.end ≡ a.end = ap Allocator.end ea in
      step-Consistent calls s t before after issued (issue r issued) a a' c.stored c b
        (subst (λ q. Stored (values q alloc_id) c.stored) (sym et) c.is_stored) (omega arith)
        (omega arith) (λ k. (omega (arith, own, left, from, to), omega (arith, upto, to)))
        (λ n.
          let shape : occurrences n (issue r issued)
              ≡ (if a.base + 1 == n then 1 else 0) + occurrences n issued =
            ap (λ q. occurrences n (issue q issued)) (er ∙ ap id one) in
          inl (ground (arith, shape, from, to, own, left)))
  called-Consistent calls s t before after issued a a' r c f b (inr (inl (empty, (ea, er, put)))) =
      let from : a'.base ≡ c.stored + 1 = ap Allocator.base ea in
      let to : a'.end ≡ c.stored + alloc_step = ap Allocator.end ea in
      step-Consistent calls s t before after issued (issue r issued) a a' (c.stored + alloc_step) c
        b (inr put.0) (omega arith) (omega arith)
        (λ k. (omega (arith, from, to), omega (arith, to)))
        (λ n.
          let shape : occurrences n (issue r issued)
              ≡ (if c.stored + 1 == n then 1 else 0) + occurrences n issued =
            ap (λ q. occurrences n (issue q issued)) er in
          elim (Bool-cases (ltb c.stored n && leb n (c.stored + alloc_step))) [
            | inl new ↦
                inr (ground (arith, new), ground (arith, new), ground (arith, shape, from, to, new))
            | inr old ↦ inl (ground (arith, shape, from, to, old))
          ])
  called-Consistent calls s t before after issued a a' r c f b (inr (inr (ea, (err, er), kept))) =
      let (stored', st, h, k) = left_over c kept in
      step-Consistent calls s t before after issued (issue r issued) a a' stored' c b st h k
        (λ below. (omega (arith, below.0, from, to), omega (arith, below.1, h, to)))
        (λ n.
          let shape : occurrences n (issue r issued) ≡ occurrences n issued =
            ap (λ q. occurrences n (issue q issued)) er in
          inl (ground (arith, shape, from, to)))
    where
      from : a'.base ≡ a.base
      from = ap Allocator.base ea

      to : a'.end ≡ a.end
      to = ap Allocator.end ea

  Reach-Consistent :
      {calls : ℕ} {s : State} {allocators : List Allocator} {issued : List ℕ}
      → Reach calls s allocators issued
      → alloc_step * calls < u64_mod
      → Consistent calls s allocators issued
  unfolding new_allocator
  Reach-Consistent (start s unset) f = record {
    stored = 0;
    is_stored = inl (unset, refl);
    bounded = omega arith;
    ranges = tt;
    fresh = λ n m. (refl, refl);
    once = λ n. omega arith;
  }
  Reach-Consistent (created x) f =
      let c = Reach-Consistent x f in
      record {
        stored = c.stored;
        is_stored = c.is_stored;
        bounded = c.bounded;
        ranges = ((omega arith, omega arith), c.ranges);
        fresh = λ n m. ((c.fresh n m).0, ground (arith, c.fresh n m));
        once = λ n. ground (arith, c.once n);
      }
  Reach-Consistent (others x same) f =
      let c = Reach-Consistent x f in
      record {
        stored = c.stored;
        is_stored = subst (λ v. Stored v c.stored) (sym same) c.is_stored;
        bounded = c.bounded;
        ranges = c.ranges;
        fresh = c.fresh;
        once = c.once;
      }
  Reach-Consistent (called member was x b h) f =
      let c = Reach-Consistent x (omega (arith, f)) in
      called-Consistent _ _ _ _ _ _ _ _ _ c f b (
        subst (Allocated e _ _ c.stored) h
          (alloc-Allocated e member was _ _ c.stored c.is_stored (omega (arith, f, c.bounded))))

  -- Whatever the interleaving of the allocators, of writes to etcd's other keys and of errors, and
  -- whenever the values are read, no id is given twice, as long as a thousand times the number of
  -- calls is below 2^64.
  pub Reach-unique :
      {calls : ℕ} {s : State} {allocators : List Allocator} {issued : List ℕ}
      → Reach calls s allocators issued
      → alloc_step * calls < u64_mod
      → (n : ℕ) → occurrences n issued ≤ 1
  Reach-unique x f n = omega (arith, (Reach-Consistent x f).once n)

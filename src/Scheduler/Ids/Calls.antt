-- ===== src/Scheduler/Ids/Calls.antt =====
-- scheduler/server/id/id.go: what a call of Alloc comes to.
use tinykv.Prelude.{
  ℕ, ◌+◌, ◌<◌, ◌≡◌, ◌≢◌, ◌⊎◌, refl, sym, ap, ap₂, ◌∙◌, subst, arith, Bool-cases, Option-cases, inl,
  inr, Option, none, some, [], ◌∷◌, ◌==◌, if_true, if_false, ==→eq, Bytes, put_uint64,
  uint64_of-put_uint64, length-big_endian, add64, sub64, add64-eq, sub64-eq, u64_mod,
}
use tinykv.Scheduler.Etcd.{
  Etcd, EtcdKey, Comparison, not_created, value_is, alloc_id, leader, Outcome, succeeded,
  not_succeeded, failed, Read, found, read_failed, Holds, Puts, Same,
}
use tinykv.Scheduler.Ids.{
  Allocator, alloc_step, IdError, etcd_error, invalid_data, not_leader, Reply, id, error,
  bytes_to_uint64, previous_end, generated, generate_from, generate, next_id, with_range, alloc,
}

-- The stored end, 0 before there is one.
abbrev pub Stored : Option Bytes → ℕ → Type 0
Stored v b = ((v ≡ none) × (b ≡ 0)) ⊎ (v ≡ some (put_uint64 b))

pub bytes_to_uint64-put_uint64 : (b : ℕ) → b < u64_mod → bytes_to_uint64 (put_uint64 b) ≡ some b
unfolding bytes_to_uint64
bytes_to_uint64-put_uint64 b h = ground (arith, length-big_endian 8 b, uint64_of-put_uint64 b h)

-- If what was read is still there, it stands for the stored end.
previous_end-Stored :
    (values : EtcdKey → Option Bytes) (b : ℕ) (read : Option Bytes) (end : ℕ) (still : Comparison)
    → Stored (values alloc_id) b
    → b < u64_mod
    → previous_end read ≡ some (end, still)
    → Holds values still
    → end ≡ b
unfolding previous_end
previous_end-Stored values b none end still st f h k =
    let start : end ≡ 0 = ground (arith, h) in
    let shape : still ≡ not_created alloc_id = ground (arith, h) in
    let empty : values alloc_id ≡ none = subst (Holds values) shape k in
    ground (arith, start, empty)
previous_end-Stored values b (some v) end still st f h k = elim (Option-cases (bytes_to_uint64 v)) [
  | inl e ↦ absurd (ground (arith, h, e))
  | inr (n, e) ↦
      let start : end ≡ n = ground (arith, h, e) in
      let shape : still ≡ value_is alloc_id v = ground (arith, h, e) in
      let there : values alloc_id ≡ some v = subst (Holds values) shape k in
      ground (arith, start, there, e, bytes_to_uint64-put_uint64 b f)
]

outcome-cases :
    {S : Type 0} (p : S × Outcome)
    → (p ≡ (p.0, succeeded)) ⊎ (p ≡ (p.0, not_succeeded)) ⊎ (p ≡ (p.0, failed))
outcome-cases (t, succeeded) = inl refl
outcome-cases (t, not_succeeded) = inr (inl refl)
outcome-cases (t, failed) = inr (inr refl)

module _ (e : Etcd) where
  open e use {State, values, get, commit, commit_succeeded, commit_not_succeeded, commit_failed}

  abbrev pub stored_end : State → Option Bytes
  stored_end s = values s alloc_id

  -- The range behind the stored end is put, and its first id given out.
  abbrev pub Won : State → State → Allocator → Reply → ℕ → Type 0
  Won s t a' r b =
      (a' ≡ record { base = b + 1; end = b + alloc_step })
      × (r ≡ id (b + 1))
      × Puts (values s) (values t) alloc_id (put_uint64 (b + alloc_step))

  -- An error. The range may be gone all the same.
  abbrev pub Lost : State → State → Allocator → Allocator → Reply → ℕ → Type 0
  Lost s t a a' r b =
      (a' ≡ a)
      × ((err : IdError) × (r ≡ error err))
      × (Same (values s) (values t)
          ⊎ Puts (values s) (values t) alloc_id (put_uint64 (b + alloc_step)))

  abbrev pub Served : State → State → Allocator → Allocator → Reply → Type 0
  Served s t a a' r =
      (t ≡ s)
      × (a' ≡ record a { base = add64 a.base 1 })
      × (r ≡ id (add64 a.base 1))
      × (a.base ≢ a.end)

  commit-cases :
      (s t : State) (o : Outcome) (b : ℕ) (member : Bytes) (read : Option Bytes) (end : ℕ)
      (still : Comparison)
      → Stored (stored_end s) b
      → b + alloc_step < u64_mod
      → previous_end read ≡ some (end, still)
      → commit s (still ∷ value_is leader member ∷ []) alloc_id (put_uint64 (add64 end alloc_step))
        ≡ (t, o)
      → (a : Allocator)
      → let p = with_range e a (generated e (add64 end alloc_step) (t, o)) in
        Won s p.1 p.0 p.2 b ⊎ Lost s p.1 a p.0 p.2 b
  unfolding with_range generated next_id
  commit-cases s t succeeded b member read end still st f m c a =
      let (held, put) = commit_succeeded s t _ alloc_id _ c in
      let same : end ≡ b =
        previous_end-Stored (values s) b read end still st (omega (arith, f)) m held.0 in
      let sum : add64 end alloc_step ≡ b + alloc_step =
        ap (λ n. add64 n alloc_step) same ∙ add64-eq b alloc_step f in
      let back : sub64 (add64 end alloc_step) alloc_step ≡ b =
        ap (λ n. sub64 n alloc_step) sum
        ∙ sub64-eq (b + alloc_step) alloc_step (omega arith) f
        ∙ omega arith in
      let one : add64 (sub64 (add64 end alloc_step) alloc_step) 1 ≡ b + 1 =
        ap (λ n. add64 n 1) back ∙ add64-eq b 1 (omega (arith, f)) in
      inl (
        ap₂ (λ x y. record { base = x; end = y }) one sum,
        ap id one,
        subst (λ n. Puts (values s) (values t) alloc_id (put_uint64 n)) sum put,
      )
  commit-cases s t not_succeeded b member read end still st f m c a =
      inr (refl, (not_leader, refl), inl (commit_not_succeeded s t _ alloc_id _ c))
  commit-cases s t failed b member read end still st f m c a =
      elim (commit_failed s t _ alloc_id _ c) [
        | inl same ↦ inr (refl, (etcd_error, refl), inl same)
        | inr (held, put) ↦
            let same : end ≡ b =
              previous_end-Stored (values s) b read end still st (omega (arith, f)) m held.0 in
            let sum : add64 end alloc_step ≡ b + alloc_step =
              ap (λ n. add64 n alloc_step) same ∙ add64-eq b alloc_step f in
            inr (
              refl,
              (etcd_error, refl),
              inr (subst (λ n. Puts (values s) (values t) alloc_id (put_uint64 n)) sum put),
            )
      ]

  generate_from-cases :
      (member : Bytes) (s : State) (read : Option Bytes) (b : ℕ)
      → Stored (stored_end s) b
      → b + alloc_step < u64_mod
      → (a : Allocator)
      → let p = with_range e a (generate_from e member s (previous_end read)) in
        Won s p.1 p.0 p.2 b ⊎ Lost s p.1 a p.0 p.2 b
  unfolding generate_from with_range
  generate_from-cases member s read b st f a = elim (Option-cases (previous_end read)) [
    | inl n ↦
        subst
          (λ q.
            let p = with_range e a (generate_from e member s q) in
            Won s p.1 p.0 p.2 b ⊎ Lost s p.1 a p.0 p.2 b)
          (sym n) (inr (refl, (invalid_data, refl), inl (λ k. refl)))
    | inr ((end, still), m) ↦
        subst
          (λ q.
            let p = with_range e a (generate_from e member s q) in
            Won s p.1 p.0 p.2 b ⊎ Lost s p.1 a p.0 p.2 b)
          (sym m) (commit-cases s _ _ b member read end still st f m refl a)
  ]

  -- A call gives an id from the range of its allocator, takes a new range, or ends in an error.
  abbrev pub Allocated : State → Allocator → ℕ → Allocator × State × Reply → Type 0
  Allocated s a b p =
      Served s p.1 a p.0 p.2 ⊎ ((a.base ≡ a.end) × Won s p.1 p.0 p.2 b) ⊎ Lost s p.1 a p.0 p.2 b

  read-cases :
      (member : Bytes) (s : State) (a : Allocator) (b : ℕ) (r : Read)
      → Stored (stored_end s) b
      → b + alloc_step < u64_mod
      → a.base ≡ a.end
      → Allocated s a b (
          with_range e a (elim r [
            | read_failed ↦ (s, error etcd_error)
            | found value ↦ generate_from e member s (previous_end value)
          ]))
  unfolding with_range
  read-cases member s a b read_failed st f same =
      inr (inr (refl, (etcd_error, refl), inl (λ k. refl)))
  read-cases member s a b (found value) st f same =
      elim (generate_from-cases member s value b st f a) [
        | inl won ↦ inr (inl (same, won))
        | inr lost ↦ inr (inr lost)
      ]

  pub alloc-Allocated :
      (member : Bytes) (was s : State) (a : Allocator) (b : ℕ)
      → Stored (stored_end s) b
      → b + alloc_step < u64_mod
      → Allocated s a b (alloc e member was s a)
  unfolding alloc generate next_id
  alloc-Allocated member was s a b st f = elim (Bool-cases (a.base == a.end)) [
    | inl empty ↦
        subst (Allocated s a b) (sym (if_true _ _ empty))
          (read-cases member s a b (get was alloc_id) st f (==→eq a.base a.end empty))
    | inr left ↦
        subst (Allocated s a b) (sym (if_false _ _ left))
          (inl (refl, refl, refl, λ q. ground (arith, left, q)))
  ]

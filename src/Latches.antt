-- ===== src/Latches.antt =====
-- kv/transaction/latches/latches.go: the latches that keep two commands from writing the same key.
-- The mutex makes AcquireLatches and ReleaseLatches one step each, and has no counterpart.
pub mod Keys
pub mod Exclusion
pub mod Release
use tinykv.Prelude.{
  ℕ, ◌+◌, ◌-◌, Bool, true, false, ◌&&◌, ◌||◌, Option, none, some, List, [], ◌∷◌, ◌++◌, length,
  get_elem?, set, ◌==◌, if◌then◌else◌, Result, ok, panic, explicit, nil_dereference, or_panic,
  ◌>>=◌,
}

-- A key is a string of bytes.
abbrev pub Key : Type 0
Key = List ℕ

unfoldable pub same_key : Key → Key → Bool
same_key [] [] = true
same_key [] (b ∷ bs) = false
same_key (a ∷ cs) [] = false
same_key (a ∷ cs) (b ∷ bs) = a == b && same_key cs bs

unfoldable pub latch_of : Key → List (Key × ℕ) → Option ℕ
latch_of k [] = none
latch_of k ((j, g) ∷ m) = if same_key j k then some g else latch_of k m

unfoldable pub set_latch : Key → ℕ → List (Key × ℕ) → List (Key × ℕ)
set_latch k g [] = (k, g) ∷ []
set_latch k g ((j, old) ∷ m) = if same_key j k then (k, g) ∷ m else (j, old) ∷ set_latch k g m

unfoldable pub delete_latch : Key → List (Key × ℕ) → List (Key × ℕ)
delete_latch k [] = []
delete_latch k ((j, g) ∷ m) =
    let rest = delete_latch k m in if same_key j k then rest else (j, g) ∷ rest

-- A WaitGroup is its place in the list of the counters of all that were made.
pub record Latches : Type 0 where
  pub latch_map : List (Key × ℕ)
  pub groups : List ℕ

unfoldable pub new_latches : Latches
new_latches = record { latch_map = []; groups = [] }

-- The wait group of the first key that is latched.
unfoldable pub first_latched : List Key → List (Key × ℕ) → Option ℕ
first_latched [] m = none
first_latched (k ∷ ks) m = elim (latch_of k m) [ some g ↦ some g | none ↦ first_latched ks m ]

unfoldable pub latch_all : ℕ → List Key → List (Key × ℕ) → List (Key × ℕ)
latch_all g [] m = m
latch_all g (k ∷ ks) m = latch_all g ks (set_latch k g m)

unfoldable pub grant : Latches → List Key → Option ℕ → Latches × Option ℕ
grant l keys (some g) = (l, some g)
grant l keys none = (
  record {
    latch_map = latch_all (length l.groups) keys l.latch_map;
    groups = l.groups ++ (1 ∷ []);
  },
  none,
)

-- The latches after the call, and the wait group that it returns; nil is `none`.
unfoldable pub acquire_latches : Latches → List Key → Latches × Option ℕ
unfolding grant
acquire_latches l keys = grant l keys (first_latched keys l.latch_map)

-- WaitGroup.Done: a counter that would be negative is a panic.
unfoldable pub done : List ℕ → ℕ → Result (List ℕ)
done groups g = do
  n ← or_panic nil_dereference (get_elem? groups g)
  if n == 0 then panic explicit else ok (set groups g (n - 1))

unfoldable pub unlatch_all : List Key → List (Key × ℕ) → List (Key × ℕ)
unlatch_all [] m = m
unlatch_all (k ∷ ks) m = unlatch_all ks (delete_latch k m)

-- Only the first key's wait group is told.
unfoldable pub release_latches : Latches → List Key → Result Latches
release_latches l [] = ok l
release_latches l (k ∷ ks) = do
  g ← or_panic nil_dereference (latch_of k l.latch_map)
  groups ← done l.groups g
  ok (record { latch_map = unlatch_all (k ∷ ks) l.latch_map; groups = groups })

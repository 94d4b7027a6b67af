-- ===== src/Scheduler/Etcd.antt =====
-- What scheduler/server asks of etcd, a third-party store: reads, and transactions that put one
-- value if all their comparisons hold (kv/etcd_kv.go passes them on). Its laws are etcd's
-- documentation: a transaction is atomic; one that ends in an error may have been applied.
use tinykv.Prelude.{◌≡◌, ◌≢◌, ◌⊎◌, List, Option, none, some, Bytes, All}

-- The paths below the root path of one cluster that the scheduler writes itself.
pub data EtcdKey : Type 0 where
  leader alloc_id timestamp : EtcdKey

-- CreateRevision(key) = 0, and Value(key) = value.
pub data Comparison : Type 0 where
  not_created : EtcdKey → Comparison
  value_is : EtcdKey → Bytes → Comparison

pub data Outcome : Type 0 where
  succeeded not_succeeded failed : Outcome

pub data Read : Type 0 where
  found : Option Bytes → Read
  read_failed : Read

-- What holds of the stored values.
abbrev pub Holds : (EtcdKey → Option Bytes) → Comparison → Type 0
Holds values (not_created k) = values k ≡ none
Holds values (value_is k v) = values k ≡ some v

-- Only the key is written, with the value.
abbrev pub Puts : (EtcdKey → Option Bytes) → (EtcdKey → Option Bytes) → EtcdKey → Bytes → Type 0
Puts before after k v = (after k ≡ some v) × ((j : EtcdKey) → j ≢ k → after j ≡ before j)

abbrev pub Same : (EtcdKey → Option Bytes) → (EtcdKey → Option Bytes) → Type 0
Same before after = (k : EtcdKey) → after k ≡ before k

pub record Etcd : Type 1 where
  pub State : Type 0
  pub values : State → EtcdKey → Option Bytes
  pub get : State → EtcdKey → Read
  pub commit : State → List Comparison → EtcdKey → Bytes → State × Outcome
  pub get_found : (s : State) (k : EtcdKey) (v : Option Bytes) → get s k ≡ found v → v ≡ values s k
  pub commit_succeeded :
      (s t : State) (cs : List Comparison) (k : EtcdKey) (v : Bytes)
      → commit s cs k v ≡ (t, succeeded)
      → All (Holds (values s)) cs × Puts (values s) (values t) k v
  pub commit_not_succeeded :
      (s t : State) (cs : List Comparison) (k : EtcdKey) (v : Bytes)
      → commit s cs k v ≡ (t, not_succeeded)
      → Same (values s) (values t)
  pub commit_failed :
      (s t : State) (cs : List Comparison) (k : EtcdKey) (v : Bytes)
      → commit s cs k v ≡ (t, failed)
      → Same (values s) (values t) ⊎ (All (Holds (values s)) cs × Puts (values s) (values t) k v)

-- ===== src/Scheduler/Tso/Saves.antt =====
-- scheduler/server/tso/tso.go: what saving a time comes to, and what is loaded.
use tinykv.Prelude.{
  ℕ, ◌+◌, ◌≡◌, ◌⊎◌, refl, sym, ap, ◌∙◌, arith, inl, inr, Option, none, some, [], ◌∷◌, Bytes,
  put_uint64,
}
use tinykv.Scheduler.Etcd.{
  Etcd, value_is, leader, timestamp, Outcome, succeeded, not_succeeded, failed, found, read_failed,
  Read,
}
use tinykv.Scheduler.Time.{zero_time, unix_nano, parse_timestamp}
use tinykv.Scheduler.Ids.{bytes_to_uint64}
use tinykv.Scheduler.Tso.{
  TimestampOracle, TsoError, etcd_error, not_leader, store, saved, save_timestamp, store_if_saved,
  save_and_store, Loaded, loaded, not_loaded, load_value, load_timestamp,
}
use tinykv.Scheduler.Tso.Clock.{Timely, parse_timestamp-put}

-- The saved time, the zero time before there is one.
abbrev pub Saved : Option Bytes → ℕ → Type 0
Saved v b = ((v ≡ none) × (b ≡ zero_time)) ⊎ ((v ≡ some (put_uint64 (unix_nano b))) × Timely b)

load_value-parsed :
    (bytes : Bytes) (b : ℕ) → parse_timestamp bytes ≡ some b → load_value (some bytes) ≡ loaded b
unfolding load_value parse_timestamp bytes_to_uint64
load_value-parsed [] b h = absurd (ground (arith, h))
load_value-parsed (x ∷ xs) b h = ground (arith, h)

load_value-Saved : (v : Option Bytes) (b : ℕ) → Saved v b → load_value v ≡ loaded b
unfolding load_value
load_value-Saved v b (inl (e, z)) = ap load_value e ∙ ap loaded (sym z)
load_value-Saved v b (inr (e, t)) =
    ap load_value e ∙ load_value-parsed (put_uint64 (unix_nano b)) b (parse_timestamp-put b t)

pub Saved-unique : (v : Option Bytes) (a b : ℕ) → Saved v a → Saved v b → a ≡ b
Saved-unique v a b h k =
    let same : loaded a ≡ loaded b = sym (load_value-Saved v a h) ∙ load_value-Saved v b k in cc

module _ (e : Etcd) (member : Bytes) (save_interval : ℕ) where
  open e use {
    State, values, get, commit, get_found, commit_succeeded, commit_not_succeeded, commit_failed,
  }

  -- Either the time is saved and stored, or the oracle stays as it is; then it may be saved all
  -- the same.
  abbrev pub Stored :
      State → TimestampOracle → ℕ → State × TimestampOracle × Option TsoError → Type 0
  Stored s o next (t, o', err) =
      ((err ≡ none)
        × (o' ≡ store next (record o { last_saved_time = next + save_interval }))
        × Saved (values t timestamp) (next + save_interval))
      ⊎ (((x : TsoError) × (err ≡ some x))
          × (o' ≡ o)
          × ((values t timestamp ≡ values s timestamp)
              ⊎ Saved (values t timestamp) (next + save_interval)))

  saved-cases :
      (s t : State) (o : TimestampOracle) (next : ℕ) (out : Outcome)
      → Timely (next + save_interval)
      → commit s
          (value_is leader member ∷ [])
          timestamp
          (put_uint64 (unix_nano (next + save_interval)))
        ≡ (t, out)
      → Stored s o next (
          store_if_saved e member save_interval next
            (saved e member save_interval (next + save_interval) o (t, out)))
  unfolding store_if_saved saved
  saved-cases s t o next succeeded h c =
      inl (refl, refl, inr ((commit_succeeded s t _ timestamp _ c).1.0, h))
  saved-cases s t o next not_succeeded h c =
      inr ((not_leader, refl), refl, inl (commit_not_succeeded s t _ timestamp _ c timestamp))
  saved-cases s t o next failed h c = elim (commit_failed s t _ timestamp _ c) [
    | inl same ↦ inr ((etcd_error, refl), refl, inl (same timestamp))
    | inr (held, put) ↦ inr ((etcd_error, refl), refl, inr (inr (put.0, h)))
  ]

  pub save_and_store-Stored :
      (s : State) (o : TimestampOracle) (next : ℕ)
      → Timely (next + save_interval)
      → Stored s o next (save_and_store e member save_interval s o next)
  unfolding save_and_store save_timestamp
  save_and_store-Stored s o next h = saved-cases s _ o next _ h refl

  pub load_timestamp-cases :
      (s : State) (b : ℕ)
      → Saved (values s timestamp) b
      → (load_timestamp e member save_interval s ≡ loaded b)
        ⊎ (load_timestamp e member save_interval s ≡ not_loaded etcd_error)
  unfolding load_timestamp
  load_timestamp-cases s b h = of_read (get s timestamp) refl
    where
      of_read :
          (r : Read)
          → get s timestamp ≡ r
          → let l : Loaded = elim r [
            | read_failed ↦ not_loaded etcd_error
            | found value ↦ load_value value
          ] in
            (l ≡ loaded b) ⊎ (l ≡ not_loaded etcd_error)
      of_read read_failed q = inr refl
      of_read (found v) q =
          inl
            (ap load_value (get_found s timestamp v q) ∙ load_value-Saved (values s timestamp) b h)

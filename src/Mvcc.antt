-- ===== src/Mvcc.antt =====
-- kv/transaction/mvcc: the keys, locks and writes of a transaction as bytes.
-- Reading and writing through an MvccTxn, the scanner and the commands of the server are stubs in
-- the repository (they return nil), and have no counterpart.
pub mod Keys
pub mod Records
use Prim.Native.Nat.{Ordering}
use tinykv.Prelude.{
  ℕ, ◌+◌, ◌-◌, ◌/◌, ◌%◌, ◌^◌, Bool, true, false, ◌&&◌, not, Option, none, some, List, [], ◌∷◌, ◌++◌,
  length, take, drop, get_elem?, ltb, leb, ◌==◌, if◌then◌else◌, Result, ok, panic, explicit, index,
  ◌>>=◌, u64_mod, Bytes, compare_bytes, put_uint64, uint64_of,
}
use tinykv.Codec.{encode_bytes, decode_bytes, Decoded, decoded, failed}

abbrev pub ts_max : ℕ
ts_max = u64_mod - 1

-- ^ts on a uint64
unfoldable pub complement : ℕ → ℕ
complement ts = ts_max - ts

unfoldable pub encode_key : Bytes → ℕ → Bytes
unfolding complement
encode_key key ts = encode_bytes key ++ put_uint64 (complement ts)

user_key : Decoded → Result Bytes
user_key (decoded left key) = ok key
user_key (failed e) = panic explicit

unfoldable pub decode_user_key : Bytes → Result Bytes
unfolding user_key
decode_user_key key = user_key (decode_bytes key)

-- BigEndian.Uint64 of eight bytes or more; it panics on fewer.
unfoldable pub uint64_at : Bytes → Result ℕ
uint64_at b = do last ← index b 7; ok (uint64_of (take 8 b))

timestamp : Decoded → Result ℕ
unfolding complement uint64_at
timestamp (decoded left key) = do v ← uint64_at left; ok (complement v)
timestamp (failed e) = panic explicit

unfoldable pub decode_timestamp : Bytes → Result ℕ
unfolding timestamp
decode_timestamp key = timestamp (decode_bytes key)

-- ts >> PhysicalShiftBits
unfoldable pub physical_time : ℕ → ℕ
physical_time ts = ts / 2 ^ 18

-- A WriteKind is an int; its byte is what is stored.
pub record Lock : Type 0 where
  pub primary : Bytes
  pub ts : ℕ
  pub ttl : ℕ
  pub kind : ℕ

pub record Write : Type 0 where
  pub start_ts : ℕ
  pub kind : ℕ

abbrev pub write_kind_put : ℕ
write_kind_put = 1

abbrev pub write_kind_delete : ℕ
write_kind_delete = 2

abbrev pub write_kind_rollback : ℕ
write_kind_rollback = 3

pub data ParseError : Type 0 where
  not_enough_input incorrect_length : ParseError

pub data Parsed {ℓ} (A : Type ℓ) : Type ℓ where
  parsed : A → Parsed A
  invalid : ParseError → Parsed A

unfoldable pub lock_to_bytes : Lock → Bytes
lock_to_bytes l = l.primary ++ l.kind % 256 ∷ (put_uint64 l.ts ++ put_uint64 l.ttl)

unfoldable pub parse_fields : ℕ → Bytes → Result (Parsed Lock)
parse_fields primary_len input = do
  kind ← index input primary_len
  ts ← uint64_at (drop (primary_len + 1) input)
  ttl ← uint64_at (drop (primary_len + 9) input)
  ok (parsed (record { primary = take primary_len input; ts = ts; ttl = ttl; kind = kind }))

unfoldable pub parse_lock : Bytes → Result (Parsed Lock)
parse_lock input =
    if leb (length input) 16
    then ok (invalid not_enough_input)
    else parse_fields (length input - 17) input

unfoldable pub write_to_bytes : Write → Bytes
write_to_bytes w = w.kind % 256 ∷ put_uint64 w.start_ts

-- No value is no write, and no error.
unfoldable pub parse_write : Option Bytes → Result (Parsed (Option Write))
parse_write none = ok (parsed none)
parse_write (some value) = if not (length value == 9) then ok (invalid incorrect_length) else do
  kind ← index value 0
  start_ts ← uint64_at (drop 1 value)
  ok (parsed (some (record { start_ts = start_ts; kind = kind })))

pub record LockInfo : Type 0 where
  pub key : Bytes
  pub lock_version : ℕ
  pub primary_lock : Bytes
  pub lock_ttl : ℕ

unfoldable pub info : Lock → Bytes → LockInfo
info l key = record { key = key; lock_version = l.ts; primary_lock = l.primary; lock_ttl = l.ttl }

is_eq : Ordering → Bool
is_eq Ordering.eq = true
is_eq Ordering.lt = false
is_eq Ordering.gt = false

-- True is `some`, with the error that the response is given.
unfoldable pub is_locked_for : Option Lock → Bytes → ℕ → Option LockInfo
unfolding is_eq info
is_locked_for none key txn_start_ts = none
is_locked_for (some l) key txn_start_ts =
    if txn_start_ts == ts_max && not (is_eq (compare_bytes key l.primary))
    then none
    else if leb l.ts txn_start_ts
    then some (info l key)
    else none

-- What the iteration over the lock column family gives: each key, and its value or an error.
pub data Collected : Type 0 where
  locks : List (Bytes × Lock) → Collected
  read_error : Collected
  parse_error : ParseError → Collected

cons_lock : Bytes → Lock → Collected → Collected
cons_lock key l (locks found) = locks ((key, l) ∷ found)
cons_lock key l read_error = read_error
cons_lock key l (parse_error e) = parse_error e

-- `rest` is what the rest of the iteration gives; an error ends it.
keep_lock : ℕ → Bytes → Parsed Lock → Result Collected → Result Collected
unfolding cons_lock
keep_lock start_ts key (invalid e) rest = ok (parse_error e)
keep_lock start_ts key (parsed l) rest =
    if l.ts == start_ts then (do found ← rest; ok (cons_lock key l found)) else rest

unfoldable pub all_locks_for_txn : ℕ → List (Bytes × Option Bytes) → Result Collected
unfolding keep_lock
all_locks_for_txn start_ts [] = ok (locks [])
all_locks_for_txn start_ts ((key, none) ∷ items) = ok read_error
all_locks_for_txn start_ts ((key, some value) ∷ items) =
    let rest = all_locks_for_txn start_ts items in
    do l ← parse_lock value; keep_lock start_ts key l rest

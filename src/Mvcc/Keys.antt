-- ===== src/Mvcc/Keys.antt =====
-- kv/transaction/mvcc/transaction.go: keys with a timestamp.
use Prim.Native.Nat.{compare}
use tinykv.Prelude.{
  ℕ, ◌<◌, ◌≡◌, ap, ◌∙◌, arith, ok, ◌>>=◌, u64_mod, Bytes, then, compare_bytes,
  compare_bytes-big_endian, big_endian, put_uint64, uint64_of-put_uint64,
}
use tinykv.Codec.RoundTrip.{decode_bytes-encode_bytes}
use tinykv.Codec.Order.{compare-encode_bytes}
use tinykv.Mvcc.{
  complement, user_key, timestamp, encode_key, decode_user_key, decode_timestamp, uint64_at,
}

-- Encoded keys are ordered by the user key, ascending, and for one user key by the timestamp,
-- descending; for all uint64 timestamps.
pub compare-encode_key :
    (k k' : Bytes) (t t' : ℕ)
    → t < u64_mod
    → t' < u64_mod
    → compare_bytes (encode_key k t) (encode_key k' t') ≡ then (compare_bytes k k') (compare t' t)
unfolding encode_key
compare-encode_key k k' t t' h h' =
    compare-encode_bytes k k' (put_uint64 (complement t)) (put_uint64 (complement t'))
    ∙ ap (then (compare_bytes k k')) (
        compare_bytes-big_endian 8 (complement t) (complement t') (unfold complement in omega arith)
          (unfold complement in omega arith)
        ∙ (unfold complement in ground arith))

pub uint64_at-put_uint64 : (v : ℕ) → v < u64_mod → uint64_at (put_uint64 v) ≡ ok v
unfolding uint64_at big_endian
uint64_at-put_uint64 v h = ap ok (uint64_of-put_uint64 v h)

-- The user key and the uint64 timestamp of an encoded key are those it was made of.
pub decode-encode_key :
    (k : Bytes) (t : ℕ)
    → t < u64_mod
    → (decode_user_key (encode_key k t) ≡ ok k) × (decode_timestamp (encode_key k t) ≡ ok t)
unfolding decode_user_key decode_timestamp encode_key
decode-encode_key k t h =
    let left = put_uint64 (complement t) in
    let e = (decode_bytes-encode_bytes k left).0 in
    let read = uint64_at-put_uint64 (complement t) (unfold complement in omega arith) in
    let back : complement (complement t) ≡ t = unfold complement in omega arith in
    (ap user_key e, ap timestamp e ∙ ap (λ m. m >>= λ v. ok (complement v)) read ∙ ap ok back)

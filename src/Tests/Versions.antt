-- ===== src/Tests/Versions.antt =====
-- kv/transaction/mvcc and the order of kv/util/codec: a few keys and records.
use Prim.Native.Nat.{compare}
use tinykv.Prelude.{◌≡◌, refl, arith, [], ◌∷◌, ◌++◌, some, none, ok, Bytes, then, compare_bytes}
use tinykv.Codec.{encode_bytes}
use tinykv.Codec.Order.{compare-encode_bytes}
use tinykv.Mvcc.{
  Lock, Write, parsed, encode_key, decode_user_key, decode_timestamp, lock_to_bytes, parse_lock,
  write_to_bytes, parse_write, write_kind_put, write_kind_delete, is_locked_for,
}
use tinykv.Mvcc.Keys.{compare-encode_key, decode-encode_key}
use tinykv.Mvcc.Records.{parse-to_bytes}

abbrev short : Bytes
short = 1 ∷ 2 ∷ []

abbrev longer : Bytes
longer = 1 ∷ 2 ∷ 0 ∷ []

abbrev held : Lock
held = record { primary = short; ts = 70; ttl = 3000; kind = write_kind_put }

abbrev deleted : Write
deleted = record { start_ts = 70; kind = write_kind_delete }

compare-encode_bytes_example :
    compare_bytes (encode_bytes short ++ longer) (encode_bytes longer ++ short)
    ≡ then (compare_bytes short longer) (compare_bytes longer short)
compare-encode_bytes_example = compare-encode_bytes short longer longer short

compare-encode_key_example :
    compare_bytes (encode_key short 70) (encode_key short 80)
    ≡ then (compare_bytes short short) (compare 80 70)
compare-encode_key_example = compare-encode_key short short 70 80 (omega arith) (omega arith)

decode-encode_key_example :
    (decode_user_key (encode_key longer 70) ≡ ok longer)
    × (decode_timestamp (encode_key longer 70) ≡ ok 70)
decode-encode_key_example = decode-encode_key longer 70 (omega arith)

parse-to_bytes_example :
    (parse_lock (lock_to_bytes held) ≡ ok (parsed held))
    × (parse_write (some (write_to_bytes deleted)) ≡ ok (parsed (some deleted)))
parse-to_bytes_example =
    parse-to_bytes held deleted (omega arith) (omega arith) (omega arith) (omega arith)
      (omega arith)

locked_for_later :
    is_locked_for (some held) longer 71
    ≡ some (record { key = longer; lock_version = 70; primary_lock = short; lock_ttl = 3000 })
unfolding is_locked_for
locked_for_later = refl

free_for_earlier : is_locked_for (some held) longer 69 ≡ none
unfolding is_locked_for
free_for_earlier = refl

-- ===== src/Mvcc/Records.antt =====
-- kv/transaction/mvcc/lock.go and write.go: locks and writes as they are stored.
use tinykv.Prelude.{
  ℕ, ◌+◌, ◌-◌, ◌%◌, suc, true, false, ◌<◌, ◌≡◌, ap, ◌∙◌, subst, arith, ok, [], ◌∷◌, ◌++◌, some,
  length, take, drop, index, leb, ◌==◌, if_false, u64_mod, Bytes, length-append, take-length_append,
  drop-length_append, get_elem?-length_append, put_uint64, big_endian, length-big_endian,
  uint64_of-put_uint64, or_panic, out_of_range,
}
use tinykv.Mvcc.{
  Lock, Write, parsed, parse_fields, lock_to_bytes, parse_lock, write_to_bytes, parse_write,
  uint64_at,
}
use tinykv.Mvcc.Keys.{uint64_at-put_uint64}

-- What is read at the front of a string with a uint64 there.
uint64_at-append : (v : ℕ) (rest : Bytes) → v < u64_mod → uint64_at (put_uint64 v ++ rest) ≡ ok v
unfolding uint64_at big_endian
uint64_at-append v rest h = ap ok (uint64_of-put_uint64 v h)

drop-length_add : (n : ℕ) (xs ys : Bytes) → drop (length xs + n) (xs ++ ys) ≡ drop n ys
drop-length_add n [] ys = ap (λ k. drop k ys) (omega arith)
drop-length_add n (x ∷ xs) ys =
    ap (λ k. drop k (x ∷ xs ++ ys)) (the_suc (length xs)) ∙ drop-length_add n xs ys
  where
    the_suc : (k : ℕ) → suc k + n ≡ suc (k + n)
    the_suc k = omega arith

parse_write_lem :
    (w : Write)
    → w.kind < 256
    → w.start_ts < u64_mod
    → parse_write (some (write_to_bytes w)) ≡ ok (parsed (some w))
unfolding parse_write write_to_bytes
parse_write_lem w h k =
    let size : (length (write_to_bytes w) == 9) ≡ true =
      ground (arith, length-big_endian 8 w.start_ts) in
    ground (arith, length-big_endian 8 w.start_ts, uint64_at-put_uint64 w.start_ts k)

parse_lock_lem :
    (l : Lock)
    → l.kind < 256
    → l.ts < u64_mod
    → l.ttl < u64_mod
    → parse_lock (lock_to_bytes l) ≡ ok (parsed l)
unfolding parse_lock parse_fields lock_to_bytes
parse_lock_lem l h k j =
    let tail = put_uint64 l.ts ++ put_uint64 l.ttl in
    let input = l.primary ++ l.kind % 256 ∷ tail in
    let size : length input ≡ length l.primary + 17 = omega (
      arith,
      length-append l.primary (l.kind % 256 ∷ tail),
      length-append (put_uint64 l.ts) (put_uint64 l.ttl),
      length-big_endian 8 l.ts,
      length-big_endian 8 l.ttl,
    ) in
    let at : length input - 17 ≡ length l.primary = omega (arith, size) in
    let enough : leb (length input) 16 ≡ false = ground (arith, size) in
    let kind : index input (length l.primary) ≡ ok (l.kind % 256) =
      ap (or_panic out_of_range) (get_elem?-length_append l.primary tail (l.kind % 256)) in
    let ts : uint64_at (drop (length l.primary + 1) input) ≡ ok l.ts =
      ap uint64_at (drop-length_add 1 l.primary (l.kind % 256 ∷ tail))
      ∙ uint64_at-append l.ts (put_uint64 l.ttl) k in
    let second : drop 8 tail ≡ put_uint64 l.ttl =
      subst (λ n. drop n tail ≡ put_uint64 l.ttl) (length-big_endian 8 l.ts)
        (drop-length_append (put_uint64 l.ts) (put_uint64 l.ttl)) in
    let ttl : uint64_at (drop (length l.primary + 9) input) ≡ ok l.ttl =
      ap uint64_at (drop-length_add 9 l.primary (l.kind % 256 ∷ tail) ∙ second)
      ∙ uint64_at-put_uint64 l.ttl j in
    let primary : take (length l.primary) input ≡ l.primary =
      take-length_append l.primary (l.kind % 256 ∷ tail) in
    let byte : l.kind % 256 ≡ l.kind = omega arith in
    if_false _ _ enough
    ∙ ap (λ n. parse_fields n input) at
    ∙ rw (kind, ts, ttl, primary) (ap (λ b. ok (parsed (record l { kind = b }))) byte)

-- A lock and a write are read back as they were stored, where their kinds are bytes and their
-- numbers uint64.
pub parse-to_bytes :
    (l : Lock) (w : Write)
    → l.kind < 256
    → l.ts < u64_mod
    → l.ttl < u64_mod
    → w.kind < 256
    → w.start_ts < u64_mod
    → (parse_lock (lock_to_bytes l) ≡ ok (parsed l))
      × (parse_write (some (write_to_bytes w)) ≡ ok (parsed (some w)))
parse-to_bytes l w h1 h2 h3 h4 h5 = (parse_lock_lem l h1 h2 h3, parse_write_lem w h4 h5)

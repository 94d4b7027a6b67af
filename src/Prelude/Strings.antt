-- ===== src/Prelude/Strings.antt =====
-- Strings of bytes: bytes.Compare, and encoding/binary's big-endian uint64.
use Prim.Native.Nat.{ℕ, zero, suc, ◌+◌, ◌*◌, ◌/◌, ◌%◌, ◌^◌, ◌<◌, compare, Ordering}
use Prim.Native.Nat.Ordering.{lt, eq, gt}
use mathlib.Core.Path.{◌≡◌, refl, sym, ap, ◌∙◌}
use mathlib.Core.Bool.{Bool, true, false}
use mathlib.Core.List.{List, [], ◌∷◌, ◌++◌}
use native.Mathlib.Omega.{arith}
use tinykv.Prelude.Lists.{length, length-append}

abbrev pub IsByte : ℕ → Type 0
IsByte b = b < 256

abbrev pub Bytes : Type 0
Bytes = List ℕ

-- The first difference decides.
abbrev pub then : Ordering → Ordering → Ordering
then eq second = second
then lt second = lt
then gt second = gt

-- -1, 0 and 1 are `lt`, `eq` and `gt`.
unfoldable pub compare_bytes : Bytes → Bytes → Ordering
compare_bytes [] [] = eq
compare_bytes [] (b ∷ bs) = lt
compare_bytes (a ∷ xs) [] = gt
compare_bytes (a ∷ xs) (b ∷ bs) = then (compare a b) (compare_bytes xs bs)

abbrev pub is_lt : Ordering → Bool
is_lt lt = true
is_lt eq = false
is_lt gt = false

abbrev pub is_le : Ordering → Bool
is_le lt = true
is_le eq = true
is_le gt = false

-- The n low bytes of a number, the highest first.
unfoldable pub big_endian : ℕ → ℕ → Bytes
big_endian zero v = []
big_endian (suc n) v = big_endian n (v / 256) ++ (v % 256 ∷ [])

-- How many numbers n bytes can hold.
abbrev pub byte_range : ℕ → ℕ
byte_range zero = 1
byte_range (suc n) = 256 * byte_range n

unfoldable pub number_from : ℕ → Bytes → ℕ
number_from acc [] = acc
number_from acc (b ∷ bs) = number_from (acc * 256 + b) bs

-- binary.BigEndian.PutUint64 into eight fresh bytes, and Uint64 of eight bytes.
abbrev pub put_uint64 : ℕ → Bytes
put_uint64 v = big_endian 8 v

abbrev pub uint64_of : Bytes → ℕ
uint64_of bs = number_from 0 bs

pub length-big_endian : (n v : ℕ) → length (big_endian n v) ≡ n
unfolding big_endian
length-big_endian zero v = refl
length-big_endian (suc n) v =
    omega
      (arith, length-append (big_endian n (v / 256)) (v % 256 ∷ []), length-big_endian n (v / 256))

number_from-append :
    (acc : ℕ) (xs ys : Bytes) → number_from acc (xs ++ ys) ≡ number_from (number_from acc xs) ys
unfolding number_from
number_from-append acc [] ys = refl
number_from-append acc (x ∷ xs) ys = number_from-append (acc * 256 + x) xs ys

-- The n bytes of a number that fits into them are read as that number.
pub number_from-big_endian : (n v : ℕ) → v < byte_range n → number_from 0 (big_endian n v) ≡ v
unfolding big_endian number_from
number_from-big_endian zero v h = omega arith
number_from-big_endian (suc n) v h =
    number_from-append 0 (big_endian n (v / 256)) (v % 256 ∷ [])
    ∙ ap (λ k. k * 256 + v % 256) (number_from-big_endian n (v / 256) (omega arith))
    ∙ omega arith

pub uint64_of-put_uint64 : (v : ℕ) → v < 2 ^ 64 → uint64_of (put_uint64 v) ≡ v
uint64_of-put_uint64 v h = number_from-big_endian 8 v (omega arith)

pub compare_bytes-append :
    (xs ys us vs : Bytes)
    → length xs ≡ length ys
    → compare_bytes (xs ++ us) (ys ++ vs) ≡ then (compare_bytes xs ys) (compare_bytes us vs)
unfolding compare_bytes
compare_bytes-append [] [] us vs h = refl
compare_bytes-append [] (y ∷ ys) us vs h = absurd (omega arith)
compare_bytes-append (x ∷ xs) [] us vs h = absurd (omega arith)
compare_bytes-append (x ∷ xs) (y ∷ ys) us vs h =
    ground (arith, compare_bytes-append xs ys us vs (omega arith))

pub compare_bytes_refl : (xs : Bytes) → compare_bytes xs xs ≡ eq
unfolding compare_bytes
compare_bytes_refl [] = refl
compare_bytes_refl (x ∷ xs) = ground (arith, compare_bytes_refl xs)

pub compare_bytes-eq : (xs ys : Bytes) → compare_bytes xs ys ≡ eq → xs ≡ ys
unfolding compare_bytes
compare_bytes-eq [] [] h = refl
compare_bytes-eq [] (y ∷ ys) h = cc
compare_bytes-eq (x ∷ xs) [] h = cc
compare_bytes-eq (x ∷ xs) (y ∷ ys) h = ground (arith, compare_bytes-eq xs ys)

pub compare_bytes_flip_lt : (xs ys : Bytes) → compare_bytes xs ys ≡ gt → compare_bytes ys xs ≡ lt
unfolding compare_bytes
compare_bytes_flip_lt [] [] h = cc
compare_bytes_flip_lt [] (y ∷ ys) h = cc
compare_bytes_flip_lt (x ∷ xs) [] h = refl
compare_bytes_flip_lt (x ∷ xs) (y ∷ ys) h = ground (arith, compare_bytes_flip_lt xs ys)

pub compare_bytes_flip_gt : (xs ys : Bytes) → compare_bytes xs ys ≡ lt → compare_bytes ys xs ≡ gt
unfolding compare_bytes
compare_bytes_flip_gt [] [] h = cc
compare_bytes_flip_gt [] (y ∷ ys) h = refl
compare_bytes_flip_gt (x ∷ xs) [] h = cc
compare_bytes_flip_gt (x ∷ xs) (y ∷ ys) h = ground (arith, compare_bytes_flip_gt xs ys)

pub compare_bytes_trans :
    (xs ys zs : Bytes)
    → compare_bytes xs ys ≡ lt
    → compare_bytes ys zs ≡ lt
    → compare_bytes xs zs ≡ lt
unfolding compare_bytes
compare_bytes_trans [] [] zs h k = cc
compare_bytes_trans [] (y ∷ ys) [] h k = cc
compare_bytes_trans [] (y ∷ ys) (z ∷ zs) h k = refl
compare_bytes_trans (x ∷ xs) [] zs h k = cc
compare_bytes_trans (x ∷ xs) (y ∷ ys) [] h k = cc
compare_bytes_trans (x ∷ xs) (y ∷ ys) (z ∷ zs) h k = ground (arith, compare_bytes_trans xs ys zs)

-- Big-endian bytes are in the order of the numbers.
pub compare_bytes-big_endian :
    (n a b : ℕ)
    → a < byte_range n
    → b < byte_range n
    → compare_bytes (big_endian n a) (big_endian n b) ≡ compare a b
unfolding big_endian compare_bytes
compare_bytes-big_endian zero a b h k = ground arith
compare_bytes-big_endian (suc n) a b h k =
    compare_bytes-append (big_endian n (a / 256)) (big_endian n (b / 256)) (a % 256 ∷ [])
      (b % 256 ∷ []) (length-big_endian n (a / 256) ∙ sym (length-big_endian n (b / 256)))
    ∙ ap (λ o. then o (compare_bytes (a % 256 ∷ []) (b % 256 ∷ [])))
        (compare_bytes-big_endian n (a / 256) (b / 256) (omega arith) (omega arith))
    ∙ ground arith

-- ===== src/Codec/Order.antt =====
-- kv/util/codec/codec.go: encoded strings are in the order of the strings, whatever stands behind
-- them.
use Prim.Native.Nat.{compare, Ordering}
use Prim.Native.Nat.Ordering.{lt, eq, gt}
use mathlib.Core.List.{append_assoc}
use tinykv.Prelude.{
  ℕ, zero, suc, ◌+◌, ◌-◌, ◌%◌, ◌≤◌, ◌<◌, ◌≡◌, refl, sym, ap, ap₂, ◌∙◌, arith, ◌⊎◌, inl, inr, [],
  ◌∷◌, ◌++◌, length, take, drop, leb, Bool-cases, leb→le, leb→gt, length-append, length-take,
  length-drop, take-append-drop, Bytes, then, compare_bytes, compare_bytes-append,
  compare_bytes_refl,
}
use tinykv.Codec.{sub8, pads, encode_bytes}
use tinykv.Codec.RoundTrip.{length-pads}
use tinykv.Codec.Canonical.{encode_bytes-whole, encode_bytes-last}

pads-le :
    (p : ℕ) (g : Bytes)
    → length g ≡ p
    → (compare_bytes (pads p) g ≡ lt) ⊎ (compare_bytes (pads p) g ≡ eq)
unfolding pads compare_bytes
pads-le zero [] h = inr refl
pads-le zero (b ∷ g) h = absurd (omega arith)
pads-le (suc p) [] h = absurd (omega arith)
pads-le (suc p) (b ∷ g) h = ground (arith, pads-le p g (omega arith))

ge-pads :
    (p : ℕ) (g : Bytes)
    → length g ≡ p
    → (compare_bytes g (pads p) ≡ gt) ⊎ (compare_bytes g (pads p) ≡ eq)
unfolding pads compare_bytes
ge-pads zero [] h = inr refl
ge-pads zero (b ∷ g) h = absurd (omega arith)
ge-pads (suc p) [] h = absurd (omega arith)
ge-pads (suc p) (b ∷ g) h = ground (arith, ge-pads p g (omega arith))

-- Two last groups, with their markers: the padding of the shorter string, where it does not differ
-- from the bytes of the longer, leaves it to the marker.
last-last :
    (n p q : ℕ) (a b : Bytes) (o : Ordering)
    → length a + p ≡ n
    → length b + q ≡ n
    → n ≤ 8
    → then (compare_bytes (a ++ pads p) (b ++ pads q)) (then (compare (255 - p) (255 - q)) o)
      ≡ then (compare_bytes a b) o
unfolding compare_bytes
last-last n p q [] [] o h k f =
    let e : p ≡ q = omega arith in rw e (ground (arith, compare_bytes_refl (pads q)))
last-last n p q [] (y ∷ b) o h k f =
    ground
      (arith, pads-le p (y ∷ b ++ pads q) (omega (arith, length-append b (pads q), length-pads q)))
last-last n p q (x ∷ a) [] o h k f =
    ground
      (arith, ge-pads q (x ∷ a ++ pads p) (omega (arith, length-append a (pads p), length-pads p)))
last-last zero p q (x ∷ a) (y ∷ b) o h k f = absurd (omega arith)
last-last (suc n) p q (x ∷ a) (y ∷ b) o h k f =
    ground (arith, last-last n p q a b o (omega arith) (omega arith) (omega arith))

last-whole :
    (p : ℕ) (a g more : Bytes) (o r : Ordering)
    → length a + p ≡ length g
    → 1 ≤ p
    → then (compare_bytes (a ++ pads p) g) (then (compare (255 - p) 255) o)
      ≡ then (compare_bytes a (g ++ more)) r
unfolding compare_bytes
last-whole p a [] more o r h l = absurd (omega arith)
last-whole p [] (y ∷ g) more o r h l = ground (arith, pads-le p (y ∷ g) (omega arith))
last-whole p (x ∷ a) (y ∷ g) more o r h l = ground (arith, last-whole p a g more o r (omega arith))

whole-last :
    (p : ℕ) (g more a : Bytes) (o r : Ordering)
    → length a + p ≡ length g
    → 1 ≤ p
    → then (compare_bytes g (a ++ pads p)) (then (compare 255 (255 - p)) o)
      ≡ then (compare_bytes (g ++ more) a) r
unfolding compare_bytes
whole-last p [] more a o r h l = absurd (omega arith)
whole-last p (y ∷ g) more [] o r h l = ground (arith, ge-pads p (y ∷ g) (omega arith))
whole-last p (y ∷ g) more (x ∷ a) o r h l = ground (arith, whole-last p g more a o r (omega arith))

then_assoc : (a b c : Ordering) → then a (then b c) ≡ then (then a b) c
then_assoc a b c = ground arith

-- The encoding of a string with no whole group, and of one with one.
abbrev short : Bytes → Bytes → Bytes
short a s = (a ++ pads (8 - length a)) ++ (255 - (8 - length a)) ∷ s

abbrev whole : Bytes → Bytes → Bytes
whole a s = take 8 a ++ 255 ∷ (encode_bytes (drop 8 a) ++ s)

encode_bytes-short : (a s : Bytes) → length a < 8 → encode_bytes a ++ s ≡ short a s
unfolding sub8
encode_bytes-short a s h =
    let m : (255 + 256 - (8 - length a)) % 256 ≡ 255 - (8 - length a) = omega arith in
    ap (λ x. x ++ s) (encode_bytes-last a (8 - length a) (omega arith) (omega arith))
    ∙ append_assoc (a ++ pads (8 - length a)) ((255 + 256 - (8 - length a)) % 256 ∷ []) s
    ∙ ap (λ k. (a ++ pads (8 - length a)) ++ k ∷ s) m

encode_bytes-long : (a s : Bytes) → 8 ≤ length a → encode_bytes a ++ s ≡ whole a s
encode_bytes-long a s h =
    ap (λ x. encode_bytes x ++ s) (sym (take-append-drop 8 a))
    ∙ ap (λ x. x ++ s) (encode_bytes-whole (take 8 a) (drop 8 a) (omega (arith, length-take 8 a)))
    ∙ append_assoc (take 8 a) (255 ∷ encode_bytes (drop 8 a)) s

length-short : (a : Bytes) → length a < 8 → length (a ++ pads (8 - length a)) ≡ 8
length-short a h = omega (arith, length-append a (pads (8 - length a)), length-pads (8 - length a))

length-first : (a : Bytes) → 8 ≤ length a → length (take 8 a) ≡ 8
length-first a h = omega (arith, length-take 8 a)

split-compare :
    (a b : Bytes) (o : Ordering)
    → 8 ≤ length a
    → 8 ≤ length b
    → then (compare_bytes (take 8 a) (take 8 b)) (then (compare_bytes (drop 8 a) (drop 8 b)) o)
      ≡ then (compare_bytes a b) o
split-compare a b o h k =
    then_assoc _ _ o
    ∙ ap (λ c. then c o)
        (sym (
            compare_bytes-append (take 8 a) (take 8 b) (drop 8 a) (drop 8 b)
              (length-first a h ∙ sym (length-first b k)))
          ∙ ap₂ compare_bytes (take-append-drop 8 a) (take-append-drop 8 b))

module _ (a b s t : Bytes) where
  short-short :
      length a < 8
      → length b < 8
      → compare_bytes (short a s) (short b t) ≡ then (compare_bytes a b) (compare_bytes s t)
  unfolding compare_bytes
  short-short h k =
      compare_bytes-append (a ++ pads (8 - length a)) (b ++ pads (8 - length b)) _ _
        (length-short a h ∙ sym (length-short b k))
      ∙ last-last 8 (8 - length a) (8 - length b) a b (compare_bytes s t) (omega arith)
          (omega arith) (omega arith)

  short-whole :
      length a < 8
      → 8 ≤ length b
      → compare_bytes (short a s) (whole b t) ≡ then (compare_bytes a b) (compare_bytes s t)
  unfolding compare_bytes
  short-whole h k =
      compare_bytes-append (a ++ pads (8 - length a)) (take 8 b) _ _
        (length-short a h ∙ sym (length-first b k))
      ∙ last-whole (8 - length a) a (take 8 b) (drop 8 b) _ (compare_bytes s t)
          (omega (arith, length-first b k)) (omega arith)
      ∙ ap (λ x. then (compare_bytes a x) (compare_bytes s t)) (take-append-drop 8 b)

  whole-short :
      8 ≤ length a
      → length b < 8
      → compare_bytes (whole a s) (short b t) ≡ then (compare_bytes a b) (compare_bytes s t)
  unfolding compare_bytes
  whole-short h k =
      compare_bytes-append (take 8 a) (b ++ pads (8 - length b)) _ _
        (length-first a h ∙ sym (length-short b k))
      ∙ whole-last (8 - length b) (take 8 a) (drop 8 a) b _ (compare_bytes s t)
          (omega (arith, length-first a h)) (omega arith)
      ∙ ap (λ x. then (compare_bytes x b) (compare_bytes s t)) (take-append-drop 8 a)

  whole-whole :
      8 ≤ length a
      → 8 ≤ length b
      → (compare_bytes (encode_bytes (drop 8 a) ++ s) (encode_bytes (drop 8 b) ++ t)
          ≡ then (compare_bytes (drop 8 a) (drop 8 b)) (compare_bytes s t))
      → compare_bytes (whole a s) (whole b t) ≡ then (compare_bytes a b) (compare_bytes s t)
  unfolding compare_bytes
  whole-whole h k rest =
      compare_bytes-append (take 8 a) (take 8 b) _ _ (length-first a h ∙ sym (length-first b k))
      ∙ ap (then (compare_bytes (take 8 a) (take 8 b))) rest
      ∙ split-compare a b (compare_bytes s t) h k

encoded :
    (a b s t x y : Bytes)
    → encode_bytes a ++ s ≡ x
    → encode_bytes b ++ t ≡ y
    → compare_bytes x y ≡ then (compare_bytes a b) (compare_bytes s t)
    → compare_bytes (encode_bytes a ++ s) (encode_bytes b ++ t)
      ≡ then (compare_bytes a b) (compare_bytes s t)
encoded a b s t x y e f h = ap₂ compare_bytes e f ∙ h

compare-encode_rounds :
    (n : ℕ) (a b s t : Bytes)
    → length a < n
    → compare_bytes (encode_bytes a ++ s) (encode_bytes b ++ t)
      ≡ then (compare_bytes a b) (compare_bytes s t)
compare-encode_rounds zero a b s t h = elim h [ ]
compare-encode_rounds (suc n) a b s t h = elim (Bool-cases (leb 8 (length a))) [
  | inl x ↦ elim (Bool-cases (leb 8 (length b))) [
    | inl y ↦
        let p = leb→le _ _ x in
        let q = leb→le _ _ y in
        encoded a b s t _ _ (encode_bytes-long a s p) (encode_bytes-long b t q) (
          whole-whole a b s t p q
            (compare-encode_rounds n (drop 8 a) (drop 8 b) s t (omega (arith, length-drop 8 a))))
    | inr y ↦
        let p = leb→le _ _ x in
        let q = leb→gt _ _ y in
        encoded a b s t _ _ (encode_bytes-long a s p) (encode_bytes-short b t q)
          (whole-short a b s t p q)
  ]
  | inr x ↦ elim (Bool-cases (leb 8 (length b))) [
    | inl y ↦
        let p = leb→gt _ _ x in
        let q = leb→le _ _ y in
        encoded a b s t _ _ (encode_bytes-short a s p) (encode_bytes-long b t q)
          (short-whole a b s t p q)
    | inr y ↦
        let p = leb→gt _ _ x in
        let q = leb→gt _ _ y in
        encoded a b s t _ _ (encode_bytes-short a s p) (encode_bytes-short b t q)
          (short-short a b s t p q)
  ]
]

-- Whatever stands behind two encodings, they compare as the strings do, and as what stands behind
-- them where the strings are equal.
pub compare-encode_bytes :
    (a b s t : Bytes)
    → compare_bytes (encode_bytes a ++ s) (encode_bytes b ++ t)
      ≡ then (compare_bytes a b) (compare_bytes s t)
compare-encode_bytes a b s t = compare-encode_rounds (length a + 1) a b s t (omega arith)

-- ===== src/Codec/RoundTrip.antt =====
-- kv/util/codec/codec.go: DecodeBytes gives back what EncodeBytes was given.
use mathlib.Core.List.{append_assoc, append-nil}
use tinykv.Prelude.{
  ℕ, zero, suc, ◌+◌, ◌-◌, ◌*◌, ◌/◌, ◌≤◌, ◌<◌, ◌≡◌, ◌≢◌, refl, sym, ap, ◌∙◌, subst, arith, true,
  false, some, List, [], ◌∷◌, ◌++◌, length, take, drop, get_elem?, ltb, leb, ◌==◌, Bool-cases, inl,
  inr, length-append, length-take, length-drop, take-length_append, drop-length_append,
  get_elem?-length_append, take-append-drop, take-all, if_true, if_false,
}
use tinykv.Codec.{
  enc_marker, sub8, pads, encode_group, encode_rounds, encode_bytes, Decoded, decoded, failed,
  out_of_rounds, are_pads, marker_of, decode_group, decode_rounds, decode_bytes,
}

pub length-pads : (n : ℕ) → length (pads n) ≡ n
unfolding pads
length-pads zero = refl
length-pads (suc n) = omega (arith, length-pads n)

are_pads-pads : (n : ℕ) → are_pads (pads n) ≡ true
unfolding pads are_pads
are_pads-pads zero = refl
are_pads-pads (suc n) = are_pads-pads n

sub8_lem : (n : ℕ) → n ≤ 8 → sub8 enc_marker (sub8 enc_marker n) ≡ n
unfolding sub8
sub8_lem n h = omega arith

drop-behind :
    (group : List ℕ) (marker : ℕ) (left : List ℕ)
    → drop (length group + 1) (group ++ marker ∷ left) ≡ left
drop-behind [] marker left = refl
drop-behind (b ∷ bs) marker left =
    ap (λ k. drop k (b ∷ bs ++ marker ∷ left)) (the_suc (length bs)) ∙ drop-behind bs marker left
  where
    the_suc : (k : ℕ) → suc k + 1 ≡ suc (k + 1)
    the_suc k = omega arith

-- A round of decoding at a group of eight bytes and its marker.
decode_round :
    (n : ℕ) (group : List ℕ) (marker : ℕ) (left acc : List ℕ)
    → length group ≡ 8
    → decode_rounds (suc n) (group ++ marker ∷ left) acc
      ≡ decode_group
          (sub8 enc_marker marker)
          group
          left
          (acc ++ take (8 - sub8 enc_marker marker) group)
          (decode_rounds n left (acc ++ take (8 - sub8 enc_marker marker) group))
unfolding decode_rounds marker_of
decode_round n group marker left acc h =
    let taken : take 8 (group ++ marker ∷ left) ≡ group =
      subst (λ k. take k (group ++ marker ∷ left) ≡ group) h
        (take-length_append group (marker ∷ left)) in
    let dropped : drop 9 (group ++ marker ∷ left) ≡ left =
      subst (λ k. drop (k + 1) (group ++ marker ∷ left) ≡ left) h (drop-behind group marker left) in
    let found : get_elem? (group ++ marker ∷ left) 8 ≡ some marker =
      subst (λ k. get_elem? (group ++ marker ∷ left) k ≡ some marker) h
        (get_elem?-length_append group left marker) in
    let mark : marker_of (group ++ marker ∷ left) ≡ marker = ground (arith, found) in
    let enough : ltb (length (group ++ marker ∷ left)) 9 ≡ false =
      ground (arith, length-append group (marker ∷ left)) in
    rw (enough, taken, dropped, mark)

last_group :
    (pad : ℕ) (value left acc : List ℕ) (next : Decoded)
    → length value + pad ≡ 8
    → 1 ≤ pad
    → decode_group pad (value ++ pads pad) left (acc ++ take (8 - pad) (value ++ pads pad)) next
      ≡ decoded left (acc ++ value)
unfolding decode_group
last_group pad value left acc next h p =
    let e : 8 - pad ≡ length value = omega arith in
    let taken : take (8 - pad) (value ++ pads pad) ≡ value =
      ap (λ k. take k (value ++ pads pad)) e ∙ take-length_append value (pads pad) in
    let dropped : drop (8 - pad) (value ++ pads pad) ≡ pads pad =
      ap (λ k. drop k (value ++ pads pad)) e ∙ drop-length_append value (pads pad) in
    let small : ltb 8 pad ≡ false = ground arith in
    let padded : (pad == 0) ≡ false = ground arith in
    rw (small, padded, dropped, taken, are_pads-pads pad)

decode_last :
    (more : ℕ) (value left acc : List ℕ)
    → length value < 8
    → decode_rounds (suc more) (encode_group value ++ left) acc ≡ decoded left (acc ++ value)
unfolding encode_group
decode_last more value left acc h =
    let pad = 8 - length value in
    let marker = sub8 enc_marker pad in
    let small : leb 8 (length value) ≡ false = ground arith in
    let shape : encode_group value ++ left ≡ (value ++ pads pad) ++ marker ∷ left =
      ap (λ b. b ++ left)
        (if_false (take 8 value ++ (sub8 255 0 ∷ [])) (value ++ (pads pad ++ (marker ∷ []))) small
          ∙ sym (append_assoc value (pads pad) (marker ∷ [])))
      ∙ append_assoc (value ++ pads pad) (marker ∷ []) left in
    let size : length (value ++ pads pad) ≡ 8 =
      omega (arith, length-append value (pads pad), length-pads pad) in
    ap (λ b. decode_rounds (suc more) b acc) shape
    ∙ decode_round more (value ++ pads pad) marker left acc size
    ∙ subst
        (λ p.
          decode_group p (value ++ pads pad) left (acc ++ take (8 - p) (value ++ pads pad))
            (decode_rounds more left (acc ++ take (8 - p) (value ++ pads pad)))
          ≡ decoded left (acc ++ value))
        (sym (sub8_lem pad (omega arith)))
        (last_group pad value left acc _ (omega arith) (omega arith))

decode_whole :
    (m : ℕ) (value left acc : List ℕ)
    → 8 ≤ length value
    → decode_rounds (suc m) (encode_group value ++ left) acc
      ≡ decode_rounds m left (acc ++ take 8 value)
unfolding encode_group decode_group sub8
decode_whole m value left acc h =
    let big : leb 8 (length value) ≡ true = ground arith in
    let shape : encode_group value ++ left ≡ take 8 value ++ 255 ∷ left =
      ap (λ b. b ++ left)
        (if_true (take 8 value ++ (sub8 255 0 ∷ []))
          (value ++ (pads (8 - length value) ++ (sub8 255 (8 - length value) ∷ []))) big)
      ∙ append_assoc (take 8 value) (255 ∷ []) left in
    let size : length (take 8 value) ≡ 8 = omega (arith, length-take 8 value) in
    ap (λ b. decode_rounds (suc m) b acc) shape
    ∙ decode_round m (take 8 value) 255 left acc size
    ∙ ap (λ v. decode_rounds m left (acc ++ v)) (take-all 8 (take 8 value) (omega (arith, size)))

-- As many rounds of decoding as the encoding had are enough.
decode_rounds-encode_rounds :
    (n fuel : ℕ) (value left acc : List ℕ)
    → length value / 8 ≡ n
    → n < fuel
    → decode_rounds fuel (encode_rounds (suc n) value ++ left) acc ≡ decoded left (acc ++ value)
unfolding encode_rounds
decode_rounds-encode_rounds n zero value left acc h f = elim f [ ]
decode_rounds-encode_rounds zero (suc fuel) value left acc h f =
    ap (λ b. decode_rounds (suc fuel) (b ++ left) acc) (append-nil (encode_group value))
    ∙ decode_last fuel value left acc (omega arith)
decode_rounds-encode_rounds (suc n) (suc fuel) value left acc h f =
    ap (λ b. decode_rounds (suc fuel) b acc)
      (append_assoc (encode_group value) (encode_rounds (suc n) (drop 8 value)) left)
    ∙ decode_whole fuel value (encode_rounds (suc n) (drop 8 value) ++ left) acc (omega arith)
    ∙ decode_rounds-encode_rounds n fuel (drop 8 value) left (acc ++ take 8 value)
        (omega (arith, length-drop 8 value)) (omega arith)
    ∙ ap (decoded left)
        (append_assoc acc (take 8 value) (drop 8 value) ∙ ap (◌++◌ acc) (take-append-drop 8 value))

length-encode_group : (value : List ℕ) → length (encode_group value) ≡ 9
unfolding encode_group
length-encode_group value = elim (Bool-cases (leb 8 (length value))) [
  | inl e ↦ ground (arith, e, length-append (take 8 value) (sub8 255 0 ∷ []), length-take 8 value)
  | inr e ↦ ground (
    arith,
    e,
    length-append value (pads (8 - length value) ++ (sub8 255 (8 - length value) ∷ [])),
    length-append (pads (8 - length value)) (sub8 255 (8 - length value) ∷ []),
    length-pads (8 - length value),
  )
]

length-encode_rounds : (n : ℕ) (value : List ℕ) → length (encode_rounds n value) ≡ 9 * n
unfolding encode_rounds
length-encode_rounds zero value = refl
length-encode_rounds (suc n) value = omega (
  arith,
  length-append (encode_group value) (encode_rounds n (drop 8 value)),
  length-encode_group value,
  length-encode_rounds n (drop 8 value),
)

-- Whatever bytes follow, DecodeBytes gives back the value that EncodeBytes was given and exactly
-- those bytes; and the encoding has nine bytes for each eight of the value, and nine more.
pub decode_bytes-encode_bytes :
    (value left : List ℕ)
    → (decode_bytes (encode_bytes value ++ left) ≡ decoded left value)
      × (length (encode_bytes value) ≡ 9 * (length value / 8 + 1))
unfolding decode_bytes encode_bytes
decode_bytes-encode_bytes value left =
    let s : length value / 8 + 1 ≡ suc (length value / 8) = omega arith in
    let size = length-encode_rounds (length value / 8 + 1) value in
    let fuel = length (encode_rounds (length value / 8 + 1) value ++ left) + 1 in
    (
      ap (λ r. decode_rounds fuel (encode_rounds r value ++ left) []) s
          ∙ decode_rounds-encode_rounds (length value / 8) fuel value left [] refl (
              omega (arith, size, length-append (encode_rounds (length value / 8 + 1) value) left)),
      size,
    )

decode_group-ends :
    (pad : ℕ) (group b value : List ℕ) (next : Decoded)
    → next ≢ failed out_of_rounds
    → decode_group pad group b value next ≢ failed out_of_rounds
unfolding decode_group
decode_group-ends pad group b value next h = ground (arith, h)

-- DecodeBytes always ends, by one of its returns: each round takes nine bytes off, so that a loop
-- that may run one round more than there are nines of bytes never uses its rounds up.
pub decode_rounds-ends :
    (n : ℕ) (b value : List ℕ) → length b / 9 < n → decode_rounds n b value ≢ failed out_of_rounds
unfolding decode_rounds
decode_rounds-ends zero b value h = elim h [ ]
decode_rounds-ends (suc n) b value h = elim (Bool-cases (ltb (length b) 9)) [
  | inl e ↦ λ out. let q = sym (if_true _ _ e) ∙ out in cc
  | inr e ↦
      let pad = sub8 255 (marker_of b) in
      let more = value ++ take (8 - pad) (take 8 b) in
      let rest : length (drop 9 b) / 9 < n = ground (arith, e, length-drop 9 b) in
      λ out.
        decode_group-ends pad (take 8 b) (drop 9 b) more (decode_rounds n (drop 9 b) more)
          (decode_rounds-ends n (drop 9 b) more rest) (sym (if_false _ _ e) ∙ out)
]

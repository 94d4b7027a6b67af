-- ===== src/Codec/Canonical.antt =====
-- kv/util/codec/codec.go: what DecodeBytes accepts.
use mathlib.Core.List.{append_assoc, append-nil}
use tinykv.Prelude.{
  ℕ, zero, suc, ◌+◌, ◌-◌, ◌/◌, ◌≤◌, ◌<◌, ◌≡◌, refl, sym, ap, ap₂, ◌∙◌, subst, arith, true, false,
  some, List, [], ◌∷◌, ◌++◌, length, take, drop, All, IsByte, get_elem?, ltb, leb, ◌==◌, Bool-cases,
  inl, inr, ltb→ge, ==→eq, length-append, length-take, length-drop, take-length_append,
  drop-length_append, take-append-drop, take-all, if_true, if_false,
}
use tinykv.Codec.{
  sub8, pads, encode_group, encode_rounds, encode_bytes, Decoded, decoded, failed, are_pads,
  marker_of, decode_group, decode_rounds, decode_bytes,
}

-- Enough bytes are a group, its marker and what is left.
split_group :
    (n : ℕ) (b : List ℕ)
    → n < length b
    → (m : ℕ) × (get_elem? b n ≡ some m) × (b ≡ take n b ++ m ∷ drop (n + 1) b)
split_group n [] h = elim h [ ]
split_group zero (x ∷ b) h = (x, refl, refl)
split_group (suc n) (x ∷ b) h =
    let (m, e, s) = split_group n b (omega arith) in
    let q : suc (n + 1) ≡ suc n + 1 = omega arith in
    (m, e, ap (◌∷◌ x) s ∙ ap (λ k. x ∷ take n b ++ m ∷ drop k (x ∷ b)) q)

All-get_elem? : (P : ℕ → Type 0) (b : List ℕ) (n m : ℕ) → All P b → get_elem? b n ≡ some m → P m
All-get_elem? P [] n m a e = cc
All-get_elem? P (x ∷ b) zero m a e = subst P (cc) a.0
All-get_elem? P (x ∷ b) (suc n) m a e = All-get_elem? P b n m a.1 e

All-drop : (P : ℕ → Type 0) (n : ℕ) (b : List ℕ) → All P b → All P (drop n b)
All-drop P zero b a = a
All-drop P (suc n) [] a = a
All-drop P (suc n) (x ∷ b) a = All-drop P n b a.1

are_pads-eq-pads : (b : List ℕ) → are_pads b ≡ true → b ≡ pads (length b)
unfolding are_pads pads
are_pads-eq-pads [] h = refl
are_pads-eq-pads (x ∷ b) h = elim (Bool-cases (x == 0)) [
  | inl e ↦ ap₂ (λ y ys. y ∷ ys) (==→eq x 0 e) (are_pads-eq-pads b (ground (arith, h, e)))
  | inr e ↦ absurd (ground (arith, h, e))
]

-- The encoding of a whole group and more, and of less than a group.
pub encode_bytes-whole :
    (group value : List ℕ)
    → length group ≡ 8
    → encode_bytes (group ++ value) ≡ group ++ 255 ∷ encode_bytes value
unfolding encode_bytes encode_rounds encode_group sub8
encode_bytes-whole group value h =
    let n : length (group ++ value) / 8 + 1 ≡ suc (length value / 8 + 1) =
      omega (arith, length-append group value) in
    let big : leb 8 (length (group ++ value)) ≡ true = ground (arith, length-append group value) in
    let taken : take 8 (group ++ value) ≡ group =
      subst (λ k. take k (group ++ value) ≡ group) h (take-length_append group value) in
    let dropped : drop 8 (group ++ value) ≡ value =
      subst (λ k. drop k (group ++ value) ≡ value) h (drop-length_append group value) in
    ap (λ r. encode_rounds r (group ++ value)) n
    ∙ ap₂ (λ a b. a ++ b) (if_true _ _ big ∙ ap (λ a. a ++ (255 ∷ [])) taken)
        (ap (encode_rounds (length value / 8 + 1)) dropped)
    ∙ append_assoc group (255 ∷ []) (encode_rounds (length value / 8 + 1) value)

pub encode_bytes-last :
    (value : List ℕ) (pad : ℕ)
    → length value + pad ≡ 8
    → 1 ≤ pad
    → encode_bytes value ≡ (value ++ pads pad) ++ (sub8 255 pad ∷ [])
unfolding encode_bytes encode_rounds encode_group
encode_bytes-last value pad h p =
    let n : length value / 8 + 1 ≡ 1 = omega arith in
    let small : leb 8 (length value) ≡ false = ground arith in
    let e : 8 - length value ≡ pad = omega arith in
    ap (λ r. encode_rounds r value) n
    ∙ append-nil (encode_group value)
    ∙ if_false _ _ small
    ∙ ap (λ k. value ++ (pads k ++ (sub8 255 k ∷ []))) e
    ∙ sym (append_assoc value (pads pad) (sub8 255 pad ∷ []))

sub8_inverse : (m : ℕ) → m < 256 → sub8 255 (sub8 255 m) ≡ m
unfolding sub8
sub8_inverse m h = omega arith

-- What a run of the loop accepts: the encoding of what it adds, and the leftover bytes.
abbrev Accepts : List ℕ → List ℕ → List ℕ → List ℕ → Type 0
Accepts b value left result =
    (more : List ℕ) × (result ≡ value ++ more) × (b ≡ encode_bytes more ++ left)

-- A whole group, behind which the loop goes on.
whole-Accepts :
    (group behind value left result : List ℕ)
    → length group ≡ 8
    → Accepts behind (value ++ group) left result
    → Accepts (group ++ 255 ∷ behind) value left result
whole-Accepts group behind value left result h (more, r, s) = (
  group ++ more,
  r ∙ append_assoc value group more,
  ap (λ b. group ++ 255 ∷ b) s
      ∙ sym (append_assoc group (255 ∷ encode_bytes more) left)
      ∙ ap (λ b. b ++ left) (sym (encode_bytes-whole group more h)),
)

-- The last group: its bytes before the padding, and its padding.
last-Accepts :
    (pad m : ℕ) (group behind value : List ℕ)
    → length group ≡ 8
    → sub8 255 pad ≡ m
    → 1 ≤ pad
    → pad ≤ 8
    → are_pads (drop (8 - pad) group) ≡ true
    → Accepts (group ++ m ∷ behind) value behind (value ++ take (8 - pad) group)
last-Accepts pad m group behind value h q lo hi p =
    let v = take (8 - pad) group in
    let size : length v + pad ≡ 8 = omega (arith, length-take (8 - pad) group) in
    let padded : drop (8 - pad) group ≡ pads pad =
      are_pads-eq-pads (drop (8 - pad) group) p
      ∙ ap pads (omega (arith, length-drop (8 - pad) group)) in
    let parts : group ≡ v ++ pads pad =
      sym (take-append-drop (8 - pad) group) ∙ ap (λ d. v ++ d) padded in
    (
      v,
      refl,
      ap₂ (λ g n. g ++ n ∷ behind) parts (sym q)
          ∙ sym (append_assoc (v ++ pads pad) (sub8 255 pad ∷ []) behind)
          ∙ ap (λ b. b ++ behind) (sym (encode_bytes-last v pad size lo)),
    )

abbrev left_of : Decoded → List ℕ
left_of (decoded left value) = left
left_of (failed e) = []

abbrev value_of : Decoded → List ℕ
value_of (decoded left value) = value
value_of (failed e) = []

decode_group-Accepts :
    (pad m : ℕ) (group behind value left result : List ℕ) (next : Decoded)
    → length group ≡ 8
    → sub8 255 pad ≡ m
    → (next ≡ decoded left result → Accepts behind (value ++ take (8 - pad) group) left result)
    → decode_group pad group behind (value ++ take (8 - pad) group) next ≡ decoded left result
    → Accepts (group ++ m ∷ behind) value left result
unfolding decode_group
decode_group-Accepts pad m group behind value left result next s q go h =
    elim (Bool-cases (ltb 8 pad)) [
      | inl big ↦ absurd (ground (arith, h, big))
      | inr fits ↦ elim (Bool-cases (pad == 0)) [
        | inl whole ↦
            let z : pad ≡ 0 = ==→eq pad 0 whole in
            let full : take (8 - pad) group ≡ group =
              take-all (8 - pad) group (omega (arith, s, z)) in
            let mark : m ≡ 255 = sym q ∙ ap (sub8 255) z ∙ (unfold sub8 in refl) in
            subst (λ n. Accepts (group ++ n ∷ behind) value left result) (sym mark)
              (whole-Accepts group behind value left result s (
                subst (λ g. Accepts behind (value ++ g) left result) full
                  (go (ground (arith, h, fits, whole)))))
        | inr some_pad ↦ elim (Bool-cases (are_pads (drop (8 - pad) group))) [
          | inl p ↦
              let e : decoded behind (value ++ take (8 - pad) group) ≡ decoded left result =
                ground (arith, h, fits, some_pad, p) in
              subst (λ r. Accepts (group ++ m ∷ behind) value left r) (ap value_of e)
                (subst (λ l. Accepts (group ++ m ∷ behind) value l (value ++ take (8 - pad) group))
                  (ap left_of e)
                  (last-Accepts pad m group behind value s q (ground (arith, some_pad))
                    (ground (arith, fits)) p))
          | inr p ↦ absurd (ground (arith, h, fits, some_pad, p))
        ]
      ]
    ]

decode_rounds-Accepts :
    (n : ℕ) (b value left result : List ℕ)
    → All IsByte b
    → decode_rounds n b value ≡ decoded left result
    → Accepts b value left result
unfolding decode_rounds
decode_rounds-Accepts zero b value left result a h = cc
decode_rounds-Accepts (suc n) b value left result a h = elim (Bool-cases (ltb (length b) 9)) [
  | inl e ↦ absurd (ground (arith, h, e))
  | inr e ↦
      let (m, found, shape) = split_group 8 b (ltb→ge _ _ e) in
      let mark : marker_of b ≡ m = unfold marker_of in ground (arith, found) in
      let small : m < 256 = All-get_elem? IsByte b 8 m a found in
      let pad = sub8 255 (marker_of b) in
      let back : sub8 255 pad ≡ m = ap (λ k. sub8 255 (sub8 255 k)) mark ∙ sub8_inverse m small in
      subst (λ x. Accepts x value left result) (sym shape)
        (decode_group-Accepts pad m (take 8 b) (drop 9 b) value left result
          (decode_rounds n (drop 9 b) (value ++ take (8 - pad) (take 8 b)))
          (omega (arith, length-take 8 b, ltb→ge _ _ e)) back
          (decode_rounds-Accepts n (drop 9 b) (value ++ take (8 - pad) (take 8 b)) left result
            (All-drop IsByte 9 b a))
          (sym (if_false _ _ e) ∙ h))
]

-- DecodeBytes accepts nothing but encodings: bytes (numbers below 256) that it decodes are the
-- encoding of the value it returns, with the leftover bytes behind it.
pub decode_bytes-Canonical :
    (b left value : List ℕ)
    → All IsByte b
    → decode_bytes b ≡ decoded left value
    → b ≡ encode_bytes value ++ left
unfolding decode_bytes
decode_bytes-Canonical b left value a h =
    let (more, r, s) = decode_rounds-Accepts (length b + 1) b [] left value a h in
    s ∙ ap (λ v. encode_bytes v ++ left) (sym r)

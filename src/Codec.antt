-- ===== src/Codec.antt =====
-- kv/util/codec/codec.go: keys as strings of bytes whose order is that of the encoded strings.

pub mod RoundTrip
pub mod Canonical
pub mod Order
use tinykv.Prelude.{
  ℕ, zero, suc, ◌+◌, ◌-◌, ◌/◌, ◌%◌, Bool, true, false, ◌&&◌, Option, none, some, List, [], ◌∷◌,
  ◌++◌, length, take, drop, get_elem?, ltb, leb, ◌==◌, if◌then◌else◌,
}

abbrev pub enc_group_size : ℕ
enc_group_size = 8

abbrev pub enc_marker : ℕ
enc_marker = 255

-- Subtraction of bytes.
unfoldable pub sub8 : ℕ → ℕ → ℕ
sub8 a b = (a + 256 - b) % 256

-- pads[:n]
unfoldable pub pads : ℕ → List ℕ
pads zero = []
pads (suc n) = 0 ∷ pads n

-- One round of EncodeBytes, on what is left of the data.
unfoldable pub encode_group : List ℕ → List ℕ
encode_group value =
    if leb enc_group_size (length value)
    then take enc_group_size value ++ (sub8 enc_marker 0 ∷ [])
    else value
      ++ (pads (enc_group_size - length value)
          ++ (sub8 enc_marker (enc_group_size - length value) ∷ []))

-- The rounds of the loop `for idx := 0; idx <= dLen; idx += encGroupSize`.
unfoldable pub encode_rounds : ℕ → List ℕ → List ℕ
encode_rounds zero value = []
encode_rounds (suc n) value = encode_group value ++ encode_rounds n (drop enc_group_size value)

unfoldable pub encode_bytes : List ℕ → List ℕ
encode_bytes value = encode_rounds (length value / enc_group_size + 1) value

-- `out_of_rounds` is none of Go's errors: the loop has not ended in the rounds that it was given.
pub data DecodeError : Type 0 where
  insufficient_bytes invalid_marker invalid_padding out_of_rounds : DecodeError

-- The leftover bytes and the value, or an error.
pub data Decoded : Type 0 where
  decoded : List ℕ → List ℕ → Decoded
  failed : DecodeError → Decoded

unfoldable pub are_pads : List ℕ → Bool
are_pads [] = true
are_pads (b ∷ bs) = b == 0 && are_pads bs

-- groupBytes[encGroupSize], which is there if there are enough bytes.
unfoldable pub marker_of : List ℕ → ℕ
marker_of b = elim (get_elem? b enc_group_size) [ some m ↦ m | none ↦ 0 ]

-- One round of DecodeBytes; `next` is what the rest of the loop gives. The bytes before the
-- padding are in the data of `next` and of the result.
unfoldable pub decode_group : ℕ → List ℕ → List ℕ → List ℕ → Decoded → Decoded
decode_group pad group b value next =
    if ltb enc_group_size pad
    then failed invalid_marker
    else if pad == 0
    then next
    else if are_pads (drop (enc_group_size - pad) group)
    then decoded b value
    else failed invalid_padding

-- Each round takes nine bytes off, so that the length of the bytes is fuel enough.
unfoldable pub decode_rounds : ℕ → List ℕ → List ℕ → Decoded
decode_rounds zero b value = failed out_of_rounds
decode_rounds (suc n) b value =
    let pad = sub8 enc_marker (marker_of b) in
    let group = take enc_group_size b in
    let left = drop (enc_group_size + 1) b in
    let more = value ++ take (enc_group_size - pad) group in
    let next = decode_rounds n left more in
    if ltb (length b) (enc_group_size + 1)
    then failed insufficient_bytes
    else decode_group pad group left more next

unfoldable pub decode_bytes : List ℕ → Decoded
decode_bytes b = decode_rounds (length b + 1) b []

-- ===== src/Tests/Coding.antt =====
-- kv/util/codec/codec.go: the examples of EncodeBytes's comment.
use tinykv.Prelude.{ℕ, ◌+◌, ◌*◌, ◌/◌, ◌≡◌, ◌≢◌, refl, List, [], ◌∷◌, ◌++◌, length, arith}
use tinykv.Codec.{
  encode_bytes, encode_rounds, encode_group, pads, sub8, decode_bytes, decode_rounds, decode_group,
  marker_of, are_pads, decoded, failed, out_of_rounds,
}
use tinykv.Codec.Canonical.{decode_bytes-Canonical}
use tinykv.Codec.RoundTrip.{decode_bytes-encode_bytes, decode_rounds-ends}

abbrev eight : List ℕ
eight = 1 ∷ 2 ∷ 3 ∷ 4 ∷ 5 ∷ 6 ∷ 7 ∷ 8 ∷ []

encode_three : encode_bytes (1 ∷ 2 ∷ 3 ∷ []) ≡ 1 ∷ 2 ∷ 3 ∷ 0 ∷ 0 ∷ 0 ∷ 0 ∷ 0 ∷ 250 ∷ []
unfolding encode_bytes encode_rounds encode_group pads sub8
encode_three = refl

encode_eight : encode_bytes eight ≡ eight ++ (255 ∷ 0 ∷ 0 ∷ 0 ∷ 0 ∷ 0 ∷ 0 ∷ 0 ∷ 0 ∷ 247 ∷ [])
unfolding encode_bytes encode_rounds encode_group pads sub8
encode_eight = refl

decode_bytes-encode_bytes_example :
    (decode_bytes (encode_bytes eight ++ (9 ∷ [])) ≡ decoded (9 ∷ []) eight)
    × (length (encode_bytes eight) ≡ 9 * (8 / 8 + 1))
decode_bytes-encode_bytes_example = decode_bytes-encode_bytes eight (9 ∷ [])

decode_rounds-ends_example :
    decode_rounds 2 (1 ∷ 2 ∷ 3 ∷ 0 ∷ 0 ∷ 0 ∷ 0 ∷ 0 ∷ 255 ∷ []) [] ≢ failed out_of_rounds
decode_rounds-ends_example =
    decode_rounds-ends 2 (1 ∷ 2 ∷ 3 ∷ 0 ∷ 0 ∷ 0 ∷ 0 ∷ 0 ∷ 255 ∷ []) [] (omega arith)

encoded_three :
    decode_bytes (1 ∷ 2 ∷ 3 ∷ 0 ∷ 0 ∷ 0 ∷ 0 ∷ 0 ∷ 250 ∷ 7 ∷ []) ≡ decoded (7 ∷ []) (1 ∷ 2 ∷ 3 ∷ [])
unfolding decode_bytes decode_rounds decode_group marker_of are_pads sub8
encoded_three = refl

decode_bytes-Canonical_example :
    1 ∷ 2 ∷ 3 ∷ 0 ∷ 0 ∷ 0 ∷ 0 ∷ 0 ∷ 250 ∷ 7 ∷ [] ≡ encode_bytes (1 ∷ 2 ∷ 3 ∷ []) ++ (7 ∷ [])
decode_bytes-Canonical_example =
    decode_bytes-Canonical (1 ∷ 2 ∷ 3 ∷ 0 ∷ 0 ∷ 0 ∷ 0 ∷ 0 ∷ 250 ∷ 7 ∷ []) (7 ∷ []) (1 ∷ 2 ∷ 3 ∷ [])
      (omega arith) encoded_three

-- ===== src/Tests/Codecs.antt =====
-- The codec of common/src/utils.cxx and the copies of smart/src/smart_client.cpp at concrete values.
use hurricache_cpp_client.Prelude.{[], ◌∷◌, ◌≡◌, refl, none, some, flatten, arith, ok, not}
use hurricache_cpp_client.Prelude.Int.{pos}
use hurricache_cpp_client.Types.{Key, key_lt, Value, value_eq}
use hurricache_cpp_client.Types.Order.{is_before, word_of, key_lt-is_before}
use hurricache_cpp_client.Proto.{Cord, KeyMessage}
use hurricache_cpp_client.Codec.{compress, build_key_proto, build_value_proto, effective_hint}
use hurricache_cpp_client.Codec.Parse.{value_request_to_value, key_request_to_key}
use hurricache_cpp_client.Codec.RoundTrip.{
  IsValue, received, rechunk, value_request_to_value-build_value_proto,
}
use hurricache_cpp_client.Codec.KeyRoundTrip.{hint_or_max, key_request_to_key-build_key_proto}
use hurricache_cpp_client.Codec.Compression.{decompress_cord, decompress_cord-compress}
use hurricache_cpp_client.Smart.Copies.{copy_value}
use hurricache_cpp_client.Smart.Copies.Equality.{is_nan_content, value_eq-copy_value}
use hurricache_cpp_client.Tests.{packer, packer-IsLibdeflate, test_env, word, fraction, test_key}

abbrev same_cord : Cord → Cord
same_cord c = c

keeps_cord : (c : Cord) → flatten (same_cord c) ≡ flatten c
keeps_cord c = refl

value_request_to_value-build_value_proto_example :
    value_request_to_value packer
      (rechunk same_cord (build_value_proto test_env word (pos 9) (pos 3) (pos 2)))
    ≡ some (received word)
value_request_to_value-build_value_proto_example =
    value_request_to_value-build_value_proto test_env packer-IsLibdeflate same_cord keeps_cord word
      (pos 9) (pos 3) (pos 2) refl (omega arith) (omega arith)

-- A key over the threshold of one byte is sent compressed, and comes back with its hint.
key_request_to_key-build_key_proto_example :
    (m : KeyMessage) × (build_key_proto test_env test_key none (pos 3) (pos 1) ≡ ok m)
    × (key_request_to_key packer m
        ≡ some (test_key, hint_or_max (effective_hint test_env test_key none)))
key_request_to_key-build_key_proto_example =
    key_request_to_key-build_key_proto test_env packer-IsLibdeflate test_key none (pos 3) (pos 1)
      (omega arith, refl) (omega arith) (omega arith)

-- A copy of a number, which is not a NaN.
value_eq-copy_value_example :
    (c : Value) × (copy_value (some fraction) ≡ some c)
    × IsValue c
    × (value_eq fraction c ≡ not (is_nan_content fraction.content))
value_eq-copy_value_example = value_eq-copy_value fraction refl

-- The compressed word, which has four bytes, in two chunks.
decompress_cord-compress_example :
    decompress_cord packer ((31 ∷ 65 ∷ []) ∷ (66 ∷ 67 ∷ []) ∷ []) 3 ≡ ok (some (65 ∷ 66 ∷ 67 ∷ []))
decompress_cord-compress_example =
    decompress_cord-compress packer packer-IsLibdeflate (65 ∷ 66 ∷ 67 ∷ []) (31 ∷ 65 ∷ 66 ∷ 67 ∷ [])
      (unfold compress in refl) (omega arith) ((31 ∷ 65 ∷ []) ∷ (66 ∷ 67 ∷ []) ∷ [])
      (unfold flatten in refl)

-- A key that is a longer word than `test_key`.
abbrev longer_key : Key
longer_key = record { size = 3; buffer = some (7 ∷ 8 ∷ 1 ∷ []) }

key_lt-is_before_example :
    key_lt test_key longer_key ≡ is_before (word_of test_key) (word_of longer_key)
key_lt-is_before_example = key_lt-is_before test_key longer_key refl refl

-- ===== src/Codec/Parse.antt =====
-- common/src/utils.cxx and common/src/compression.cxx: keys and values from received messages.
use hurricache_cpp_client.Prelude.{
  ℕ, ◌-◌, ◌%◌, ◌^◌, Bool, false, List, [], ◌∷◌, ◌++◌, flatten, Option, none, some, ◌==◌,
  if◌then◌else◌, length,
}
use hurricache_cpp_client.Prelude.Int.{ℤ, pos}
use hurricache_cpp_client.Types.{
  Key, KeyHint, OrderedKey, Value, OrderedValue, bytes, read, new_key, new_int_value,
  new_double_value,
}
use hurricache_cpp_client.Proto
use hurricache_cpp_client.Proto.{
  Cord, DataCase, not_set, payload, int_payload, double_payload, BinaryPayload, KeyBinaryPayload,
  CompressedInfo, HintMessage, KeyMessage, OrderedKeyMessage, ValueMessage, OrderedValueMessage,
}
use hurricache_cpp_client.Env.{Libdeflate}

-- `gzip_decompress_libdeflate(source, sourceLen, expectedLen)`.
unfoldable pub decompress : Libdeflate → List ℕ → ℕ → ℕ → Option (List ℕ)
decompress z source source_len expected = z.gzip_decompress (read (some source) source_len) expected

-- A field of a message with protobuf's default.
abbrev pub get_or_default {ℓ} : {A : Type ℓ} → A → Option A → A
get_or_default d none = d
get_or_default d (some a) = a

abbrev pub raw_size : Option CompressedInfo → ℕ
raw_size none = 0
raw_size (some info) = get_or_default 0 info.raw_size

abbrev pub is_compressed : Option CompressedInfo → Bool
is_compressed none = false
is_compressed (some info) = info.enabled

abbrev pub data_case : Option BinaryPayload → DataCase
data_case none = not_set
data_case (some b) = b.content

-- `value().payload()`, `value().intpayload()` and `value().doublepayload()`: the default where the
-- oneof holds another case.
abbrev pub cord_of : DataCase → Cord
cord_of (payload c) = c
cord_of _ = []

abbrev pub int_of : DataCase → ℤ
int_of (int_payload n) = n
int_of _ = pos 0

abbrev pub double_of : DataCase → ℕ
double_of (double_payload d) = d
double_of _ = 0

-- The one chunk of a flat Cord.
unfoldable pub flat_chunk : Cord → ℕ → Option (List ℕ)
flat_chunk [] size = none
flat_chunk (c ∷ []) size = if length c == size then some c else none
flat_chunk (c ∷ d ∷ cs) size = none

-- The loop that copies every chunk behind the last one.
unfoldable pub copy_chunks : List ℕ → Cord → List ℕ
copy_chunks written [] = written
copy_chunks written (c ∷ cs) = copy_chunks (written ++ c) cs

-- The decompression of the gathered bytes, and the size that it is taken to have.
unfoldable pub inflate : Libdeflate → ℕ → List ℕ → ℕ → Option (List ℕ × ℕ)
unfolding decompress
inflate z raw source size = elim (decompress z source (size % 2 ^ 32) raw) [
  | none ↦ none
  | some out ↦ some (out, raw)
]

-- The BYTES case of both value readers: the buffer and its size, or null.
unfoldable pub read_payload : Libdeflate → Bool → ℕ → Cord → Option (List ℕ × ℕ)
unfolding flat_chunk copy_chunks inflate
read_payload z compressed raw cord =
    let size = length (flatten cord) in
    elim (flat_chunk cord size) [
      | some flat ↦
          if compressed then inflate z raw flat size else some (read (some flat) size, size)
      | none ↦
          let buff = copy_chunks [] cord in
          if length buff == size
          then (if compressed then inflate z raw buff size else some (buff, size))
          else none
    ]

unfoldable pub bytes_value : Option (List ℕ × ℕ) → Option Value
bytes_value none = none
bytes_value (some (buff, size)) = some (record { size = size; content = bytes (some buff) })

-- The type that `valueRequestToValue` infers where the server left it out; null if it cannot.
unfoldable pub inferred_type : Proto.ValueType → DataCase → Option Proto.ValueType
inferred_type Proto.ValueType.auto (int_payload n) = some Proto.ValueType.int
inferred_type Proto.ValueType.auto (double_payload d) = some Proto.ValueType.double
inferred_type Proto.ValueType.auto (payload c) = some Proto.ValueType.bytes
inferred_type Proto.ValueType.auto not_set = none
inferred_type Proto.ValueType.bytes d = some Proto.ValueType.bytes
inferred_type Proto.ValueType.int d = some Proto.ValueType.int
inferred_type Proto.ValueType.double d = some Proto.ValueType.double

-- The `switch` on the type, which both readers have.
unfoldable pub typed_value :
    Libdeflate → Option CompressedInfo → DataCase → Proto.ValueType → Option Value
unfolding read_payload bytes_value new_int_value new_double_value
typed_value z info d Proto.ValueType.bytes =
    bytes_value (read_payload z (is_compressed info) (raw_size info) (cord_of d))
typed_value z info d Proto.ValueType.int = some (new_int_value (int_of d))
typed_value z info d Proto.ValueType.double = some (new_double_value (double_of d))
typed_value z info d Proto.ValueType.auto = none

-- `valueRequestToValue`.
unfoldable pub value_request_to_value : Libdeflate → ValueMessage → Option Value
unfolding inferred_type typed_value
value_request_to_value z request =
    let d = data_case request.value in
    elim (inferred_type (get_or_default Proto.ValueType.auto request.value_type) d) [
      | none ↦ none
      | some type ↦ typed_value z request.compression_info d type
    ]

-- `valueRequestToOrderedValue`: it infers no type.
unfoldable pub value_request_to_ordered_value :
    Libdeflate → OrderedValueMessage → Option OrderedValue
unfolding typed_value
value_request_to_ordered_value z request =
    let type = get_or_default Proto.ValueType.auto request.value_type in
    elim (typed_value z request.compression_info (data_case request.value) type) [
      | none ↦ none
      | some v ↦ some (record { value = v; weight = get_or_default 0 request.order })
    ]

-- The hash hints of a received key, `UINT32_MAX` where one is left out.
unfoldable pub received_hint : Option HintMessage → KeyHint
received_hint none = record { weak_hash = 2 ^ 32 - 1; strong_hash = 2 ^ 32 - 1 }
received_hint (some h) = record {
  weak_hash = get_or_default (2 ^ 32 - 1) h.weak_hash;
  strong_hash = get_or_default (2 ^ 32 - 1) h.strong_hash;
}

-- The buffer and the size of a received key. Compression info alone, enabled or not, has it
-- decompressed.
unfoldable pub key_buffer :
    Libdeflate → Option CompressedInfo → KeyBinaryPayload → Option (ℕ × List ℕ)
unfolding decompress
key_buffer z none p = some (p.size, p.payload)
key_buffer z (some info) p =
    let size = get_or_default 0 info.raw_size in
    elim (decompress z p.payload p.size size) [ none ↦ none | some out ↦ some (size, out) ]

-- `keyRequestToKey` of a Key: the key, and what is written through the `hint` pointer.
unfoldable pub key_request_to_key : Libdeflate → KeyMessage → Option (Key × KeyHint)
unfolding key_buffer received_hint new_key
key_request_to_key z request = elim request.payload [
  | none ↦ none
  | some p ↦
      if p.size == length p.payload
      then elim (key_buffer z request.compression_info p) [
        | none ↦ none
        | some (size, buff) ↦ some (new_key size (some buff), received_hint request.key_hint)
      ]
      else none
]

-- `keyRequestToKey` of an OrderedKey: a missing payload reads as an empty one.
unfoldable pub key_request_to_ordered_key :
    Libdeflate → OrderedKeyMessage → Option (OrderedKey × KeyHint)
unfolding key_buffer received_hint new_key
key_request_to_ordered_key z request =
    let p = get_or_default (record { payload = []; size = 0 }) request.payload in
    if p.size == length p.payload
    then elim (key_buffer z request.compression_info p) [
      | none ↦ none
      | some (size, buff) ↦ some (
        record { key = new_key size (some buff); weight = get_or_default 0 request.order },
        received_hint request.key_hint,
      )
    ]
    else none

-- ===== src/Codec/Requests.antt =====
-- common/src/utils.cxx: the requests that several methods share. A pointer to a vector is an
-- `Option`, and so is each pointer in it.
use hurricache_cpp_client.Prelude.{
  ℕ, ◌%◌, ◌^◌, true, false, List, [], ◌∷◌, Option, none, some, ltb, if◌then◌else◌, Run, ok, fault,
  null_string, null_value, wild_read, ◌>>=◌, length,
}
use hurricache_cpp_client.Prelude.Int.{ℤ, pos, to_u64}
use hurricache_cpp_client.Types.{
  Key, KeyHint, Value, OrderedValue, ContainerType, bytes, int, double, read,
}
use hurricache_cpp_client.Proto.{
  KeyMessage, ValueMessage, OrderedValueMessage, CompressedInfo, BinaryPayload, payload,
}
use hurricache_cpp_client.Proto.Requests.{
  GetRequest, ContainerGetRequest, KeyPositionRequest, CreateContainerRequest,
}
use hurricache_cpp_client.Env.{Env}
use hurricache_cpp_client.Codec.{
  compress, effective_hint, build_key_proto, build_value_proto, make_cord, deadline,
  default_compression_threshold,
}

-- The key of every request here: the hint is calculated, and again in `buildKeyProto` if null.
unfoldable pub request_key : Env → Key → Option KeyHint → ℤ → ℤ → Run KeyMessage
unfolding effective_hint build_key_proto
request_key env key hint client_id threshold =
    build_key_proto env key (effective_hint env key hint) client_id threshold

-- `mutable_payload()` with the size and the bytes of a key, and nothing else.
unfoldable pub raw_key_message : Key → KeyMessage
raw_key_message k = record {
  payload = some (record { payload = read k.buffer k.size; size = k.size });
  compression_info = none;
  key_hint = none;
  client_id = none;
}

-- `buildGetRequestProto`.
unfoldable pub build_get_request_proto : Env → Key → Option KeyHint → ℤ → ℤ → Run GetRequest
unfolding request_key
build_get_request_proto env key hint client_id threshold = do
  k ← request_key env key hint client_id threshold
  ok (record { key = k })

-- `buildContainerGetRequestProto`.
unfoldable pub build_container_get_request_proto :
    Env → Key → Option KeyHint → ℤ → Key → Run ContainerGetRequest
unfolding request_key raw_key_message
build_container_get_request_proto env key hint client_id element_key = do
  k ← request_key env key hint client_id default_compression_threshold
  ok (record { key = k; element_key = raw_key_message element_key })

-- `buildPositionRequestProto`.
unfoldable pub build_position_request_proto :
    Env → Key → Option KeyHint → ℤ → ℕ → Run KeyPositionRequest
unfolding request_key
build_position_request_proto env key hint client_id position = do
  k ← request_key env key hint client_id default_compression_threshold
  ok (record { key = k; type = none; pos = position; stop = none; is_reverse = false })

-- The values of `buildContainerRequest`, the null ones left out.
unfoldable pub container_values : Env → ℤ → ℤ → List (Option Value) → List ValueMessage
unfolding build_value_proto
container_values env client_id threshold [] = []
container_values env client_id threshold (none ∷ vs) = container_values env client_id threshold vs
container_values env client_id threshold (some v ∷ vs) =
    build_value_proto env v (pos 0) client_id threshold
    ∷ container_values env client_id threshold vs

-- `buildContainerRequest`.
unfoldable pub build_container_request :
    Env
    → Key
    → Option KeyHint
    → ℤ
    → ContainerType
    → ℤ
    → Option (List (Option Value))
    → ℤ
    → Run CreateContainerRequest
unfolding request_key deadline container_values
build_container_request env key hint client_id type ttl values threshold = do
  k ← request_key env key hint client_id threshold
  ok (record {
    key = k;
    type = type;
    ttl = deadline env ttl;
    key_unordered = [];
    value_unordered = elim values [
      | none ↦ []
      | some vs ↦ container_values env client_id threshold vs
    ];
    key_ordered = [];
    value_ordered = [];
  })

-- The bytes behind `val->data`. A number of the union is no pointer.
unfoldable pub data_bytes : Value → ℕ → Run (List ℕ)
data_bytes v size = elim v.content [
  | bytes buffer ↦ ok (read buffer size)
  | int n ↦ if ltb 0 size then fault wild_read else ok []
  | double d ↦ if ltb 0 size then fault wild_read else ok []
]

-- `set_size` and `set_payload` of a value that is not compressed.
unfoldable pub plain_payload : Value → Run BinaryPayload
unfolding data_bytes make_cord
plain_payload v = do
  raw ← data_bytes v v.size
  ok (record { content = payload (make_cord raw); size = v.size % 2 ^ 32 })

-- An ordered value of `buildContainerRequestOrdered`. The result of the compression is not looked
-- at.
unfoldable pub ordered_payload : Env → Value → ℤ → Run (BinaryPayload × Option CompressedInfo)
unfolding compress data_bytes make_cord plain_payload
ordered_payload env v threshold =
    if ltb (to_u64 threshold) v.size
    then (do
      raw ← data_bytes v (v.size % 2 ^ 32)
      elim (compress env.deflate raw) [
        | none ↦ fault null_string
        | some c ↦ ok (
          record { content = payload (make_cord c); size = length c % 2 ^ 32 },
          some (record { enabled = true; raw_size = some (v.size % 2 ^ 32) }),
        )
      ])
    else (do body ← plain_payload v; ok (body, none))

abbrev pub ordered_message : BinaryPayload → Option CompressedInfo → ℕ → OrderedValueMessage
ordered_message body info weight = record {
  value = some body;
  order = some weight;
  compression_info = info;
  ttl = none;
  lock_info = none;
  value_type = none;
}

unfoldable pub ordered_value_message : Env → OrderedValue → ℤ → Run OrderedValueMessage
unfolding ordered_payload
ordered_value_message env v threshold = do
  (body, info) ← ordered_payload env v.value threshold
  ok (ordered_message body info v.weight)

-- The values of `buildContainerRequestOrdered`.
unfoldable pub ordered_values :
    Env → ℤ → List (Option OrderedValue) → Run (List OrderedValueMessage)
unfolding ordered_value_message
ordered_values env threshold [] = ok []
ordered_values env threshold (none ∷ vs) = fault null_value
ordered_values env threshold (some v ∷ vs) = do
  m ← ordered_value_message env v threshold
  ms ← ordered_values env threshold vs
  ok (m ∷ ms)

-- `buildContainerRequestOrdered`.
unfoldable pub build_container_request_ordered :
    Env
    → Key
    → Option KeyHint
    → ℤ
    → ContainerType
    → ℤ
    → Option (List (Option OrderedValue))
    → ℤ
    → Run CreateContainerRequest
unfolding request_key deadline ordered_values
build_container_request_ordered env key hint client_id type ttl values threshold = do
  k ← request_key env key hint client_id threshold
  ms ← elim values [ none ↦ ok [] | some vs ↦ ordered_values env threshold vs ]
  ok (record {
    key = k;
    type = type;
    ttl = deadline env ttl;
    key_unordered = [];
    value_unordered = [];
    key_ordered = [];
    value_ordered = ms;
  })

-- ===== src/Standalone/Inserts/Entries.antt =====
-- standalone/src/standalone_client.cpp, the items and entries that the inserts send.
use hurricache_cpp_client.Prelude.{
  ◌%◌, ◌^◌, List, [], ◌∷◌, Option, none, some, ◌==◌, if◌then◌else◌, Run, ok, fault, null_value,
  ◌>>=◌, length,
}
use hurricache_cpp_client.Prelude.Int.{ℤ, pos}
use hurricache_cpp_client.Types.{Key, Value, OrderedValue}
use hurricache_cpp_client.Proto.{KeyMessage, ValueMessage, OrderedKeyMessage, OrderedValueMessage}
use hurricache_cpp_client.Env.{Env}
use hurricache_cpp_client.Codec.{build_value_proto, default_compression_threshold}
use hurricache_cpp_client.Codec.Requests.{
  raw_key_message, plain_payload, data_bytes, ordered_message,
}
use hurricache_cpp_client.Rpc.{Failure, other}

-- The `invalid_argument` of keys and values that do not match.
abbrev pub size_mismatch : Failure
size_mismatch = other 6

-- The values of `addElementWithWeight`.
unfoldable pub weighted_values : List (Option OrderedValue) → Run (List OrderedValueMessage)
unfolding plain_payload
weighted_values [] = ok []
weighted_values (none ∷ vs) = fault null_value
weighted_values (some v ∷ vs) = do
  body ← plain_payload v.value
  ms ← weighted_values vs
  ok (ordered_message body none v.weight ∷ ms)

-- The loops of `addElementHashMap` and of `addElementOrderedMap`, whose keys are given as values.
unfoldable pub hash_map_entries :
    Env → ℤ → List (Option Key) → List (Option Value) → Run (List KeyMessage × List ValueMessage)
unfolding raw_key_message build_value_proto
hash_map_entries env client_id [] vs = ok ([], [])
hash_map_entries env client_id (k ∷ ks) [] = ok ([], [])
hash_map_entries env client_id (none ∷ ks) (v ∷ vs) = fault null_value
hash_map_entries env client_id (some k ∷ ks) (none ∷ vs) = fault null_value
hash_map_entries env client_id (some k ∷ ks) (some v ∷ vs) = do
  (keys, values) ← hash_map_entries env client_id ks vs
  ok (
    raw_key_message k ∷ keys,
    build_value_proto env v (pos 0) client_id default_compression_threshold ∷ values,
  )

-- A key that is given as a value.
unfoldable pub weighted_key : OrderedValue → Run OrderedKeyMessage
unfolding data_bytes
weighted_key k = do
  raw ← data_bytes k.value k.value.size
  ok (record {
    payload = some (record { payload = raw; size = k.value.size % 2 ^ 32 });
    order = some k.weight;
    compression_info = none;
    key_hint = none;
    client_id = none;
  })

unfoldable pub weighted_entries :
    Env
    → ℤ
    → List (Option OrderedValue)
    → List (Option Value)
    → Run (List OrderedKeyMessage × List ValueMessage)
unfolding weighted_key build_value_proto
weighted_entries env client_id [] vs = ok ([], [])
weighted_entries env client_id (k ∷ ks) [] = ok ([], [])
weighted_entries env client_id (none ∷ ks) (v ∷ vs) = fault null_value
weighted_entries env client_id (some k ∷ ks) (v ∷ vs) = do
  m ← weighted_key k
  elim v [
    | none ↦ fault null_value
    | some w ↦ do
      (keys, values) ← weighted_entries env client_id ks vs
      ok (
        m ∷ keys,
        build_value_proto env w (pos 0) client_id default_compression_threshold ∷ values,
      )
  ]

-- Both vectors, if they are there and of one size.
unfoldable pub matching :
    {K V : Type 0} → Option (List K) → Option (List V) → Option (List K × List V)
matching none values = none
matching (some ks) none = none
matching (some ks) (some vs) = if length ks == length vs then some (ks, vs) else none

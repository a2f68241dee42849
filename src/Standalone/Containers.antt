-- ===== src/Standalone/Containers.antt =====
-- standalone/src/standalone_client.cpp, the creation of containers. A map is the list of its
-- entries, in the order of its iteration.
use hurricache_cpp_client.Prelude.{
  List, [], ◌∷◌, Option, none, some, Run, ok, fault, null_value, ◌>>=◌,
}
use hurricache_cpp_client.Prelude.Int.{ℤ, pos}
use hurricache_cpp_client.Types.{Key, KeyHint, Value, OrderedValue, OrderedKey, ContainerType, read}
use hurricache_cpp_client.Proto.{KeyMessage, ValueMessage, OrderedKeyMessage}
use hurricache_cpp_client.Env.{Env}
use hurricache_cpp_client.Codec.{
  build_key_proto, build_value_proto, deadline, default_compression_threshold,
}
use hurricache_cpp_client.Codec.Requests.{
  build_container_request, build_container_request_ordered, raw_key_message, plain_payload,
}
use hurricache_cpp_client.Rpc.{Outcome}
use hurricache_cpp_client.Standalone.{StandaloneClient, Service, send, hint_of}

-- The entries of `createMap`.
unfoldable pub map_entries :
    Env → ℤ → List (Option Key × Option Value) → Run (List KeyMessage × List ValueMessage)
unfolding raw_key_message build_value_proto
map_entries env client_id [] = ok ([], [])
map_entries env client_id ((none, v) ∷ m) = fault null_value
map_entries env client_id ((some k, none) ∷ m) = fault null_value
map_entries env client_id ((some k, some v) ∷ m) = do
  (keys, values) ← map_entries env client_id m
  ok (
    raw_key_message k ∷ keys,
    build_value_proto env v (pos 0) client_id default_compression_threshold ∷ values,
  )

-- The entries of `createOrderedMap`: the values are sent with their bytes only.
unfoldable pub ordered_map_entries :
    List (Option OrderedKey × Option OrderedValue)
    → Run (List OrderedKeyMessage × List ValueMessage)
unfolding plain_payload
ordered_map_entries [] = ok ([], [])
ordered_map_entries ((none, v) ∷ m) = fault null_value
ordered_map_entries ((some k, none) ∷ m) = fault null_value
ordered_map_entries ((some k, some v) ∷ m) = do
  body ← plain_payload v.value
  (keys, values) ← ordered_map_entries m
  ok (
    record {
      payload = some (record { payload = read k.key.buffer k.key.size; size = k.key.size });
      order = some k.weight;
      compression_info = none;
      key_hint = none;
      client_id = none;
    }
        ∷ keys,
    record {
      value = some body;
      compression_info = none;
      ttl = none;
      lock_info = none;
      value_type = none;
    }
        ∷ values,
  )

module _ (env : Env) (service : Service) (s : StandaloneClient) (key : Key) (hint : Option KeyHint)
    (client_id timeout : ℤ) where
  -- `createQueue`.
  unfoldable pub create_queue : Option (List (Option Value)) → ℤ → Run (Outcome (KeyHint))
  unfolding send
  create_queue values ttl = send s env timeout service.on_create_container hint_of (
      build_container_request env key hint client_id ContainerType.queue ttl values
        s.compression_threshold)

  -- `createList`.
  unfoldable pub create_list : Option (List (Option Value)) → ℤ → Run (Outcome (KeyHint))
  unfolding send
  create_list values ttl = send s env timeout service.on_create_container hint_of (
      build_container_request env key hint client_id ContainerType.list ttl values
        s.compression_threshold)

  -- `createVector`.
  unfoldable pub create_vector : Option (List (Option Value)) → ℤ → Run (Outcome (KeyHint))
  unfolding send
  create_vector values ttl = send s env timeout service.on_create_container hint_of (
      build_container_request env key hint client_id ContainerType.vector ttl values
        s.compression_threshold)

  -- `createSet`.
  unfoldable pub create_set : Option (List (Option Value)) → ℤ → Run (Outcome (KeyHint))
  unfolding send
  create_set values ttl = send s env timeout service.on_create_container hint_of (
      build_container_request env key hint client_id ContainerType.set ttl values
        s.compression_threshold)

  -- `createOrderedSet`.
  unfoldable pub create_ordered_set :
      Option (List (Option OrderedValue)) → ℤ → Run (Outcome (KeyHint))
  unfolding send
  create_ordered_set values ttl = send s env timeout service.on_create_container hint_of (
      build_container_request_ordered env key hint client_id ContainerType.ordered_set ttl values
        s.compression_threshold)

  -- `createMap`.
  unfoldable pub create_map :
      Option (List (Option Key × Option Value)) → ℤ → Run (Outcome (KeyHint))
  unfolding send
  create_map entries ttl = send s env timeout service.on_create_container hint_of (do
    k ← build_key_proto env key hint client_id default_compression_threshold
    (keys, values) ← elim entries [ none ↦ ok ([], []) | some m ↦ map_entries env client_id m ]
    ok (record {
      key = k;
      type = ContainerType.hash_map;
      ttl = deadline env ttl;
      key_unordered = keys;
      value_unordered = values;
      key_ordered = [];
      value_ordered = [];
    }))

  -- `createOrderedMap`.
  unfoldable pub create_ordered_map :
      Option (List (Option OrderedKey × Option OrderedValue)) → ℤ → Run (Outcome (KeyHint))
  unfolding send
  create_ordered_map entries ttl = send s env timeout service.on_create_container hint_of (do
    k ← build_key_proto env key hint client_id default_compression_threshold
    (keys, values) ← elim entries [ none ↦ ok ([], []) | some m ↦ ordered_map_entries m ]
    ok (record {
      key = k;
      type = ContainerType.ordered_map;
      ttl = deadline env ttl;
      key_unordered = [];
      value_unordered = values;
      key_ordered = keys;
      value_ordered = [];
    }))

-- ===== src/Standalone/Items.antt =====
-- standalone/src/standalone_client.cpp, the calls of single items of a container.
use hurricache_cpp_client.Prelude.{
  ℕ, Bool, false, List, [], Option, none, some, ltb, if◌then◌else◌, Run, ok, ◌>>=◌,
}
use hurricache_cpp_client.Prelude.Int.{ℤ, pos}
use hurricache_cpp_client.Types.{Key, KeyHint, Value, OrderedValue}
use hurricache_cpp_client.Env.{Env}
use hurricache_cpp_client.Codec.{build_key_proto, build_value_proto, default_compression_threshold}
use hurricache_cpp_client.Codec.Requests.{
  build_get_request_proto, build_container_get_request_proto, build_position_request_proto,
  raw_key_message,
}
use hurricache_cpp_client.Rpc.{Outcome}
use hurricache_cpp_client.Standalone.{
  StandaloneClient, Service, send, unordered_value, ordered_value, previous_value, vector_values,
  raw_keys,
}

module _ (env : Env) (service : Service) (s : StandaloneClient) (key : Key) (hint : Option KeyHint)
    (client_id timeout : ℤ) where
  -- `getSize`.
  unfoldable pub get_size : Run (Outcome (ℕ))
  unfolding send
  get_size =
      send s env timeout service.on_get_size (λ r. r.size)
        (build_get_request_proto env key hint client_id s.compression_threshold)

  -- `getHead`.
  unfoldable pub get_head : Run (Outcome (Option Value))
  unfolding send
  get_head =
      send s env timeout service.on_get_head (unordered_value env.deflate)
        (build_get_request_proto env key hint client_id s.compression_threshold)

  -- `getTail`.
  unfoldable pub get_tail : Run (Outcome (Option Value))
  unfolding send
  get_tail =
      send s env timeout service.on_get_tail (unordered_value env.deflate)
        (build_get_request_proto env key hint client_id s.compression_threshold)

  -- `getElementAtPosition`.
  unfoldable pub get_element_at_position : ℕ → Run (Outcome (Option Value))
  unfolding send
  get_element_at_position position =
      send s env timeout service.on_get_element_at_position (unordered_value env.deflate)
        (build_position_request_proto env key hint client_id position)

  -- `getElementWithWeight`.
  unfoldable pub get_element_with_weight : ℕ → Run (Outcome (Option OrderedValue))
  unfolding send
  get_element_with_weight position =
      send s env timeout service.on_get_element_at_position (ordered_value env.deflate)
        (build_position_request_proto env key hint client_id position)

  -- `getAndRemoveFront`.
  unfoldable pub get_and_remove_front : Run (Outcome (Option Value))
  unfolding send
  get_and_remove_front =
      send s env timeout service.on_get_and_delete_head (unordered_value env.deflate)
        (build_get_request_proto env key hint client_id s.compression_threshold)

  -- `getAndRemoveTail`.
  unfoldable pub get_and_remove_tail : Run (Outcome (Option Value))
  unfolding send
  get_and_remove_tail =
      send s env timeout service.on_get_and_delete_tail (unordered_value env.deflate)
        (build_get_request_proto env key hint client_id s.compression_threshold)

  -- `getAndRemoveElementAtPosition`.
  unfoldable pub get_and_remove_element_at_position : ℕ → Run (Outcome (Option Value))
  unfolding send
  get_and_remove_element_at_position position =
      send s env timeout service.on_get_and_delete_element_at_position (unordered_value env.deflate)
        (build_position_request_proto env key hint client_id position)

  -- `getAndRemoveElementWithWeight`.
  unfoldable pub get_and_remove_element_with_weight : ℕ → Run (Outcome (Option OrderedValue))
  unfolding send
  get_and_remove_element_with_weight position =
      send s env timeout service.on_get_and_delete_element_at_position (ordered_value env.deflate)
        (build_position_request_proto env key hint client_id position)

  -- `removeHead`.
  unfoldable pub remove_head : Run (Outcome (ℕ))
  unfolding send
  remove_head =
      send s env timeout service.on_delete_head (λ r. r.size)
        (build_get_request_proto env key hint client_id s.compression_threshold)

  -- `removeTail`.
  unfoldable pub remove_tail : Run (Outcome (ℕ))
  unfolding send
  remove_tail =
      send s env timeout service.on_delete_tail (λ r. r.size)
        (build_get_request_proto env key hint client_id s.compression_threshold)

  -- `removeElementAtPosition`.
  unfoldable pub remove_element_at_position : ℕ → ℕ → Run (Outcome (ℕ))
  unfolding send
  remove_element_at_position position end_position =
      send s env timeout service.on_delete_element_at_position (λ r. r.size)
        (do
          k ← build_key_proto env key hint client_id default_compression_threshold
          ok (record {
            key = k;
            type = none;
            pos = position;
            stop = if ltb position end_position then some end_position else none;
            is_reverse = false;
          }))

  -- `removeFromContainer`.
  unfoldable pub remove_from_container :
      Option (List (Option Key)) → Option (List (Option Value)) → Run (Outcome (ℕ))
  unfolding send
  remove_from_container keys values =
      send s env timeout service.on_delete_from_container_by_key_value (λ r. r.size)
        (do
          k ← build_key_proto env key hint client_id default_compression_threshold
          ks ← elim keys [ none ↦ ok [] | some l ↦ raw_keys l ]
          vs ← vector_values env client_id values
          ok (record { key = k; values = vs; keys = ks }))

  -- `getContainerValue`.
  unfoldable pub get_container_value : Key → Run (Outcome (Option Value))
  unfolding send
  get_container_value element_key =
      send s env timeout service.on_get_value_in_container_by_key (unordered_value env.deflate)
        (build_container_get_request_proto env key hint client_id element_key)

  -- `getAndRemoveContainerValue`.
  unfoldable pub get_and_remove_container_value : Key → Run (Outcome (Option Value))
  unfolding send
  get_and_remove_container_value element_key =
      send s env timeout service.on_get_and_delete_value_in_container (unordered_value env.deflate)
        (build_container_get_request_proto env key hint client_id element_key)

  -- `containsContainerKey`.
  unfoldable pub contains_container_key : Key → Run (Outcome (Bool))
  unfolding send
  contains_container_key element_key =
      send s env timeout service.on_exist_in_container_by_key (λ r. r.value)
        (build_container_get_request_proto env key hint client_id element_key)

  -- `updateContainerValue`.
  unfoldable pub update_container_value : Key → Value → Run (Outcome (Option Value))
  unfolding send
  update_container_value element_key content =
      send s env timeout service.on_update_value_in_container (previous_value env.deflate) (do
        k ← build_key_proto env key hint client_id default_compression_threshold
        ok (record {
          key = k;
          element_key = raw_key_message element_key;
          value = build_value_proto env content (pos 0) client_id default_compression_threshold;
        }))

  -- `removeFromContainer` of one key.
  unfoldable pub remove_from_container_by_key : Key → Run (Outcome (ℕ))
  unfolding send
  remove_from_container_by_key element_key =
      send s env timeout service.on_delete_from_container_by_key (λ r. r.size)
        (build_container_get_request_proto env key hint client_id element_key)

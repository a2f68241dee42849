-- ===== src/Standalone/Inserts.antt =====
-- standalone/src/standalone_client.cpp, the inserts into a container.
pub mod Entries
use hurricache_cpp_client.Prelude.{
  ℕ, ◌%◌, ◌^◌, true, false, List, [], ◌∷◌, Option, none, some, ◌==◌, if◌then◌else◌, Run, ok, fault,
  null_value, ◌>>=◌, length,
}
use hurricache_cpp_client.Prelude.Int.{ℤ, pos}
use hurricache_cpp_client.Types.{Key, KeyHint, Value, OrderedValue, ContainerType}
use hurricache_cpp_client.Proto.{KeyMessage, ValueMessage, OrderedKeyMessage, OrderedValueMessage}
use hurricache_cpp_client.Env.{Env}
use hurricache_cpp_client.Codec.{build_key_proto, build_value_proto, default_compression_threshold}
use hurricache_cpp_client.Codec.Requests.{
  raw_key_message, plain_payload, data_bytes, ordered_message,
}
use hurricache_cpp_client.Rpc.{Outcome, value, failed, Failure, other}
use hurricache_cpp_client.Standalone.{StandaloneClient, Service, send, vector_values}
use hurricache_cpp_client.Standalone.Inserts.Entries.{
  size_mismatch, weighted_values, hash_map_entries, weighted_entries, matching,
}

module _ (env : Env) (service : Service) (s : StandaloneClient) (key : Key) (hint : Option KeyHint)
    (client_id timeout : ℤ) where
  -- `addElementUnordered`.
  unfoldable pub add_element_unordered : Option (List (Option Value)) → Run (Outcome (ℕ))
  unfolding send
  add_element_unordered values =
      send s env timeout service.on_add_element (λ r. r.size)
        (do
          k ← build_key_proto env key hint client_id default_compression_threshold
          vs ← vector_values env client_id values
          ok (record {
            key = k;
            type = none;
            pos = none;
            key_unordered = [];
            value_unordered = vs;
            key_ordered = [];
            value_ordered = [];
          }))

  -- `addElementWithWeight`.
  unfoldable pub add_element_with_weight : Option (List (Option OrderedValue)) → Run (Outcome (ℕ))
  unfolding send
  add_element_with_weight values =
      send s env timeout service.on_add_element (λ r. r.size)
        (do
          k ← build_key_proto env key hint client_id default_compression_threshold
          vs ← elim values [ none ↦ ok [] | some l ↦ weighted_values l ]
          ok (record {
            key = k;
            type = none;
            pos = none;
            key_unordered = [];
            value_unordered = [];
            key_ordered = [];
            value_ordered = vs;
          }))

  -- `addElementToTail`.
  unfoldable pub add_element_to_tail : Option (List (Option Value)) → Run (Outcome (ℕ))
  unfolding send
  add_element_to_tail values =
      send s env timeout service.on_add_element_to_tail (λ r. r.size)
        (do
          k ← build_key_proto env key hint client_id default_compression_threshold
          vs ← vector_values env client_id values
          ok (record {
            key = k;
            type = none;
            pos = none;
            key_unordered = [];
            value_unordered = vs;
            key_ordered = [];
            value_ordered = [];
          }))

  -- `addElementToHead`.
  unfoldable pub add_element_to_head : Option (List (Option Value)) → Run (Outcome (ℕ))
  unfolding send
  add_element_to_head values =
      send s env timeout service.on_add_element_to_head (λ r. r.size)
        (do
          k ← build_key_proto env key hint client_id default_compression_threshold
          vs ← vector_values env client_id values
          ok (record {
            key = k;
            type = none;
            pos = none;
            key_unordered = [];
            value_unordered = vs;
            key_ordered = [];
            value_ordered = [];
          }))

  -- `addElementToPosition`.
  unfoldable pub add_element_to_position : Option (List (Option Value)) → ℕ → Run (Outcome (ℕ))
  unfolding send
  add_element_to_position values position =
      send s env timeout service.on_add_element (λ r. r.size)
        (do
          k ← build_key_proto env key hint client_id default_compression_threshold
          vs ← vector_values env client_id values
          ok (record {
            key = k;
            type = none;
            pos = some (position % 2 ^ 32);
            key_unordered = [];
            value_unordered = vs;
            key_ordered = [];
            value_ordered = [];
          }))

  -- `addElementToPositionBefore`.
  unfoldable pub add_element_to_position_before :
      Option (List (Option Value)) → Option Value → Run (Outcome (ℕ))
  unfolding send
  add_element_to_position_before values pivot = elim pivot [
    | none ↦ ok (value 0)
    | some p ↦
        send s env timeout service.on_add_element_to_position_by_value (λ r. r.size)
          (do
            k ← build_key_proto env key hint client_id default_compression_threshold
            vs ← vector_values env client_id values
            ok (record {
              key = k;
              is_before = true;
              pos = build_value_proto env p (pos 0) client_id default_compression_threshold;
              values = vs;
            }))
  ]

  -- `addElementToPositionAfter`.
  unfoldable pub add_element_to_position_after :
      Option (List (Option Value)) → Option Value → Run (Outcome (ℕ))
  unfolding send
  add_element_to_position_after values pivot = elim pivot [
    | none ↦ ok (value 0)
    | some p ↦
        send s env timeout service.on_add_element_to_position_by_value (λ r. r.size)
          (do
            k ← build_key_proto env key hint client_id default_compression_threshold
            vs ← vector_values env client_id values
            ok (record {
              key = k;
              is_before = false;
              pos = build_value_proto env p (pos 0) client_id default_compression_threshold;
              values = vs;
            }))
  ]

  -- `addElementHashMap`.
  unfoldable pub add_element_hash_map :
      Option (List (Option Key)) → Option (List (Option Value)) → Run (Outcome (ℕ))
  unfolding send
  add_element_hash_map keys values = do
    k ← build_key_proto env key hint client_id default_compression_threshold
    elim (matching keys values) [
      | none ↦ ok (failed size_mismatch)
      | some (keys, values) ↦
          send s env timeout service.on_add_element (λ r. r.size)
            (do
              (ks, vs) ← hash_map_entries env client_id keys values
              ok (record {
                key = k;
                type = some ContainerType.hash_map;
                pos = none;
                key_unordered = ks;
                value_unordered = vs;
                key_ordered = [];
                value_ordered = [];
              }))
    ]

  -- `addElementOrderedMap`.
  unfoldable pub add_element_ordered_map :
      Option (List (Option OrderedValue)) → Option (List (Option Value)) → Run (Outcome (ℕ))
  unfolding send
  add_element_ordered_map keys values = do
    k ← build_key_proto env key hint client_id default_compression_threshold
    elim (matching keys values) [
      | none ↦ ok (failed size_mismatch)
      | some (keys, values) ↦
          send s env timeout service.on_add_element (λ r. r.size)
            (do
              (ks, vs) ← weighted_entries env client_id keys values
              ok (record {
                key = k;
                type = some ContainerType.ordered_map;
                pos = none;
                key_unordered = [];
                value_unordered = vs;
                key_ordered = ks;
                value_ordered = [];
              }))
    ]

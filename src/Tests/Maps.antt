-- ===== src/Tests/Maps.antt =====
-- The maps of standalone/src/standalone_client.cpp at concrete entries.
use hurricache_cpp_client.Prelude.{
  ◌≡◌, ◌≢◌, ◌⊎◌, length, refl, true, List, map, flatten, [], ◌∷◌, none, some, ok, arith,
}
use hurricache_cpp_client.Prelude.Int.{pos}
use hurricache_cpp_client.Types.{Key, Value}
use hurricache_cpp_client.Proto.Requests.{AddToRequest, CreateContainerRequest, BatchValueResponse}
use hurricache_cpp_client.Rpc.{value, failed, send_async_request}
use hurricache_cpp_client.Rpc.Streams.{StreamNode}
use hurricache_cpp_client.Standalone.{Service, channel_of, hint_of}
use hurricache_cpp_client.Standalone.Streams.{stream_map}
use hurricache_cpp_client.Standalone.Containers.{create_map}
use hurricache_cpp_client.Standalone.Laws.Maps.{
  received_entry, AreParts, all_present, key_messages, value_messages, batch_of,
  stream_map-create_map,
}
use hurricache_cpp_client.Standalone.Inserts.{add_element_hash_map}
use hurricache_cpp_client.Standalone.Inserts.Entries.{size_mismatch}
use hurricache_cpp_client.Standalone.Laws.Added.{keys_of, values_of, add_element_hash_map-cases}
use hurricache_cpp_client.Tests.{
  packer, packer-IsLibdeflate, test_env, word, number, fraction, test_key,
}
use hurricache_cpp_client.Tests.Standalone.{ended_well, same_cord, word_node, client}

abbrev second_key : Key
second_key = record { size = 1; buffer = some (9 ∷ []) }

-- Three entries, streamed in two batches.
abbrev entry_parts : List (List (Key × Value))
entry_parts = ((test_key, word) ∷ (second_key, number) ∷ []) ∷ ((test_key, fraction) ∷ []) ∷ []

abbrev entry_batches : {Request : Type 0} → StreamNode Request BatchValueResponse
entry_batches deadline request = record {
  opens = true;
  chunks = map (batch_of test_env (pos 3) same_cord) entry_parts;
  ending = ended_well;
}

abbrev map_node : Service
map_node = record word_node { on_get_container = entry_batches }

entry_parts-AreParts : AreParts packer entry_parts
entry_parts-AreParts = (
  ((refl, refl, omega arith, omega arith), ((refl, refl, omega arith, omega arith), tt)),
  (((refl, refl, omega arith, omega arith), tt), tt),
)

stream_map-create_map_example :
    (r : CreateContainerRequest) × (r.key_unordered ≡ key_messages (flatten entry_parts))
    × (r.value_unordered ≡ value_messages test_env (pos 3) (flatten entry_parts))
    × (create_map test_env map_node client test_key none
          (pos 3)
          (pos 0)
          (some (all_present (flatten entry_parts)))
          (pos 0)
        ≡ ok (
            send_async_request
              (channel_of client)
              1000
              map_node.on_create_container
              r
              (pos 0)
              (some (λ a. value (hint_of a)))))
    × (stream_map test_env map_node client test_key none (pos 3) (pos 0)
        ≡ ok (value (map received_entry (flatten entry_parts)) ∷ []))
stream_map-create_map_example =
    stream_map-create_map test_env packer-IsLibdeflate map_node client refl test_key none (pos 3)
      (pos 0) ended_well refl same_cord (λ c. refl) entry_parts (pos 0) entry_parts-AreParts
      (λ d g. refl)

-- Two keys with two values.
add_element_hash_map-cases_example :
    let ks = test_key ∷ second_key ∷ [] in
    let vs = word ∷ number ∷ [] in
    let result =
      add_element_hash_map test_env word_node client test_key none
        (pos 3)
        (pos 0)
        (some (map some ks))
        (some (map some vs)) in
    ((length ks ≢ length vs) × (result ≡ ok (failed size_mismatch)))
    ⊎ ((es : List (Key × Value)) × (keys_of es ≡ ks)
        × (values_of es ≡ vs)
        × (r : AddToRequest) × (r.key_unordered ≡ key_messages es)
        × (r.value_unordered ≡ value_messages test_env (pos 3) es)
        × (result
            ≡ ok (
                send_async_request
                  (channel_of client)
                  1000
                  word_node.on_add_element
                  r
                  (pos 0)
                  (some (λ a. value a.size)))))
add_element_hash_map-cases_example =
    add_element_hash_map-cases test_env packer-IsLibdeflate word_node client test_key none (pos 3)
      (pos 0) (test_key ∷ second_key ∷ []) (word ∷ number ∷ [])

-- ===== src/Standalone/Streams.antt =====
-- standalone/src/standalone_client.cpp, the streams of containers. A `std::map` of pointers is
-- the list of its entries as they came.
use hurricache_cpp_client.Prelude.{
  ℕ, Bool, false, List, [], ◌∷◌, ◌++◌, Option, none, some, Run, ok, ◌>>=◌,
}
use hurricache_cpp_client.Prelude.Int.{ℤ}
use hurricache_cpp_client.Types.{Key, KeyHint, Value, OrderedValue, OrderedKey, ContainerType, read}
use hurricache_cpp_client.Proto.{ValueMessage}
use hurricache_cpp_client.Proto.Requests.{BatchValueResponse}
use hurricache_cpp_client.Env.{Env, Libdeflate}
use hurricache_cpp_client.Codec.{build_key_proto, default_compression_threshold}
use hurricache_cpp_client.Codec.Parse.{
  value_request_to_value, value_request_to_ordered_value, key_request_to_key,
  key_request_to_ordered_key,
}
use hurricache_cpp_client.Codec.Requests.{build_get_request_proto}
use hurricache_cpp_client.Rpc.{Outcome}
use hurricache_cpp_client.Standalone.{StandaloneClient, Service, send_stream}

-- `push_back` of what `read` makes of each message.
unfoldable pub push_each : {M A : Type 0} → (M → A) → List A → List M → List A
push_each read result [] = result
push_each read result (m ∷ ms) = push_each read (result ++ (read m ∷ [])) ms

-- One entry: one that cannot be read is left out.
unfoldable pub push_pair :
    {K : Type 0} → List (K × Value) → Option K → Option Value → List (K × Value)
push_pair result none v = result
push_pair result (some k) none = result
push_pair result (some k) (some v) = result ++ ((k, v) ∷ [])

-- Keys with values, as far as there are both.
unfoldable pub push_pairs :
    {M K : Type 0}
    → (M → Option K)
    → (ValueMessage → Option Value)
    → List (K × Value)
    → List M
    → List ValueMessage
    → List (K × Value)
unfolding push_pair
push_pairs read_key read_value result [] ms = result
push_pairs read_key read_value result (k ∷ ks) [] = result
push_pairs read_key read_value result (k ∷ ks) (m ∷ ms) =
    push_pairs read_key read_value (push_pair result (read_key k) (read_value m)) ks ms

-- The accumulators.
unfoldable pub push_values :
    Libdeflate → List (Option Value) → BatchValueResponse → List (Option Value)
unfolding push_each
push_values z result chunk = push_each (value_request_to_value z) result chunk.value_unordered

unfoldable pub push_ordered_values :
    Libdeflate → List (Option OrderedValue) → BatchValueResponse → List (Option OrderedValue)
unfolding push_each
push_ordered_values z result chunk =
    push_each (value_request_to_ordered_value z) result chunk.value_ordered

-- The key that a reader gave, without its hint.
unfoldable pub key_only : {K : Type 0} → Option (K × KeyHint) → Option K
key_only none = none
key_only (some (k, hint)) = some k

unfoldable pub push_entries :
    Libdeflate → List (Key × Value) → BatchValueResponse → List (Key × Value)
unfolding push_pairs key_only
push_entries z result chunk =
    push_pairs (λ m. key_only (key_request_to_key z m)) (value_request_to_value z) result
      chunk.key_unordered chunk.value_unordered

unfoldable pub push_ordered_entries :
    Libdeflate → List (OrderedKey × Value) → BatchValueResponse → List (OrderedKey × Value)
unfolding push_pairs key_only
push_ordered_entries z result chunk =
    push_pairs (λ m. key_only (key_request_to_ordered_key z m)) (value_request_to_value z) result
      chunk.key_ordered chunk.value_unordered

module _ (env : Env) (service : Service) (s : StandaloneClient) (key : Key) (hint : Option KeyHint)
    (client_id timeout : ℤ) where
  -- `streamList`.
  unfoldable pub stream_list : Run (List (Outcome (List (Option Value))))
  unfolding send_stream
  stream_list =
      send_stream s env timeout service.on_get_container (push_values env.deflate)
        (build_get_request_proto env key hint client_id s.compression_threshold)

  -- `streamVector`.
  unfoldable pub stream_vector : Run (List (Outcome (List (Option Value))))
  unfolding stream_list
  stream_vector = stream_list

  -- `streamSet`.
  unfoldable pub stream_set : Run (List (Outcome (List (Option Value))))
  unfolding stream_list
  stream_set = stream_list

  -- `streamMap`.
  unfoldable pub stream_map : Run (List (Outcome (List (Key × Value))))
  unfolding send_stream
  stream_map =
      send_stream s env timeout service.on_get_container (push_entries env.deflate)
        (build_get_request_proto env key hint client_id s.compression_threshold)

  -- `streamOrderedSet`.
  unfoldable pub stream_ordered_set : Run (List (Outcome (List (Option OrderedValue))))
  unfolding send_stream
  stream_ordered_set =
      send_stream s env timeout service.on_get_container (push_ordered_values env.deflate)
        (build_get_request_proto env key hint client_id s.compression_threshold)

  -- `streamOrderedMap`.
  unfoldable pub stream_ordered_map : Run (List (Outcome (List (OrderedKey × Value))))
  unfolding send_stream
  stream_ordered_map =
      send_stream s env timeout service.on_get_container (push_ordered_entries env.deflate)
        (build_get_request_proto env key hint client_id s.compression_threshold)

  -- `streamElementInRangeUnordered`.
  unfoldable pub stream_element_in_range_unordered :
      ContainerType → ℕ → ℕ → Run (List (Outcome (List (Option Value))))
  unfolding send_stream
  stream_element_in_range_unordered type start stop =
      send_stream s env timeout service.on_get_elements_in_range (push_values env.deflate) (do
        k ← build_key_proto env key hint client_id default_compression_threshold
        ok (record {
          key = k;
          type = some type;
          pos = start;
          stop = some stop;
          is_reverse = false;
        }))

  -- `streamElementInRangeOrderedSet`.
  unfoldable pub stream_element_in_range_ordered_set :
      ℕ → ℕ → Bool → Run (List (Outcome (List (Option OrderedValue))))
  unfolding send_stream
  stream_element_in_range_ordered_set start stop is_reverse =
      send_stream s env timeout service.on_get_elements_in_range (push_ordered_values env.deflate)
        (do
          k ← build_key_proto env key hint client_id default_compression_threshold
          ok (record {
            key = k;
            type = some ContainerType.ordered_set;
            pos = start;
            stop = some stop;
            is_reverse = is_reverse;
          }))

  -- `streamElementInRangeOrderedMap`.
  unfoldable pub stream_element_in_range_ordered_map :
      ℕ → ℕ → Bool → Run (List (Outcome (List (OrderedKey × Value))))
  unfolding send_stream
  stream_element_in_range_ordered_map start stop is_reverse =
      send_stream s env timeout service.on_get_elements_in_range (push_ordered_entries env.deflate)
        (do
          k ← build_key_proto env key hint client_id default_compression_threshold
          ok (record {
            key = k;
            type = some ContainerType.ordered_map;
            pos = start;
            stop = some stop;
            is_reverse = is_reverse;
          }))

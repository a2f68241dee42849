-- ===== src/Smart/Requests/Streams.antt =====
-- smart/src/smart_client.cpp, the requests for the streams of containers.
use hurricache_cpp_client.Prelude.{ℕ, Bool, Option}
use hurricache_cpp_client.Prelude.Int.{ℤ}
use hurricache_cpp_client.Types.{KeyHint, Key, ContainerType}
use hurricache_cpp_client.Env.{Env}
use hurricache_cpp_client.Smart.Execute.{SmartClient}
use hurricache_cpp_client.Smart.Requests.{
  Request, request, stream_list_call, stream_vector_call, stream_set_call, stream_map_call,
  stream_ordered_set_call, stream_ordered_map_call, stream_element_in_range_unordered_call,
  stream_element_in_range_ordered_set_call, stream_element_in_range_ordered_map_call,
}

module _ (env : Env) (s : SmartClient) (key : Key) (hint : Option KeyHint) (client_id : ℤ) where
  -- `streamList`.
  unfoldable pub stream_list : Request
  unfolding request
  stream_list = request env s key hint client_id stream_list_call

  -- `streamVector`.
  unfoldable pub stream_vector : Request
  unfolding request
  stream_vector = request env s key hint client_id stream_vector_call

  -- `streamSet`.
  unfoldable pub stream_set : Request
  unfolding request
  stream_set = request env s key hint client_id stream_set_call

  -- `streamMap`.
  unfoldable pub stream_map : Request
  unfolding request
  stream_map = request env s key hint client_id stream_map_call

  -- `streamOrderedSet`.
  unfoldable pub stream_ordered_set : Request
  unfolding request
  stream_ordered_set = request env s key hint client_id stream_ordered_set_call

  -- `streamOrderedMap`.
  unfoldable pub stream_ordered_map : Request
  unfolding request
  stream_ordered_map = request env s key hint client_id stream_ordered_map_call

  -- `streamElementInRangeUnordered`.
  unfoldable pub stream_element_in_range_unordered : ContainerType → ℕ → ℕ → Request
  unfolding request
  stream_element_in_range_unordered container_type first stop =
      request env s key hint client_id
        (stream_element_in_range_unordered_call container_type first stop)

  -- `streamElementInRangeOrderedSet`.
  unfoldable pub stream_element_in_range_ordered_set : ℕ → ℕ → Bool → Request
  unfolding request
  stream_element_in_range_ordered_set start_weight end_weight reverse =
      request env s key hint client_id
        (stream_element_in_range_ordered_set_call start_weight end_weight reverse)

  -- `streamElementInRangeOrderedMap`.
  unfoldable pub stream_element_in_range_ordered_map : ℕ → ℕ → Bool → Request
  unfolding request
  stream_element_in_range_ordered_map start_weight end_weight reverse =
      request env s key hint client_id
        (stream_element_in_range_ordered_map_call start_weight end_weight reverse)

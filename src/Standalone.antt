-- ===== src/Standalone.antt =====
-- standalone/src/standalone_client.cpp: the client of one node. The node is a record of what gRPC
-- does with each request. A method gives what its future does, or a fault of the code that builds
-- the request.
pub mod Values
pub mod Containers
pub mod Items
pub mod Streams
pub mod Inserts
pub mod Atomics
pub mod Laws
use hurricache_cpp_client.Prelude.{
  ℕ, ◌+◌, ◌*◌, ◌-◌, ◌/◌, ◌%◌, ◌^◌, Bool, true, false, List, [], ◌∷◌, Option, none, some, ltb,
  if◌then◌else◌, Run, ok, fault, null_value, ◌>>=◌,
}
use hurricache_cpp_client.Prelude.Dict.{Text}
use hurricache_cpp_client.Prelude.Int.{ℤ, pos, negsuc, ◌-ℤ◌, is_positive}
use hurricache_cpp_client.Types.{Key, KeyHint, Value, OrderedValue, OrderedKey}
use hurricache_cpp_client.Proto
use hurricache_cpp_client.Proto.{KeyMessage, ValueMessage, HintMessage, BinaryPayload, int_payload}
use hurricache_cpp_client.Proto.Requests.{
  GetRequest, ContainerGetRequest, TtlRequest, CreateRequest, UpdateContainerRequest,
  KeyPositionRequest, CreateContainerRequest, AddToRequest, AddToValRequest,
  RemoveFromContainerRequest, LockRequest, UnLockRequest, AtomicCas, TtlResponse, BoolResponse,
  IntResponse, KeyHintResponse, LockResponse, ValueResponse, UpdateValueResponse,
  BatchValueResponse, AtomicCasResponse,
}
use hurricache_cpp_client.Env.{Env, Libdeflate}
use hurricache_cpp_client.Codec.{build_value_proto, default_compression_threshold}
use hurricache_cpp_client.Codec.Parse.{
  get_or_default, value_request_to_value, value_request_to_ordered_value,
}
use hurricache_cpp_client.Codec.Requests.{raw_key_message}
use hurricache_cpp_client.Rpc.{Channel, Node, Outcome, value, send_async_request, Accumulator}
use hurricache_cpp_client.Rpc.Streams.{StreamNode, send_async_stream_request}

pub record StandaloneClient : Type 0 where
  pub target : Text
  pub default_timeout : ℤ
  pub compression_threshold : ℤ
  pub has_stub : Bool
  pub is_shut_down : Bool

-- The constructor from a channel.
abbrev pub new_standalone_client : Text → ℤ → ℤ → StandaloneClient
new_standalone_client target duration threshold = record {
  target = target;
  default_timeout = duration;
  compression_threshold = threshold;
  has_stub = true;
  is_shut_down = false;
}

-- `shutdown`.
unfoldable pub shut_down_client : StandaloneClient → StandaloneClient
shut_down_client s =
    if s.is_shut_down then s else record s { is_shut_down = true; has_stub = false }

-- `isShutdown` and `getDefaultTimeout`, which the senders ask for.
abbrev pub channel_of : StandaloneClient → Channel
channel_of s = record { is_shut_down = s.is_shut_down; default_timeout = s.default_timeout }

-- The methods of `HurriCacheGrpcService` that the client calls.
pub record Service : Type 0 where
  pub on_set_ttl : Node TtlRequest BoolResponse
  pub on_get_ttl : Node GetRequest TtlResponse
  pub on_get_and_delete_value : Node GetRequest ValueResponse
  pub on_create_key_value : Node CreateRequest KeyHintResponse
  pub on_get_value : Node GetRequest ValueResponse
  pub on_update_value : Node CreateRequest UpdateValueResponse
  pub on_exist_key : Node GetRequest BoolResponse
  pub on_remove : Node GetRequest BoolResponse
  pub on_create_container : Node CreateContainerRequest KeyHintResponse
  pub on_get_size : Node GetRequest IntResponse
  pub on_get_head : Node GetRequest ValueResponse
  pub on_get_tail : Node GetRequest ValueResponse
  pub on_get_element_at_position : Node KeyPositionRequest ValueResponse
  pub on_get_and_delete_head : Node GetRequest ValueResponse
  pub on_get_and_delete_tail : Node GetRequest ValueResponse
  pub on_get_and_delete_element_at_position : Node KeyPositionRequest ValueResponse
  pub on_get_container : StreamNode GetRequest BatchValueResponse
  pub on_get_elements_in_range : StreamNode KeyPositionRequest BatchValueResponse
  pub on_add_element : Node AddToRequest IntResponse
  pub on_add_element_to_tail : Node AddToRequest IntResponse
  pub on_add_element_to_head : Node AddToRequest IntResponse
  pub on_add_element_to_position_by_value : Node AddToValRequest IntResponse
  pub on_delete_head : Node GetRequest IntResponse
  pub on_delete_tail : Node GetRequest IntResponse
  pub on_delete_element_at_position : Node KeyPositionRequest IntResponse
  pub on_delete_from_container_by_key_value : Node RemoveFromContainerRequest IntResponse
  pub on_lock_object : Node LockRequest LockResponse
  pub on_unlock_object : Node UnLockRequest LockResponse
  pub on_atomic_exchange : Node CreateRequest ValueResponse
  pub on_atomic_add : Node CreateRequest ValueResponse
  pub on_atomic_sub : Node CreateRequest ValueResponse
  pub on_atomic_and : Node CreateRequest ValueResponse
  pub on_atomic_or : Node CreateRequest ValueResponse
  pub on_atomic_xor : Node CreateRequest ValueResponse
  pub on_atomic_compare_and_set : Node AtomicCas AtomicCasResponse
  pub on_get_value_in_container_by_key : Node ContainerGetRequest ValueResponse
  pub on_get_and_delete_value_in_container : Node ContainerGetRequest ValueResponse
  pub on_exist_in_container_by_key : Node ContainerGetRequest BoolResponse
  pub on_update_value_in_container : Node UpdateContainerRequest UpdateValueResponse
  pub on_delete_from_container_by_key : Node ContainerGetRequest IntResponse

-- A request that was built goes through `SendAsyncRequest` with a transformer that does not throw.
unfoldable pub send :
    {Request Response Result : Type 0}
    → StandaloneClient
    → Env
    → ℤ
    → Node Request Response
    → (Response → Result)
    → Run Request
    → Run (Outcome Result)
unfolding send_async_request
send s env timeout node transformer built = do
  request ← built
  ok (
      send_async_request (channel_of s) env.now_ms node request timeout
        (some (λ r. value (transformer r))))

-- A request that was built goes through `SendAsyncStreamRequest`, with an accumulator that does not
-- throw.
unfoldable pub send_stream :
    {Request Chunk A : Type 0}
    → StandaloneClient
    → Env
    → ℤ
    → StreamNode Request Chunk
    → (List A → Chunk → List A)
    → Run Request
    → Run (List (Outcome (List A)))
unfolding send_async_stream_request
send_stream s env timeout node accumulator built = do
  request ← built
  ok (
      send_async_stream_request (channel_of s) env.now_ms node request timeout
        (some (λ r chunk. (accumulator r chunk, false))) [])

-- The transformers of the responses.
unfoldable pub unordered_value : Libdeflate → ValueResponse → Option Value
unordered_value z resp = elim resp.value_unordered [
  | none ↦ none
  | some m ↦ value_request_to_value z m
]

unfoldable pub ordered_value : Libdeflate → ValueResponse → Option OrderedValue
ordered_value z resp = elim resp.value_ordered [
  | none ↦ none
  | some m ↦ value_request_to_ordered_value z m
]

unfoldable pub previous_value : Libdeflate → UpdateValueResponse → Option Value
previous_value z resp = elim resp.value [ none ↦ none | some m ↦ value_request_to_value z m ]

unfoldable pub hint_of : KeyHintResponse → KeyHint
hint_of resp = elim resp.key_hint [
  | none ↦ record { weak_hash = 0; strong_hash = 0 }
  | some h ↦ record {
    weak_hash = get_or_default 0 h.weak_hash;
    strong_hash = get_or_default 0 h.strong_hash;
  }
]

-- `static_cast<int64_t>` of a uint64_t.
abbrev pub signed64 : ℕ → ℤ
signed64 w = if ltb w (2 ^ 63) then pos w else negsuc (2 ^ 64 - 1 - w)

-- The transformer of `getTtl`, at the time of the answer; the difference is taken to fit 64 bits.
unfoldable pub remaining_ttl : ℕ → TtlResponse → ℤ
unfolding ◌-ℤ◌
remaining_ttl now_ms resp = elim resp.ttl [
  | none ↦ negsuc 0
  | some ttl ↦
      let remaining = signed64 ttl -ℤ signed64 now_ms in
      if is_positive remaining then remaining else negsuc 0
]

-- `buildValueProtoNoTtl` of each value of a vector.
unfoldable pub values_no_ttl : Env → ℤ → List (Option Value) → Run (List ValueMessage)
unfolding build_value_proto
values_no_ttl env client_id [] = ok []
values_no_ttl env client_id (none ∷ vs) = fault null_value
values_no_ttl env client_id (some v ∷ vs) = do
  ms ← values_no_ttl env client_id vs
  ok (build_value_proto env v (pos 0) client_id default_compression_threshold ∷ ms)

-- The loop over `*data`, and no values without it.
unfoldable pub vector_values : Env → ℤ → Option (List (Option Value)) → Run (List ValueMessage)
unfolding values_no_ttl
vector_values env client_id none = ok []
vector_values env client_id (some vs) = values_no_ttl env client_id vs

-- The keys of a vector, with their bytes only.
unfoldable pub raw_keys : List (Option Key) → Run (List KeyMessage)
unfolding raw_key_message
raw_keys [] = ok []
raw_keys (none ∷ ks) = fault null_value
raw_keys (some k ∷ ks) = do ms ← raw_keys ks; ok (raw_key_message k ∷ ms)

-- A `Value` message of an int, as the atomics set it.
abbrev pub int_message : ℤ → ValueMessage
int_message n = record {
  value = some (record { content = int_payload n; size = 0 });
  compression_info = none;
  ttl = none;
  lock_info = none;
  value_type = some Proto.ValueType.int;
}

-- ===== src/Tests/Standalone.antt =====
-- standalone/src/standalone_client.cpp and the requests of common/src/utils.cxx at concrete nodes.
use hurricache_cpp_client.Prelude.{
  ◌-◌, ◌≡◌, ◌↔◌, refl, true, [], ◌∷◌, none, some, ok, fault, wild_read, Returns, arith,
  if◌then◌else◌, ltb,
}
use hurricache_cpp_client.Prelude.Int.{pos, negsuc}
use hurricache_cpp_client.Types.{OrderedValue}
use hurricache_cpp_client.Proto.{Cord}
use hurricache_cpp_client.Proto.Requests.{
  GetRequest, CreateRequest, CreateContainerRequest, TtlRequest, ValueResponse, BatchValueResponse,
  BoolResponse, IntResponse, KeyHintResponse, LockResponse, UpdateValueResponse,
}
use hurricache_cpp_client.Codec.{build_value_proto, default_compression_threshold}
use hurricache_cpp_client.Codec.Parse.{value_request_to_ordered_value}
use hurricache_cpp_client.Codec.RoundTrip.{received}
use hurricache_cpp_client.Codec.Requests.{build_get_request_proto, ordered_value_message}
use hurricache_cpp_client.Codec.Containers.{
  typed_bytes, ordered_value_message-received, ordered_value_message-wild_read,
}
use hurricache_cpp_client.Rpc.{
  value, Ending, Node, send_async_request, status_failure, call_deadline,
}
use hurricache_cpp_client.Rpc.Streams.{StreamNode, outcome_of}
use hurricache_cpp_client.Standalone.{
  StandaloneClient, Service, new_standalone_client, channel_of, hint_of, unordered_value,
  previous_value,
}
use hurricache_cpp_client.Standalone.Values.{
  create_key_value, update_key_value, get_value, set_ttl, get_ttl,
}
use hurricache_cpp_client.Standalone.Containers.{create_list}
use hurricache_cpp_client.Standalone.Streams.{stream_list}
use hurricache_cpp_client.Standalone.Laws.Keys.{is_over, is_sent, get_value-create_key_value_iff}
use hurricache_cpp_client.Standalone.Laws.Stored.{
  answered, with_value, get_value-create_key_value, get_ttl-set_ttl,
}
use hurricache_cpp_client.Standalone.Laws.Streamed.{
  chunks_of, streamed_values, stream_list-streamed_values,
}
use hurricache_cpp_client.Tests.{packer, packer-IsLibdeflate, test_env, word, number, test_key}

ordered_value_message-received_example :
    let o : OrderedValue = record { value = word; weight = 4 } in
    Returns (ordered_value_message test_env o (pos 2)) (λ m.
      (value_request_to_ordered_value packer m ≡ none)
      × (value_request_to_ordered_value packer (typed_bytes m)
          ≡ some (record { value = received word; weight = 4 })))
ordered_value_message-received_example =
    ordered_value_message-received test_env packer-IsLibdeflate (some (65 ∷ 66 ∷ 67 ∷ [])) 3 4
      (pos 2) refl (omega arith) (omega arith)

ordered_value_message-wild_read_example :
    ordered_value_message test_env (record { value = number; weight = 4 }) (pos 2) ≡ fault wild_read
ordered_value_message-wild_read_example =
    ordered_value_message-wild_read test_env (record { value = number; weight = 4 }) (pos 2) refl

abbrev pub ended_well : Ending
ended_well = record { status = record { code = 0; message = [] }; trailers = [] }

-- A node that gives one answer.
abbrev always : {Request Response : Type 0} → Response → Node Request Response
always response deadline request = answered ended_well response

abbrev pub same_cord : Cord → Cord
same_cord c = c

abbrev word_answer : ValueResponse
word_answer =
    with_value same_cord
      (build_value_proto test_env word (pos 0) (pos 3) default_compression_threshold)

abbrev hint_answer : KeyHintResponse
hint_answer = record { key_hint = none }

abbrev size_answer : IntResponse
size_answer = record { size = 1 }

abbrev bool_answer : BoolResponse
bool_answer = record { value = true }

abbrev lock_answer : LockResponse
lock_answer = record { result = 0 }

abbrev update_answer : UpdateValueResponse
update_answer = record { value = none }

abbrev batch : BatchValueResponse
batch = record {
  key_unordered = [];
  key_ordered = [];
  value_unordered =
      build_value_proto test_env word (pos 0) (pos 3) default_compression_threshold ∷ [];
  value_ordered = [];
}

abbrev batches : {Request : Type 0} → StreamNode Request BatchValueResponse
batches deadline request = record { opens = true; chunks = batch ∷ batch ∷ []; ending = ended_well }

-- A node that has the word under every key, and a time to live that ends at 1500.
abbrev pub word_node : Service
word_node = record {
  on_set_ttl = always bool_answer;
  on_get_ttl = always (record { ttl = some 1500 });
  on_get_and_delete_value = always word_answer;
  on_create_key_value = always hint_answer;
  on_get_value = always word_answer;
  on_update_value = always update_answer;
  on_exist_key = always bool_answer;
  on_remove = always bool_answer;
  on_create_container = always hint_answer;
  on_get_size = always size_answer;
  on_get_head = always word_answer;
  on_get_tail = always word_answer;
  on_get_element_at_position = always word_answer;
  on_get_and_delete_head = always word_answer;
  on_get_and_delete_tail = always word_answer;
  on_get_and_delete_element_at_position = always word_answer;
  on_get_container = batches;
  on_get_elements_in_range = batches;
  on_add_element = always size_answer;
  on_add_element_to_tail = always size_answer;
  on_add_element_to_head = always size_answer;
  on_add_element_to_position_by_value = always size_answer;
  on_delete_head = always size_answer;
  on_delete_tail = always size_answer;
  on_delete_element_at_position = always size_answer;
  on_delete_from_container_by_key_value = always size_answer;
  on_lock_object = always lock_answer;
  on_unlock_object = always lock_answer;
  on_atomic_exchange = always word_answer;
  on_atomic_add = always word_answer;
  on_atomic_sub = always word_answer;
  on_atomic_and = always word_answer;
  on_atomic_or = always word_answer;
  on_atomic_xor = always word_answer;
  on_atomic_compare_and_set = always (record { result = true; expected = none });
  on_get_value_in_container_by_key = always word_answer;
  on_get_and_delete_value_in_container = always word_answer;
  on_exist_in_container_by_key = always bool_answer;
  on_update_value_in_container = always update_answer;
  on_delete_from_container_by_key = always size_answer;
}

abbrev pub client : StandaloneClient
client = new_standalone_client (97 ∷ []) (pos 1000) (pos 1)

get_value-create_key_value_example :
    (r : CreateRequest) × (r.value
      ≡ build_value_proto test_env word (pos 0) (pos 3) default_compression_threshold)
    × (create_key_value test_env word_node client test_key none (pos 3) (pos 0) word (pos 0)
        ≡ ok (
            send_async_request
              (channel_of client)
              1000
              word_node.on_create_key_value
              r
              (pos 0)
              (some (λ a. value (hint_of a)))))
    × (get_value test_env word_node client test_key none (pos 3) (pos 0)
        ≡ ok (value (some (received word))))
get_value-create_key_value_example =
    get_value-create_key_value test_env packer-IsLibdeflate word_node client refl test_key none
      (pos 3) (pos 0) ended_well refl same_cord word (pos 0) (λ c. refl) refl (omega arith)
      (omega arith) (λ d g. refl)

-- A node that answers with the 300 ms that remain.
abbrev documented_node : Service
documented_node = record word_node { on_get_ttl = always (record { ttl = some 300 }) }

get_ttl-set_ttl_example :
    (r : TtlRequest) × (r.ttl ≡ some 1500)
    × (set_ttl test_env word_node client test_key none (pos 3) (pos 0) 500
        ≡ ok (
            send_async_request
              (channel_of client)
              1000
              word_node.on_set_ttl
              r
              (pos 0)
              (some (λ a. value a.value))))
    × (get_ttl test_env word_node client test_key none (pos 3) (pos 0) 1200
        ≡ ok (value (if ltb 1200 1500 then pos (1500 - 1200) else negsuc 0)))
    × (get_ttl test_env documented_node client test_key none (pos 3) (pos 0) 1200
        ≡ ok (value (negsuc 0)))
get_ttl-set_ttl_example =
    get_ttl-set_ttl test_env packer-IsLibdeflate word_node client refl test_key none (pos 3) (pos 0)
      ended_well refl documented_node 500 1200 300 (omega arith) (omega arith) (λ d g. refl)
      (λ d g. refl) (omega arith)

-- A key of two bytes, over the client's threshold only.
get_value-create_key_value_iff_example :
    (g : GetRequest) × (l : CreateContainerRequest) × (c : CreateRequest) × (u : CreateRequest)
    × ((service : Service)
        → (get_value test_env service client test_key none (pos 3) (pos 0)
            ≡ is_sent client test_env (pos 0) service.on_get_value (unordered_value packer) g)
          × (create_list test_env service client test_key none (pos 3) (pos 0) none (pos 0)
              ≡ is_sent client test_env (pos 0) service.on_create_container hint_of l)
          × (create_key_value test_env service client test_key none (pos 3) (pos 0) word (pos 0)
              ≡ is_sent client test_env (pos 0) service.on_create_key_value hint_of c)
          × (update_key_value test_env service client test_key none (pos 3) (pos 0) word (pos 0)
              ≡ is_sent client test_env (pos 0) service.on_update_value (previous_value packer) u))
    × (l.key ≡ g.key)
    × (u.key ≡ c.key)
    × ((g.key ≡ c.key)
        ↔ (is_over test_key (pos 1) ≡ is_over test_key default_compression_threshold))
get_value-create_key_value_iff_example =
    get_value-create_key_value_iff test_env packer-IsLibdeflate client test_key none (pos 3) (pos 0)
      word none (pos 0)

stream_list-streamed_values_example :
    (g : GetRequest) × (build_get_request_proto test_env test_key none (pos 3) (pos 1) ≡ ok g)
    × (let st = word_node.on_get_container (call_deadline (pos 1000) 1000 (pos 0)) g in
        stream_list test_env word_node client test_key none (pos 3) (pos 0)
        ≡ ok (
            outcome_of (λ r. r) status_failure (streamed_values packer (chunks_of st)) st.ending
            ∷ []))
stream_list-streamed_values_example =
    stream_list-streamed_values test_env packer-IsLibdeflate word_node client test_key none (pos 3)
      (pos 0) refl

-- ===== src/Smart/Requests.antt =====
-- smart/src/smart_client.cpp, what the methods that are one call of a node share: the call, and its
-- hint. The timeouts are passed on and left out, and a double is its bit pattern.
pub mod Hints
pub mod Values
pub mod Items
pub mod Streams
pub mod Atomics
use hurricache_cpp_client.Prelude.{ℕ, Bool, List, Option}
use hurricache_cpp_client.Prelude.Int.{ℤ}
use hurricache_cpp_client.Types.{KeyHint, Key, Value, ContainerType}
use hurricache_cpp_client.Env.{Env}
use hurricache_cpp_client.Smart.Copies.{copy_key, copy_content, resolve_hint}
use hurricache_cpp_client.Smart.Execute.{SmartClient, effective_client_id}

-- The method of `FastCacheStandaloneClient` that is called, with its own arguments.
pub data Method : Type 0 where
  set_ttl_call : ℕ → Method
  get_ttl_call : Method
  get_and_delete_value_call : Method
  create_key_value_call : Value → ℤ → Method
  get_value_call : Method
  update_key_value_call : Value → ℤ → Method
  exist_key_call : Method
  remove_call : Method
  get_element_with_weight_call : ℕ → Method
  get_and_remove_element_with_weight_call : ℕ → Method
  get_size_call : Method
  get_and_remove_front_call : Method
  get_head_call : Method
  get_tail_call : Method
  get_element_at_position_call : ℕ → Method
  stream_list_call : Method
  stream_vector_call : Method
  stream_set_call : Method
  stream_map_call : Method
  stream_ordered_set_call : Method
  stream_ordered_map_call : Method
  stream_element_in_range_unordered_call : ContainerType → ℕ → ℕ → Method
  stream_element_in_range_ordered_set_call : ℕ → ℕ → Bool → Method
  stream_element_in_range_ordered_map_call : ℕ → ℕ → Bool → Method
  get_and_remove_tail_call : Method
  get_and_remove_element_at_position_call : ℕ → Method
  remove_tail_call : Method
  remove_head_call : Method
  remove_element_at_position_call : ℕ → ℕ → Method
  lock_object_call : ℕ → ℤ → Method
  unlock_object_call : Method
  atomic_exchange_call : ℤ → ℤ → Method
  atomic_add_call : ℤ → ℤ → Method
  atomic_sub_call : ℤ → ℤ → Method
  atomic_add_double_call : ℕ → ℤ → Method
  atomic_sub_double_call : ℕ → ℤ → Method
  atomic_and_call : ℤ → ℤ → Method
  atomic_or_call : ℤ → ℤ → Method
  atomic_xor_call : ℤ → ℤ → Method
  atomic_compare_and_set_call : ℤ → ℤ → ℤ → Method
  get_container_value_call : Key → Method
  get_and_remove_container_value_call : Key → Method
  contains_container_key_call : Key → Method
  update_container_value_call : Key → Value → Method
  remove_from_container_call : Key → Method
  remove_all_from_container_call : Option (List Key) → Option (List (Option Value)) → Method

-- What a method gives to `execute`, and what the call has of its own.
pub record Request : Type 0 where
  pub hint : Option KeyHint
  pub key : Key
  pub client_id : ℤ
  pub method : Method

-- `copyValue` of a value that is there.
abbrev pub copied : Value → Value
copied v = copy_content v.size v.content

module _ (env : Env) (s : SmartClient) (key : Key) (hint : Option KeyHint) (client_id : ℤ) where
  -- What the methods share: the copies of the key and the hint, and the client's number.
  unfoldable pub request : Method → Request
  unfolding copy_key resolve_hint effective_client_id
  request method = record {
    hint = resolve_hint env key hint;
    key = copy_key key;
    client_id = effective_client_id s client_id;
    method = method;
  }

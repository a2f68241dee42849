-- ===== src/Smart/Requests/Items.antt =====
-- smart/src/smart_client.cpp, the requests for the items of containers.
use hurricache_cpp_client.Prelude.{ℕ, List, Option}
use hurricache_cpp_client.Prelude.Int.{ℤ}
use hurricache_cpp_client.Types.{KeyHint, Key, Value}
use hurricache_cpp_client.Env.{Env}
use hurricache_cpp_client.Smart.Copies.{copy_key, copy_content}
use hurricache_cpp_client.Smart.Execute.{SmartClient}
use hurricache_cpp_client.Smart.Requests.{
  Request, request, copied, get_element_with_weight_call, get_and_remove_element_with_weight_call,
  get_size_call, get_and_remove_front_call, get_head_call, get_tail_call,
  get_element_at_position_call, get_and_remove_tail_call, get_and_remove_element_at_position_call,
  remove_tail_call, remove_head_call, remove_element_at_position_call, get_container_value_call,
  get_and_remove_container_value_call, contains_container_key_call, update_container_value_call,
  remove_from_container_call, remove_all_from_container_call,
}

module _ (env : Env) (s : SmartClient) (key : Key) (hint : Option KeyHint) (client_id : ℤ) where
  -- `getElementWithWeight`.
  unfoldable pub get_element_with_weight : ℕ → Request
  unfolding request
  get_element_with_weight pos = request env s key hint client_id (get_element_with_weight_call pos)

  -- `getAndRemoveElementWithWeight`.
  unfoldable pub get_and_remove_element_with_weight : ℕ → Request
  unfolding request
  get_and_remove_element_with_weight pos =
      request env s key hint client_id (get_and_remove_element_with_weight_call pos)

  -- `getSize`.
  unfoldable pub get_size : Request
  unfolding request
  get_size = request env s key hint client_id get_size_call

  -- `getAndRemoveFront`.
  unfoldable pub get_and_remove_front : Request
  unfolding request
  get_and_remove_front = request env s key hint client_id get_and_remove_front_call

  -- `getHead`.
  unfoldable pub get_head : Request
  unfolding request
  get_head = request env s key hint client_id get_head_call

  -- `getTail`.
  unfoldable pub get_tail : Request
  unfolding request
  get_tail = request env s key hint client_id get_tail_call

  -- `getElementAtPosition`.
  unfoldable pub get_element_at_position : ℕ → Request
  unfolding request
  get_element_at_position pos = request env s key hint client_id (get_element_at_position_call pos)

  -- `getAndRemoveTail`.
  unfoldable pub get_and_remove_tail : Request
  unfolding request
  get_and_remove_tail = request env s key hint client_id get_and_remove_tail_call

  -- `getAndRemoveElementAtPosition`.
  unfoldable pub get_and_remove_element_at_position : ℕ → Request
  unfolding request
  get_and_remove_element_at_position pos =
      request env s key hint client_id (get_and_remove_element_at_position_call pos)

  -- `removeTail`.
  unfoldable pub remove_tail : Request
  unfolding request
  remove_tail = request env s key hint client_id remove_tail_call

  -- `removeHead`.
  unfoldable pub remove_head : Request
  unfolding request
  remove_head = request env s key hint client_id remove_head_call

  -- `removeElementAtPosition`.
  unfoldable pub remove_element_at_position : ℕ → ℕ → Request
  unfolding request
  remove_element_at_position pos end_pos =
      request env s key hint client_id (remove_element_at_position_call pos end_pos)

  -- `getContainerValue`.
  unfoldable pub get_container_value : Key → Request
  unfolding request copy_key
  get_container_value element_key =
      request env s key hint client_id (get_container_value_call (copy_key element_key))

  -- `getAndRemoveContainerValue`.
  unfoldable pub get_and_remove_container_value : Key → Request
  unfolding request copy_key
  get_and_remove_container_value element_key =
      request env s key hint client_id (get_and_remove_container_value_call (copy_key element_key))

  -- `containsContainerKey`.
  unfoldable pub contains_container_key : Key → Request
  unfolding request copy_key
  contains_container_key element_key =
      request env s key hint client_id (contains_container_key_call (copy_key element_key))

  -- `updateContainerValue`.
  unfoldable pub update_container_value : Key → Value → Request
  unfolding request copy_key copy_content
  update_container_value element_key value =
      request env s key hint client_id
        (update_container_value_call (copy_key element_key) (copied value))

  -- `removeFromContainer`.
  unfoldable pub remove_from_container : Key → Request
  unfolding request copy_key
  remove_from_container element_key =
      request env s key hint client_id (remove_from_container_call (copy_key element_key))

  -- `removeFromContainer` of many.
  unfoldable pub remove_all_from_container :
      Option (List Key) → Option (List (Option Value)) → Request
  unfolding request
  remove_all_from_container keys values =
      request env s key hint client_id (remove_all_from_container_call keys values)

-- ===== src/Smart/Requests/Values.antt =====
-- smart/src/smart_client.cpp, the requests for values, their time to live and locks.
use hurricache_cpp_client.Prelude.{ℕ, Option}
use hurricache_cpp_client.Prelude.Int.{ℤ}
use hurricache_cpp_client.Types.{KeyHint, Key, Value}
use hurricache_cpp_client.Env.{Env}
use hurricache_cpp_client.Smart.Copies.{copy_content}
use hurricache_cpp_client.Smart.Execute.{SmartClient, effective_ttl}
use hurricache_cpp_client.Smart.Requests.{
  Request, request, copied, set_ttl_call, get_ttl_call, get_and_delete_value_call,
  create_key_value_call, get_value_call, update_key_value_call, exist_key_call, remove_call,
  lock_object_call, unlock_object_call,
}

module _ (env : Env) (s : SmartClient) (key : Key) (hint : Option KeyHint) (client_id : ℤ) where
  -- `setTtl`.
  unfoldable pub set_ttl : ℕ → Request
  unfolding request
  set_ttl ttl = request env s key hint client_id (set_ttl_call ttl)

  -- `getTtl`.
  unfoldable pub get_ttl : Request
  unfolding request
  get_ttl = request env s key hint client_id get_ttl_call

  -- `getAndDeleteValue`.
  unfoldable pub get_and_delete_value : Request
  unfolding request
  get_and_delete_value = request env s key hint client_id get_and_delete_value_call

  -- `createKeyValue`.
  unfoldable pub create_key_value : Value → ℤ → Request
  unfolding request effective_ttl copy_content
  create_key_value value ttl =
      request env s key hint client_id (create_key_value_call (copied value) (effective_ttl s ttl))

  -- `getValue`.
  unfoldable pub get_value : Request
  unfolding request
  get_value = request env s key hint client_id get_value_call

  -- `updateKeyValue`.
  unfoldable pub update_key_value : Value → ℤ → Request
  unfolding request effective_ttl copy_content
  update_key_value value ttl =
      request env s key hint client_id (update_key_value_call (copied value) (effective_ttl s ttl))

  -- `existKey`.
  unfoldable pub exist_key : Request
  unfolding request
  exist_key = request env s key hint client_id exist_key_call

  -- `remove`.
  unfoldable pub remove : Request
  unfolding request
  remove = request env s key hint client_id remove_call

  -- `lockObject`.
  unfoldable pub lock_object : ℕ → ℤ → Request
  unfolding request
  lock_object type duration = request env s key hint client_id (lock_object_call type duration)

  -- `unlockObject`.
  unfoldable pub unlock_object : Request
  unfolding request
  unlock_object = request env s key hint client_id unlock_object_call

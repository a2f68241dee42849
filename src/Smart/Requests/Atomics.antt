-- ===== src/Smart/Requests/Atomics.antt =====
-- smart/src/smart_client.cpp, the requests for atomic changes of numbers.
use hurricache_cpp_client.Prelude.{ℕ, Option}
use hurricache_cpp_client.Prelude.Int.{ℤ}
use hurricache_cpp_client.Types.{KeyHint, Key}
use hurricache_cpp_client.Env.{Env}
use hurricache_cpp_client.Smart.Execute.{SmartClient, effective_ttl}
use hurricache_cpp_client.Smart.Requests.{
  Request, request, atomic_exchange_call, atomic_add_call, atomic_sub_call, atomic_add_double_call,
  atomic_sub_double_call, atomic_and_call, atomic_or_call, atomic_xor_call,
  atomic_compare_and_set_call,
}

module _ (env : Env) (s : SmartClient) (key : Key) (hint : Option KeyHint) (client_id : ℤ) where
  -- `atomicExchange`.
  unfoldable pub atomic_exchange : ℤ → ℤ → Request
  unfolding request effective_ttl
  atomic_exchange value ttl =
      request env s key hint client_id (atomic_exchange_call value (effective_ttl s ttl))

  -- `atomicAdd`.
  unfoldable pub atomic_add : ℤ → ℤ → Request
  unfolding request effective_ttl
  atomic_add delta ttl =
      request env s key hint client_id (atomic_add_call delta (effective_ttl s ttl))

  -- `atomicSub`.
  unfoldable pub atomic_sub : ℤ → ℤ → Request
  unfolding request effective_ttl
  atomic_sub delta ttl =
      request env s key hint client_id (atomic_sub_call delta (effective_ttl s ttl))

  -- `atomicAdd` of a double.
  unfoldable pub atomic_add_double : ℕ → ℤ → Request
  unfolding request effective_ttl
  atomic_add_double delta ttl =
      request env s key hint client_id (atomic_add_double_call delta (effective_ttl s ttl))

  -- `atomicSub` of a double.
  unfoldable pub atomic_sub_double : ℕ → ℤ → Request
  unfolding request effective_ttl
  atomic_sub_double delta ttl =
      request env s key hint client_id (atomic_sub_double_call delta (effective_ttl s ttl))

  -- `atomicAnd`.
  unfoldable pub atomic_and : ℤ → ℤ → Request
  unfolding request effective_ttl
  atomic_and mask ttl =
      request env s key hint client_id (atomic_and_call mask (effective_ttl s ttl))

  -- `atomicOr`.
  unfoldable pub atomic_or : ℤ → ℤ → Request
  unfolding request effective_ttl
  atomic_or mask ttl = request env s key hint client_id (atomic_or_call mask (effective_ttl s ttl))

  -- `atomicXor`.
  unfoldable pub atomic_xor : ℤ → ℤ → Request
  unfolding request effective_ttl
  atomic_xor mask ttl =
      request env s key hint client_id (atomic_xor_call mask (effective_ttl s ttl))

  -- `atomicCompareAndSet`.
  unfoldable pub atomic_compare_and_set : ℤ → ℤ → ℤ → Request
  unfolding request effective_ttl
  atomic_compare_and_set expected replacement ttl =
      request env s key hint client_id
        (atomic_compare_and_set_call expected replacement (effective_ttl s ttl))

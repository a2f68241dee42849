-- ===== src/Standalone/Atomics.antt =====
-- standalone/src/standalone_client.cpp, the atomic operations.
use hurricache_cpp_client.Prelude.{
  ℕ, ◌+◌, ◌*◌, ◌-◌, ◌/◌, ◌%◌, ◌^◌, Bool, Option, none, some, ltb, if◌then◌else◌, Run, ok, ◌>>=◌,
}
use hurricache_cpp_client.Prelude.Int.{ℤ, pos, ◌-ℤ◌}
use hurricache_cpp_client.Types.{Key, KeyHint, Value}
use hurricache_cpp_client.Proto.Requests.{AtomicCasResponse, CreateRequest}
use hurricache_cpp_client.Env.{Env}
use hurricache_cpp_client.Codec.{build_key_proto, default_compression_threshold}
use hurricache_cpp_client.Codec.Parse.{int_of, data_case}
use hurricache_cpp_client.Rpc.{Outcome}
use hurricache_cpp_client.Standalone.{StandaloneClient, Service, send, unordered_value, int_message}

-- The int that a double is made, toward zero: `set_intpayload` of a double by its bit pattern.
-- Without meaning for a double that is no int64.
unfoldable pub truncate_double : ℕ → ℤ
truncate_double d =
    let exponent = d / 2 ^ 52 % 2 ^ 11 in
    let mantissa = 2 ^ 52 + d % 2 ^ 52 in
    let whole =
      if ltb exponent 1023
      then 0
      else if ltb exponent 1075
      then mantissa / 2 ^ (1075 - exponent)
      else mantissa * 2 ^ (exponent - 1075) in
    if ltb d (2 ^ 63) then pos whole else pos 0 -ℤ pos whole

-- The request of an atomic operation: the time to live is not sent.
unfoldable pub atomic_request : Env → Key → Option KeyHint → ℤ → ℤ → Run CreateRequest
unfolding build_key_proto
atomic_request env key hint client_id n = do
  k ← build_key_proto env key hint client_id default_compression_threshold
  ok (record { key = k; value = int_message n })

-- `resp.expected().value_unordered().value().intpayload()`.
unfoldable pub expected_int : AtomicCasResponse → ℤ
expected_int resp = elim resp.expected [
  | none ↦ pos 0
  | some r ↦ elim r.value_unordered [ none ↦ pos 0 | some m ↦ int_of (data_case m.value) ]
]

module _ (env : Env) (service : Service) (s : StandaloneClient) (key : Key) (hint : Option KeyHint)
    (client_id timeout : ℤ) where
  -- `atomicExchange`.
  unfoldable pub atomic_exchange : ℤ → Run (Outcome (Option Value))
  unfolding send
  atomic_exchange content =
      send s env timeout service.on_atomic_exchange (unordered_value env.deflate)
        (atomic_request env key hint client_id content)

  -- `atomicAdd`.
  unfoldable pub atomic_add : ℤ → Run (Outcome (Option Value))
  unfolding send
  atomic_add delta =
      send s env timeout service.on_atomic_add (unordered_value env.deflate)
        (atomic_request env key hint client_id delta)

  -- `atomicSub`.
  unfoldable pub atomic_sub : ℤ → Run (Outcome (Option Value))
  unfolding send
  atomic_sub delta =
      send s env timeout service.on_atomic_sub (unordered_value env.deflate)
        (atomic_request env key hint client_id delta)

  -- `atomicAdd` of a double.
  unfoldable pub atomic_add_double : ℕ → Run (Outcome (Option Value))
  unfolding send
  atomic_add_double delta =
      send s env timeout service.on_atomic_add (unordered_value env.deflate)
        (atomic_request env key hint client_id (truncate_double delta))

  -- `atomicSub` of a double.
  unfoldable pub atomic_sub_double : ℕ → Run (Outcome (Option Value))
  unfolding send
  atomic_sub_double delta =
      send s env timeout service.on_atomic_sub (unordered_value env.deflate)
        (atomic_request env key hint client_id (truncate_double delta))

  -- `atomicAnd`.
  unfoldable pub atomic_and : ℤ → Run (Outcome (Option Value))
  unfolding send
  atomic_and mask =
      send s env timeout service.on_atomic_and (unordered_value env.deflate)
        (atomic_request env key hint client_id mask)

  -- `atomicOr`.
  unfoldable pub atomic_or : ℤ → Run (Outcome (Option Value))
  unfolding send
  atomic_or mask =
      send s env timeout service.on_atomic_or (unordered_value env.deflate)
        (atomic_request env key hint client_id mask)

  -- `atomicXor`.
  unfoldable pub atomic_xor : ℤ → Run (Outcome (Option Value))
  unfolding send
  atomic_xor mask =
      send s env timeout service.on_atomic_xor (unordered_value env.deflate)
        (atomic_request env key hint client_id mask)

  -- `atomicCompareAndSet`.
  unfoldable pub atomic_compare_and_set : ℤ → ℤ → Run (Outcome (Bool × ℤ))
  unfolding send
  atomic_compare_and_set expected to_set =
      send s env timeout service.on_atomic_compare_and_set (λ r. (r.result, expected_int r))
        (do
          k ← build_key_proto env key hint client_id default_compression_threshold
          ok (record { key = k; expected = int_message expected; to_set = int_message to_set }))

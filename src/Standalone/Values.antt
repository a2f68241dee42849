-- ===== src/Standalone/Values.antt =====
-- standalone/src/standalone_client.cpp, the calls of a its time to live and its lock.
use hurricache_cpp_client.Prelude.{
  ℕ, ◌+◌, ◌/◌, ◌%◌, ◌^◌, Bool, Option, none, some, if◌then◌else◌, Run, ok, ◌>>=◌,
}
use hurricache_cpp_client.Prelude.Int.{ℤ, is_positive, pos_part, to_u32}
use hurricache_cpp_client.Types.{Key, KeyHint, Value}
use hurricache_cpp_client.Env.{Env}
use hurricache_cpp_client.Codec.{build_key_proto, build_value_proto, default_compression_threshold}
use hurricache_cpp_client.Codec.Requests.{build_get_request_proto}
use hurricache_cpp_client.Rpc.{Outcome}
use hurricache_cpp_client.Standalone.{
  StandaloneClient, Service, send, unordered_value, previous_value, hint_of, remaining_ttl,
}

-- `set_lockduration`: a time in seconds, in uint32_t.
unfoldable pub lock_end : ℕ → ℤ → Option ℕ
lock_end now_ms duration =
    if is_positive duration
    then some ((now_ms / 1000 % 2 ^ 32 + pos_part duration / 1000 % 2 ^ 32) % 2 ^ 32)
    else none

module _ (env : Env) (service : Service) (s : StandaloneClient) (key : Key) (hint : Option KeyHint)
    (client_id timeout : ℤ) where
  -- `setTtl`.
  unfoldable pub set_ttl : ℕ → Run (Outcome (Bool))
  unfolding send
  set_ttl ttl =
      send s env timeout service.on_set_ttl (λ r. r.value)
        (do
          k ← build_key_proto env key hint client_id default_compression_threshold
          ok (record { key = k; ttl = some ((env.now_ms + ttl) % 2 ^ 64) }))

  -- `getTtl`, with the time at which the answer is taken up.
  unfoldable pub get_ttl : ℕ → Run (Outcome (ℤ))
  unfolding send
  get_ttl answered_ms =
      send s env timeout service.on_get_ttl (remaining_ttl answered_ms)
        (build_get_request_proto env key hint client_id s.compression_threshold)

  -- `getAndDeleteValue`.
  unfoldable pub get_and_delete_value : Run (Outcome (Option Value))
  unfolding send
  get_and_delete_value =
      send s env timeout service.on_get_and_delete_value (unordered_value env.deflate)
        (build_get_request_proto env key hint client_id s.compression_threshold)

  -- `createKeyValue`.
  unfoldable pub create_key_value : Value → ℤ → Run (Outcome (KeyHint))
  unfolding send
  create_key_value content ttl = send s env timeout service.on_create_key_value hint_of (do
    k ← build_key_proto env key hint client_id default_compression_threshold
    ok (record {
      key = k;
      value = build_value_proto env content ttl client_id default_compression_threshold;
    }))

  -- `getValue`.
  unfoldable pub get_value : Run (Outcome (Option Value))
  unfolding send
  get_value =
      send s env timeout service.on_get_value (unordered_value env.deflate)
        (build_get_request_proto env key hint client_id s.compression_threshold)

  -- `updateKeyValue`.
  unfoldable pub update_key_value : Value → ℤ → Run (Outcome (Option Value))
  unfolding send
  update_key_value content ttl =
      send s env timeout service.on_update_value (previous_value env.deflate) (do
        k ← build_key_proto env key hint client_id default_compression_threshold
        ok (record {
          key = k;
          value = build_value_proto env content ttl client_id default_compression_threshold;
        }))

  -- `existKey`.
  unfoldable pub exist_key : Run (Outcome (Bool))
  unfolding send
  exist_key =
      send s env timeout service.on_exist_key (λ r. r.value)
        (build_get_request_proto env key hint client_id s.compression_threshold)

  -- `remove`.
  unfoldable pub remove : Run (Outcome (Bool))
  unfolding send
  remove =
      send s env timeout service.on_remove (λ r. r.value)
        (build_get_request_proto env key hint client_id s.compression_threshold)

  -- `lockObject`.
  unfoldable pub lock_object : ℕ → ℤ → Run (Outcome (ℕ))
  unfolding send
  lock_object type duration =
      send s env timeout service.on_lock_object (λ r. r.result)
        (do
          k ← build_key_proto env key hint client_id default_compression_threshold
          ok (record {
            key = k;
            lock_type = type;
            client_id = some (to_u32 client_id);
            lock_duration = lock_end env.now_ms duration;
          }))

  -- `unlockObject`.
  unfoldable pub unlock_object : Run (Outcome (ℕ))
  unfolding send
  unlock_object =
      send s env timeout service.on_unlock_object (λ r. r.result)
        (do
          k ← build_key_proto env key hint client_id default_compression_threshold
          ok (record { key = k; client_id = some (to_u32 client_id) }))

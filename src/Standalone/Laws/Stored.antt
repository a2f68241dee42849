-- ===== src/Standalone/Laws/Stored.antt =====
-- standalone/src/standalone_client.cpp: what comes back of a value and of a time to live from a node
-- that keeps what it is sent.
use hurricache_cpp_client.Prelude.{
  ℕ, ◌+◌, ◌-◌, ◌%◌, ◌^◌, ◌<◌, ◌≤◌, ◌≡◌, refl, ap, ◌∙◌, true, false, Option, none, some, arith, ok,
  flatten, ltb, if◌then◌else◌,
}
use hurricache_cpp_client.Prelude.Int.{ℤ, pos, negsuc, ◌-ℤ◌}
use hurricache_cpp_client.Types.{Key, KeyHint, Value}
use hurricache_cpp_client.Proto.{Cord, ValueMessage}
use hurricache_cpp_client.Proto.Requests.{GetRequest, CreateRequest, TtlRequest, ValueResponse}
use hurricache_cpp_client.Env.{Env, IsLibdeflate}
use hurricache_cpp_client.Codec.{build_value_proto, default_compression_threshold}
use hurricache_cpp_client.Codec.RoundTrip.{
  IsValue, received, rechunk, value_request_to_value-build_value_proto,
}
use hurricache_cpp_client.Rpc.{value, Answer, Ending, is_ok, send_async_request}
use hurricache_cpp_client.Standalone.{
  StandaloneClient, Service, channel_of, unordered_value, hint_of, remaining_ttl, send,
}
use hurricache_cpp_client.Standalone.Values.{create_key_value, get_value, set_ttl, get_ttl}
use hurricache_cpp_client.Standalone.Laws.{build_key_proto-ok, build_get_request_proto-ok, send-ok}

-- A node's answer that succeeded.
abbrev pub answered : {Response : Type 0} → Ending → Response → Answer Response
answered e response = record { completed = true; ending = e; response = response }

-- The answer of a node that has the value of a message, and streams its bytes in other chunks.
abbrev pub with_value : (Cord → Cord) → ValueMessage → ValueResponse
with_value f m = record { value_unordered = some (rechunk f m); value_ordered = none }

remaining_ttl-left :
    (stop later_ms : ℕ)
    → stop < 2 ^ 63
    → later_ms < 2 ^ 63
    → remaining_ttl later_ms (record { ttl = some stop })
      ≡ (if ltb later_ms stop then pos (stop - later_ms) else negsuc 0)
unfolding remaining_ttl ◌-ℤ◌
remaining_ttl-left stop later_ms small later_small = ground arith

module _ (env : Env) (law : IsLibdeflate env.deflate) (service : Service) (s : StandaloneClient)
    (open_yet : s.is_shut_down ≡ false) (key : Key) (hint : Option KeyHint) (client_id timeout : ℤ)
    (e : Ending) (good : is_ok e ≡ true) where
  -- The message that `create_key_value` sends of a value.
  abbrev pub sent_value : Value → ℤ → ValueMessage
  sent_value v ttl = build_value_proto env v ttl client_id default_compression_threshold

  -- An open client sends a value whole: the creation reaches the node with the value's message, and
  -- where the node answers a later read with this message, its bytes cut into any chunks, the read
  -- gives the value. The sizes fit 32 bits, and the compressor does what libdeflate promises.
  pub get_value-create_key_value :
      (f : Cord → Cord) (v : Value) (ttl : ℤ)
      → ((c : Cord) → flatten (f c) ≡ flatten c)
      → IsValue v
      → v.size < 2 ^ 32
      → env.deflate.compress_bound v.size < 2 ^ 32
      → ((d : Option ℕ) (g : GetRequest)
          → service.on_get_value d g ≡ answered e (with_value f (sent_value v ttl)))
      → (r : CreateRequest) × (r.value ≡ sent_value v ttl)
        × (create_key_value env service s key hint client_id timeout v ttl
            ≡ ok (
                send_async_request
                  (channel_of s)
                  env.now_ms
                  service.on_create_key_value
                  r
                  timeout
                  (some (λ a. value (hint_of a)))))
        × (get_value env service s key hint client_id timeout ≡ ok (value (some (received v))))
  unfolding create_key_value get_value send unordered_value
  get_value-create_key_value f v ttl keeps valid small room stores =
      let (k, made) = build_key_proto-ok env law key hint client_id default_compression_threshold in
      let (g, asked) =
        build_get_request_proto-ok env law key hint client_id s.compression_threshold in
      (
        record { key = k; value = sent_value v ttl },
        refl,
        rw made refl,
        send-ok s env timeout service.on_get_value (unordered_value env.deflate) _ g
              (answered e (with_value f (sent_value v ttl))) asked open_yet (stores _ g) refl good
            ∙ ap (λ r. ok (value r))
                (value_request_to_value-build_value_proto env law f keeps v ttl client_id
                  default_compression_threshold valid small room),
      )

  -- What a read of a time to live makes of a number that the node answers with: the time that is left
  -- until it on the client's clock, and -1 if nothing is.
  get_ttl-answered :
      (node : Service) (stop later_ms : ℕ)
      → stop < 2 ^ 63
      → later_ms < 2 ^ 63
      → ((d : Option ℕ) (g : GetRequest)
          → node.on_get_ttl d g ≡ answered e (record { ttl = some stop }))
      → get_ttl env node s key hint client_id timeout later_ms
        ≡ ok (value (if ltb later_ms stop then pos (stop - later_ms) else negsuc 0))
  unfolding get_ttl
  get_ttl-answered node stop later_ms small later_small answers =
      let (g, asked) =
        build_get_request_proto-ok env law key hint client_id s.compression_threshold in
      send-ok s env timeout node.on_get_ttl (remaining_ttl later_ms) _ g
        (answered e (record { ttl = some stop })) asked open_yet (answers _ g) refl good
      ∙ ap (λ r. ok (value r)) (remaining_ttl-left stop later_ms small later_small)

  -- The client works with the time at which a time to live ends, not with its length as cache.proto
  -- says. An open client sends the time it is set at with it added. Where the node answers a later read
  -- with the number sent, the read gives what is left at that time, and -1 if nothing is; but where the
  -- node answers with the time that remains, as documented, the read gives -1, whatever remains, up to
  -- the time since 1970. All times fit 63 bits, and the compressor does what libdeflate promises.
  pub get_ttl-set_ttl :
      (documented : Service) (ttl later_ms remaining : ℕ)
      → env.now_ms + ttl < 2 ^ 63
      → later_ms < 2 ^ 63
      → ((d : Option ℕ) (g : GetRequest)
          → service.on_get_ttl d g ≡ answered e (record { ttl = some (env.now_ms + ttl) }))
      → ((d : Option ℕ) (g : GetRequest)
          → documented.on_get_ttl d g ≡ answered e (record { ttl = some remaining }))
      → remaining ≤ later_ms
      → (r : TtlRequest) × (r.ttl ≡ some (env.now_ms + ttl))
        × (set_ttl env service s key hint client_id timeout ttl
            ≡ ok (
                send_async_request
                  (channel_of s)
                  env.now_ms
                  service.on_set_ttl
                  r
                  timeout
                  (some (λ a. value a.value))))
        × (get_ttl env service s key hint client_id timeout later_ms
            ≡ ok (
                value (
                  if ltb later_ms (env.now_ms + ttl)
                  then pos (env.now_ms + ttl - later_ms)
                  else negsuc 0)))
        × (get_ttl env documented s key hint client_id timeout later_ms ≡ ok (value (negsuc 0)))
  unfolding set_ttl send
  get_ttl-set_ttl documented ttl later_ms remaining small later_small stores answers past =
      let (k, made) = build_key_proto-ok env law key hint client_id default_compression_threshold in
      let over : ltb later_ms remaining ≡ false = ground arith in
      (
        record { key = k; ttl = some ((env.now_ms + ttl) % 2 ^ 64) },
        ap (λ n. some n) (omega arith),
        rw made refl,
        get_ttl-answered service (env.now_ms + ttl) later_ms small later_small stores,
        get_ttl-answered documented remaining later_ms (omega arith) later_small answers
            ∙ ap (λ b. ok (value (if b then pos (remaining - later_ms) else negsuc 0))) over,
      )

-- ===== src/Standalone/Laws/Keys.antt =====
-- standalone/src/standalone_client.cpp and common/src/utils.cxx: the key in different requests of one
-- client.
use hurricache_cpp_client.Prelude.{
  ◌↔◌, sym, ◌∙◌, Bool-cases, ◌≡◌, ◌≢◌, refl, Bool, true, false, Option, none, some, arith, ltb, inl,
  inr, Option-cases, ap, List, [], Run, ok,
}
use hurricache_cpp_client.Prelude.Int.{ℤ, to_u32}
use hurricache_cpp_client.Types.{Key, KeyHint, Value, ContainerType, read}
use hurricache_cpp_client.Proto.{KeyMessage}
use hurricache_cpp_client.Proto.Requests.{GetRequest, CreateRequest, CreateContainerRequest}
use hurricache_cpp_client.Rpc.{Node, Outcome, value, send_async_request}
use hurricache_cpp_client.Env.{Env, IsLibdeflate}
use hurricache_cpp_client.Codec.{
  default_compression_threshold, build_value_proto, deadline, key_payload, build_key_proto,
  effective_hint, calculate_key_hint,
}
use hurricache_cpp_client.Codec.Containers.{compress-bound_suffices}
use hurricache_cpp_client.Standalone.{
  StandaloneClient, Service, channel_of, send, unordered_value, previous_value, hint_of,
}
use hurricache_cpp_client.Standalone.Values.{get_value, create_key_value, update_key_value}
use hurricache_cpp_client.Standalone.Containers.{create_list}
use hurricache_cpp_client.Standalone.Laws.{build_key_proto-ok}
use hurricache_cpp_client.Codec.Requests.{
  request_key, build_get_request_proto, build_container_request, container_values,
}

effective_hint-twice :
    (env : Env) (key : Key) (hint : Option KeyHint)
    → effective_hint env key (effective_hint env key hint) ≡ effective_hint env key hint
unfolding effective_hint
effective_hint-twice env key (some h) = refl
effective_hint-twice env key none = elim (Option-cases (calculate_key_hint env key)) [
  | inl e ↦ rw (e, effective_hint) e
  | inr (h, e) ↦ rw (e, effective_hint) refl
]

request_key-build_key_proto :
    (env : Env) (key : Key) (hint : Option KeyHint) (client_id threshold : ℤ)
    → request_key env key hint client_id threshold
      ≡ build_key_proto env key hint client_id threshold
unfolding request_key build_key_proto
request_key-build_key_proto env key hint client_id threshold =
    rw (effective_hint-twice env key hint) refl

-- Whether a key is sent compressed under a threshold.
abbrev pub is_over : Key → ℤ → Bool
is_over key threshold = ltb (to_u32 threshold) key.size

same_test :
    (env : Env) (key : Key) (a b : ℤ)
    → is_over key a ≡ is_over key b
    → key_payload env key a ≡ key_payload env key b
unfolding key_payload
same_test env key a b e = ground arith

other_test :
    (env : Env)
    → IsLibdeflate env.deflate
    → (key : Key) (hint : Option KeyHint) (client_id a b : ℤ) → is_over key a ≡ true
    → is_over key b ≡ false
    → build_key_proto env key hint client_id a ≢ build_key_proto env key hint client_id b
unfolding key_payload build_key_proto
other_test env law key hint client_id a b over under e =
    ground (arith, compress-bound_suffices env.deflate law (read key.buffer key.size))

differ :
    (env : Env)
    → IsLibdeflate env.deflate
    → (key : Key) (hint : Option KeyHint) (client_id a b : ℤ)
    → build_key_proto env key hint client_id a ≡ build_key_proto env key hint client_id b
    → is_over key a ≡ is_over key b
differ env law key hint client_id a b e = elim (Bool-cases (is_over key a)) [
  | inl p ↦ elim (Bool-cases (is_over key b)) [
    | inl q ↦ p ∙ sym q
    | inr q ↦ absurd (other_test env law key hint client_id a b p q e)
  ]
  | inr p ↦ elim (Bool-cases (is_over key b)) [
    | inl q ↦ absurd (other_test env law key hint client_id b a q p (sym e))
    | inr q ↦ p ∙ sym q
  ]
]

built_alike :
    (env : Env) (key : Key) (hint : Option KeyHint) (client_id a b : ℤ)
    → is_over key a ≡ is_over key b
    → build_key_proto env key hint client_id a ≡ build_key_proto env key hint client_id b
unfolding build_key_proto
built_alike env key hint client_id a b e = rw (same_test env key a b e) refl

build_key_proto_iff :
    (env : Env)
    → IsLibdeflate env.deflate
    → (key : Key) (hint : Option KeyHint) (client_id a b : ℤ) (k m : KeyMessage)
    → build_key_proto env key hint client_id a ≡ ok k
    → build_key_proto env key hint client_id b ≡ ok m
    → (k ≡ m) ↔ (is_over key a ≡ is_over key b)
build_key_proto_iff env law key hint client_id a b k m made_k made_m = (
  λ e. differ env law key hint client_id a b (made_k ∙ ap ok e ∙ sym made_m),
  λ e. ok_injective k m (sym made_k ∙ built_alike env key hint client_id a b e ∙ made_m),
)
  where
    ok_injective : (k m : KeyMessage) → ok k ≡ ok m → k ≡ m
    ok_injective k m h = cc

-- A request that is sent, by a method of the client whose future it settles.
abbrev pub is_sent :
    {Request Response Result : Type 0}
    → StandaloneClient
    → Env
    → ℤ
    → Node Request Response
    → (Response → Result)
    → Request
    → Run (Outcome Result)
is_sent s env timeout node transformer request = ok (
    send_async_request (channel_of s) env.now_ms node request timeout
      (some (λ r. value (transformer r))))

module _ (env : Env) (law : IsLibdeflate env.deflate) (s : StandaloneClient) (key : Key)
    (hint : Option KeyHint) (client_id timeout : ℤ) where
  -- A read of a value and the creation of a list name a key alike, as do the creation and the update
  -- of a value. The read names it as the creation of the value does exactly if the key is over both
  -- the threshold of the client, which the first two take, and the default one, or over neither. The
  -- requests are the same for every node, and the compressor does what libdeflate promises.
  pub get_value-create_key_value_iff :
      (v : Value) (values : Option (List (Option Value))) (ttl : ℤ)
      → (g : GetRequest) × (l : CreateContainerRequest) × (c : CreateRequest) × (u : CreateRequest)
        × ((service : Service)
            → (get_value env service s key hint client_id timeout
                ≡ is_sent s env timeout service.on_get_value (unordered_value env.deflate) g)
              × (create_list env service s key hint client_id timeout values ttl
                  ≡ is_sent s env timeout service.on_create_container hint_of l)
              × (create_key_value env service s key hint client_id timeout v ttl
                  ≡ is_sent s env timeout service.on_create_key_value hint_of c)
              × (update_key_value env service s key hint client_id timeout v ttl
                  ≡ is_sent s env timeout service.on_update_value (previous_value env.deflate) u))
        × (l.key ≡ g.key)
        × (u.key ≡ c.key)
        × ((g.key ≡ c.key)
            ↔ (is_over key s.compression_threshold ≡ is_over key default_compression_threshold))
  unfolding get_value create_list create_key_value update_key_value send build_get_request_proto
      build_container_request
  get_value-create_key_value_iff v values ttl =
      let t = s.compression_threshold in
      let d = default_compression_threshold in
      let (k, made_k) = build_key_proto-ok env law key hint client_id t in
      let (m, made_m) = build_key_proto-ok env law key hint client_id d in
      let asked : request_key env key hint client_id t ≡ ok k =
        request_key-build_key_proto env key hint client_id t ∙ made_k in
      let sent_value = build_value_proto env v ttl client_id d in
      (
        record { key = k },
        record {
          key = k;
          type = ContainerType.list;
          ttl = deadline env ttl;
          key_unordered = [];
          value_unordered = elim values [
            | none ↦ []
            | some vs ↦ container_values env client_id t vs
          ];
          key_ordered = [];
          value_ordered = [];
        },
        record { key = m; value = sent_value },
        record { key = m; value = sent_value },
        λ service. (rw asked refl, rw asked refl, rw made_m refl, rw made_m refl),
        refl,
        refl,
        build_key_proto_iff env law key hint client_id t d k m made_k made_m,
      )

-- ===== src/Standalone/Laws.antt =====
-- standalone/src/standalone_client.cpp: what a method of the client comes to.
pub mod Keys
pub mod Stored
pub mod Streamed
pub mod Maps
pub mod Added
use hurricache_cpp_client.Prelude.{
  ℕ, ◌+◌, ◌%◌, ◌^◌, ◌≡◌, refl, sym, ap, ◌∙◌, Bool, true, false, List, [], ◌∷◌, Option, none, some,
  arith, Run, ok, fault, Fault, ◌⊎◌, ◌>>=◌, Bool-cases, Option-cases, inl, inr, ltb, Returns,
  if◌then◌else◌,
}
use hurricache_cpp_client.Prelude.Int.{ℤ, to_u32}
use hurricache_cpp_client.Types.{Key, KeyHint, read}
use hurricache_cpp_client.Proto.{KeyMessage, KeyBinaryPayload, CompressedInfo}
use hurricache_cpp_client.Proto.Requests.{GetRequest}
use hurricache_cpp_client.Env.{Env, IsLibdeflate}
use hurricache_cpp_client.Codec.{key_payload, build_key_proto, compress, effective_hint}
use hurricache_cpp_client.Codec.Containers.{compress-bound_suffices}
use hurricache_cpp_client.Codec.Requests.{request_key, build_get_request_proto}
use hurricache_cpp_client.Rpc.{
  Node, Outcome, value, failed, client_shut_down, Answer, Ending, is_ok, call_deadline,
  send_async_request, unary_proceed,
}
use hurricache_cpp_client.Standalone.{StandaloneClient, channel_of, send}

Run-cases : {A : Type 0} (r : Run A) → ((c : Fault) × (r ≡ fault c)) ⊎ ((a : A) × (r ≡ ok a))
Run-cases (fault c) = inl (c, refl)
Run-cases (ok a) = inr (a, refl)

no_fault : {A : Type 0} (c : Fault) (a : A) → fault c ≡ ok a → ⊥
no_fault c a h = cc

-- With a compressor that keeps its word every key has a payload.
key_payload-ok :
    (env : Env)
    → IsLibdeflate env.deflate
    → (key : Key) (threshold : ℤ)
    → (p : KeyBinaryPayload × Option CompressedInfo) × (key_payload env key threshold ≡ ok p)
unfolding key_payload
key_payload-ok env law key threshold = elim (Run-cases (key_payload env key threshold)) [
  | inr found ↦ found
  | inl (c, e) ↦
      absurd (ground (arith, compress-bound_suffices env.deflate law (read key.buffer key.size)))
]

pub build_key_proto-ok :
    (env : Env)
    → IsLibdeflate env.deflate
    → (key : Key) (hint : Option KeyHint) (client_id threshold : ℤ)
    → (m : KeyMessage) × (build_key_proto env key hint client_id threshold ≡ ok m)
unfolding build_key_proto
build_key_proto-ok env law key hint client_id threshold =
    let (p, e) = key_payload-ok env law key threshold in
    elim (Run-cases (build_key_proto env key hint client_id threshold)) [
      | inr found ↦ found
      | inl (c, q) ↦ absurd (ground (arith, e))
    ]

pub build_get_request_proto-ok :
    (env : Env)
    → IsLibdeflate env.deflate
    → (key : Key) (hint : Option KeyHint) (client_id threshold : ℤ)
    → (g : GetRequest) × (build_get_request_proto env key hint client_id threshold ≡ ok g)
unfolding build_get_request_proto request_key
build_get_request_proto-ok env law key hint client_id threshold =
    let (m, e) = build_key_proto-ok env law key (effective_hint env key hint) client_id threshold in
    (record { key = m }, rw e refl)

unary_proceed-ok :
    {Response Result : Type 0} (f : Response → Outcome Result) (a : Answer Response)
    → a.completed ≡ true
    → is_ok a.ending ≡ true
    → unary_proceed (some f) a ≡ f a.response
unfolding unary_proceed
unary_proceed-ok f a completed good = ground arith

-- A request that was built, on a client that is open, and whose answer is OK.
pub send-ok :
    {Response Request Result : Type 0}
    → (s : StandaloneClient) (env : Env) (timeout : ℤ) (node : Node Request Response)
      (transformer : Response → Result) (built : Run Request) (request : Request)
      (a : Answer Response)
    → built ≡ ok request
    → s.is_shut_down ≡ false
    → node (call_deadline s.default_timeout env.now_ms timeout) request ≡ a
    → a.completed ≡ true
    → is_ok a.ending ≡ true
    → send s env timeout node transformer built ≡ ok (value (transformer a.response))
unfolding send send_async_request unary_proceed
send-ok {Response} s env timeout node transformer built request a h open_yet e completed good =
    let f = λ (r : Response). value (transformer r) in
    let dl = call_deadline s.default_timeout env.now_ms timeout in
    ap (λ r. r >>= λ q. ok (send_async_request (channel_of s) env.now_ms node q timeout (some f))) h
    ∙ ap (λ b. ok (if b then failed client_shut_down else unary_proceed (some f) (node dl request)))
        open_yet
    ∙ ap (λ x. ok (unary_proceed (some f) x)) e
    ∙ ap (λ x. ok x) (unary_proceed-ok f a completed good)

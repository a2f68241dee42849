-- ===== src/Standalone/Laws/Streamed.antt =====
-- standalone/src/standalone_client.cpp: what the streams of containers give.
use hurricache_cpp_client.Prelude.{
  inl, inr, ◌≡◌, refl, sym, ap, ◌∙◌, Bool, true, false, List, [], ◌∷◌, ◌++◌, append_assoc,
  append-nil, map, Option, some, Run, ok, ◌>>=◌, if◌then◌else◌,
}
use hurricache_cpp_client.Prelude.Int.{ℤ}
use hurricache_cpp_client.Types.{Key, KeyHint, Value}
use hurricache_cpp_client.Proto.Requests.{GetRequest, BatchValueResponse}
use hurricache_cpp_client.Env.{Env, Libdeflate, IsLibdeflate}
use hurricache_cpp_client.Codec.Parse.{value_request_to_value}
use hurricache_cpp_client.Codec.Requests.{build_get_request_proto}
use hurricache_cpp_client.Rpc.{Accumulator, accumulate, status_failure, call_deadline}
use hurricache_cpp_client.Rpc.Streams.{
  Stream, StreamNode, send_async_stream_request, sum_of, until_throw, outcome_of,
}
use hurricache_cpp_client.Rpc.Streams.Calls.{added, taken_chunks, send_async_stream_request-settled}
use hurricache_cpp_client.Standalone.{StandaloneClient, Service, send_stream, channel_of}
use hurricache_cpp_client.Standalone.Streams.{push_each, push_values, stream_list}
use hurricache_cpp_client.Standalone.Laws.{build_get_request_proto-ok}

push_each-map :
    {M A : Type 0} (read : M → A) (result : List A) (ms : List M)
    → push_each read result ms ≡ result ++ map read ms
unfolding push_each
push_each-map read result [] = sym (append-nil result)
push_each-map read result (m ∷ ms) =
    push_each-map read (result ++ (read m ∷ [])) ms
    ∙ append_assoc result (read m ∷ []) (map read ms)

-- What is read of the values of all chunks, in their order.
unfoldable pub streamed_values : Libdeflate → List BatchValueResponse → List (Option Value)
streamed_values z [] = []
streamed_values z (c ∷ cs) =
    map (value_request_to_value z) c.value_unordered ++ streamed_values z cs

sum_of-streamed_values :
    (z : Libdeflate) (result : List (Option Value)) (chunks : List BatchValueResponse)
    → sum_of (push_values z) result chunks ≡ result ++ streamed_values z chunks
unfolding sum_of push_values streamed_values
sum_of-streamed_values z result [] = sym (append-nil result)
sum_of-streamed_values z result (c ∷ cs) =
    sum_of-streamed_values z (push_values z result c) cs
    ∙ ap (λ r. r ++ streamed_values z cs)
        (push_each-map (value_request_to_value z) result c.value_unordered)
    ∙ append_assoc result (map (value_request_to_value z) c.value_unordered) (streamed_values z cs)

-- An accumulator that does not throw takes all chunks.
until_throw-never :
    {Chunk Sum : Type 0} (sum : Sum → Chunk → Sum) (s : Sum) (xs : List Chunk)
    → until_throw sum (λ s x. false) s xs ≡ xs
unfolding until_throw
until_throw-never sum s [] = refl
until_throw-never sum s (x ∷ xs) = ap (λ r. x ∷ r) (until_throw-never sum (sum s x) xs)

-- The chunks of a stream that opens.
abbrev pub chunks_of : {Chunk : Type 0} → Stream Chunk → List Chunk
chunks_of st = if st.opens then st.chunks else []

-- An accumulator that does not throw, as it is sent.
abbrev total : {A Chunk : Type 0} → (List A → Chunk → List A) → Option (Accumulator Chunk (List A))
total accumulator = some (λ r chunk. (accumulator r chunk, false))

taken_chunks-all :
    {A Chunk : Type 0} (accumulator : List A → Chunk → List A) (opens : Bool) (xs : List Chunk)
    → sum_of (added (total accumulator)) [] (taken_chunks (total accumulator) [] opens xs)
      ≡ sum_of accumulator [] (if opens then xs else [])
unfolding accumulate
taken_chunks-all accumulator true xs =
    ap (sum_of accumulator []) (until_throw-never accumulator [] xs)
taken_chunks-all accumulator false xs = refl

pub send_stream-outcome :
    {Chunk Request A : Type 0}
    → (s : StandaloneClient) (env : Env) (timeout : ℤ) (node : StreamNode Request Chunk)
      (accumulator : List A → Chunk → List A) (built : Run Request) (request : Request)
    → built ≡ ok request
    → s.is_shut_down ≡ false
    → let st = node (call_deadline s.default_timeout env.now_ms timeout) request in
      send_stream s env timeout node accumulator built
      ≡ ok
          (outcome_of (λ r. r) status_failure (sum_of accumulator [] (chunks_of st)) st.ending ∷ [])
unfolding send_stream
send_stream-outcome s env timeout node accumulator built request h open_yet =
    let st = node (call_deadline s.default_timeout env.now_ms timeout) request in
    ap
      (λ r. r >>= λ q.
        ok (
          send_async_stream_request (channel_of s) env.now_ms node q timeout (total accumulator)
            []))
      h
    ∙ elim (send_async_stream_request-settled (total accumulator) (channel_of s) env.now_ms node
        request timeout []) [
          | inl (closed, sent) ↦ cc
          | inr (live, sent) ↦
              ap (λ p. ok p) sent
              ∙ ap (λ r. ok (outcome_of (λ r. r) status_failure r st.ending ∷ []))
                  (taken_chunks-all accumulator st.opens st.chunks)
        ]

-- A stream of a list, a vector or a set on an open client settles its future once: where the node
-- ends the stream OK, with what is read of the values of all chunks, in their order and however they
-- are spread over the chunks (and with none if the stream does not open); else with the node's
-- status. The compressor does what libdeflate promises.
pub stream_list-streamed_values :
    (env : Env)
    → IsLibdeflate env.deflate
    → (service : Service) (s : StandaloneClient) (key : Key) (hint : Option KeyHint)
      (client_id timeout : ℤ)
    → s.is_shut_down ≡ false
    → (g : GetRequest) × (build_get_request_proto env key hint client_id s.compression_threshold
        ≡ ok g)
      × (let st = service.on_get_container (call_deadline s.default_timeout env.now_ms timeout) g in
          stream_list env service s key hint client_id timeout
          ≡ ok (
              outcome_of
                (λ r. r)
                status_failure
                (streamed_values env.deflate (chunks_of st))
                st.ending
              ∷ []))
unfolding stream_list
stream_list-streamed_values env law service s key hint client_id timeout open_yet =
    let (g, asked) =
      build_get_request_proto-ok env law key hint client_id s.compression_threshold in
    let st = service.on_get_container (call_deadline s.default_timeout env.now_ms timeout) g in
    (
      g,
      asked,
      send_stream-outcome s env timeout service.on_get_container (push_values env.deflate) _ g asked
            open_yet
          ∙ ap (λ r. ok (outcome_of (λ r. r) status_failure r st.ending ∷ []))
              (sum_of-streamed_values env.deflate [] (chunks_of st)),
    )

-- ===== src/Tests/Streams.antt =====
-- Calls of common/include/utils.hxx at concrete answers of a node.
use hurricache_cpp_client.Prelude.{
  ℕ, ◌+◌, ◌≡◌, ◌≢◌, refl, ◌⊎◌, Bool, true, false, List, [], ◌∷◌, ◌++◌, some, ltb, Option,
  if◌then◌else◌,
}
use hurricache_cpp_client.Prelude.Dict.{Text}
use hurricache_cpp_client.Prelude.Int.{pos}
use hurricache_cpp_client.Rpc.{
  Outcome, value, failed, grpc, route_key, Ending, StreamCall, new_stream_call, stream_proceed,
  deleted, Accumulator, status_failure, Channel, Node, client_shut_down, call_deadline,
  send_async_request,
}
use hurricache_cpp_client.Rpc.Streams.{
  StreamRun, here, opened, chunk_read, stream_ended, finished, sum_of, outcome_of, StreamNode,
  send_async_stream_request,
}
use hurricache_cpp_client.Rpc.Streams.Calls.{
  added, stream_proceed-outcome, taken_chunks, send_async_stream_request-settled,
}
use hurricache_cpp_client.Rpc.Unary.{IsDeadline, IsRoute, send_async_request-cases}

-- An accumulator that keeps all chunks, and throws at 9.
abbrev keep_chunks : Accumulator ℕ (List ℕ)
keep_chunks r x = (r ++ (x ∷ []), ltb 8 x)

abbrev ended_well : Ending
ended_well = record { status = record { code = 0; message = [] }; trailers = [] }

abbrev proceed : Bool → StreamCall ℕ (List ℕ) (List ℕ) → StreamCall ℕ (List ℕ) (List ℕ)
proceed = stream_proceed (some keep_chunks)

abbrev opened_call : StreamCall ℕ (List ℕ) (List ℕ)
opened_call = proceed true (new_stream_call [])

abbrev read_call : StreamCall ℕ (List ℕ) (List ℕ)
read_call = proceed true (record opened_call { current_chunk = some 5 })

abbrev ended_call : StreamCall ℕ (List ℕ) (List ℕ)
ended_call = proceed false read_call

abbrev settled_call : StreamCall ℕ (List ℕ) (List ℕ)
settled_call = proceed true (record ended_call { ending = ended_well })

a_run : StreamRun proceed (new_stream_call []) (5 ∷ []) (some ended_well) settled_call
unfolding stream_proceed
a_run = finished ended_well (stream_ended (chunk_read 5 (opened true here refl) refl) refl) refl

-- One chunk, and a good end.
stream_proceed-outcome_example :
    ((settled_call.pending ≢ deleted) × (settled_call.promise ≡ []))
    ⊎ ((settled_call.pending ≡ deleted)
        × ((s : Ending) × (some ended_well ≡ some s)
            × (settled_call.promise
                ≡ outcome_of
                    (λ r. r)
                    status_failure
                    (sum_of (added (some keep_chunks)) [] (5 ∷ []))
                    s
                  ∷ [])))
stream_proceed-outcome_example =
    stream_proceed-outcome (some keep_chunks) [] (5 ∷ []) (some ended_well) settled_call a_run

abbrev open_channel : Channel
open_channel = record { is_shut_down = false; default_timeout = pos 1000 }

-- A node that streams two chunks.
abbrev two_chunks : StreamNode ℕ ℕ
two_chunks deadline request = record {
  opens = true;
  chunks = request ∷ 9 ∷ [];
  ending = ended_well;
}

send_async_stream_request-settled_example :
    let sent =
      send_async_stream_request open_channel 5 two_chunks 7 (pos 0) (some keep_chunks) [] in
    let st = two_chunks (call_deadline (pos 1000) 5 (pos 0)) 7 in
    ((false ≡ true) × (sent ≡ failed client_shut_down ∷ []))
    ⊎ ((false ≡ false)
        × (sent
            ≡ outcome_of
                (λ r. r)
                status_failure
                (sum_of
                  (added (some keep_chunks))
                  []
                  (taken_chunks (some keep_chunks) [] st.opens st.chunks))
                st.ending
              ∷ []))
send_async_stream_request-settled_example =
    send_async_stream_request-settled (some keep_chunks) open_channel 5 two_chunks 7 (pos 0) []

-- A node that doubles what it has before 900, and refuses the rest with a route.
abbrev doubler : Node ℕ ℕ
doubler deadline request = record {
  completed = true;
  ending = record {
    status = record { code = if ltb request 900 then 0 else 9; message = [] };
    trailers = (107 ∷ [], 1 ∷ []) ∷ (route_key, 97 ∷ []) ∷ [];
  };
  response = request + request;
}

abbrev keep_value : ℕ → Outcome ℕ
keep_value r = value r

-- A call that is refused.
send_async_request-cases_example :
    let sent = send_async_request open_channel 5 doubler 900 (pos 0) (some keep_value) in
    ((false ≡ true) × (sent ≡ failed client_shut_down))
    ⊎ ((false ≡ false)
        × (d : Option ℕ) × IsDeadline 5 (pos 1000) (pos 0) d
        × let a = doubler d 900 in
          let status = a.ending.status in
          ((a.completed ≡ false ⊎ status.code ≢ 0)
            × (route : Text) × IsRoute a.ending.trailers route
            × (sent ≡ failed (grpc status.code status.message route)))
          ⊎ ((a.completed ≡ true) × (status.code ≡ 0) × (sent ≡ keep_value a.response)))
send_async_request-cases_example =
    send_async_request-cases open_channel 5 doubler 900 (pos 0) keep_value

-- ===== src/Rpc/Streams/Calls.antt =====
-- `StreamCallData` of common/include/utils.hxx with the accumulator that it is given.
use hurricache_cpp_client.Prelude.{
  ap, ◌∙◌, inl, inr, Bool-cases, ◌⊎◌, ℕ, ◌+◌, ◌≡◌, ◌≢◌, Bool, true, false, List, [], ◌∷◌, Option,
  some, arith, if◌then◌else◌, length,
}
use hurricache_cpp_client.Prelude.Int.{ℤ}
use hurricache_cpp_client.Rpc.{
  Channel, call_deadline, failed, client_shut_down, Ending, deleted, StreamCall, new_stream_call,
  Accumulator, accumulate, absorb_chunk, stream_proceed, status_failure,
}
use hurricache_cpp_client.Rpc.Streams.{
  StreamNode, send_async_stream_request, StreamRun, run_queue, IsMachine, sum_of, outcome_of,
  until_throw,
}
use hurricache_cpp_client.Rpc.Streams.Promise.{StreamRun-outcome}
use hurricache_cpp_client.Rpc.Streams.Queue.{run_queue-outcome}

-- What a chunk makes of the result, and whether it throws.
abbrev pub added :
    {Chunk Result : Type 0} → Option (Accumulator Chunk Result) → Result → Chunk → Result
added accumulator r x = (accumulate accumulator r x).0

abbrev pub thrown :
    {Chunk Result : Type 0} → Option (Accumulator Chunk Result) → Result → Chunk → Bool
thrown accumulator r x = (accumulate accumulator r x).1

module _ {Chunk Result : Type 0} (accumulator : Option (Accumulator Chunk Result)) where
  pub stream_proceed-IsMachine :
      IsMachine
        (stream_proceed accumulator)
        (added accumulator)
        (thrown accumulator)
        (λ r. r)
        status_failure
  unfolding stream_proceed absorb_chunk
  stream_proceed-IsMachine = record {
    at_start = λ b c h. ground arith;
    at_chunk = λ x c h. ground arith;
    at_end = λ c h. ground arith;
    at_finish = λ c h. ground arith;
  }

  -- However gRPC completes the operations of a `StreamCallData`, its promise is given nothing while
  -- an operation is pending, and exactly one thing by the time it is deleted. This is the result that
  -- the accumulator made of all the chunks read, in their order, if `Finish` reported OK, whether or
  -- not the accumulator threw; else it is an exception with the status that `Finish` reported.
  pub stream_proceed-outcome :
      (empty : Result) (xs : List Chunk) (e : Option Ending) (d : StreamCall Chunk Result Result)
      → StreamRun (stream_proceed accumulator) (new_stream_call empty) xs e d
      → ((d.pending ≢ deleted) × (d.promise ≡ []))
        ⊎ ((d.pending ≡ deleted)
            × ((s : Ending) × (e ≡ some s)
                × (d.promise
                    ≡ outcome_of (λ r. r) status_failure (sum_of (added accumulator) empty xs) s
                      ∷ [])))
  stream_proceed-outcome empty xs e d run =
      StreamRun-outcome stream_proceed-IsMachine empty xs e d run

  -- The chunks that a stream adds up.
  abbrev pub taken_chunks : Result → Bool → List Chunk → List Chunk
  taken_chunks empty true xs = until_throw (added accumulator) (thrown accumulator) empty xs
  taken_chunks empty false xs = []

  run_queue-settled :
      (empty : Result) (opens : Bool) (s : Ending) (xs : List Chunk)
      → let d =
          run_queue
            (stream_proceed accumulator)
            opens
            s
            (length xs + 3)
            xs
            (new_stream_call empty) in
        d.promise
        ≡ outcome_of
            (λ r. r)
            status_failure
            (sum_of (added accumulator) empty (taken_chunks empty opens xs))
            s
          ∷ []
  run_queue-settled empty true s xs =
      let h =
        run_queue-outcome stream_proceed-IsMachine empty true s (length xs + 3) xs (omega arith) in
      h.1
  run_queue-settled empty false s xs =
      let h =
        run_queue-outcome stream_proceed-IsMachine empty false s (length xs + 3) xs (omega arith) in
      h.1

  -- The future of a streamed request is always settled, by one outcome. A client that is shut down
  -- fails it with "shut down"; else the outcome is what the accumulator makes of the chunks that the
  -- node streams to the request under its deadline, up to the first one at which it throws and with
  -- none if the stream does not open, if the node ends OK, and an exception with its status if not.
  pub send_async_stream_request-settled :
      {Request : Type 0} (channel : Channel) (now_ms : ℕ) (node : StreamNode Request Chunk)
      (request : Request) (timeout : ℤ) (empty : Result)
      → let sent =
          send_async_stream_request channel now_ms node request timeout accumulator empty in
        let st = node (call_deadline channel.default_timeout now_ms timeout) request in
        ((channel.is_shut_down ≡ true) × (sent ≡ failed client_shut_down ∷ []))
        ⊎ ((channel.is_shut_down ≡ false)
            × (sent
                ≡ outcome_of
                    (λ r. r)
                    status_failure
                    (sum_of (added accumulator) empty (taken_chunks empty st.opens st.chunks))
                    st.ending
                  ∷ []))
  unfolding send_async_stream_request
  send_async_stream_request-settled channel now_ms node request timeout empty =
      let st = node (call_deadline channel.default_timeout now_ms timeout) request in
      let e = run_queue-settled empty st.opens st.ending st.chunks in
      elim (Bool-cases channel.is_shut_down) [
        | inl closed ↦ inl (
          closed,
          ap
              (λ b.
                if b
                then failed client_shut_down ∷ []
                else (run_queue (stream_proceed accumulator) st.opens st.ending
                    (length st.chunks + 3) st.chunks (new_stream_call empty)).promise)
              closed,
        )
        | inr open_yet ↦ inr (
          open_yet,
          ap
                (λ b.
                  if b
                  then failed client_shut_down ∷ []
                  else (run_queue (stream_proceed accumulator) st.opens st.ending
                      (length st.chunks + 3) st.chunks (new_stream_call empty)).promise)
                open_yet
              ∙ e,
        )
      ]

-- ===== src/Rpc/Streams.antt =====
-- common/include/utils.hxx, `StreamCallData`: the runs of a stream, as gRPC can complete them.
pub mod Promise
pub mod Queue
pub mod Calls
use hurricache_cpp_client.Prelude.{
  length, ◌+◌, ℕ, suc, zero, ◌+◌, ◌≤◌, ◌≡◌, refl, sym, ap, subst, inl, inr, ◌∙◌, ◌≢◌, Bool, true,
  false, List, [], ◌∷◌, ◌++◌, Option, none, some, arith, if◌then◌else◌, length, Bool-cases,
}
use hurricache_cpp_client.Prelude.Int.{ℤ}
use hurricache_cpp_client.Rpc.{
  Channel, client_shut_down, call_deadline, stream_proceed, Accumulator, new_stream_call, Failure,
  Outcome, value, failed, Ending, is_ok, status_failure, State, started, reading, finishing,
  Pending, start_call, read, finish, deleted, StreamCall, new_stream_call, to_finish, set_promise,
  Accumulator, accumulator_threw, accumulate, absorb_chunk, stream_proceed,
}

module _ {Chunk Sum Result : Type 0} where
  -- The runs of a call under gRPC, with the chunks that were read and what `Finish` reported: gRPC
  -- completes the operation that is pending, and nothing else.
  pub data StreamRun (proceed : Bool → StreamCall Chunk Sum Result → StreamCall Chunk Sum Result)
      (c : StreamCall Chunk Sum Result)
      : List Chunk → Option Ending → StreamCall Chunk Sum Result → Type 0 where
    here : StreamRun proceed c [] none c
    opened :
        {xs : List Chunk} {e : Option Ending} {d : StreamCall Chunk Sum Result}
        → (completed : Bool) → StreamRun proceed c xs e d
        → d.pending ≡ start_call
        → StreamRun proceed c xs e (proceed completed d)
    chunk_read :
        {xs : List Chunk} {e : Option Ending} {d : StreamCall Chunk Sum Result}
        → (x : Chunk) → StreamRun proceed c xs e d
        → d.pending ≡ read
        → StreamRun proceed c
            (xs ++ (x ∷ []))
            e
            (proceed true (record d { current_chunk = some x }))
    stream_ended :
        {xs : List Chunk} {e : Option Ending} {d : StreamCall Chunk Sum Result}
        → StreamRun proceed c xs e d
        → d.pending ≡ read
        → StreamRun proceed c xs e (proceed false d)
    finished :
        {xs : List Chunk} {e : Option Ending} {d : StreamCall Chunk Sum Result}
        → (s : Ending) → StreamRun proceed c xs e d
        → d.pending ≡ finish
        → StreamRun proceed c xs (some s) (proceed true (record d { ending = s }))

  -- One turn of the completion queue, on a stream with these chunks to come.
  unfoldable pub turn :
      (Bool → StreamCall Chunk Sum Result → StreamCall Chunk Sum Result)
      → Bool
      → Ending
      → (List Chunk → StreamCall Chunk Sum Result → StreamCall Chunk Sum Result)
      → Pending
      → List Chunk
      → StreamCall Chunk Sum Result
      → StreamCall Chunk Sum Result
  turn proceed opens s next start_call xs c = next xs (proceed opens c)
  turn proceed opens s next read [] c = next [] (proceed false c)
  turn proceed opens s next read (x ∷ xs) c =
      next xs (proceed true (record c { current_chunk = some x }))
  turn proceed opens s next finish xs c = next xs (proceed true (record c { ending = s }))
  turn proceed opens s next deleted xs c = c

  -- `RunCompletionQueue` as far as one call goes: so many turns.
  unfoldable pub run_queue :
      (Bool → StreamCall Chunk Sum Result → StreamCall Chunk Sum Result)
      → Bool
      → Ending
      → ℕ
      → List Chunk
      → StreamCall Chunk Sum Result
      → StreamCall Chunk Sum Result
  unfolding turn
  run_queue proceed opens s zero xs c = c
  run_queue proceed opens s (suc n) xs c =
      turn proceed opens s (run_queue proceed opens s n) c.pending xs c

-- What a node streams: whether the stream opens, its chunks, and how it ends.
pub record Stream (Chunk : Type 0) : Type 0 where
  pub opens : Bool
  pub chunks : List Chunk
  pub ending : Ending

abbrev pub StreamNode : Type 0 → Type 0 → Type 0
StreamNode Request Chunk = Option ℕ → Request → Stream Chunk

-- `SendAsyncStreamRequest`: the promise when the completion queue is through with the call.
unfoldable pub send_async_stream_request :
    {Request Chunk Result : Type 0}
    → Channel
    → ℕ
    → StreamNode Request Chunk
    → Request
    → ℤ
    → Option (Accumulator Chunk Result)
    → Result
    → List (Outcome Result)
unfolding run_queue stream_proceed call_deadline
send_async_stream_request channel now_ms node request timeout accumulator empty =
    if channel.is_shut_down
    then failed client_shut_down ∷ []
    else let stream = node (call_deadline channel.default_timeout now_ms timeout) request in
      let call =
        run_queue (stream_proceed accumulator) stream.opens stream.ending (length stream.chunks + 3)
          stream.chunks (new_stream_call empty) in
      call.promise

-- A call that starts, adds up chunks with `sum`, stops at a chunk that `throws`, and settles its
-- promise by what `Finish` reports.
pub record IsMachine {Chunk Sum Result : Type 0}
    (proceed : Bool → StreamCall Chunk Sum Result → StreamCall Chunk Sum Result)
    (sum : Sum → Chunk → Sum) (throws : Sum → Chunk → Bool) (result : Sum → Result)
    (failure : Ending → Failure) : Type 0 where
  pub at_start :
      (completed : Bool) (c : StreamCall Chunk Sum Result)
      → c.state ≡ started
      → proceed completed c
        ≡ (if completed then record c { state = reading; pending = read } else to_finish c)
  pub at_chunk :
      (x : Chunk) (c : StreamCall Chunk Sum Result)
      → c.state ≡ reading
      → proceed true (record c { current_chunk = some x }) ≡ (
          if throws c.accumulated_result x
          then to_finish (record c {
            current_chunk = some x;
            accumulated_result = sum c.accumulated_result x;
            ending = accumulator_threw;
          })
          else record c {
            current_chunk = some x;
            accumulated_result = sum c.accumulated_result x;
            pending = read;
          })
  pub at_end : (c : StreamCall Chunk Sum Result) → c.state ≡ reading → proceed false c ≡ to_finish c
  pub at_finish :
      (c : StreamCall Chunk Sum Result)
      → c.state ≡ finishing
      → proceed true c
        ≡ set_promise c (
            if is_ok c.ending
            then value (result c.accumulated_result)
            else failed (failure c.ending))

-- What the chunks add up to, one after the other.
unfoldable pub sum_of : {Chunk Sum : Type 0} → (Sum → Chunk → Sum) → Sum → List Chunk → Sum
sum_of sum s [] = s
sum_of sum s (x ∷ xs) = sum_of sum (sum s x) xs

-- The chunks up to the first one that throws, it included.
unfoldable pub until_throw :
    {Chunk Sum : Type 0}
    → (Sum → Chunk → Sum)
    → (Sum → Chunk → Bool)
    → Sum
    → List Chunk
    → List Chunk
until_throw sum throws s [] = []
until_throw sum throws s (x ∷ xs) =
    let rest = until_throw sum throws (sum s x) xs in if throws s x then x ∷ [] else x ∷ rest

-- What a promise is given for a sum and the report of `Finish`.
abbrev pub outcome_of :
    {Sum Result : Type 0} → (Sum → Result) → (Ending → Failure) → Sum → Ending → Outcome Result
outcome_of result failure s e = if is_ok e then value (result s) else failed (failure e)

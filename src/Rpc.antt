-- ===== src/Rpc.antt =====
-- common/include/utils.hxx: the calls of a node. A promise is the list of what it is given. What
-- gRPC answers is a parameter; it completes an operation by a call of `Proceed`.
pub mod Unary
pub mod Streams
use hurricache_cpp_client.Prelude.{
  ℕ, ◌+◌, Bool, true, false, ◌&&◌, List, [], ◌∷◌, ◌++◌, Option, none, some, ◌==◌, if◌then◌else◌,
}
use hurricache_cpp_client.Prelude.Dict.{Text, text_eq, lookup}
use hurricache_cpp_client.Prelude.Int.{ℤ, is_positive, pos_part}

-- What a future throws: a `GrpcStatusException`, or another exception.
pub data Failure : Type 0 where
  grpc : ℕ → Text → Text → Failure
  other : ℕ → Failure

pub data Outcome (A : Type 0) : Type 0 where
  value : A → Outcome A
  failed : Failure → Outcome A

-- The `runtime_error` of a client that is shut down, and the one of a call with no transformer.
abbrev pub client_shut_down : Failure
client_shut_down = other 3

abbrev pub no_transformer : Failure
no_transformer = other 4

pub record Status : Type 0 where
  pub code : ℕ
  pub message : Text

-- What `Finish` leaves: the status, and the trailing metadata of the context.
pub record Ending : Type 0 where
  pub status : Status
  pub trailers : List (Text × Text)

abbrev pub is_ok : Ending → Bool
is_ok e = e.status.code == 0

-- `x-fastcache-route`.
abbrev pub route_key : Text
route_key =
    b'x' ∷ b'-' ∷ b'f' ∷ b'a' ∷ b's' ∷ b't' ∷ b'c' ∷ b'a' ∷ b'c' ∷ b'h' ∷ b'e' ∷ b'-' ∷ b'r' ∷ b'o'
    ∷ b'u' ∷ b't' ∷ b'e' ∷ []

-- `extractRouteTrailer`: the first trailer under the key.
unfoldable pub extract_route_trailer : List (Text × Text) → Text
extract_route_trailer trailers = elim (lookup route_key trailers) [ none ↦ [] | some t ↦ t ]

-- The `GrpcStatusException` that a call which did not succeed is given.
unfoldable pub status_failure : Ending → Failure
unfolding extract_route_trailer
status_failure e = grpc e.status.code e.status.message (extract_route_trailer e.trailers)

-- What the senders ask of a client.
pub record Channel : Type 0 where
  pub is_shut_down : Bool
  pub default_timeout : ℤ

-- The deadline of a call, from the timeout it is given or else the client's; with neither, none.
unfoldable pub call_deadline : ℤ → ℕ → ℤ → Option ℕ
call_deadline default_timeout now_ms timeout =
    let effective = if is_positive timeout then timeout else default_timeout in
    if is_positive effective then some (now_ms + pos_part effective) else none

pub record Answer (Response : Type 0) : Type 0 where
  pub completed : Bool
  pub ending : Ending
  pub response : Response

-- What gRPC does with a request and a deadline.
abbrev pub Node : Type 0 → Type 0 → Type 0
Node Request Response = Option ℕ → Request → Answer Response

-- `RpcCallData::Proceed` where the result is not the response itself.
unfoldable pub unary_proceed :
    {Response Result : Type 0}
    → Option (Response → Outcome Result)
    → Answer Response
    → Outcome Result
unfolding status_failure
unary_proceed transformer a =
    if a.completed && is_ok a.ending
    then elim transformer [ some f ↦ f a.response | none ↦ failed no_transformer ]
    else failed (status_failure a.ending)

-- `SendAsyncRequest`, at a time on the clock.
unfoldable pub send_async_request :
    {Request Response Result : Type 0}
    → Channel
    → ℕ
    → Node Request Response
    → Request
    → ℤ
    → Option (Response → Outcome Result)
    → Outcome Result
unfolding unary_proceed call_deadline
send_async_request channel now_ms node request timeout transformer =
    if channel.is_shut_down
    then failed client_shut_down
    else unary_proceed transformer
        (node (call_deadline channel.default_timeout now_ms timeout) request)

pub data State : Type 0 where
  started reading finishing : State

-- The operation that gRPC is to complete; `deleted` after `delete this`.
pub data Pending : Type 0 where
  start_call read finish deleted : Pending

-- `StreamCallData`, and `RoutingStreamCallData` of the coordinator's client.
pub record StreamCall (Chunk Sum Result : Type 0) : Type 0 where
  pub state : State
  pub current_chunk : Option Chunk
  pub accumulated_result : Sum
  pub ending : Ending
  pub pending : Pending
  pub promise : List (Outcome Result)

module _ {Chunk Sum Result : Type 0} where
  -- The call as it is after `StartCall`: gRPC's default status is OK.
  abbrev pub new_stream_call : Sum → StreamCall Chunk Sum Result
  new_stream_call empty = record {
    state = started;
    current_chunk = none;
    accumulated_result = empty;
    ending = record { status = record { code = 0; message = [] }; trailers = [] };
    pending = start_call;
    promise = [];
  }

  -- `state = FINISHING; reader->Finish(&status, this)`.
  abbrev pub to_finish : StreamCall Chunk Sum Result → StreamCall Chunk Sum Result
  to_finish c = record c { state = finishing; pending = finish }

  abbrev pub set_promise :
      StreamCall Chunk Sum Result → Outcome Result → StreamCall Chunk Sum Result
  set_promise c r = record c { promise = c.promise ++ (r ∷ []); pending = deleted }

-- `chunk_accumulator`: what it has made of the result, and whether it threw.
abbrev pub Accumulator : Type 0 → Type 0 → Type 0
Accumulator Chunk Result = Result → Chunk → Result × Bool

-- The `status` of the handler.
abbrev pub accumulator_threw : Ending
accumulator_threw = record { status = record { code = 2; message = [] }; trailers = [] }

module _ {Chunk Result : Type 0} where
  -- A call with no accumulator passes over its chunks.
  unfoldable pub accumulate : Option (Accumulator Chunk Result) → Accumulator Chunk Result
  accumulate none sum chunk = (sum, false)
  accumulate (some accumulator) sum chunk = accumulator sum chunk

  -- A chunk that has been read: the `try` and its `catch`.
  unfoldable pub absorb_chunk :
      Option (Accumulator Chunk Result)
      → Chunk
      → StreamCall Chunk Result Result
      → StreamCall Chunk Result Result
  unfolding accumulate
  absorb_chunk accumulator chunk c =
      let (sum, threw) = accumulate accumulator c.accumulated_result chunk in
      if threw
      then to_finish (record c { accumulated_result = sum; ending = accumulator_threw })
      else record c { accumulated_result = sum; pending = read }

  -- `StreamCallData::Proceed`.
  unfoldable pub stream_proceed :
      Option (Accumulator Chunk Result)
      → Bool
      → StreamCall Chunk Result Result
      → StreamCall Chunk Result Result
  unfolding absorb_chunk status_failure
  stream_proceed accumulator completed c = elim c.state [
    | started ↦ if completed then record c { state = reading; pending = read } else to_finish c
    | reading ↦
        if completed
        then elim c.current_chunk [ none ↦ c | some chunk ↦ absorb_chunk accumulator chunk c ]
        else to_finish c
    | finishing ↦
        set_promise c
          (if is_ok c.ending then value c.accumulated_result else failed (status_failure c.ending))
  ]

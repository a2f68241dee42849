-- ===== src/Smart/Coordinator.antt =====
-- smart/src/coordinator_client.cpp: the routes that a coordinator streams. The stub is the target that
-- it was made for; what the coordinator answers on it is a parameter.
pub mod Answers
pub mod Routes
pub mod Refresh
use hurricache_cpp_client.Prelude.{
  ℕ, ◌+◌, ◌%◌, ◌^◌, Bool, true, false, ◌&&◌, List, [], ◌∷◌, ◌++◌, Option, none, some, ◌==◌,
  if◌then◌else◌, length,
}
use hurricache_cpp_client.Prelude.Dict.{Text, text_eq, ◌=?◌}
use hurricache_cpp_client.Prelude.Int.{ℤ, is_positive, pos_part}
use hurricache_cpp_client.Rpc.{
  Failure, grpc, other, Outcome, value, failed, Ending, is_ok, StreamCall, new_stream_call, State,
  started, reading, finishing, read, to_finish, set_promise,
}
use hurricache_cpp_client.Rpc.Streams.{run_queue}
use hurricache_cpp_client.Smart.Routing.{NodeRole, Peer}
use hurricache_cpp_client.Smart.Execute.{RoutingInfo}

-- The messages of proto/coordinator.proto.
pub record PeerRouting : Type 0 where
  pub target : Text
  pub role : NodeRole
  pub partition_ids : List ℕ

pub record RoutingInfoData : Type 0 where
  pub max_shards : ℕ
  pub peer_routing : List PeerRouting

-- The loop over `partitionids()`.
unfoldable pub copy_partitions : List ℕ → List ℕ → List ℕ
copy_partitions written [] = written
copy_partitions written (p ∷ ps) = copy_partitions (written ++ (p ∷ [])) ps

-- The loop over `peerrouting()`.
unfoldable pub push_peers : List Peer → List PeerRouting → List Peer
unfolding copy_partitions
push_peers written [] = written
push_peers written (p ∷ ps) =
    let info : Peer = record {
      target = p.target;
      role = p.role;
      partition_ids = copy_partitions [] p.partition_ids;
    } in
    push_peers (written ++ (info ∷ [])) ps

abbrev pub no_info : RoutingInfo
no_info = record { max_shards = 0; peers = [] }

-- `if (!accumulated_result)`.
abbrev pub info_or_new : Option RoutingInfo → RoutingInfo
info_or_new none = no_info
info_or_new (some info) = info

-- A chunk: the shards of the first one that has any, as 32 bits, and the peers of all.
unfoldable pub add_chunk : Option RoutingInfo → RoutingInfoData → Option RoutingInfo
unfolding push_peers
add_chunk accumulated chunk =
    let info = info_or_new accumulated in
    some (record {
      max_shards = if info.max_shards == 0 then chunk.max_shards % 2 ^ 32 else info.max_shards;
      peers = push_peers info.peers chunk.peer_routing;
    })

-- A `GrpcStatusException` with no trailer.
abbrev pub routing_failure : Ending → Failure
routing_failure e = grpc e.status.code e.status.message []

abbrev pub RoutingCall : Type 0
RoutingCall = StreamCall RoutingInfoData (Option RoutingInfo) RoutingInfo

-- `RoutingStreamCallData::Proceed`.
unfoldable pub routing_proceed : Bool → RoutingCall → RoutingCall
unfolding add_chunk
routing_proceed completed c = elim c.state [
  | started ↦ if completed then record c { state = reading; pending = read } else to_finish c
  | reading ↦
      if completed
      then elim c.current_chunk [
        | none ↦ c
        | some chunk ↦ record c {
          accumulated_result = add_chunk c.accumulated_result chunk;
          pending = read;
        }
      ]
      else to_finish c
  | finishing ↦ set_promise c (
      if is_ok c.ending
      then value (info_or_new c.accumulated_result)
      else failed (routing_failure c.ending))
]

pub record CoordinatorClient : Type 0 where
  pub is_shut_down : Bool
  pub active_target : Text
  pub stub : Option Text

-- The constructor.
abbrev pub new_coordinator_client : CoordinatorClient
new_coordinator_client = record { is_shut_down = false; active_target = []; stub = none }

-- `CoordinatorClient::shutdown`.
unfoldable pub shut_down_coordinator : CoordinatorClient → CoordinatorClient
shut_down_coordinator c =
    if c.is_shut_down then c else record { is_shut_down = true; active_target = []; stub = none }

-- `ensureStub`: the stub, and the client with it.
unfoldable pub ensure_stub : CoordinatorClient → Text → CoordinatorClient × Text
ensure_stub c target = elim c.stub [
  | none ↦ (record c { active_target = target; stub = some target }, target)
  | some stub ↦
      if c.active_target =? target
      then (c, stub)
      else (record c { active_target = target; stub = some target }, target)
]

-- What a coordinator streams: whether the stream opens, its chunks, and how it ends.
pub record RoutingStream : Type 0 where
  pub opens : Bool
  pub chunks : List RoutingInfoData
  pub ending : Ending

abbrev pub Coordinators : Type 0
Coordinators = Text → Option ℕ → RoutingStream

abbrev pub coordinator_shut_down : Failure
coordinator_shut_down = other 5

-- The call on a stub: the promise when the completion queue is through with it.
unfoldable pub stream_routing :
    ℕ → Coordinators → ℤ → CoordinatorClient × Text → CoordinatorClient × List (Outcome RoutingInfo)
unfolding routing_proceed
stream_routing now_ms network timeout (c, stub) =
    let stream =
      network stub (if is_positive timeout then some (now_ms + pos_part timeout) else none) in
    let call =
      run_queue routing_proceed stream.opens stream.ending (length stream.chunks + 3) stream.chunks
        (new_stream_call none) in
    (c, call.promise)

-- `provideGlobalRoutingInfo`.
unfoldable pub provide_global_routing_info :
    CoordinatorClient → ℕ → Coordinators → Text → ℤ → CoordinatorClient × List (Outcome RoutingInfo)
unfolding ensure_stub stream_routing
provide_global_routing_info c now_ms network target timeout =
    if c.is_shut_down
    then (c, failed coordinator_shut_down ∷ [])
    else stream_routing now_ms network timeout (ensure_stub c target)

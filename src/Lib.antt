-- ===== src/Lib.antt =====
-- A model of the C++ client of HurriCache, a distributed cache, and proofs about it.
--
-- The program. common/ has the keys and values (types.hxx), and writes and reads them as protobuf
-- messages with optional compression (utils.cxx, compression.cxx). standalone/ calls one node over
-- gRPC. smart/ routes over a cluster: it asks coordinators for the topology, keeps a table of
-- routes, and gives each call to a node of the key's shard, with retries, redirects and failover.
-- Large containers are cut into chunks of the size of one call.
--
-- Types (with Types.Order) and Proto hold the data of common/include/types.hxx and
-- proto/cache.proto, Proto.Requests its requests and responses. Prelude has shared helpers. Codec has
-- the builders of common/src/utils.cxx, Codec.Parse the readers, Codec.Compression the decompression of
-- a Cord and Codec.Requests the requests for containers; Env names what they take from outside: libdeflate, the two hashes, serialized sizes and
-- the clock. Hashes is common/src/hashes.cxx, over the CRC instructions of the processor. Rpc is the
-- single call of common/include/utils.hxx and Rpc.Streams the streamed one: a state machine that gRPC
-- drives by the completions of its operations. Standalone is standalone/src/standalone_client.cpp: each
-- method builds its request and sends it to a node, which is a record of functions.
--
-- Smart.Routing is smart/src/routing_table.cpp: the table is a record, its maps are association lists,
-- and a client is an object with a number. Smart.Coordinator is smart/src/coordinator_client.cpp: the
-- stream of a coordinator, and the refresh of the routes from it. The other modules of Smart are parts
-- of smart/src/smart_client.cpp: Copies (the deep copies), Chunks (the estimates and splitters), Guard
-- (attemptWithGuard), Execute (the settings, refreshRouting and execute), Requests (the methods of one
-- call), Insert (the chunked inserts) and Create (the creation of containers). A function keeps the
-- name of its method, as in update_from_coordinator for updateFromCoordinator. Tests has data and runs.
--
-- How it is modelled. Code that can meet undefined behaviour returns a Run, which has the faults as
-- values; a null pointer is `none`, a C++ exception an Outcome. Integers are numbers with their
-- wrap-around written out. attemptWithGuard recurses without a bound, so it is on fuel,
-- one unit for each call of a node: one for the client, one for its fallback, and one more for each
-- redirect. A completion queue runs for three turns more than a stream has chunks: one to open it, one
-- to see its end, one to finish it. The loops over lists need no fuel. What nodes and coordinators
-- answer, and what other threads do to the table during a call, are parameters.
--
-- Not modelled: the threads and the waits, the constructors from a host and a port, the set-up of
-- channels, the zlib functions that the code does not select, moves, and printing. Tests, build files
-- and generated code are left out.
pub mod Prelude
pub mod Types
pub mod Proto
pub mod Env
pub mod Codec
pub mod Rpc
pub mod Hashes
pub mod Standalone
pub mod Smart
pub mod Tests

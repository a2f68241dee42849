-- ===== src/Smart.antt =====
-- smart/: the client that routes over the nodes of a cluster.
pub mod Chunks
pub mod Routing
pub mod Guard
pub mod Execute
pub mod Coordinator
pub mod Copies
pub mod Insert
pub mod Requests
pub mod Create

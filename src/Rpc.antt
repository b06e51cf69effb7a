-- ===== src/Rpc.antt =====
-- net/crpc: the RPC transport. `Serve` is the accept loop of server.go, `Client` the calls of client.go, `Server` the methods of server.go.
pub mod Wire
pub mod Serve
pub mod Client
pub mod Server
pub mod Addr
pub mod EndToEnd
mod Tests

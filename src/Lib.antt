-- ===== src/Lib.antt =====
-- A model of juren-cluster, a cluster of nodes that store blocks and keep each other's indexes of
-- them in step, and proofs that its parts do what they are for.
--
-- The parts, from the bottom up:
--   oid/oid.go names blocks and nodes by identifiers: Oid (`Encode`, `FromString`, `UnmarshalBinary`
--     and the others), with Go's Base32 decoder in Oid/Base32. The values of JSON, of which
--     an identifier is a string, are Json.
--   datamodel/block/block.go and datamodel/node/node.go are the metadata: DataModel.
--   datastore/leveldb keeps the metadata of blocks (blockindex.go: BlockIndex) and of nodes
--     (nodeindex.go: NodeIndex) in a goleveldb store, under the keys of leveldb.go (LevelDb/Keys).
--     The store and the cbor encoder are other people's code: the record `Storage` of LevelDb has
--     their operations, and `StorageLaws` what the indexes rely on; LevelDb/Memory is an instance.
--     A block index is specified by a journal (BlockIndex/Journal), a list of rows that are
--     numbered by their place; `Represents` says which journal a state stands for.
--   datastore/flatfs/flatfs.go keeps the blocks in files: FlatFs, over a tree of files in
--     FlatFs/Files that has the calls of Go's `os` package that the code makes.
--   net/crpc is the RPC transport. client.go is Rpc/Client: the calls of a connection as steps, and
--     the loop over its input. server.go is Rpc/Serve (the accept loop), Rpc/Server (`Register` and
--     `serveConn`) and Rpc/Addr (`Addr`); Rpc/EndToEnd puts the client and the server together.
--   net/mpubsub/pubsub.go sends messages to a multicast group: PubSub (`Register`, `Publish`, `Listen`).
--     What it shares with the RPC server, methods found by reflection and by name, is Services.
--   helper/timer/timer.go runs a function periodically: Timer.
--   config/config.go is the configuration: Config, with its JSON in Config/Json and its
--     file in Config/File. commands/init.go and commands/info.go, which use it and the indexes,
--     are Commands.
--   swarm/protocol/protocol.go and swarm/client/client.go are the messages and the calls: Protocol.
--   swarm/node/blockavailability.go records which nodes have which blocks: Tracker.
--   swarm/node is the node: Node has its state, Node/Server the methods that peers call
--     (server.go), Node/Sync the sync with a peer (`syncBlockIndexAndUpdateMetadata` of node.go),
--     and Node/Handlers the rest of node.go and pubsub.go. Node/Handlers/Discovers is about
--     `DiscoverBlock` while announcements come in. Node/Methods has the methods of server.go and
--     pubsub.go as `New` registers them, called through Rpc and PubSub, and Node/Heartbeat the
--     announcements that `Run` makes by Timer.
--
-- State is passed explicitly: an operation of Go that changes its receiver returns the new state
-- beside its result. `Result` of Outcome has Go's errors, and its panics. Methods that hold a mutex
-- for their whole body are one step each.
--
-- Bounds: sequence numbers are uint64, and their wrap-around is written out. The loop of the sync
-- runs on fuel, one unit per call of the peer; a run that uses it up is `stuck`, which is no result
-- of the program. A batch has a hundred rows, so one unit per hundred rows and one more is enough
-- for a peer that runs this program, and one unit per number and one more for any peer that answers
-- only with rows past those it was asked after. The other loops run over lists: the events that a
-- listener or a ticker meets, or what can be read from a connection.
--
-- Not modelled: the sockets, whose events are arguments; Go's reflection, for which a receiver is
-- a list of methods with their types; the mutex and the channels of a call of the RPC client, whose
-- steps may come in any order; the error group of `Run`; main.go, which parses flags and connects
-- the components; closing a goleveldb database; the types of datamodel/object and
-- datamodel/keyvalue, which no code uses. A handler of the node is what its goroutine does.
pub mod Prelude
pub mod Outcome
pub mod Oid
pub mod DataModel
pub mod LevelDb
pub mod BlockIndex
pub mod NodeIndex
pub mod FlatFs
pub mod Services
pub mod PubSub
pub mod Timer
pub mod Config
pub mod Json
pub mod Commands
pub mod Rpc
pub mod Protocol
pub mod Tracker
pub mod Node
pub mod Examples

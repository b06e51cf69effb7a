-- ===== src/Node.antt =====
-- swarm/node/node.go: the state of a node. The children: `Server` is server.go, `Sync` the sync
-- with a peer, `Handlers` pubsub.go and the rest of node.go; the others prove what they do.
pub mod Server
pub mod Sync
pub mod Handlers
pub mod Methods
pub mod Heartbeat
mod Tests
use juren_cluster.Prelude.{ℕ, List, Bytes}
use juren_cluster.Oid.{Oid}
use juren_cluster.LevelDb.{Storage}
use juren_cluster.BlockIndex.{BlockIndex}
use juren_cluster.NodeIndex.{NodeIndex}
use juren_cluster.Tracker.{Tracker}

abbrev pub block_index_sync_batch_size : ℕ
block_index_sync_batch_size = 100

-- The fields of `Node` that its methods read and write.
pub record Node (S : Storage) : Type 0 where
  pub node_id : Oid
  pub addresses : List Bytes
  pub block_index : BlockIndex S
  pub node_index : NodeIndex S
  pub who_has_block : Tracker

-- ===== src/Node/Server.antt =====
-- swarm/node/server.go: the RPC methods of a node. The reply is the result of the method.
use juren_cluster.Prelude.{◌+◌, ◌%◌, ◌^◌, Option, none, some, map}
use juren_cluster.Outcome.{Result, ok, err, panic, ◌>>=◌, unsupported, nil_dereference}
use juren_cluster.DataModel.{Block}
use juren_cluster.LevelDb.{Storage}
use juren_cluster.BlockIndex
use juren_cluster.Protocol.{
  PeerSyncRequest, PeerSyncResponse, BlockGetRequest, BlockGetResponse, BlockPutRequest,
  BlockPutResponse,
}
use juren_cluster.Node.{Node}

module _ (S : Storage) where
  unfoldable pub serve_peer_sync : Node S → PeerSyncRequest → Result PeerSyncResponse
  serve_peer_sync n req = do
    blocks ←
        BlockIndex.enumerate_by_seq S n.block_index req.sequence_number
          ((req.sequence_number + req.batch_size) % 2 ^ 64)
    ok (record { node_id = n.node_id; entries = map some blocks })

  pub serve_block_get : Node S → BlockGetRequest → Result BlockGetResponse
  serve_block_get n req = err unsupported

  -- The log line reads the identifier of the block.
  logged_block : Option Block → Result BlockPutResponse
  logged_block none = panic nil_dereference
  logged_block (some b) = err unsupported

  pub serve_block_put : Node S → BlockPutRequest → Result BlockPutResponse
  unfolding logged_block
  serve_block_put n req = logged_block req.block

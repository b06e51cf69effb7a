-- ===== src/NodeIndex/Tests.antt =====
-- datastore/leveldb/nodeindex.go on an index with no nodes.
use juren_cluster.Prelude.{◌≡◌}
use juren_cluster.Outcome.{ok}
use juren_cluster.LevelDb.Memory.{memory, memory_laws, memory_reliable}
use juren_cluster.NodeIndex.{get, put}
use juren_cluster.NodeIndex.Laws.{stored_node_metadata, get-put, put-ok}
use juren_cluster.Examples.{node_a, node_a-IsOid, node_metadata_a, no_nodes}

get-put_example :
    get memory (put memory no_nodes node_metadata_a).0 node_a
    ≡ ok (stored_node_metadata memory memory_laws node_metadata_a)
get-put_example =
    get-put memory memory_laws no_nodes node_metadata_a node_metadata_a node_a-IsOid
      (put-ok memory memory_laws no_nodes node_metadata_a memory_reliable)

-- ===== src/Config.antt =====
-- config/config.go: the configuration of the program and its defaults.
pub mod Json
pub mod File
mod Tests
use juren_cluster.Prelude.{ℕ, Option, none, some, List, [], ◌∷◌, Bytes}
use juren_cluster.Outcome.{Result, ok}
use juren_cluster.Oid.{Oid}

pub record Network : Type 0 where
  pub rpc_listen_address : Bytes
  pub rpc_advertized_address : Bytes
  pub pub_sub_multicast_address : Bytes
  pub node_adversize_interval : ℕ
  pub node_timeout : ℕ

pub record DataStore : Type 0 where
  pub block_store_path : Bytes
  pub block_index_path : Bytes
  pub node_index_path : Bytes

-- The identifier is a pointer, and `none` is nil.
pub record Config : Type 0 where
  pub config_file : Bytes
  pub node_id : Option Oid
  pub network : Network
  pub datastore : DataStore

-- "0.0.0.0:6001"
abbrev any_address : Bytes
any_address = 48 ∷ 46 ∷ 48 ∷ 46 ∷ 48 ∷ 46 ∷ 48 ∷ 58 ∷ 54 ∷ 48 ∷ 48 ∷ 49 ∷ []

-- "224.0.0.1:5000"
abbrev multicast_address : Bytes
multicast_address = 50 ∷ 50 ∷ 52 ∷ 46 ∷ 48 ∷ 46 ∷ 48 ∷ 46 ∷ 49 ∷ 58 ∷ 53 ∷ 48 ∷ 48 ∷ 48 ∷ []

-- "/tmp/juren-cluster/blocks"
abbrev blocks_path : Bytes
blocks_path =
    47 ∷ 116 ∷ 109 ∷ 112 ∷ 47 ∷ 106 ∷ 117 ∷ 114 ∷ 101 ∷ 110 ∷ 45 ∷ 99 ∷ 108 ∷ 117 ∷ 115 ∷ 116 ∷ 101
    ∷ 114 ∷ 47 ∷ 98 ∷ 108 ∷ 111 ∷ 99 ∷ 107 ∷ 115 ∷ []

-- "/tmp/juren-cluster/metadata"
abbrev metadata_path : Bytes
metadata_path =
    47 ∷ 116 ∷ 109 ∷ 112 ∷ 47 ∷ 106 ∷ 117 ∷ 114 ∷ 101 ∷ 110 ∷ 45 ∷ 99 ∷ 108 ∷ 117 ∷ 115 ∷ 116 ∷ 101
    ∷ 114 ∷ 47 ∷ 109 ∷ 101 ∷ 116 ∷ 97 ∷ 100 ∷ 97 ∷ 116 ∷ 97 ∷ []

-- "/tmp/juren-cluster/peers"
abbrev peers_path : Bytes
peers_path =
    47 ∷ 116 ∷ 109 ∷ 112 ∷ 47 ∷ 106 ∷ 117 ∷ 114 ∷ 101 ∷ 110 ∷ 45 ∷ 99 ∷ 108 ∷ 117 ∷ 115 ∷ 116 ∷ 101
    ∷ 114 ∷ 47 ∷ 112 ∷ 101 ∷ 101 ∷ 114 ∷ 115 ∷ []

-- The argument is what `oid.Random` gives; the process ends where that is an error.
unfoldable pub new_empty_config : Bytes → Result Oid → Option Config
new_empty_config config_file (ok id) = some (record {
  config_file = config_file;
  node_id = some id;
  network = record {
    rpc_listen_address = any_address;
    rpc_advertized_address = [];
    pub_sub_multicast_address = multicast_address;
    node_adversize_interval = 5000000000;
    node_timeout = 0;
  };
  datastore = record {
    block_store_path = blocks_path;
    block_index_path = metadata_path;
    node_index_path = peers_path;
  };
})
new_empty_config config_file _ = none

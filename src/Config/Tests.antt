-- ===== src/Config/Tests.antt =====
-- config/config.go with one file.
use juren_cluster.Prelude.{◌≡◌, refl, arith, some, [], ◌∷◌}
use juren_cluster.Outcome.{ok}
use juren_cluster.Config.{Config}
use juren_cluster.Config.File.{Host, save, new_config_from_file}
use juren_cluster.Json.{Json, null}
use juren_cluster.Config.File.SavesLoads.{HostLaws, new_config_from_file-save}
use juren_cluster.Config.Json.RoundTrip.{IsSavable}
use juren_cluster.Examples.{node_a, node_a-IsOid, node_b}

-- A host with one file, which holds a value of JSON as it is.
abbrev one_file : Host
one_file = record {
  Files = Json;
  Text = Json;
  read_file = λ file path. ok file;
  write_file = λ file path content. (content, ok tt);
  print = λ json. json;
  parse = ok;
}

one_file-HostLaws : HostLaws one_file
one_file-HostLaws = record { read-write = λ files path content e. refl; parse-print = λ json. refl }

abbrev saved_config : Config
saved_config = record {
  config_file = 99 ∷ [];
  node_id = some node_a;
  network = record {
    rpc_listen_address = 49 ∷ [];
    rpc_advertized_address = 50 ∷ [];
    pub_sub_multicast_address = 51 ∷ [];
    node_adversize_interval = 7;
    node_timeout = 8;
  };
  datastore = record {
    block_store_path = 52 ∷ [];
    block_index_path = 53 ∷ [];
    node_index_path = [];
  };
}

saved_config-IsSavable : IsSavable saved_config
saved_config-IsSavable = record {
  id = node_a;
  has_id = refl;
  is_oid = node_a-IsOid;
  interval_fits = omega arith;
  timeout_fits = omega arith;
}

saved_ok : (save one_file saved_config null).1 ≡ ok tt
unfolding save
saved_ok = refl

new_config_from_file-save_example :
    new_config_from_file one_file saved_config.config_file
      (ok node_b)
      (save one_file saved_config null).0
    ≡ some (ok saved_config)
new_config_from_file-save_example =
    new_config_from_file-save one_file one_file-HostLaws saved_config null node_b
      saved_config-IsSavable saved_ok

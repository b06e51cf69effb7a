-- ===== src/Config/File.antt =====
-- The file of a configuration (config/config.go): Save, Load and NewConfigFromFile.
pub mod SavesLoads
use juren_cluster.Prelude.{Option, none, some, Bytes}
use juren_cluster.Outcome.{Result, ok, err, panic, stuck, ◌>>=◌}
use juren_cluster.Oid.{Oid}
use juren_cluster.Config.{Config, new_empty_config}
use juren_cluster.Config.Json.{to_json, of_json}
use juren_cluster.Json.{Json}

-- What the code calls of os, and the text of JSON.
pub record Host : Type 1 where
  pub Files : Type 0
  -- what a file holds
  pub Text : Type 0
  pub read_file : Files → Bytes → Result Text
  pub write_file : Files → Bytes → Text → Files × Result (Unit {0})
  pub print : Json → Text
  pub parse : Text → Result Json

module _ (h : Host) where
  unfoldable pub save : Config → h.Files → h.Files × Result (Unit {0})
  save c files = h.write_file files c.config_file (h.print (to_json c))

  unmarshalled : Config → Result Json → Config × Result (Unit {0})
  unmarshalled c (ok json) = of_json c json
  unmarshalled c (err e) = (c, err e)
  unmarshalled c (panic p) = (c, panic p)
  unmarshalled c stuck = (c, stuck)

  pub load : Config → h.Files → Config × Result (Unit {0})
  unfolding unmarshalled
  load c files = unmarshalled c (h.read_file files c.config_file >>= h.parse)

  loaded : Config × Result (Unit {0}) → Result Config
  loaded (c, r) = r >>= λ u. ok c

  opened : Option Config → h.Files → Option (Result Config)
  unfolding load loaded
  opened none files = none
  opened (some c) files = some (loaded (load c files))

  pub new_config_from_file : Bytes → Result Oid → h.Files → Option (Result Config)
  unfolding new_empty_config opened
  new_config_from_file config_file id files = opened (new_empty_config config_file id) files

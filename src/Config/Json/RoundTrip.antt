-- ===== src/Config/Json/RoundTrip.antt =====
-- What the JSON of a configuration (config/config.go) decodes to.
use juren_cluster.Prelude.{◌<◌, ◌^◌, ◌≡◌, Option, none, some, bytes_eq, lt→ltb}
use juren_cluster.Outcome.{ok}
use juren_cluster.Oid.{Oid}
use juren_cluster.Oid.RoundTrip.{IsOid, unmarshal_json-marshal_json}
use juren_cluster.Config.{Config, Network}
use juren_cluster.Config.Json.{
  to_json, of_json, of_id, of_node_id, of_network, set_to, set_object, set_config, set_node,
  set_network, set_fields, then_fields, set_id, set_text, set_number, is_key, lower, failure,
  decoded_id, or_zero,
}

-- An identifier, and durations of an int64.
pub record IsSavable (c : Config) : Type 0 where
  pub id : Oid
  pub has_id : c.node_id ≡ some id
  pub is_oid : IsOid id
  pub interval_fits : c.network.node_adversize_interval < 2 ^ 63
  pub timeout_fits : c.network.node_timeout < 2 ^ 63

set_id-of_id :
    (old : Option Oid) (id : Oid)
    → IsOid id
    → set_id old (of_id (some id)) ≡ record { value = some id; saved = none; stopped = none }
unfolding set_id decoded_id
set_id-of_id old id h = rw (unmarshal_json-marshal_json (or_zero old) id h)

set_fields-of_node_id :
    (old : Option Oid) (id : Oid)
    → IsOid id
    → set_fields set_node old (of_node_id (some id)) ≡ set_to (some id)
unfolding set_fields then_fields set_node is_key lower bytes_eq
set_fields-of_node_id old id h = rw (set_id-of_id old id h)

set_fields-of_network :
    (old n : Network)
    → n.node_adversize_interval < 2 ^ 63
    → n.node_timeout < 2 ^ 63
    → set_fields set_network old (of_network n) ≡ set_to n
unfolding set_fields then_fields set_network is_key lower bytes_eq set_text set_number
set_fields-of_network old n a b =
    rw (lt→ltb n.node_adversize_interval (2 ^ 63) a, lt→ltb n.node_timeout (2 ^ 63) b)

pub of_json-to_json :
    (c c' : Config)
    → IsSavable c
    → of_json c' (to_json c) ≡ (record c { config_file = c'.config_file }, ok tt)
unfolding of_json to_json set_object set_config set_fields then_fields is_key lower bytes_eq failure
of_json-to_json c c' s = rw (
  s.has_id,
  set_fields-of_node_id c'.node_id s.id s.is_oid,
  set_fields-of_network c'.network c.network s.interval_fits s.timeout_fits,
)

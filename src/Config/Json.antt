-- ===== src/Config/Json.antt =====
-- The JSON of a configuration (config/config.go), as a value.
pub mod RoundTrip
use juren_cluster.Prelude.{
  ℕ, ◌+◌, Bool, ◌&&◌, Option, none, some, [], ◌∷◌, Bytes, bytes_eq, leb, ltb, ◌^◌, map,
  if◌then◌else◌, or_else,
}
use juren_cluster.Outcome.{Result, ok, err, Error, decode_error}
use juren_cluster.Json.{Json, null, text, number, object, Fields, end, field}
use juren_cluster.Oid.{Oid, zero_oid, marshal_json, unmarshal_json}
use juren_cluster.Config.{Network, DataStore, Config}

-- The tags of the fields.
-- "node"
abbrev node_key : Bytes
node_key = 110 ∷ 111 ∷ 100 ∷ 101 ∷ []

-- "nodeID"
abbrev node_id_key : Bytes
node_id_key = 110 ∷ 111 ∷ 100 ∷ 101 ∷ 73 ∷ 68 ∷ []

-- "network"
abbrev network_key : Bytes
network_key = 110 ∷ 101 ∷ 116 ∷ 119 ∷ 111 ∷ 114 ∷ 107 ∷ []

-- "rpcListenAddress"
abbrev rpc_listen_address_key : Bytes
rpc_listen_address_key =
    114 ∷ 112 ∷ 99 ∷ 76 ∷ 105 ∷ 115 ∷ 116 ∷ 101 ∷ 110 ∷ 65 ∷ 100 ∷ 100 ∷ 114 ∷ 101 ∷ 115 ∷ 115 ∷ []

-- "rpcAdvertizedAddress"
abbrev rpc_advertized_address_key : Bytes
rpc_advertized_address_key =
    114 ∷ 112 ∷ 99 ∷ 65 ∷ 100 ∷ 118 ∷ 101 ∷ 114 ∷ 116 ∷ 105 ∷ 122 ∷ 101 ∷ 100 ∷ 65 ∷ 100 ∷ 100 ∷ 114
    ∷ 101 ∷ 115 ∷ 115 ∷ []

-- "pubSubMulticastAddress"
abbrev pub_sub_multicast_address_key : Bytes
pub_sub_multicast_address_key =
    112 ∷ 117 ∷ 98 ∷ 83 ∷ 117 ∷ 98 ∷ 77 ∷ 117 ∷ 108 ∷ 116 ∷ 105 ∷ 99 ∷ 97 ∷ 115 ∷ 116 ∷ 65 ∷ 100
    ∷ 100 ∷ 114 ∷ 101 ∷ 115 ∷ 115 ∷ []

-- "nodeAdversizeInterval"
abbrev node_adversize_interval_key : Bytes
node_adversize_interval_key =
    110 ∷ 111 ∷ 100 ∷ 101 ∷ 65 ∷ 100 ∷ 118 ∷ 101 ∷ 114 ∷ 115 ∷ 105 ∷ 122 ∷ 101 ∷ 73 ∷ 110 ∷ 116
    ∷ 101 ∷ 114 ∷ 118 ∷ 97 ∷ 108 ∷ []

-- "nodeTimeout"
abbrev node_timeout_key : Bytes
node_timeout_key = 110 ∷ 111 ∷ 100 ∷ 101 ∷ 84 ∷ 105 ∷ 109 ∷ 101 ∷ 111 ∷ 117 ∷ 116 ∷ []

-- "datastore"
abbrev datastore_key : Bytes
datastore_key = 100 ∷ 97 ∷ 116 ∷ 97 ∷ 115 ∷ 116 ∷ 111 ∷ 114 ∷ 101 ∷ []

-- "metadata"
abbrev metadata_key : Bytes
metadata_key = 109 ∷ 101 ∷ 116 ∷ 97 ∷ 100 ∷ 97 ∷ 116 ∷ 97 ∷ []

-- "blocks"
abbrev blocks_key : Bytes
blocks_key = 98 ∷ 108 ∷ 111 ∷ 99 ∷ 107 ∷ 115 ∷ []

-- "peers"
abbrev peers_key : Bytes
peers_key = 112 ∷ 101 ∷ 101 ∷ 114 ∷ 115 ∷ []

abbrev pub of_network : Network → Fields
of_network n = field rpc_listen_address_key (text n.rpc_listen_address) (
    field rpc_advertized_address_key (text n.rpc_advertized_address) (
      field pub_sub_multicast_address_key (text n.pub_sub_multicast_address) (
        field node_adversize_interval_key (number n.node_adversize_interval)
          (field node_timeout_key (number n.node_timeout) end))))

abbrev pub of_datastore : DataStore → Fields
of_datastore d =
    field metadata_key (text d.block_store_path)
      (field blocks_key (text d.block_index_path) (field peers_key (text d.node_index_path) end))

abbrev pub of_id : Option Oid → Json
of_id none = null
of_id (some id) = marshal_json id

abbrev pub of_node_id : Option Oid → Fields
of_node_id id = field node_id_key (of_id id) end

-- `json.MarshalIndent` of a configuration, as a value.
pub to_json : Config → Json
to_json c = object (
    field node_key (object (of_node_id c.node_id)) (
      field network_key (object (of_network c.network))
        (field datastore_key (object (of_datastore c.datastore)) end)))

-- What `json.Unmarshal` has so far: the value, the first mismatch of a type, which is kept for the
-- end, and the error of an `UnmarshalJSON`, which ends it at once.
pub record Decoding (A : Type 0) : Type 0 where
  pub value : A
  pub saved : Option Error
  pub stopped : Option Error

abbrev pub set_to : {A : Type 0} → A → Decoding A
set_to a = record { value = a; saved = none; stopped = none }

abbrev mismatch : {A : Type 0} → A → Decoding A
mismatch a = record { value = a; saved = some decode_error; stopped = none }

set_text : Bytes → Json → Decoding Bytes
set_text old null = set_to old
set_text old (text t) = set_to t
set_text old _ = mismatch old

set_number : ℕ → Json → Decoding ℕ
set_number old null = set_to old
set_number old (number n) = if ltb n (2 ^ 63) then set_to n else mismatch old
set_number old _ = mismatch old

decoded_id : Oid × Result (Unit {0}) → Decoding (Option Oid)
decoded_id (id, ok u) = set_to (some id)
decoded_id (id, err e) = record { value = some id; saved = none; stopped = some e }
decoded_id (id, _) = record { value = some id; saved = none; stopped = some decode_error }

or_zero : Option Oid → Oid
or_zero none = zero_oid
or_zero (some id) = id

set_id : Option Oid → Json → Decoding (Option Oid)
unfolding decoded_id or_zero
set_id old null = set_to none
set_id old json = decoded_id (unmarshal_json (or_zero old) json)

-- Names of fields match but for the case of letters.
lower : ℕ → ℕ
lower c = if leb 65 c && leb c 90 then c + 32 else c

is_key : Bytes → Bytes → Bool
unfolding lower
is_key key name = bytes_eq (map lower key) (map lower name)

abbrev onto : {A B : Type 0} → (A → B) → Decoding A → Decoding B
onto f d = record { value = f d.value; saved = d.saved; stopped = d.stopped }

set_network : Network → Bytes → Json → Decoding Network
unfolding is_key set_text set_number
set_network n name json =
    if is_key rpc_listen_address_key name
    then onto (λ t. record n { rpc_listen_address = t }) (set_text n.rpc_listen_address json)
    else if is_key rpc_advertized_address_key name
    then onto (λ t. record n { rpc_advertized_address = t })
        (set_text n.rpc_advertized_address json)
    else if is_key pub_sub_multicast_address_key name
    then onto (λ t. record n { pub_sub_multicast_address = t })
        (set_text n.pub_sub_multicast_address json)
    else if is_key node_adversize_interval_key name
    then onto (λ k. record n { node_adversize_interval = k })
        (set_number n.node_adversize_interval json)
    else if is_key node_timeout_key name
    then onto (λ k. record n { node_timeout = k }) (set_number n.node_timeout json)
    else set_to n

set_datastore : DataStore → Bytes → Json → Decoding DataStore
unfolding is_key set_text
set_datastore d name json =
    if is_key metadata_key name
    then onto (λ t. record d { block_store_path = t }) (set_text d.block_store_path json)
    else if is_key blocks_key name
    then onto (λ t. record d { block_index_path = t }) (set_text d.block_index_path json)
    else if is_key peers_key name
    then onto (λ t. record d { node_index_path = t }) (set_text d.node_index_path json)
    else set_to d

set_node : Option Oid → Bytes → Json → Decoding (Option Oid)
unfolding is_key set_id
set_node id name json = if is_key node_id_key name then set_id id json else set_to id

-- After a field; `rest` goes on, unless the field stopped it.
then_fields : {A : Type 0} → Decoding A → (A → Decoding A) → Decoding A
then_fields d rest =
    let more = rest d.value in
    elim d.stopped [
      | some e ↦ d
      | none ↦ record {
        value = more.value;
        saved = or_else d.saved more.saved;
        stopped = more.stopped;
      }
    ]

set_fields : {A : Type 0} → (A → Bytes → Json → Decoding A) → A → Fields → Decoding A
unfolding then_fields
set_fields set a end = set_to a
set_fields set a (field name json fields) =
    then_fields (set a name json) (λ a'. set_fields set a' fields)

set_object : {A : Type 0} → (A → Bytes → Json → Decoding A) → A → Json → Decoding A
unfolding set_fields
set_object set a null = set_to a
set_object set a (object fields) = set_fields set a fields
set_object set a _ = mismatch a

set_config : Config → Bytes → Json → Decoding Config
unfolding is_key set_object set_node set_network set_datastore
set_config c name json =
    if is_key node_key name
    then onto (λ id. record c { node_id = id }) (set_object set_node c.node_id json)
    else if is_key network_key name
    then onto (λ n. record c { network = n }) (set_object set_network c.network json)
    else if is_key datastore_key name
    then onto (λ d. record c { datastore = d }) (set_object set_datastore c.datastore json)
    else set_to c

failure : Option Error → Option Error → Result (Unit {0})
failure (some e) saved = err e
failure none (some e) = err e
failure none none = ok tt

-- `json.Unmarshal` of a value.
pub of_json : Config → Json → Config × Result (Unit {0})
unfolding set_object set_config failure
of_json c json = let d = set_object set_config c json in (d.value, failure d.stopped d.saved)

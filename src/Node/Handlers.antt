-- ===== src/Node/Handlers.antt =====
-- swarm/node/pubsub.go and the rest of swarm/node/node.go: how a node is made, what it announces,
-- and what it does on the messages of the swarm. Publishing, resolving an address and looking
-- into the block store are calls of other components, and arguments here.
pub mod Discovers
pub mod Laws
use juren_cluster.Prelude.{
  ℕ, ◌<◌, Bool, true, false, not, Option, none, some, List, [], ◌∷◌, Bytes, bytes_eq, length, ◌==◌,
  if◌then◌else◌,
}
use juren_cluster.Outcome.{
  Result, ok, err, panic, stuck, ◌>>=◌, Error, no_addresses, publish_failed, lookup_timeout,
  nil_dereference, index_out_of_range,
}
use juren_cluster.Oid.{Oid, oid_eq}
use juren_cluster.DataModel.{
  Time, Metadata, ExtendedMetadata, NodeMetadata, build_capability_map, no_usage,
}
use juren_cluster.LevelDb.{Storage}
use juren_cluster.BlockIndex
use juren_cluster.BlockIndex.{BlockIndex}
use juren_cluster.NodeIndex
use juren_cluster.NodeIndex.{NodeIndex}
use juren_cluster.Tracker.{Tracker, new_tracker, update, who_has}
use juren_cluster.Protocol.{
  PeerAnnouncementMessage, BlockAnnouncementMessage, BlockDiscoveryMessage,
}
use juren_cluster.Node.{Node}
use juren_cluster.Node.Sync.{Answers, sync_block_index_and_update_metadata}

-- An address that the RPC server listens on, as far as it is one of TCP.
pub record TcpAddress : Type 0 where
  pub is_loopback : Bool
  pub text : Bytes

own_addresses : List (Option TcpAddress) → List Bytes
own_addresses [] = []
own_addresses (none ∷ addrs) = own_addresses addrs
own_addresses (some a ∷ addrs) =
    let rest = own_addresses addrs in if a.is_loopback then rest else a.text ∷ rest

unfoldable pub advertized : Bytes → List (Option TcpAddress) → List Bytes
unfolding own_addresses
advertized rpc_advertized_address addrs =
    if length rpc_advertized_address == 0 then own_addresses addrs else rpc_advertized_address ∷ []

-- The addresses of the sender among those of the message, where they resolve.
unfoldable pub matching : (Bytes → Result Bytes) → Bytes → List Bytes → List Bytes
matching resolve_ip sender_ip [] = []
matching resolve_ip sender_ip (addr ∷ addrs) =
    let rest = matching resolve_ip sender_ip addrs in
    elim (resolve_ip addr) [
      | ok ip ↦ if bytes_eq ip sender_ip then addr ∷ rest else rest
      | err e ↦ rest
      | panic p ↦ rest
      | stuck ↦ rest
    ]

unfoldable pub filtered_addresses : (Bytes → Result Bytes) → Bytes → List Bytes → List Bytes
filtered_addresses resolve_ip sender_ip addrs =
    let found = matching resolve_ip sender_ip addrs in if length found == 0 then addrs else found

pub announced_metadata :
    (Bytes → Result Bytes) → Bytes → Time → PeerAnnouncementMessage → NodeMetadata
announced_metadata resolve_ip sender_ip now msg = record {
  node_id = msg.node_id;
  addresses = filtered_addresses resolve_ip sender_ip msg.addresses;
  sequence_number = msg.sequence_number;
  last_seen = now;
  capabilities = build_capability_map msg.capabilities;
  storage_usage = msg.storage_usage;
}

-- What `DiscoverBlock` returns: both of Go's results.
pub record Discovered : Type 0 where
  pub nodes : List Oid
  pub failure : Option Error

module _ (S : Storage) where
  unfoldable pub new_node :
      Oid → Bytes → List (Option TcpAddress) → BlockIndex S → NodeIndex S → Result (Node S)
  unfolding advertized
  new_node node_id rpc_advertized_address addrs block_index node_index =
      let addresses = advertized rpc_advertized_address addrs in
      if length addresses == 0
      then err no_addresses
      else ok (record {
        node_id = node_id;
        addresses = addresses;
        block_index = block_index;
        node_index = node_index;
        who_has_block = new_tracker;
      })

  unfoldable pub announcement : Node S → PeerAnnouncementMessage
  announcement n = record {
    node_id = n.node_id;
    addresses = n.addresses;
    sequence_number = BlockIndex.get_seq S n.block_index;
    capabilities = [];
    storage_usage = no_usage;
  }

  -- A failure to publish is logged, and no error. `W` is what publishing changes.
  unfoldable pub publish_peer_announcement :
      {W : Type 0}
      → (PeerAnnouncementMessage → W → W × Result (Unit {0}))
      → Node S
      → W
      → W × Result (Unit {0})
  unfolding announcement
  publish_peer_announcement publish n w =
      let (w', published) = publish (announcement n) w in
      (w', elim published [ ok u ↦ ok tt | err e ↦ ok tt | panic p ↦ panic p | stuck ↦ stuck ])

  -- The sync that the handler starts in a goroutine of its own.
  pub peer_announcement :
      ℕ
      → Node S
      → (Bytes → Result Bytes)
      → Bytes
      → Time
      → PeerAnnouncementMessage
      → Option (Result (Unit {0}))
      → (Bytes → Result Answers)
      → Node S × Result (Unit {0})
  peer_announcement fuel n resolve_ip sender_ip now msg flight dial =
      sync_block_index_and_update_metadata S fuel n
        (announced_metadata resolve_ip sender_ip now msg) flight dial

  -- The error of the `Put`, if any, is logged.
  pub update_block_availability : Node S → BlockAnnouncementMessage → Node S × Result (Unit {0})
  update_block_availability n msg =
      let (tracker, sent) = update n.who_has_block msg.block.oid msg.node_id msg.has in
      let (ix, r) =
        BlockIndex.put S n.block_index
          (record { sequence_number = 0; metadata = some msg.block }) in
      if oid_eq msg.node_id n.node_id
      then (record n { who_has_block = tracker }, ok tt)
      else (record n { who_has_block = tracker; block_index = ix }, r >>= λ _. ok tt)

  block_announcement : Node S → Option Metadata → Bool → Result BlockAnnouncementMessage
  block_announcement n none has = panic nil_dereference
  block_announcement n (some md) has = ok (record { node_id = n.node_id; block = md; has = has })

  -- The announcement that is published in answer.
  pub process_block_discovery_message :
      Node S → (Oid → Result Bool) → BlockDiscoveryMessage → Result BlockAnnouncementMessage
  unfolding block_announcement
  process_block_discovery_message n store_has msg = do
    md ← BlockIndex.get_by_oid S n.block_index msg.oid
    has ← store_has msg.oid
    block_announcement n md.metadata has

  pub poll : Error → Oid → List Tracker → Tracker → Discovered
  poll expired block_oid [] final =
      let nodes = who_has final block_oid in
      if length nodes == 0
      then record { nodes = []; failure = some lookup_timeout }
      else record { nodes = nodes; failure = some expired }
  poll expired block_oid (tracker ∷ trackers) final =
      let nodes = who_has tracker block_oid in
      let rest = poll expired block_oid trackers final in
      if length nodes == 0 then rest else record { nodes = nodes; failure = none }

  -- `trackers` are the states of the tracker at the ticks before the context ends, `final` is the
  -- state at its end, and `expired` the error of the context.
  pub discover_block :
      (BlockDiscoveryMessage → Result (Unit {0}))
      → Error
      → Oid
      → List Tracker
      → Tracker
      → Result Discovered
  unfolding poll
  discover_block publish expired block_oid trackers final =
      elim (publish (record { oid = block_oid })) [
        | ok u ↦ ok (poll expired block_oid trackers final)
        | err e ↦ ok (record { nodes = []; failure = some publish_failed })
        | panic p ↦ panic p
        | stuck ↦ stuck
      ]

  -- One line of the log reads the first address of the node.
  first_address : List Bytes → Result Bytes
  first_address [] = panic index_out_of_range
  first_address (addr ∷ addrs) = ok addr

  pub log_nodes : NodeIndex S → List Oid → Result (List (Oid × Bytes))
  unfolding first_address
  log_nodes ix [] = ok []
  log_nodes ix (id ∷ ids) =
      let rest = log_nodes ix ids in
      elim (NodeIndex.get S ix id) [
        | ok md ↦
            first_address md.addresses >>= λ addr. rest >>= λ lines. ok ((md.node_id, addr) ∷ lines)
        | err e ↦ rest
        | panic p ↦ panic p
        | stuck ↦ stuck
      ]

  -- The lines that are logged.
  pub log_node_index : Node S → Result (List (Oid × Bytes))
  unfolding log_nodes
  log_node_index n = NodeIndex.enumerate S n.node_index >>= λ ids. log_nodes n.node_index ids

-- ===== src/Protocol.antt =====
-- swarm/protocol/protocol.go and swarm/client/client.go: the messages of the swarm, and the calls
-- of the RPC client.
use Prim.Native.String.{String}
use juren_cluster.Prelude.{ℕ, Bool, Option, List, Bytes}
use juren_cluster.Outcome.{Result}
use juren_cluster.Oid.{Oid}
use juren_cluster.DataModel.{Block, Metadata, ExtendedMetadata, Capability, StorageUsage}

pub record PeerAnnouncementMessage : Type 0 where
  pub node_id : Oid
  pub addresses : List Bytes
  pub sequence_number : ℕ
  pub capabilities : List Capability
  pub storage_usage : StorageUsage

pub record BlockAnnouncementMessage : Type 0 where
  pub node_id : Oid
  pub block : Metadata
  pub has : Bool

pub record BlockDiscoveryMessage : Type 0 where
  pub oid : Oid

pub record PeerSyncRequest : Type 0 where
  pub node_id : Oid
  pub sequence_number : ℕ
  pub batch_size : ℕ

-- The entries are pointers, and `none` is nil.
pub record PeerSyncResponse : Type 0 where
  pub node_id : Oid
  pub entries : List (Option ExtendedMetadata)

pub record BlockGetRequest : Type 0 where
  pub oid : Oid

pub record BlockGetResponse : Type 0 where
  pub block : Option Block

pub record BlockPutRequest : Type 0 where
  pub block : Option Block

pub record BlockPutResponse : Type 0 where
  pub oid : Oid

-- `crpc.Client.Call` fills the reply or fails; it takes the name of the method.
abbrev pub Call : Type 0 → Type 0 → Type 0
Call A B = String → A → Result B

unfoldable pub peer_sync :
    Call PeerSyncRequest PeerSyncResponse → PeerSyncRequest → Result PeerSyncResponse
peer_sync call req = call "Server.PeerSync" req

unfoldable pub block_get :
    Call BlockGetRequest BlockGetResponse → BlockGetRequest → Result BlockGetResponse
block_get call req = call "Server.BlockGet" req

unfoldable pub block_put :
    Call BlockPutRequest BlockPutResponse → BlockPutRequest → Result BlockPutResponse
block_put call req = call "Server.BlockPut" req

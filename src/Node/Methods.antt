-- ===== src/Node/Methods.antt =====
-- swarm/node/server.go and swarm/node/pubsub.go as values that `New` of node.go registers: the
-- methods with their types, and what a call of each does.
pub mod Called
pub mod Published
mod Tests
use juren_cluster.Prelude.{ℕ, ◌≡◌, Bool, true, Option, none, some, List, [], ◌∷◌, ◌++◌, Bytes}
use juren_cluster.Outcome.{Result, ok, err, panic, ◌>>=◌, argument_mismatch}
use juren_cluster.DataModel.{Time, NodeMetadata}
use juren_cluster.LevelDb.{Storage}
use juren_cluster.Protocol.{
  PeerAnnouncementMessage, BlockAnnouncementMessage, BlockDiscoveryMessage, PeerSyncRequest,
  PeerSyncResponse, BlockGetRequest, BlockGetResponse, BlockPutRequest, BlockPutResponse,
}
use juren_cluster.Services.{GoType, pointer, named, Method, Receiver}
use juren_cluster.Rpc.Server.{Func, Services, error_type}
use juren_cluster.Rpc.Server as RpcServer
use juren_cluster.PubSub.{Handler, Handled, returned, publisher_address, ServiceMap}
use juren_cluster.PubSub
use juren_cluster.Node.{Node}
use juren_cluster.Node.Server.{serve_peer_sync, serve_block_get, serve_block_put}
use juren_cluster.Node.Handlers.{announced_metadata}

-- "juren/swarm/node"
abbrev pub node_package : Bytes
node_package =
    106 ∷ 117 ∷ 114 ∷ 101 ∷ 110 ∷ 47 ∷ 115 ∷ 119 ∷ 97 ∷ 114 ∷ 109 ∷ 47 ∷ 110 ∷ 111 ∷ 100 ∷ 101 ∷ []

-- "juren/swarm/protocol"
abbrev pub protocol_package : Bytes
protocol_package =
    106 ∷ 117 ∷ 114 ∷ 101 ∷ 110 ∷ 47 ∷ 115 ∷ 119 ∷ 97 ∷ 114 ∷ 109 ∷ 47 ∷ 112 ∷ 114 ∷ 111 ∷ 116 ∷ 111
    ∷ 99 ∷ 111 ∷ 108 ∷ []

-- "Server"
abbrev pub server_name : Bytes
server_name = 83 ∷ 101 ∷ 114 ∷ 118 ∷ 101 ∷ 114 ∷ []

-- "PubSub"
abbrev pub pub_sub_name : Bytes
pub_sub_name = 80 ∷ 117 ∷ 98 ∷ 83 ∷ 117 ∷ 98 ∷ []

-- "PeerSync"
abbrev pub peer_sync_name : Bytes
peer_sync_name = 80 ∷ 101 ∷ 101 ∷ 114 ∷ 83 ∷ 121 ∷ 110 ∷ 99 ∷ []

-- "BlockGet"
abbrev pub block_get_name : Bytes
block_get_name = 66 ∷ 108 ∷ 111 ∷ 99 ∷ 107 ∷ 71 ∷ 101 ∷ 116 ∷ []

-- "BlockPut"
abbrev pub block_put_name : Bytes
block_put_name = 66 ∷ 108 ∷ 111 ∷ 99 ∷ 107 ∷ 80 ∷ 117 ∷ 116 ∷ []

-- "PeerAnnouncement"
abbrev pub peer_announcement_name : Bytes
peer_announcement_name =
    80 ∷ 101 ∷ 101 ∷ 114 ∷ 65 ∷ 110 ∷ 110 ∷ 111 ∷ 117 ∷ 110 ∷ 99 ∷ 101 ∷ 109 ∷ 101 ∷ 110 ∷ 116 ∷ []

-- "BlockAnnouncement"
abbrev pub block_announcement_name : Bytes
block_announcement_name =
    66 ∷ 108 ∷ 111 ∷ 99 ∷ 107 ∷ 65 ∷ 110 ∷ 110 ∷ 111 ∷ 117 ∷ 110 ∷ 99 ∷ 101 ∷ 109 ∷ 101 ∷ 110 ∷ 116
    ∷ []

-- "BlockDiscoveryMessage"
abbrev pub block_discovery_message_name : Bytes
block_discovery_message_name =
    66 ∷ 108 ∷ 111 ∷ 99 ∷ 107 ∷ 68 ∷ 105 ∷ 115 ∷ 99 ∷ 111 ∷ 118 ∷ 101 ∷ 114 ∷ 121 ∷ 77 ∷ 101 ∷ 115
    ∷ 115 ∷ 97 ∷ 103 ∷ 101 ∷ []

-- The arguments and the replies of the methods.
pub data Body : Type 0 where
  sync_request : PeerSyncRequest → Body
  sync_response : PeerSyncResponse → Body
  get_request : BlockGetRequest → Body
  get_response : BlockGetResponse → Body
  put_request : BlockPutRequest → Body
  put_response : BlockPutResponse → Body

module _ (S : Storage) where
  unfoldable pub peer_sync_func : Func (Node S) Body
  peer_sync_func n (sync_request req) =
      (n, serve_peer_sync S n req >>= λ res. ok (sync_response res))
  peer_sync_func n _ = (n, panic argument_mismatch)

  unfoldable pub block_get_func : Func (Node S) Body
  block_get_func n (get_request req) = (n, serve_block_get S n req >>= λ res. ok (get_response res))
  block_get_func n _ = (n, panic argument_mismatch)

  unfoldable pub block_put_func : Func (Node S) Body
  block_put_func n (put_request req) = (n, serve_block_put S n req >>= λ res. ok (put_response res))
  block_put_func n _ = (n, panic argument_mismatch)

  -- `Server`, whose methods stand in the order of their names.
  abbrev server_method : Bytes → GoType → GoType → Func (Node S) Body → Method (Func (Node S) Body)
  server_method name argument reply func = record {
    name = name;
    exported = true;
    inputs = pointer (named server_name node_package) ∷ argument ∷ reply ∷ [];
    outputs = error_type ∷ [];
    func = func;
  }

  abbrev pub rpc_handlers : Receiver (Func (Node S) Body)
  rpc_handlers = record {
    typ = pointer (named server_name node_package);
    methods =
        server_method block_get_name
          (pointer (
            named
              (66 ∷ 108 ∷ 111 ∷ 99 ∷ 107 ∷ 71 ∷ 101 ∷ 116 ∷ 82 ∷ 101 ∷ 113 ∷ 117 ∷ 101 ∷ 115 ∷ 116
                ∷ [])
              protocol_package))
          (pointer (
            named
              (66 ∷ 108 ∷ 111 ∷ 99 ∷ 107 ∷ 71 ∷ 101 ∷ 116 ∷ 82 ∷ 101 ∷ 115 ∷ 112 ∷ 111 ∷ 110 ∷ 115
                ∷ 101 ∷ [])
              protocol_package))
          block_get_func
        ∷ server_method block_put_name
            (pointer (
              named
                (66 ∷ 108 ∷ 111 ∷ 99 ∷ 107 ∷ 80 ∷ 117 ∷ 116 ∷ 82 ∷ 101 ∷ 113 ∷ 117 ∷ 101 ∷ 115 ∷ 116
                  ∷ [])
                protocol_package))
            (pointer (
              named
                (66 ∷ 108 ∷ 111 ∷ 99 ∷ 107 ∷ 80 ∷ 117 ∷ 116 ∷ 82 ∷ 101 ∷ 115 ∷ 112 ∷ 111 ∷ 110 ∷ 115
                  ∷ 101 ∷ [])
                protocol_package))
            block_put_func
        ∷ server_method peer_sync_name
            (pointer (
              named
                (80 ∷ 101 ∷ 101 ∷ 114 ∷ 83 ∷ 121 ∷ 110 ∷ 99 ∷ 82 ∷ 101 ∷ 113 ∷ 117 ∷ 101 ∷ 115 ∷ 116
                  ∷ [])
                protocol_package))
            (pointer (
              named
                (80 ∷ 101 ∷ 101 ∷ 114 ∷ 83 ∷ 121 ∷ 110 ∷ 99 ∷ 82 ∷ 101 ∷ 115 ∷ 112 ∷ 111 ∷ 110 ∷ 115
                  ∷ 101 ∷ [])
                protocol_package))
            peer_sync_func
        ∷ [];
  }

  -- The services of the RPC server of a node.
  unfoldable pub rpc_services : Services (Func (Node S) Body)
  rpc_services = (RpcServer.register [] rpc_handlers).0

-- The messages, and the goroutines that the handlers start for them.
pub data Message : Type 0 where
  peer : PeerAnnouncementMessage → Message
  block : BlockAnnouncementMessage → Message
  discovery : BlockDiscoveryMessage → Message

pub data Task : Type 0 where
  sync_with : NodeMetadata → Task
  availability : BlockAnnouncementMessage → Task
  answer_discovery : BlockDiscoveryMessage → Task

-- The IP of the sender as text, and the time at which its message is handled.
abbrev pub Sender : Type 0
Sender = Bytes × Time

module _ (resolve_ip : Bytes → Result Bytes) where
  unfoldable pub peer_announcement_func : Handler (List Task) Sender Message
  peer_announcement_func tasks (sender_ip, now) (peer msg) =
      returned (tasks ++ sync_with (announced_metadata resolve_ip sender_ip now msg) ∷ [])
  peer_announcement_func tasks sender _ = returned tasks

  unfoldable pub block_announcement_func : Handler (List Task) Sender Message
  block_announcement_func tasks sender (block msg) = returned (tasks ++ availability msg ∷ [])
  block_announcement_func tasks sender _ = returned tasks

  unfoldable pub block_discovery_message_func : Handler (List Task) Sender Message
  block_discovery_message_func tasks sender (discovery msg) =
      returned (tasks ++ answer_discovery msg ∷ [])
  block_discovery_message_func tasks sender _ = returned tasks

  abbrev handler_method :
      Bytes
      → GoType
      → Handler (List Task) Sender Message
      → Method (Handler (List Task) Sender Message)
  handler_method name argument func = record {
    name = name;
    exported = true;
    inputs = pointer (named pub_sub_name node_package) ∷ pointer publisher_address ∷ argument ∷ [];
    outputs = [];
    func = func;
  }

  abbrev pub pub_sub_handlers : Receiver (Handler (List Task) Sender Message)
  pub_sub_handlers = record {
    typ = pointer (named pub_sub_name node_package);
    methods =
        handler_method block_announcement_name
          (pointer (
            named
              (66 ∷ 108 ∷ 111 ∷ 99 ∷ 107 ∷ 65 ∷ 110 ∷ 110 ∷ 111 ∷ 117 ∷ 110 ∷ 99 ∷ 101 ∷ 109 ∷ 101
                ∷ 110 ∷ 116 ∷ 77 ∷ 101 ∷ 115 ∷ 115 ∷ 97 ∷ 103 ∷ 101 ∷ [])
              protocol_package))
          block_announcement_func
        ∷ handler_method block_discovery_message_name
            (pointer (
              named
                (66 ∷ 108 ∷ 111 ∷ 99 ∷ 107 ∷ 68 ∷ 105 ∷ 115 ∷ 99 ∷ 111 ∷ 118 ∷ 101 ∷ 114 ∷ 121 ∷ 77
                  ∷ 101 ∷ 115 ∷ 115 ∷ 97 ∷ 103 ∷ 101 ∷ [])
                protocol_package))
            block_discovery_message_func
        ∷ handler_method peer_announcement_name
            (pointer (
              named
                (80 ∷ 101 ∷ 101 ∷ 114 ∷ 65 ∷ 110 ∷ 110 ∷ 111 ∷ 117 ∷ 110 ∷ 99 ∷ 101 ∷ 109 ∷ 101
                  ∷ 110 ∷ 116 ∷ 77 ∷ 101 ∷ 115 ∷ 115 ∷ 97 ∷ 103 ∷ 101 ∷ [])
                protocol_package))
            peer_announcement_func
        ∷ [];
  }

  unfoldable pub pub_sub_services : ServiceMap (Handler (List Task) Sender Message)
  pub_sub_services = PubSub.register [] pub_sub_handlers

-- The texts that node.go publishes messages under: "PubSub.PeerAnnouncement",
-- "PubSub.BlockAnnouncement" and "PubSub.BlockDiscoveryMessage".
abbrev pub published_as : Message → Bytes
published_as (peer msg) =
    80 ∷ 117 ∷ 98 ∷ 83 ∷ 117 ∷ 98 ∷ 46 ∷ 80 ∷ 101 ∷ 101 ∷ 114 ∷ 65 ∷ 110 ∷ 110 ∷ 111 ∷ 117 ∷ 110
    ∷ 99 ∷ 101 ∷ 109 ∷ 101 ∷ 110 ∷ 116 ∷ []
published_as (block msg) =
    80 ∷ 117 ∷ 98 ∷ 83 ∷ 117 ∷ 98 ∷ 46 ∷ 66 ∷ 108 ∷ 111 ∷ 99 ∷ 107 ∷ 65 ∷ 110 ∷ 110 ∷ 111 ∷ 117
    ∷ 110 ∷ 99 ∷ 101 ∷ 109 ∷ 101 ∷ 110 ∷ 116 ∷ []
published_as (discovery msg) =
    80 ∷ 117 ∷ 98 ∷ 83 ∷ 117 ∷ 98 ∷ 46 ∷ 66 ∷ 108 ∷ 111 ∷ 99 ∷ 107 ∷ 68 ∷ 105 ∷ 115 ∷ 99 ∷ 111 ∷ 118
    ∷ 101 ∷ 114 ∷ 121 ∷ 77 ∷ 101 ∷ 115 ∷ 115 ∷ 97 ∷ 103 ∷ 101 ∷ []

-- The text of client.go for `PeerSync`: "Server.PeerSync".
abbrev pub called_as : Bytes
called_as = 83 ∷ 101 ∷ 114 ∷ 118 ∷ 101 ∷ 114 ∷ 46 ∷ 80 ∷ 101 ∷ 101 ∷ 114 ∷ 83 ∷ 121 ∷ 110 ∷ 99 ∷ []

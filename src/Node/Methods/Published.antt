-- ===== src/Node/Methods/Published.antt =====
-- What a message that a node publishes (swarm/node/node.go) does at another: its handler of
-- swarm/node/pubsub.go starts a goroutine.
use juren_cluster.Prelude.{
  append_one, append_none, ◌≡◌, refl, ap, ◌∙◌, some, List, [], ◌∷◌, ◌++◌, Bytes, bytes_eq, All,
}
use juren_cluster.Outcome.{Result, Error, ok}
use juren_cluster.Services.{
  find, collected, added, type_eq, is_exported, is_exported_or_builtin_type, GoType, pointer, named,
  indirect,
}
use juren_cluster.PubSub as PubSub
use juren_cluster.PubSub.{
  Handlers, Handler, HandlerType, suitable_handlers, suitable_handler, handler_inputs, Codec, Event,
  datagram, returned, done, Listening, ended, listen, publish,
}
use juren_cluster.PubSub.Located.{IsReadBack}
use juren_cluster.PubSub.Delivers as Delivers
use juren_cluster.Services.Names.{is_plain-IsPlain, IsPlain, dotted}
use mathlib.Core.Path.{subst}
use juren_cluster.PubSub.Delivers.{
  direct-message, direct-end, Arrives, at_done, published, direct, listen-direct,
}
use juren_cluster.Node.Handlers.{announced_metadata}
use juren_cluster.Node.Methods.{
  Message, peer, block, discovery, Task, sync_with, availability, answer_discovery, Sender,
  pub_sub_services, pub_sub_handlers, pub_sub_name, published_as, peer_announcement_name,
  block_announcement_name, block_discovery_message_name, peer_announcement_func,
  block_announcement_func, block_discovery_message_func, protocol_package,
}

module _ (resolve_ip : Bytes → Result Bytes) where
  abbrev handlers : Handlers (Handler (List Task) Sender Message)
  handlers = suitable_handlers (pub_sub_handlers resolve_ip).methods

  abbrev name_of : Message → Bytes
  name_of (peer msg) = peer_announcement_name
  name_of (block msg) = block_announcement_name
  name_of (discovery msg) = block_discovery_message_name

  -- The type of a message, and the goroutine that its handler starts.
  abbrev pub type_of : Message → GoType
  type_of (peer msg) =
      named
        (80 ∷ 101 ∷ 101 ∷ 114 ∷ 65 ∷ 110 ∷ 110 ∷ 111 ∷ 117 ∷ 110 ∷ 99 ∷ 101 ∷ 109 ∷ 101 ∷ 110 ∷ 116
          ∷ 77 ∷ 101 ∷ 115 ∷ 115 ∷ 97 ∷ 103 ∷ 101 ∷ [])
        protocol_package
  type_of (block msg) =
      named
        (66 ∷ 108 ∷ 111 ∷ 99 ∷ 107 ∷ 65 ∷ 110 ∷ 110 ∷ 111 ∷ 117 ∷ 110 ∷ 99 ∷ 101 ∷ 109 ∷ 101 ∷ 110
          ∷ 116 ∷ 77 ∷ 101 ∷ 115 ∷ 115 ∷ 97 ∷ 103 ∷ 101 ∷ [])
        protocol_package
  type_of (discovery msg) =
      named
        (66 ∷ 108 ∷ 111 ∷ 99 ∷ 107 ∷ 68 ∷ 105 ∷ 115 ∷ 99 ∷ 111 ∷ 118 ∷ 101 ∷ 114 ∷ 121 ∷ 77 ∷ 101
          ∷ 115 ∷ 115 ∷ 97 ∷ 103 ∷ 101 ∷ [])
        protocol_package

  abbrev pub task_of : Sender → Message → Task
  task_of (sender_ip, now) (peer msg) = sync_with (announced_metadata resolve_ip sender_ip now msg)
  task_of sender (block msg) = availability msg
  task_of sender (discovery msg) = answer_discovery msg

  abbrev handler_of : Message → HandlerType (Handler (List Task) Sender Message)
  handler_of (peer msg) = record {
    func = peer_announcement_func resolve_ip;
    arg_type = pointer (type_of (peer msg));
  }
  handler_of (block msg) = record {
    func = block_announcement_func resolve_ip;
    arg_type = pointer (type_of (block msg));
  }
  handler_of (discovery msg) = record {
    func = block_discovery_message_func resolve_ip;
    arg_type = pointer (type_of (discovery msg));
  }

  handlers_there : find pub_sub_name (pub_sub_services resolve_ip) ≡ some handlers
  unfolding pub_sub_services find PubSub.register suitable_handlers collected added suitable_handler
      handler_inputs type_eq is_exported is_exported_or_builtin_type bytes_eq
  handlers_there = refl

  handler_there : (m : Message) → find (name_of m) handlers ≡ some (handler_of m)
  unfolding find suitable_handlers collected added suitable_handler handler_inputs type_eq
      is_exported is_exported_or_builtin_type bytes_eq
  handler_there (peer msg) = refl
  handler_there (block msg) = refl
  handler_there (discovery msg) = refl

  module _ (c : Codec Message) where
    abbrev Sent : Type 0
    Sent = Sender × Message

    -- The codec reads a message back, under the text it is published with.
    abbrev pub IsReadable : Sent → Type 0
    IsReadable (sender, m) = IsReadBack c (published_as m) (type_of m) m

    abbrev pub datagrams : Error → List Sent → List (Event Sender)
    datagrams e [] = done e ∷ []
    datagrams e ((sender, m) ∷ ms) =
        datagram sender (publish c (published_as m) m (ok tt)).0 ∷ datagrams e ms

    abbrev pub tasks_of : List Sent → List Task
    tasks_of [] = []
    tasks_of ((sender, m) ∷ ms) = task_of sender m ∷ tasks_of ms

    read_back_lem :
        (m : Message)
        → IsReadBack c (published_as m) (type_of m) m
        → IsReadBack c (dotted pub_sub_name (name_of m)) (indirect (handler_of m).arg_type) m
    read_back_lem (peer msg) r = r
    read_back_lem (block msg) r = r
    read_back_lem (discovery msg) r = r

    name_of-IsPlain : (m : Message) → IsPlain (name_of m)
    name_of-IsPlain (peer msg) = is_plain-IsPlain peer_announcement_name refl
    name_of-IsPlain (block msg) = is_plain-IsPlain block_announcement_name refl
    name_of-IsPlain (discovery msg) = is_plain-IsPlain block_discovery_message_name refl

    delivered :
        (sender : Sender) (m : Message)
        → IsReadBack c (published_as m) (type_of m) m
        → Delivers.Message c (pub_sub_services resolve_ip)
    delivered sender m r = record {
      address = sender;
      service_name = pub_sub_name;
      method_name = name_of m;
      handlers = handlers;
      handler = handler_of m;
      arg = m;
      plain = name_of-IsPlain m;
      service_there = handlers_there;
      handler_there = handler_there m;
      read_back = read_back_lem m r;
    }

    all_delivered :
        (ms : List Sent)
        → All IsReadable ms
        → List (Delivers.Message c (pub_sub_services resolve_ip))
    unfolding delivered
    all_delivered [] h = []
    all_delivered ((sender, m) ∷ ms) (r, h) = delivered sender m r ∷ all_delivered ms h

    published_lem : (m : Message) → dotted pub_sub_name (name_of m) ≡ published_as m
    published_lem (peer msg) = refl
    published_lem (block msg) = refl
    published_lem (discovery msg) = refl

    datagrams-Arrives :
        (e : Error) (ms : List Sent) (h : All IsReadable ms)
        → Arrives c (pub_sub_services resolve_ip) e (datagrams e ms) (all_delivered ms h)
    unfolding all_delivered
    datagrams-Arrives e [] h = at_done []
    datagrams-Arrives e ((sender, m) ∷ ms) (r, h) =
        subst
          (λ text.
            Arrives c (pub_sub_services resolve_ip) e
              (datagram sender (publish c text m (ok tt)).0 ∷ datagrams e ms)
              (all_delivered ((sender, m) ∷ ms) (r, h)))
          (published_lem m)
          (published (delivered sender m r) (ok tt) (datagrams e ms) (all_delivered ms h)
            (datagrams-Arrives e ms h))

    handled_lem :
        (tasks : List Task) (sender : Sender) (m : Message)
        → (handler_of m).func tasks sender m ≡ returned (tasks ++ task_of sender m ∷ [])
    unfolding peer_announcement_func block_announcement_func block_discovery_message_func
    handled_lem tasks sender (peer msg) = refl
    handled_lem tasks sender (block msg) = refl
    handled_lem tasks sender (discovery msg) = refl

    direct-tasks_of :
        (e : Error) (tasks : List Task) (ms : List Sent) (h : All IsReadable ms)
        → direct c (pub_sub_services resolve_ip) e tasks (all_delivered ms h)
          ≡ ended e (tasks ++ tasks_of ms)
    unfolding all_delivered
    direct-tasks_of e tasks [] h =
        direct-end c (pub_sub_services resolve_ip) e tasks ∙ ap (ended e) (append_none tasks)
    direct-tasks_of e tasks ((sender, m) ∷ ms) (r, h) =
        direct-message c (pub_sub_services resolve_ip) e tasks (delivered sender m r)
          (all_delivered ms h)
        ∙ rw (handled_lem tasks sender m) (
            direct-tasks_of e (tasks ++ task_of sender m ∷ []) ms h
            ∙ ap (ended e) (append_one tasks (task_of sender m) (tasks_of ms)))

    -- If messages are published by nodes under the texts of node.go, and the codec reads each
    -- back from at most 2048 bytes: a node with the handlers of `PubSub` registered starts for
    -- each, in order, the goroutine that is for it: a sync with the metadata of a peer
    -- announcement, an update of the availability of a block, or an answer to a discovery.
    pub listen-tasks_of :
        (e : Error) (tasks : List Task) (ms : List Sent)
        → All IsReadable ms
        → listen c (pub_sub_services resolve_ip) tasks (datagrams e ms)
          ≡ ended e (tasks ++ tasks_of ms)
    listen-tasks_of e tasks ms h =
        listen-direct c (pub_sub_services resolve_ip) e tasks (datagrams e ms) (all_delivered ms h)
          (datagrams-Arrives e ms h)
        ∙ direct-tasks_of e tasks ms h

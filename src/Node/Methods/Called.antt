-- ===== src/Node/Methods/Called.antt =====
-- What a call of `PeerSync` of swarm/client/client.go comes to at a node, and what a message that a
-- node publishes does at another.
use juren_cluster.Prelude.{
  ℕ, ◌≡◌, ◌≢◌, refl, sym, ap, ◌∙◌, none, some, List, [], ◌∷◌, ◌++◌, Bytes, bytes_eq,
}
use juren_cluster.Outcome.{Result, Error, ok, err, panic, stuck, ◌>>=◌}
use juren_cluster.LevelDb.{Storage}
use juren_cluster.Services.Names.{is_plain-IsPlain}
use juren_cluster.Services.{
  find, collected, added, type_eq, is_exported, is_exported_or_builtin_type, pointer, named,
}
use juren_cluster.Rpc.Server.{
  Service, Func, MethodType, suitable_methods, suitable_method, suitable_inputs, suitable_outputs,
  load_or_store,
}
use juren_cluster.Rpc.Server as RpcServer
use juren_cluster.Node.{Node}
use juren_cluster.Node.Methods.{
  Body, rpc_services, rpc_handlers, peer_sync_name, server_name, peer_sync_func, protocol_package,
}
use juren_cluster.Prelude.{map, All}
use juren_cluster.Outcome.{server_error}
use juren_cluster.BlockIndex.Ends.{bind-ends, enumerate_by_seq-ends}
use juren_cluster.Prelude.{◌+◌, ◌%◌, ◌^◌}
use juren_cluster.Protocol.{PeerSyncRequest, PeerSyncResponse}
use juren_cluster.Rpc.Client.{Client, respond, reply_to, call_at, input}
use juren_cluster.Rpc.Server.{Conn, serve_conn}
use juren_cluster.Rpc.Server.Dispatch.{Request, IsServable, IsOpen, wire}
use juren_cluster.Rpc.EndToEnd.{answered, direct, input-serve_conn}
use juren_cluster.Node.Server.{serve_peer_sync}
use juren_cluster.Node.Methods.{called_as, sync_request, sync_response}

module _ (S : Storage) where
  abbrev pub peer_sync_type : MethodType (Func (Node S) Body)
  peer_sync_type = record {
    func = peer_sync_func S;
    arg_type = pointer (
        named
          (80 ∷ 101 ∷ 101 ∷ 114 ∷ 83 ∷ 121 ∷ 110 ∷ 99 ∷ 82 ∷ 101 ∷ 113 ∷ 117 ∷ 101 ∷ 115 ∷ 116 ∷ [])
          protocol_package);
    reply_type = pointer (
        named
          (80 ∷ 101 ∷ 101 ∷ 114 ∷ 83 ∷ 121 ∷ 110 ∷ 99 ∷ 82 ∷ 101 ∷ 115 ∷ 112 ∷ 111 ∷ 110 ∷ 115 ∷ 101
            ∷ [])
          protocol_package);
  }

  abbrev rpc_service : Service (Func (Node S) Body)
  rpc_service = suitable_methods (rpc_handlers S).methods

  rpc_service_there : find server_name (rpc_services S) ≡ some rpc_service
  unfolding rpc_services find RpcServer.register load_or_store suitable_methods collected added
      suitable_method suitable_inputs suitable_outputs type_eq is_exported
      is_exported_or_builtin_type bytes_eq
  rpc_service_there = refl

  peer_sync_there : find peer_sync_name rpc_service ≡ some peer_sync_type
  unfolding find suitable_methods collected added suitable_method suitable_inputs suitable_outputs
      type_eq is_exported is_exported_or_builtin_type bytes_eq
  peer_sync_there = refl

module _ (S : Storage) {Item : Type 0} (error_text : Error → Bytes)
    (panic_text : Bytes → Bytes → Bytes) (c : Conn Item Body) where
  -- A call of `PeerSync` on its way to the node, and that the two items decode to it.
  pub record PeerSyncCall : Type 0 where
    pub header_item : Item
    pub argument_item : Item
    pub seq : ℕ
    pub token : Bytes
    pub req : PeerSyncRequest

  pub record IsCall (r : PeerSyncCall) : Type 0 where
    pub decodes_header :
        c.decode_header r.header_item
        ≡ ok (record { method = called_as; seq = r.seq; token = r.token })
    pub decodes_argument :
        c.decode_argument
          (named
            (80 ∷ 101 ∷ 101 ∷ 114 ∷ 83 ∷ 121 ∷ 110 ∷ 99 ∷ 82 ∷ 101 ∷ 113 ∷ 117 ∷ 101 ∷ 115 ∷ 116
              ∷ [])
            protocol_package)
          r.argument_item
        ≡ ok (sync_request r.req)

  abbrev pub wire_items : List PeerSyncCall → List Item
  wire_items [] = []
  wire_items (r ∷ rs) = r.header_item ∷ r.argument_item ∷ wire_items rs

  -- What the client has from a result of the method.
  abbrev answer_to : Client → ℕ → Result PeerSyncResponse → Client × List (ℕ × Body)
  answer_to cl seq (ok res) =
      (respond cl seq none, reply_to (call_at seq cl.pending) (sync_response res))
  answer_to cl seq (err e) = (respond cl seq (some (server_error (error_text e))), [])
  answer_to cl seq (panic p) =
      (respond cl seq (some (server_error (panic_text server_name peer_sync_name))), [])
  answer_to cl seq stuck = (cl, [])

  abbrev pub answers : Node S → Client → List PeerSyncCall → Client × List (ℕ × Body)
  answers n cl [] = (cl, [])
  answers n cl (r ∷ rs) =
      let (cl', replies) = answer_to cl r.seq (serve_peer_sync S n r.req) in
      let (last, more) = answers n cl' rs in (last, replies ++ more)

  abbrev request : PeerSyncCall → Request error_text panic_text (rpc_services S) c
  request r = record {
    header_item = r.header_item;
    argument_item = r.argument_item;
    req = record { method = called_as; seq = r.seq; token = r.token };
    service_name = server_name;
    method_name = peer_sync_name;
    service = rpc_service S;
    mt = peer_sync_type S;
    argv = sync_request r.req;
  }

  wire_lem :
      (rs : List PeerSyncCall)
      → wire error_text panic_text (rpc_services S) c (map request rs) ≡ wire_items rs
  wire_lem [] = refl
  wire_lem (r ∷ rs) = ap (λ items. r.header_item ∷ r.argument_item ∷ items) (wire_lem rs)

  answered_lem :
      (cl : Client) (r : PeerSyncCall) (result : Result PeerSyncResponse)
      → answered error_text panic_text
          (rpc_services S)
          c
          cl
          (request r)
          (result >>= λ res. ok (sync_response res))
        ≡ answer_to cl r.seq result
  answered_lem cl r (ok res) = refl
  answered_lem cl r (err e) = refl
  answered_lem cl r (panic p) = refl
  answered_lem cl r stuck = refl

  direct-answers :
      (n : Node S) (cl : Client) (rs : List PeerSyncCall)
      → direct error_text panic_text (rpc_services S) c n cl (map request rs) ≡ answers n cl rs
  unfolding peer_sync_func
  direct-answers n cl [] = refl
  direct-answers n cl (r ∷ rs) = rw (
    answered_lem cl r (serve_peer_sync S n r.req),
    direct-answers n (answer_to cl r.seq (serve_peer_sync S n r.req)).0 rs,
  )

  serve_peer_sync-ends :
      ((raw : Bytes) → S.unmarshal_block raw ≢ stuck)
      → (n : Node S) (req : PeerSyncRequest) → serve_peer_sync S n req ≢ stuck
  unfolding serve_peer_sync
  serve_peer_sync-ends ends n req =
      bind-ends _ _
        (enumerate_by_seq-ends S ends n.block_index req.sequence_number
          ((req.sequence_number + req.batch_size) % 2 ^ 64))
        (λ res e. cc e)

  request-IsServable :
      ((raw : Bytes) → S.unmarshal_block raw ≢ stuck)
      → (r : PeerSyncCall) → IsCall r
      → IsServable error_text panic_text (rpc_services S) c (request r)
  unfolding peer_sync_func
  request-IsServable ends r h = record {
    decodes = h.decodes_header;
    names = refl;
    plain = is_plain-IsPlain peer_sync_name refl;
    service_there = rpc_service_there S;
    method_there = peer_sync_there S;
    by_pointer = refl;
    argument = h.decodes_argument;
    returns = λ n.
        bind-ends (serve_peer_sync S n r.req) _ (serve_peer_sync-ends ends n r.req) (λ res e. cc e);
  }

  requests-IsServable :
      ((raw : Bytes) → S.unmarshal_block raw ≢ stuck)
      → (rs : List PeerSyncCall) → All IsCall rs
      → All (IsServable error_text panic_text (rpc_services S) c) (map request rs)
  requests-IsServable ends [] h = tt
  requests-IsServable ends (r ∷ rs) (this, h) =
      (request-IsServable ends r this, requests-IsServable ends rs h)

  -- If the texts of errors and panics are not empty, the decoder of the store ends, the
  -- connection is not cancelled and takes what is sent, and its items decode to calls of
  -- `Server.PeerSync`: what the RPC client makes of what the RPC server of a node, with the
  -- methods of `Server` registered, sends for the calls is what `PeerSync` of the node answers
  -- to each request in turn, a reply or an error.
  pub input-serve_peer_sync :
      ((raw : Bytes) → S.unmarshal_block raw ≢ stuck)
      → ((e : Error) → error_text e ≢ [])
      → ((s m : Bytes) → panic_text s m ≢ [])
      → IsOpen error_text panic_text (rpc_services S) c
      → (n : Node S) (cl : Client) (rs : List PeerSyncCall) → All IsCall rs
      → input cl (serve_conn error_text panic_text (rpc_services S) c 0 n (wire_items rs)).sent
        ≡ answers n cl rs
  input-serve_peer_sync ends he hp o n cl rs h =
      ap (λ items. input cl (serve_conn error_text panic_text (rpc_services S) c 0 n items).sent)
        (sym (wire_lem rs))
      ∙ input-serve_conn error_text panic_text (rpc_services S) c he hp o 0 n cl (map request rs)
          (requests-IsServable ends rs h)
      ∙ direct-answers n cl rs

-- ===== src/Node/Methods/Tests.antt =====
-- A call of `PeerSync` of a node, and a message that starts a goroutine of one, on concrete data.
use juren_cluster.Prelude.{◌≡◌, ◌≢◌, refl, arith, true, false, [], ◌∷◌, ◌++◌, Bytes}
use juren_cluster.Outcome.{Result, Error, ok, err, stuck, decode_error, shut_down}
use juren_cluster.LevelDb.Memory.{memory}
use juren_cluster.LevelDb.Codec.{decode_block-ends}
use juren_cluster.Protocol.{PeerSyncRequest}
use juren_cluster.Services.{GoType}
use juren_cluster.Rpc.Wire.{RequestHeader}
use juren_cluster.Rpc.Client.{Client, new_client, register, input}
use juren_cluster.Rpc.Server.{Conn, serve_conn}
use juren_cluster.Rpc.Server.Dispatch.{IsOpen}
use juren_cluster.PubSub.{Codec, listen, ended}
use juren_cluster.PubSub.Located.{IsReadBack}
use juren_cluster.Examples.{peer, node_b, block_a}
use juren_cluster.Node.Methods.{
  Body, sync_request, rpc_services, called_as, Message, discovery, pub_sub_services, published_as,
  Sender,
}
use juren_cluster.Node.Methods.Called.{
  PeerSyncCall, IsCall, wire_items, answers, input-serve_peer_sync,
}
use juren_cluster.Node.Methods.Published.{type_of, datagrams, tasks_of, listen-tasks_of}

data Packet : Type 0 where
  head : RequestHeader → Packet
  argument : Body → Packet

abbrev as_header : Packet → Result RequestHeader
as_header (head h) = ok h
as_header (argument v) = err decode_error

abbrev as_argument : GoType → Packet → Result Body
as_argument t (head h) = err decode_error
as_argument t (argument v) = ok v

abbrev open_conn : Conn Packet Body
open_conn = record {
  done = λ k. false;
  decode_header = as_header;
  decode_argument = as_argument;
  sends_header = λ k seq text. true;
  sends_body = λ k v. true;
}

abbrev error_text : Error → Bytes
error_text e = 101 ∷ []

abbrev panic_text : Bytes → Bytes → Bytes
panic_text s m = 112 ∷ s

abbrev from_the_start : PeerSyncRequest
from_the_start = record { node_id = node_b; sequence_number = 1; batch_size = 100 }

abbrev first_call : PeerSyncCall memory error_text panic_text open_conn
first_call = record {
  header_item = head (record { method = called_as; seq = 0; token = [] });
  argument_item = argument (sync_request from_the_start);
  seq = 0;
  token = [];
  req = from_the_start;
}

memory-ends : (raw : Bytes) → memory.unmarshal_block raw ≢ stuck
unfolding memory
memory-ends = decode_block-ends

first_call-IsCall : IsCall memory error_text panic_text open_conn first_call
first_call-IsCall = record { decodes_header = refl; decodes_argument = refl }

abbrev one_pending : Client
one_pending = register new_client 31

open_conn-IsOpen : IsOpen error_text panic_text (rpc_services memory) open_conn
open_conn-IsOpen = record {
  not_done = λ k. refl;
  header_sent = λ k seq text. refl;
  body_sent = λ k v. refl;
}

input-serve_peer_sync_example :
    input one_pending
      (serve_conn error_text panic_text
        (rpc_services memory)
        open_conn
        0
        peer
        (wire_items memory error_text panic_text open_conn (first_call ∷ []))).sent
    ≡ answers memory error_text panic_text open_conn peer one_pending (first_call ∷ [])
input-serve_peer_sync_example =
    input-serve_peer_sync memory error_text panic_text open_conn memory-ends (λ e h. cc h)
      (λ s m h. cc h) open_conn-IsOpen peer one_pending (first_call ∷ []) (first_call-IsCall, tt)

-- A codec that knows the text of one message, by the number 1.
abbrev known : Message
known = discovery (record { oid = block_a })

abbrev known_codec : Codec Message
known_codec = record {
  encode_header = λ text. ok [];
  encode_argument = λ m. ok (1 ∷ []);
  decode_header = λ bytes. ok (published_as known, bytes);
  decode_argument = λ t bytes. ok known;
}

abbrev unresolved : Bytes → Result Bytes
unresolved addr = err decode_error

abbrev sender : Sender
sender = ([], record { instant = 0; form = 0 })

known-IsReadBack : IsReadBack known_codec (published_as known) (type_of unresolved known) known
known-IsReadBack = record {
  head = [];
  rest = 1 ∷ [];
  encodes_header = refl;
  encodes_argument = refl;
  decodes_header = refl;
  decodes_argument = refl;
  fits = omega arith;
}

listen-tasks_of_example :
    listen known_codec
      (pub_sub_services unresolved)
      []
      (datagrams unresolved known_codec shut_down ((sender, known) ∷ []))
    ≡ ended shut_down ([] ++ tasks_of unresolved known_codec ((sender, known) ∷ []))
listen-tasks_of_example =
    listen-tasks_of unresolved known_codec shut_down [] ((sender, known) ∷ [])
      (known-IsReadBack, tt)

-- ===== src/Rpc/Server/Tests.antt =====
-- The server of net/crpc with one service of one method, and a client that calls it twice.
use juren_cluster.Prelude.{
  bytes_eq, ℕ, ◌+◌, ◌≡◌, ◌≢◌, refl, arith, true, false, List, [], ◌∷◌, Bytes, leb, if◌then◌else◌,
}
use juren_cluster.Outcome.{Result, Error, ok, err, stuck, decode_error, invalid_argument}
use juren_cluster.Services.Names.{is_plain-IsPlain}
use juren_cluster.Services.{GoType, pointer, named, Receiver, find}
use juren_cluster.Rpc.Wire.{RequestHeader}
use juren_cluster.Rpc.Client.{Client, new_client, register, input}
use juren_cluster.Rpc.Server.{MethodType, Services, Func, Conn, error_type, serve_conn}
use juren_cluster.Rpc.Server
use juren_cluster.Rpc.Server.Dispatch.{Request, IsServable, IsOpen, wire}
use juren_cluster.Rpc.EndToEnd.{direct, input-serve_conn}

data Packet : Type 0 where
  head : RequestHeader → Packet
  argument : ℕ → Packet

-- Adds the argument to the state, unless it is too large.
abbrev add : ℕ → ℕ → ℕ × Result ℕ
add w v = if leb v 9 then (w + v, ok (w + v)) else (w, err invalid_argument)

abbrev number : GoType
number = pointer (named (105 ∷ 110 ∷ 116 ∷ []) [])

abbrev add_type : MethodType (Func ℕ ℕ)
add_type = record { func = add; arg_type = number; reply_type = number }

-- "Sum.Add"
abbrev sum : Bytes
sum = 83 ∷ 117 ∷ 109 ∷ []

abbrev add_name : Bytes
add_name = 65 ∷ 100 ∷ 100 ∷ []

abbrev counter : Receiver (Func ℕ ℕ)
counter = record {
  typ = pointer (named sum (112 ∷ []));
  methods =
      record {
        name = add_name;
        exported = true;
        inputs = pointer (named sum (112 ∷ [])) ∷ number ∷ number ∷ [];
        outputs = error_type ∷ [];
        func = add;
      }
      ∷ [];
}

abbrev sums : Services (Func ℕ ℕ)
sums = (sum, (add_name, add_type) ∷ []) ∷ []

abbrev as_header : Packet → Result RequestHeader
as_header (head h) = ok h
as_header (argument v) = err decode_error

abbrev as_argument : GoType → Packet → Result ℕ
as_argument t (head h) = err decode_error
as_argument t (argument v) = ok v

abbrev open_conn : Conn Packet ℕ
open_conn = record {
  done = λ k. false;
  decode_header = as_header;
  decode_argument = as_argument;
  sends_header = λ k seq text. true;
  sends_body = λ k v. true;
}

abbrev error_text : Error → Bytes
error_text e = 101 ∷ []

abbrev panic_text : Bytes → Bytes → Bytes
panic_text s m = 112 ∷ s

abbrev add_header : ℕ → RequestHeader
add_header seq = record {
  method = 83 ∷ 117 ∷ 109 ∷ 46 ∷ 65 ∷ 100 ∷ 100 ∷ [];
  seq = seq;
  token = [];
}

abbrev add_request : ℕ → ℕ → Request error_text panic_text sums open_conn
add_request seq v = record {
  header_item = head (add_header seq);
  argument_item = argument v;
  req = add_header seq;
  service_name = sum;
  method_name = add_name;
  service = (add_name, add_type) ∷ [];
  mt = add_type;
  argv = v;
}

add_returns : (v w : ℕ) → (add w v).1 ≢ stuck
add_returns v w = ground arith

abbrev two_requests : List (Request error_text panic_text sums open_conn)
two_requests = add_request 0 7 ∷ add_request 1 70 ∷ []

add_request-IsServable :
    (seq v : ℕ) → IsServable error_text panic_text sums open_conn (add_request seq v)
unfolding find bytes_eq
add_request-IsServable seq v = record {
  decodes = refl;
  names = refl;
  plain = is_plain-IsPlain add_name refl;
  service_there = refl;
  method_there = refl;
  by_pointer = refl;
  argument = refl;
  returns = add_returns v;
}

open_conn-IsOpen : IsOpen error_text panic_text sums open_conn
open_conn-IsOpen = record {
  not_done = λ k. refl;
  header_sent = λ k seq text. refl;
  body_sent = λ k v. refl;
}

abbrev two_pending : Client
two_pending = register (register new_client 31) 32

input-serve_conn_example :
    input two_pending
      (serve_conn error_text panic_text sums open_conn 0 3
        (wire error_text panic_text sums open_conn two_requests)).sent
    ≡ direct error_text panic_text sums open_conn 3 two_pending two_requests
input-serve_conn_example =
    input-serve_conn error_text panic_text sums open_conn (λ e h. cc h) (λ s m h. cc h)
      open_conn-IsOpen 0 3 two_pending two_requests
      (add_request-IsServable 0 7, (add_request-IsServable 1 70, tt))

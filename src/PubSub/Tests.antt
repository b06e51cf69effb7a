-- ===== src/PubSub/Tests.antt =====
-- net/mpubsub/pubsub.go with a service of one handler.
use juren_cluster.Prelude.{
  ℕ, zero, suc, ◌+◌, ◌≡◌, refl, arith, true, [], ◌∷◌, Bytes, bytes_eq, length, take,
}
use juren_cluster.Outcome.{Result, ok, err, decode_error, shut_down}
use juren_cluster.Services.Names.{is_plain-IsPlain}
use juren_cluster.Services.{GoType, pointer, named, Receiver, find}
use juren_cluster.PubSub.{
  HandlerType, ServiceMap, Codec, publish, publisher_address, Handled, returned, Handler, Event,
  done, timeout, datagram, Listening, listen,
}
use juren_cluster.PubSub.Located.{no_header}
use juren_cluster.PubSub.Delivers.{
  Message, Arrives, at_done, timed_out, lost, published, direct, listen-direct,
}
use juren_cluster.PubSub
use juren_cluster.Services.Names

-- The text of a header with its length, and what follows it.
split : ℕ → Bytes → Bytes × Bytes
split n [] = ([], [])
split zero bytes = ([], bytes)
split (suc n) (b ∷ bytes) = let (text, rest) = split n bytes in (b ∷ text, rest)

header_of : Bytes → Result (Bytes × Bytes)
unfolding split
header_of [] = err decode_error
header_of (n ∷ bytes) = ok (split n bytes)

argument_of : Bytes → Result ℕ
argument_of (v ∷ []) = ok v
argument_of _ = err decode_error

abbrev plain_codec : Codec ℕ
plain_codec = record {
  encode_header = λ text. ok (length text ∷ text);
  encode_argument = λ v. ok (v ∷ []);
  decode_header = header_of;
  decode_argument = λ t bytes. argument_of bytes;
}

abbrev count : Handler ℕ ℕ ℕ
count w address v = returned (w + v)

abbrev number : GoType
number = pointer (named (105 ∷ 110 ∷ 116 ∷ []) [])

abbrev count_type : HandlerType (Handler ℕ ℕ ℕ)
count_type = record { func = count; arg_type = number }

-- "Sum.Add"
abbrev sum : Bytes
sum = 83 ∷ 117 ∷ 109 ∷ []

abbrev add_name : Bytes
add_name = 65 ∷ 100 ∷ 100 ∷ []

abbrev counter : Receiver (Handler ℕ ℕ ℕ)
counter = record {
  typ = pointer (named sum (112 ∷ []));
  methods =
      record {
        name = add_name;
        exported = true;
        inputs = pointer (named sum (112 ∷ [])) ∷ pointer publisher_address ∷ number ∷ [];
        outputs = [];
        func = count;
      }
      ∷ [];
}

abbrev sums : ServiceMap (Handler ℕ ℕ ℕ)
sums = (sum, (add_name, count_type) ∷ []) ∷ []

add_message : ℕ → Message plain_codec sums
unfolding find bytes_eq header_of argument_of split
add_message v = record {
  address = 9;
  service_name = sum;
  method_name = add_name;
  handlers = (add_name, count_type) ∷ [];
  handler = count_type;
  arg = v;
  plain = is_plain-IsPlain add_name refl;
  service_there = refl;
  handler_there = refl;
  read_back = record {
    head = 7 ∷ 83 ∷ 117 ∷ 109 ∷ 46 ∷ 65 ∷ 100 ∷ 100 ∷ [];
    rest = v ∷ [];
    encodes_header = refl;
    encodes_argument = refl;
    decodes_header = refl;
    decodes_argument = refl;
    fits = omega arith;
  };
}

abbrev add_datagram : ℕ → Event ℕ
add_datagram v =
    datagram (add_message v).address
      (publish plain_codec (Names.dotted (add_message v).service_name (add_message v).method_name)
        (add_message v).arg (ok tt)).0

no_text : (h : Bytes × Bytes) → header_of (take 2048 []) ≡ ok h → ⊥
unfolding header_of take
no_text h e = cc e

two_messages-Arrives :
    Arrives plain_codec sums shut_down
      (add_datagram 4 ∷ timeout ∷ datagram 8 [] ∷ add_datagram 5 ∷ done shut_down ∷ [])
      (add_message 4 ∷ add_message 5 ∷ [])
two_messages-Arrives = published (add_message 4) (ok tt) _ _ (
    timed_out _ _
      (lost 8 [] _ _ (no_header no_text) (published (add_message 5) (ok tt) _ _ (at_done []))))

listen-direct_example :
    listen plain_codec sums 3
      (add_datagram 4 ∷ timeout ∷ datagram 8 [] ∷ add_datagram 5 ∷ done shut_down ∷ [])
    ≡ direct plain_codec sums shut_down 3 (add_message 4 ∷ add_message 5 ∷ [])
listen-direct_example = listen-direct plain_codec sums shut_down 3 _ _ two_messages-Arrives

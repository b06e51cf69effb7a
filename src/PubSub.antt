-- ===== src/PubSub.antt =====
-- net/mpubsub/pubsub.go: messages to a multicast group, and the handlers that get them. A handler
-- takes the state of its receiver to a new one.
pub mod Register
pub mod Located
pub mod Delivers
mod Tests
use juren_cluster.Prelude.{
  ℕ, Bool, true, false, not, Option, none, some, List, [], ◌∷◌, ◌++◌, Bytes, ◌==◌, length, take,
  if◌then◌else◌,
}
use juren_cluster.Outcome.{Result, ok, err, panic, stuck, Error, Panic}
use juren_cluster.Services.{
  GoType, pointer, named, type_eq, is_pointer, indirect, type_name, is_exported,
  is_exported_or_builtin_type, Method, Receiver, split_at_last_dot, find, collected,
}

pub record HandlerType (F : Type 0) : Type 0 where
  pub func : F
  pub arg_type : GoType

abbrev pub Handlers : Type 0 → Type 0
Handlers F = List (Bytes × HandlerType F)

-- The map of the services; the first entry of a name counts.
abbrev pub ServiceMap : Type 0 → Type 0
ServiceMap F = List (Bytes × Handlers F)

-- `PublisherAddress` of juren/net/mpubsub
abbrev pub publisher_address : GoType
publisher_address =
    named
      (80 ∷ 117 ∷ 98 ∷ 108 ∷ 105 ∷ 115 ∷ 104 ∷ 101 ∷ 114 ∷ 65 ∷ 100 ∷ 100 ∷ 114 ∷ 101 ∷ 115 ∷ 115
        ∷ [])
      (106 ∷ 117 ∷ 114 ∷ 101 ∷ 110 ∷ 47 ∷ 110 ∷ 101 ∷ 116 ∷ 47 ∷ 109 ∷ 112 ∷ 117 ∷ 98 ∷ 115 ∷ 117
        ∷ 98 ∷ [])

module _ {F : Type 0} where
  unfoldable pub handler_inputs : Method F → List GoType → Option (HandlerType F)
  handler_inputs m (rcvr ∷ sender_type ∷ arg_type ∷ []) =
      if not (type_eq sender_type (pointer publisher_address))
      then none
      else if not (is_pointer arg_type)
      then none
      else if not (is_exported_or_builtin_type arg_type)
      then none
      else if not (length m.outputs == 0)
      then none
      else some (record { func = m.func; arg_type = arg_type })
  handler_inputs m _ = none

  -- One turn of the loop of `suitableHandlers`.
  unfoldable pub suitable_handler : Method F → Option (HandlerType F)
  unfolding handler_inputs
  suitable_handler m = if not m.exported then none else handler_inputs m m.inputs

  unfoldable pub suitable_handlers : List (Method F) → Handlers F
  unfolding collected
  suitable_handlers ms = collected suitable_handler ms

  -- What is refused is only logged.
  unfoldable pub register : ServiceMap F → Receiver F → ServiceMap F
  register services rcvr =
      let sname = type_name (indirect rcvr.typ) in
      let methods = suitable_handlers rcvr.methods in
      if length sname == 0
      then services
      else if not (is_exported sname)
      then services
      else if length methods == 0
      then services
      else (sname, methods) ∷ services

-- The CBOR codec. A header decodes to its text and what is left of the message.
pub record Codec (Value : Type 0) : Type 0 where
  pub encode_header : Bytes → Result Bytes
  pub encode_argument : Value → Result Bytes
  pub decode_header : Bytes → Result (Bytes × Bytes)
  pub decode_argument : GoType → Bytes → Result Value

-- What an encoder leaves in the buffer; its error is ignored.
abbrev pub buffered : Result Bytes → Bytes
buffered (ok bytes) = bytes
buffered _ = []

-- How a handler ends, with the new state.
pub data Handled (W : Type 0) : Type 0 where
  returned : W → Handled W
  panicked : Panic → W → Handled W

abbrev pub Handler : Type 0 → Type 0 → Type 0 → Type 0
Handler W Address Value = W → Address → Value → Handled W

module _ {Value : Type 0} (c : Codec Value) where
  -- The datagram that is written, and the error of writing it.
  unfoldable pub publish : Bytes → Value → Result (Unit {0}) → Bytes × Result (Unit {0})
  publish service_method args written =
      (buffered (c.encode_header service_method) ++ buffered (c.encode_argument args), written)

  pub data Target (F : Type 0) : Type 0 where
    dropped : Target F
    target : HandlerType F → Value → Target F

  with_argument : {F : Type 0} → HandlerType F → Result Value → Target F
  with_argument handler (ok arg) = target handler arg
  with_argument handler _ = dropped

  in_service : {F : Type 0} → Bytes → Option (HandlerType F) → Target F
  unfolding with_argument
  in_service rest none = dropped
  in_service rest (some handler) =
      with_argument handler (c.decode_argument (indirect handler.arg_type) rest)

  in_services : {F : Type 0} → Bytes → Bytes → Option (Handlers F) → Target F
  unfolding in_service
  in_services rest method_name none = dropped
  in_services rest method_name (some svc) = in_service rest (find method_name svc)

  by_name : {F : Type 0} → ServiceMap F → Bytes → Option (Bytes × Bytes) → Target F
  unfolding in_services
  by_name services rest none = dropped
  by_name services rest (some (service_name, method_name)) =
      in_services rest method_name (find service_name services)

  with_header : {F : Type 0} → ServiceMap F → Result (Bytes × Bytes) → Target F
  unfolding by_name
  with_header services (ok (service_method, rest)) =
      by_name services rest (split_at_last_dot service_method)
  with_header services _ = dropped

  -- From a datagram, which the buffer cuts off, to the handler and its argument.
  unfoldable pub locate : {F : Type 0} → ServiceMap F → Bytes → Target F
  unfolding with_header
  locate services bytes = with_header services (c.decode_header (take 2048 bytes))

-- What a turn of the loop meets: the context is done, the deadline cannot be set, the read gives up
-- at the deadline or fails, or a datagram arrives.
pub data Event (Address : Type 0) : Type 0 where
  done : Error → Event Address
  no_deadline timeout no_message : Event Address
  datagram : Address → Bytes → Event Address

-- How `Listen` stands: at the next turn, returned with an error, or gone with a panic of a handler,
-- which nothing recovers.
pub data Listening (W : Type 0) : Type 0 where
  listening : W → Listening W
  ended : Error → W → Listening W
  crashed : Panic → W → Listening W

module _ {W Address Value : Type 0} (c : Codec Value)
    (services : ServiceMap (Handler W Address Value)) where
  receive : W → Address → Target c (Handler W Address Value) → Handled W
  receive w address dropped = returned w
  receive w address (target handler arg) = handler.func w address arg

  after_receive : Handled W → (W → Listening W) → Listening W
  after_receive (returned w) next = next w
  after_receive (panicked p w) next = crashed p w

  unfoldable pub listen : W → List (Event Address) → Listening W
  unfolding receive after_receive locate
  listen w [] = listening w
  listen w (done e ∷ events) = ended e w
  listen w (no_deadline ∷ events) = listen w events
  listen w (timeout ∷ events) = listen w events
  listen w (no_message ∷ events) = listen w events
  listen w (datagram address bytes ∷ events) =
      after_receive (receive w address (locate c services bytes)) (λ w'. listen w' events)

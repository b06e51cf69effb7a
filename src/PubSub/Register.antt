-- ===== src/PubSub/Register.antt =====
-- What `Register` of net/mpubsub/pubsub.go accepts, and what is found afterwards.
use juren_cluster.Prelude.{
  ◌≡◌, true, false, some, [], ◌∷◌, Bytes, bytes_eq, length, All, ◌↔◌, ◌==◌, if◌then◌else◌,
}
use juren_cluster.Services.{
  GoType, pointer, type_eq, is_pointer, indirect, type_name, is_exported,
  is_exported_or_builtin_type, Method, Receiver, find,
}
use juren_cluster.PubSub.{HandlerType, Handlers, ServiceMap, publisher_address}

module _ {F : Type 0} where
  -- The rule for handlers: the address of the publisher and a pointer of a type that other packages
  -- can name go in, and nothing comes out.
  pub record IsHandler (m : Method F) (handler : HandlerType F) : Type 0 where
    pub exported : m.exported ≡ true
    pub rcvr : GoType
    pub sender : GoType
    pub inputs : m.inputs ≡ rcvr ∷ sender ∷ handler.arg_type ∷ []
    pub sender_address : type_eq sender (pointer publisher_address) ≡ true
    pub argument_pointer : is_pointer handler.arg_type ≡ true
    pub argument : is_exported_or_builtin_type handler.arg_type ≡ true
    pub outputs : (length m.outputs == 0) ≡ true
    pub same_func : handler.func ≡ m.func

  -- Why nothing is registered.
  pub data Refusal (rcvr : Receiver F) : Type 0 where
    unnamed : type_name (indirect rcvr.typ) ≡ [] → Refusal rcvr
    hidden : is_exported (type_name (indirect rcvr.typ)) ≡ false → Refusal rcvr
    unsuitable :
        All (λ m. (handler : HandlerType F) → ¬ IsHandler m handler) rcvr.methods → Refusal rcvr

  -- How a registration ends: nothing changes, for a reason, or the service is there, in place of one
  -- that had its name, and every method of the value is found in it exactly if it is a handler.
  pub data Subscribed (services : ServiceMap F) (rcvr : Receiver F) (out : ServiceMap F)
      : Type 0 where
    refused : Refusal rcvr → out ≡ services → Subscribed services rcvr out
    accepted :
        (handlers : Handlers F)
        → ((name : Bytes)
            → find name out ≡ (
                if bytes_eq (type_name (indirect rcvr.typ)) name
                then some handlers
                else find name services))
        → All
            (λ m.
              (handler : HandlerType F)
              → (find m.name handlers ≡ some handler) ↔ IsHandler m handler)
            rcvr.methods
        → Subscribed services rcvr out

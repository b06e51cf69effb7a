-- ===== src/Rpc/Server/Register.antt =====
-- What `Register` of net/crpc/server.go accepts, and what is found afterwards.
use juren_cluster.Prelude.{
  ◌≡◌, true, false, none, some, [], ◌∷◌, Bytes, bytes_eq, All, ◌↔◌, if◌then◌else◌,
}
use juren_cluster.Outcome.{
  Result, Error, ok, err, no_service_name, type_not_exported, no_suitable_methods, service_defined,
}
use juren_cluster.Services.{
  GoType, type_eq, is_pointer, indirect, type_name, is_exported, is_exported_or_builtin_type,
  Method, Receiver, find,
}
use juren_cluster.Rpc.Server.{MethodType, Service, Services, error_type}

module _ {F : Type 0} where
  -- The rule for methods of a service: one argument, a reply that is a pointer, both of types that
  -- other packages can name, and an error as the result.
  pub record IsSuitable (m : Method F) (mt : MethodType F) : Type 0 where
    pub exported : m.exported ≡ true
    pub rcvr : GoType
    pub inputs : m.inputs ≡ rcvr ∷ mt.arg_type ∷ mt.reply_type ∷ []
    pub argument : is_exported_or_builtin_type mt.arg_type ≡ true
    pub reply_pointer : is_pointer mt.reply_type ≡ true
    pub reply : is_exported_or_builtin_type mt.reply_type ≡ true
    pub result : GoType
    pub outputs : m.outputs ≡ result ∷ []
    pub result_error : type_eq result error_type ≡ true
    pub same_func : mt.func ≡ m.func

  made_type : Method F → GoType → GoType → MethodType F
  made_type m arg_type reply_type = record {
    func = m.func;
    arg_type = arg_type;
    reply_type = reply_type;
  }

  -- Why a registration is refused.
  pub data Refusal (services : Services F) (rcvr : Receiver F) : Error → Type 0 where
    unnamed : type_name (indirect rcvr.typ) ≡ [] → Refusal services rcvr no_service_name
    hidden :
        is_exported (type_name (indirect rcvr.typ)) ≡ false
        → Refusal services rcvr type_not_exported
    unsuitable :
        All (λ m. (mt : MethodType F) → ¬ IsSuitable m mt) rcvr.methods
        → Refusal services rcvr no_suitable_methods
    taken :
        (old : Service F)
        → find (type_name (indirect rcvr.typ)) services ≡ some old
        → Refusal services rcvr service_defined

  -- How a registration ends: it is refused for a reason and changes nothing, or the service is new,
  -- and every method of the value is found in it exactly if it is suitable.
  pub data Registered (services : Services F) (rcvr : Receiver F)
      (out : Services F × Result (Unit {0})) : Type 0 where
    refused :
        (e : Error)
        → Refusal services rcvr e
        → out ≡ (services, err e)
        → Registered services rcvr out
    accepted :
        (service : Service F)
        → out.1 ≡ ok tt
        → find (type_name (indirect rcvr.typ)) services ≡ none
        → ((name : Bytes)
            → find name out.0 ≡ (
                if bytes_eq (type_name (indirect rcvr.typ)) name
                then some service
                else find name services))
        → All
            (λ m. (mt : MethodType F) → (find m.name service ≡ some mt) ↔ IsSuitable m mt)
            rcvr.methods
        → Registered services rcvr out

-- ===== src/Rpc/Server.antt =====
-- net/crpc/server.go: the methods that a server registers, and what it does with the
-- requests of a connection. A method takes the state of its receiver to a new one.
pub mod Register
pub mod Dispatch
mod Tests
use juren_cluster.Prelude.{
  ℕ, suc, Bool, true, false, not, Option, none, some, List, [], ◌∷◌, ◌++◌, Bytes, ◌==◌, length,
  if◌then◌else◌,
}
use juren_cluster.Outcome.{
  Result, ok, err, panic, stuck, Error, argument_mismatch, no_service_name, type_not_exported,
  no_suitable_methods, service_defined,
}
use juren_cluster.Rpc.Wire.{RequestHeader, Sent, header, body}
use juren_cluster.Services.{
  GoType, pointer, named, type_eq, is_pointer, indirect, type_name, is_exported,
  is_exported_or_builtin_type, Method, Receiver, split_at_last_dot, find, collected,
}

pub record MethodType (F : Type 0) : Type 0 where
  pub func : F
  pub arg_type : GoType
  pub reply_type : GoType

-- "error", the type of Go's errors
abbrev pub error_type : GoType
error_type = named (101 ∷ 114 ∷ 114 ∷ 111 ∷ 114 ∷ []) []

-- A service is its methods; the map of a server has its services by name.
abbrev pub Service : Type 0 → Type 0
Service F = List (Bytes × MethodType F)

abbrev pub Services : Type 0 → Type 0
Services F = List (Bytes × Service F)

module _ {F : Type 0} where
  unfoldable pub suitable_outputs : Method F → GoType → GoType → List GoType → Option (MethodType F)
  suitable_outputs m arg_type reply_type (return_type ∷ []) =
      if type_eq return_type error_type
      then some (record { func = m.func; arg_type = arg_type; reply_type = reply_type })
      else none
  suitable_outputs m arg_type reply_type _ = none

  unfoldable pub suitable_inputs : Method F → List GoType → Option (MethodType F)
  unfolding suitable_outputs
  suitable_inputs m (rcvr ∷ arg_type ∷ reply_type ∷ []) =
      if not (is_exported_or_builtin_type arg_type)
      then none
      else if not (is_pointer reply_type)
      then none
      else if not (is_exported_or_builtin_type reply_type)
      then none
      else suitable_outputs m arg_type reply_type m.outputs
  suitable_inputs m _ = none

  -- One turn of the loop of `suitableMethods`.
  unfoldable pub suitable_method : Method F → Option (MethodType F)
  unfolding suitable_inputs
  suitable_method m = if not m.exported then none else suitable_inputs m m.inputs

  unfoldable pub suitable_methods : List (Method F) → Service F
  unfolding collected
  suitable_methods ms = collected suitable_method ms

  -- `LoadOrStore`
  unfoldable pub load_or_store :
      Bytes → Service F → Services F → Option (Service F) → Services F × Result (Unit {0})
  load_or_store name service services none = ((name, service) ∷ services, ok tt)
  load_or_store name service services (some old) = (services, err service_defined)

  unfoldable pub register : Services F → Receiver F → Services F × Result (Unit {0})
  unfolding suitable_methods load_or_store
  register services rcvr =
      let sname = type_name (indirect rcvr.typ) in
      let service = suitable_methods rcvr.methods in
      if length sname == 0
      then (services, err no_service_name)
      else if not (is_exported sname)
      then (services, err type_not_exported)
      else if length service == 0
      then (services, err no_suitable_methods)
      else load_or_store sname service services (find sname services)

-- Why a connection ends: the context is done; a header cannot be read, names no service and method,
-- or one that is not there; an argument cannot be read; a response cannot be sent; or a method does
-- not return.
pub data Stop : Type 0 where
  cancelled no_header ill_formed no_service no_method no_argument not_sent hung : Stop

-- The calls of a connection and its codec that `serveConn` makes for its k-th request: whether the
-- context is done before it is read, the decoder, and whether what is encoded goes out.
pub record Conn (Item Value : Type 0) : Type 0 where
  pub done : ℕ → Bool
  pub decode_header : Item → Result RequestHeader
  pub decode_argument : GoType → Item → Result Value
  pub sends_header : ℕ → ℕ → Bytes → Bool
  pub sends_body : ℕ → Value → Bool

-- How serving ends: `called` has the service and the method of each call that was counted.
pub record Served (W Value : Type 0) : Type 0 where
  pub world : W
  pub sent : List (Sent Value)
  pub called : List (Bytes × Bytes)
  pub stop : Stop

pub data Target (F : Type 0) : Type 0 where
  refused : Stop → Target F
  target : RequestHeader → Bytes → Bytes → MethodType F → Target F

module _ {F : Type 0} where
  in_service : RequestHeader → Bytes → Bytes → Option (MethodType F) → Target F
  in_service req service_name method_name none = refused no_method
  in_service req service_name method_name (some mt) = target req service_name method_name mt

  in_services : RequestHeader → Bytes → Bytes → Option (Service F) → Target F
  unfolding in_service
  in_services req service_name method_name none = refused no_service
  in_services req service_name method_name (some svc) =
      in_service req service_name method_name (find method_name svc)

  by_name : Services F → RequestHeader → Option (Bytes × Bytes) → Target F
  unfolding in_services
  by_name services req none = refused ill_formed
  by_name services req (some (service_name, method_name)) =
      in_services req service_name method_name (find service_name services)

  -- From the header to the method.
  unfoldable pub locate : Services F → Result RequestHeader → Target F
  unfolding by_name
  locate services (ok req) = by_name services req (split_at_last_dot req.method)
  locate services _ = refused no_header

-- A method runs in the state of the receiver; its reply is the result, if there is no error.
abbrev pub Func : Type 0 → Type 0 → Type 0
Func W Value = W → Value → W × Result Value

module _ {W Value : Type 0} where
  -- The argument is handed over as a pointer to what was decoded, of whatever type the method has it.
  unfoldable pub invoke : MethodType (Func W Value) → W → Value → W × Result Value
  invoke mt w argv = if is_pointer mt.arg_type then mt.func w argv else (w, panic argument_mismatch)

module _ {W Item Value : Type 0} (error_text : Error → Bytes) (panic_text : Bytes → Bytes → Bytes)
    (services : Services (Func W Value)) (c : Conn Item Value) where
  abbrev stopped : W → Stop → Served W Value
  stopped w s = record { world = w; sent = []; called = []; stop = s }

  -- The text of the error, which is empty where there is none; a panic is recovered to an error.
  unfoldable pub call_error : Bytes → Bytes → Result Value → Bytes
  call_error service_name method_name (ok v) = []
  call_error service_name method_name (err e) = error_text e
  call_error service_name method_name (panic p) = panic_text service_name method_name
  call_error service_name method_name stuck = []

  send_body : ℕ → ℕ → Bytes → W → Result Value → Served W Value → Served W Value
  send_body k seq text w (ok v) rest =
      if c.sends_body k v
      then record rest { sent = header seq text ∷ body v ∷ rest.sent }
      else record (stopped w not_sent) { sent = header seq text ∷ [] }
  send_body k seq text w r rest = record rest { sent = header seq text ∷ rest.sent }

  send_response : ℕ → ℕ → Bytes → W → Result Value → Served W Value → Served W Value
  unfolding send_body
  send_response k seq text w r rest =
      if c.sends_header k seq text then send_body k seq text w r rest else stopped w not_sent

  -- After the method has returned; `next` goes on with the next request.
  after_call :
      ℕ → RequestHeader → Bytes → Bytes → W × Result Value → (W → Served W Value) → Served W Value
  unfolding send_response call_error
  after_call k req service_name method_name (w, stuck) next = record (stopped w hung) {
    called = (service_name, method_name) ∷ [];
  }
  after_call k req service_name method_name (w, r) next =
      let served = send_response k req.seq (call_error service_name method_name r) w r (next w) in
      record served { called = (service_name, method_name) ∷ served.called }

  with_argument :
      ℕ
      → W
      → RequestHeader
      → Bytes
      → Bytes
      → MethodType (Func W Value)
      → Result Value
      → (W → Served W Value)
      → Served W Value
  unfolding after_call invoke
  with_argument k w req service_name method_name mt (ok argv) next =
      after_call k req service_name method_name (invoke mt w argv) next
  with_argument k w req service_name method_name mt _ next = stopped w no_argument

  -- The type of the value that an argument is decoded to.
  abbrev argument_type : GoType → GoType
  argument_type t = indirect t

  on_target : ℕ → W → Target (Func W Value) → Item → (W → Served W Value) → Served W Value
  unfolding with_argument
  on_target k w (refused s) item next = stopped w s
  on_target k w (target req service_name method_name mt) item next =
      with_argument k w req service_name method_name mt
        (c.decode_argument (argument_type mt.arg_type) item) next

  abbrev no_argument_for : Target (Func W Value) → Stop
  no_argument_for (refused s) = s
  no_argument_for (target req service_name method_name mt) = no_argument

  -- The loop, from the k-th request on, over what can be read from the connection: two items for
  -- each request.
  pub serve_conn : ℕ → W → List Item → Served W Value
  unfolding on_target locate
  serve_conn k w [] = stopped w (if c.done k then cancelled else no_header)
  serve_conn k w (h ∷ []) =
      stopped w
        (if c.done k then cancelled else no_argument_for (locate services (c.decode_header h)))
  serve_conn k w (h ∷ item ∷ items) =
      let next : W → Served W Value = λ w'. serve_conn (suc k) w' items in
      if c.done k
      then stopped w cancelled
      else on_target k w (locate services (c.decode_header h)) item next

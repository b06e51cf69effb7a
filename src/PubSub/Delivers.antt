-- ===== src/PubSub/Delivers.antt =====
-- What arrives at the handlers of net/mpubsub/pubsub.go: `Register`, `Publish` and `Listen` together.
use juren_cluster.Prelude.{◌≡◌, refl, sym, ◌∙◌, some, List, [], ◌∷◌, Bytes}
use juren_cluster.Outcome.{Result, Error}
use juren_cluster.Services.{indirect, find}
use juren_cluster.Services.Names.{IsPlain, dotted}
use juren_cluster.PubSub.{
  HandlerType, Handlers, ServiceMap, Codec, publish, dropped, target, locate, Handled, returned,
  panicked, Handler, Event, done, no_deadline, timeout, no_message, datagram, Listening, ended,
  crashed, listen, receive, after_receive,
}
use juren_cluster.PubSub.Located.{IsReadBack, IsLost, locate-publish, locate-IsLost}

module _ {W Address Value : Type 0} (c : Codec Value)
    (services : ServiceMap (Handler W Address Value)) where
  -- A message for a handler that is registered, of an argument that its codec reads back.
  pub record Message : Type 0 where
    pub address : Address
    pub service_name : Bytes
    pub method_name : Bytes
    pub handlers : Handlers (Handler W Address Value)
    pub handler : HandlerType (Handler W Address Value)
    pub arg : Value
    pub plain : IsPlain method_name
    pub service_there : find service_name services ≡ some handlers
    pub handler_there : find method_name handlers ≡ some handler
    pub read_back : IsReadBack c (dotted service_name method_name) (indirect handler.arg_type) arg

  -- What a loop meets up to the end of its context, and the published messages in it.
  pub data Arrives (e : Error) : List (Event Address) → List Message → Type 0 where
    at_done : (events : List (Event Address)) → Arrives e (done e ∷ events) []
    no_deadline_set :
        (events : List (Event Address)) (ms : List Message)
        → Arrives e events ms
        → Arrives e (no_deadline ∷ events) ms
    timed_out :
        (events : List (Event Address)) (ms : List Message)
        → Arrives e events ms
        → Arrives e (timeout ∷ events) ms
    not_read :
        (events : List (Event Address)) (ms : List Message)
        → Arrives e events ms
        → Arrives e (no_message ∷ events) ms
    lost :
        (address : Address) (bytes : Bytes) (events : List (Event Address)) (ms : List Message)
        → IsLost c services bytes
        → Arrives e events ms
        → Arrives e (datagram address bytes ∷ events) ms
    published :
        (m : Message) (written : Result (Unit {0})) (events : List (Event Address))
        (ms : List Message)
        → Arrives e events ms
        → Arrives e
            (datagram m.address (publish c (dotted m.service_name m.method_name) m.arg written).0
              ∷ events)
            (m ∷ ms)

  abbrev pub then_direct : Handled W → (W → Listening W) → Listening W
  then_direct (returned w) next = next w
  then_direct (panicked p w) next = crashed p w

  -- The handlers called directly, in the order of the messages.
  pub direct : Error → W → List Message → Listening W
  direct e w [] = ended e w
  direct e w (m ∷ ms) = then_direct (m.handler.func w m.address m.arg) (λ w'. direct e w' ms)

  pub direct-end : (e : Error) (w : W) → direct e w [] ≡ ended e w
  unfolding direct
  direct-end e w = refl

  pub direct-message :
      (e : Error) (w : W) (m : Message) (ms : List Message)
      → direct e w (m ∷ ms) ≡ then_direct (m.handler.func w m.address m.arg) (λ w'. direct e w' ms)
  unfolding direct
  direct-message e w m ms = refl

  listen-datagram :
      (w : W) (address : Address) (bytes : Bytes) (events : List (Event Address))
      → listen c services w (datagram address bytes ∷ events)
        ≡ after_receive c services
            (receive c services w address (locate c services bytes))
            (λ w'. listen c services w' events)
  unfolding listen
  listen-datagram w address bytes events = refl

  after_receive_lem :
      (r : Handled W) (next direct_next : W → Listening W)
      → ((w' : W) → next w' ≡ direct_next w')
      → after_receive c services r next ≡ then_direct r direct_next
  unfolding after_receive
  after_receive_lem (returned w) next direct_next same = same w
  after_receive_lem (panicked p w) next direct_next same = refl

  receive-target :
      (w : W) (address : Address) (handler : HandlerType (Handler W Address Value)) (arg : Value)
      (next direct_next : W → Listening W)
      → ((w' : W) → next w' ≡ direct_next w')
      → after_receive c services (receive c services w address (target handler arg)) next
        ≡ then_direct (handler.func w address arg) direct_next
  unfolding receive
  receive-target w address handler arg next direct_next same =
      after_receive_lem (handler.func w address arg) next direct_next same

  listen-no_deadline :
      (w : W) (events : List (Event Address))
      → listen c services w (no_deadline ∷ events) ≡ listen c services w events
  unfolding listen
  listen-no_deadline w events = refl

  listen-timeout :
      (w : W) (events : List (Event Address))
      → listen c services w (timeout ∷ events) ≡ listen c services w events
  unfolding listen
  listen-timeout w events = refl

  listen-no_message :
      (w : W) (events : List (Event Address))
      → listen c services w (no_message ∷ events) ≡ listen c services w events
  unfolding listen
  listen-no_message w events = refl

  receive-dropped :
      (w : W) (address : Address) (next : W → Listening W)
      → after_receive c services (receive c services w address dropped) next ≡ next w
  unfolding receive after_receive
  receive-dropped w address next = refl

  -- If a loop of `Listen` meets published messages for registered handlers that its codec reads
  -- back from at most 2048 bytes, datagrams that decode to no message for a handler, timeouts
  -- and failed reads, and then the end of its context, it ends as the handlers of the messages
  -- do when they are called directly, in order: with the error of the context, or with the first
  -- panic of a handler.
  pub listen-direct :
      (e : Error) (w : W) (events : List (Event Address)) (ms : List Message)
      → Arrives e events ms
      → listen c services w events ≡ direct e w ms
  listen-direct e w _ _ (at_done events) = unfold listen direct in refl
  listen-direct e w _ _ (no_deadline_set events ms a) =
      listen-no_deadline w events ∙ listen-direct e w events ms a
  listen-direct e w _ _ (timed_out events ms a) =
      listen-timeout w events ∙ listen-direct e w events ms a
  listen-direct e w _ _ (not_read events ms a) =
      listen-no_message w events ∙ listen-direct e w events ms a
  listen-direct e w _ _ (lost address bytes events ms h a) =
      listen-datagram w address bytes events
      ∙ rw (locate-IsLost c services bytes h) (
          receive-dropped w address (λ w'. listen c services w' events)
          ∙ listen-direct e w events ms a)
  listen-direct e w _ _ (published m written events ms a) =
      listen-datagram w m.address (publish c (dotted m.service_name m.method_name) m.arg written).0
        events
      ∙ rw
          (locate-publish c services m.service_name m.method_name m.handlers m.handler m.arg written
            m.plain m.service_there m.handler_there m.read_back)
          (receive-target w m.address m.handler m.arg (λ w'. listen c services w' events)
              (λ w'. direct e w' ms) (λ w'. listen-direct e w' events ms a)
            ∙ sym (direct-message e w m ms))

-- ===== src/PubSub/Located.antt =====
-- net/mpubsub/pubsub.go: the handler that a datagram of `Publish` gets to, and the datagrams that get to none.
use juren_cluster.Prelude.{
  ◌≡◌, ◌≢◌, ◌≤◌, refl, ◌∙◌, none, some, ◌++◌, Bytes, length, take, take-short,
}
use juren_cluster.Outcome.{Result, ok, err, panic, stuck}
use juren_cluster.Services.{GoType, indirect, find, split_at_last_dot}
use juren_cluster.Services.Names.{IsPlain, dotted, split_plain, split_at_last_dot-dotted}
use juren_cluster.PubSub.{
  HandlerType, Handlers, ServiceMap, Codec, publish, dropped, target, locate, with_header, by_name,
  in_services, in_service, with_argument, Handler,
}

module _ {Value : Type 0} (c : Codec Value) where
  -- The codec reads back a header, whatever follows it, and an argument of a type.
  pub record IsReadBack (method : Bytes) (t : GoType) (v : Value) : Type 0 where
    pub head : Bytes
    pub rest : Bytes
    pub encodes_header : c.encode_header method ≡ ok head
    pub encodes_argument : c.encode_argument v ≡ ok rest
    pub decodes_header : c.decode_header (head ++ rest) ≡ ok (method, rest)
    pub decodes_argument : c.decode_argument t rest ≡ ok v
    -- the buffer holds the datagram
    pub fits : length (head ++ rest) ≤ 2048

  publish_lem :
      (method : Bytes) (t : GoType) (v : Value) (written : Result (Unit {0}))
      (r : IsReadBack method t v)
      → (publish c method v written).0 ≡ r.head ++ r.rest
  unfolding publish
  publish_lem method t v written r = rw (r.encodes_header, r.encodes_argument)

  module _ {F : Type 0} where
    by_name_lem :
        (services : ServiceMap F) (name method rest : Bytes) (handlers : Handlers F)
        (handler : HandlerType F) (v : Value)
        → IsPlain method
        → find name services ≡ some handlers
        → find method handlers ≡ some handler
        → c.decode_argument (indirect handler.arg_type) rest ≡ ok v
        → by_name c services rest (split_at_last_dot (dotted name method)) ≡ target handler v
    unfolding by_name in_services in_service with_argument
    by_name_lem services name method rest handlers handler v plain there found decodes =
        rw (split_at_last_dot-dotted name method plain, there, found, decodes)

    pub locate-publish :
        (services : ServiceMap F) (name method : Bytes) (handlers : Handlers F)
        (handler : HandlerType F) (v : Value) (written : Result (Unit {0}))
        → IsPlain method
        → find name services ≡ some handlers
        → find method handlers ≡ some handler
        → IsReadBack (dotted name method) (indirect handler.arg_type) v
        → locate c services (publish c (dotted name method) v written).0 ≡ target handler v
    unfolding locate with_header
    locate-publish services name method handlers handler v written plain there found r =
        rw
          (
            publish_lem (dotted name method) (indirect handler.arg_type) v written r,
            take-short 2048 (r.head ++ r.rest) r.fits,
            r.decodes_header,
          )
          (by_name_lem services name method r.rest handlers handler v plain there found
            r.decodes_argument)

module _ {W Address Value : Type 0} (c : Codec Value)
    (services : ServiceMap (Handler W Address Value)) where
  -- Why a datagram is dropped: its header or its argument does not decode, or its text names no
  -- service and method, or one that is not there.
  pub data IsLost (bytes : Bytes) : Type 0 where
    no_header : ((h : Bytes × Bytes) → c.decode_header (take 2048 bytes) ≢ ok h) → IsLost bytes
    ill_formed :
        (method rest : Bytes)
        → c.decode_header (take 2048 bytes) ≡ ok (method, rest)
        → IsPlain method
        → IsLost bytes
    unknown_service :
        (name method rest : Bytes)
        → c.decode_header (take 2048 bytes) ≡ ok (dotted name method, rest)
        → IsPlain method
        → find name services ≡ none
        → IsLost bytes
    unknown_method :
        (name method rest : Bytes) (handlers : Handlers (Handler W Address Value))
        → c.decode_header (take 2048 bytes) ≡ ok (dotted name method, rest)
        → IsPlain method
        → find name services ≡ some handlers
        → find method handlers ≡ none
        → IsLost bytes
    no_argument :
        (name method rest : Bytes) (handlers : Handlers (Handler W Address Value))
        (handler : HandlerType (Handler W Address Value))
        → c.decode_header (take 2048 bytes) ≡ ok (dotted name method, rest)
        → IsPlain method
        → find name services ≡ some handlers
        → find method handlers ≡ some handler
        → ((v : Value) → c.decode_argument (indirect handler.arg_type) rest ≢ ok v)
        → IsLost bytes

  with_argument-dropped :
      (handler : HandlerType (Handler W Address Value)) (r : Result Value)
      → ((v : Value) → r ≢ ok v)
      → with_argument c handler r ≡ dropped
  unfolding with_argument
  with_argument-dropped handler (ok v) ne = absurd (ne v refl)
  with_argument-dropped handler (err e) ne = refl
  with_argument-dropped handler (panic p) ne = refl
  with_argument-dropped handler stuck ne = refl

  with_header-dropped :
      (r : Result (Bytes × Bytes))
      → ((h : Bytes × Bytes) → r ≢ ok h)
      → with_header c services r ≡ dropped
  unfolding with_header
  with_header-dropped (ok h) ne = absurd (ne h refl)
  with_header-dropped (err e) ne = refl
  with_header-dropped (panic p) ne = refl
  with_header-dropped stuck ne = refl

  locate-by_name :
      (bytes method rest : Bytes)
      → c.decode_header (take 2048 bytes) ≡ ok (method, rest)
      → locate c services bytes ≡ by_name c services rest (split_at_last_dot method)
  unfolding locate with_header
  locate-by_name bytes method rest e = rw e

  pub locate-IsLost : (bytes : Bytes) → IsLost bytes → locate c services bytes ≡ dropped
  unfolding by_name in_services in_service
  locate-IsLost bytes (no_header h) =
      unfold locate in with_header-dropped (c.decode_header (take 2048 bytes)) h
  locate-IsLost bytes (ill_formed method rest e plain) =
      locate-by_name bytes method rest e ∙ rw (split_plain method plain)
  locate-IsLost bytes (unknown_service name method rest e plain missing) =
      locate-by_name bytes (dotted name method) rest e
      ∙ rw (split_at_last_dot-dotted name method plain, missing)
  locate-IsLost bytes (unknown_method name method rest handlers e plain there missing) =
      locate-by_name bytes (dotted name method) rest e
      ∙ rw (split_at_last_dot-dotted name method plain, there, missing)
  locate-IsLost bytes (no_argument name method rest handlers handler e plain there found h) =
      locate-by_name bytes (dotted name method) rest e
      ∙ rw (split_at_last_dot-dotted name method plain, there, found)
          (with_argument-dropped handler (c.decode_argument (indirect handler.arg_type) rest) h)

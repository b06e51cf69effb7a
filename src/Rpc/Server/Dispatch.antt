-- ===== src/Rpc/Server/Dispatch.antt =====
-- What `serveConn` of net/crpc/server.go does with requests for methods that are there.
use juren_cluster.Prelude.{
  ℕ, suc, ◌≡◌, ◌≢◌, refl, ap, ◌∙◌, true, false, some, List, [], ◌∷◌, ◌++◌, map, Bytes, All,
}
use juren_cluster.Outcome.{Result, Error, ok, err, panic, stuck}
use juren_cluster.Services.{is_pointer, indirect, find, split_at_last_dot}
use juren_cluster.Services.Names.{IsPlain, dotted, split_at_last_dot-dotted}
use juren_cluster.Rpc.Wire.{RequestHeader, Sent, header, body}
use juren_cluster.Rpc.Server.{
  MethodType, Service, Services, Func, Conn, Served, no_header, target, invoke, locate, by_name,
  in_services, in_service, call_error, serve_conn, on_target, with_argument, after_call,
  send_response, send_body,
}

module _ {W Item Value : Type 0} (error_text : Error → Bytes) (panic_text : Bytes → Bytes → Bytes)
    (services : Services (Func W Value)) (c : Conn Item Value) where
  -- A request: its two items, and what they are for.
  pub record Request : Type 0 where
    pub header_item : Item
    pub argument_item : Item
    pub req : RequestHeader
    pub service_name : Bytes
    pub method_name : Bytes
    pub service : Service (Func W Value)
    pub mt : MethodType (Func W Value)
    pub argv : Value

  -- The items decode to a request for a method that is registered, takes a pointer and returns.
  pub record IsServable (r : Request) : Type 0 where
    pub decodes : c.decode_header r.header_item ≡ ok r.req
    pub names : r.req.method ≡ dotted r.service_name r.method_name
    pub plain : IsPlain r.method_name
    pub service_there : find r.service_name services ≡ some r.service
    pub method_there : find r.method_name r.service ≡ some r.mt
    pub by_pointer : is_pointer r.mt.arg_type ≡ true
    pub argument : c.decode_argument (indirect r.mt.arg_type) r.argument_item ≡ ok r.argv
    pub returns : (w : W) → (r.mt.func w r.argv).1 ≢ stuck

  abbrev pub wire : List Request → List Item
  wire [] = []
  wire (r ∷ rs) = r.header_item ∷ r.argument_item ∷ wire rs

  abbrev pub response : Request → Result Value → List (Sent Value)
  response r (ok v) = header r.req.seq [] ∷ body v ∷ []
  response r (err e) = header r.req.seq (error_text e) ∷ []
  response r (panic p) = header r.req.seq (panic_text r.service_name r.method_name) ∷ []
  response r stuck = []

  -- The methods called one after the other: the last state, and the responses.
  abbrev pub local : W → List Request → W × List (Sent Value)
  local w [] = (w, [])
  local w (r ∷ rs) =
      let (w', result) = r.mt.func w r.argv in
      let (last, sent) = local w' rs in (last, response r result ++ sent)

  abbrev pub names_of : Request → Bytes × Bytes
  names_of r = (r.service_name, r.method_name)

  -- A connection that is not cancelled and takes what is sent.
  pub record IsOpen : Type 0 where
    pub not_done : (k : ℕ) → c.done k ≡ false
    pub header_sent : (k seq : ℕ) (text : Bytes) → c.sends_header k seq text ≡ true
    pub body_sent : (k : ℕ) (v : Value) → c.sends_body k v ≡ true

  after_call_lem :
      IsOpen
      → (k : ℕ) (r : Request) (w : W) (result : Result Value) (next : W → Served W Value)
      → result ≢ stuck
      → after_call error_text panic_text services c k r.req r.service_name r.method_name
          (w, result)
          next
        ≡ record (next w) {
          sent = response r result ++ (next w).sent;
          called = names_of r ∷ (next w).called;
        }
  unfolding after_call send_response send_body call_error
  after_call_lem o k r w (ok v) next ne = rw (o.header_sent, o.body_sent)
  after_call_lem o k r w (err e) next ne = rw o.header_sent
  after_call_lem o k r w (panic p) next ne = rw o.header_sent
  after_call_lem o k r w stuck next ne = absurd (ne refl)

  by_name_lem :
      (r : Request)
      → IsServable r
      → by_name services r.req (split_at_last_dot (dotted r.service_name r.method_name))
        ≡ target r.req r.service_name r.method_name r.mt
  unfolding by_name in_services in_service
  by_name_lem r s = rw (
    split_at_last_dot-dotted r.service_name r.method_name s.plain,
    s.service_there,
    s.method_there,
  )

  locate_lem :
      (r : Request)
      → IsServable r
      → locate services (c.decode_header r.header_item)
        ≡ target r.req r.service_name r.method_name r.mt
  unfolding locate
  locate_lem r s =
      rw s.decodes
        (ap (λ m. by_name services r.req (split_at_last_dot m)) s.names ∙ by_name_lem r s)

  serve_conn-step :
      (k : ℕ) (w : W) (h item : Item) (items : List Item)
      → c.done k ≡ false
      → serve_conn error_text panic_text services c k w (h ∷ item ∷ items)
        ≡ on_target error_text panic_text services c k w
            (locate services (c.decode_header h))
            item
            (λ w'. serve_conn error_text panic_text services c (suc k) w' items)
  unfolding serve_conn
  serve_conn-step k w h item items e = rw e

  serve_conn-end :
      IsOpen
      → (k : ℕ) (w : W)
      → serve_conn error_text panic_text services c k w []
        ≡ record { world = w; sent = []; called = []; stop = no_header }
  unfolding serve_conn
  serve_conn-end o k w = rw (o.not_done k)

  on_target_lem :
      IsOpen
      → (k : ℕ) (r : Request) (w : W) (next : W → Served W Value) → IsServable r
      → on_target error_text panic_text services c k w
          (target r.req r.service_name r.method_name r.mt)
          r.argument_item
          next
        ≡ record (next (r.mt.func w r.argv).0) {
          sent = response r (r.mt.func w r.argv).1 ++ (next (r.mt.func w r.argv).0).sent;
          called = names_of r ∷ (next (r.mt.func w r.argv).0).called;
        }
  unfolding on_target with_argument invoke
  on_target_lem o k r w next s =
      rw (s.argument, s.by_pointer)
        (after_call_lem o k r (r.mt.func w r.argv).0 (r.mt.func w r.argv).1 next (s.returns w))

  pub serve_conn-local :
      IsOpen
      → (k : ℕ) (w : W) (rs : List Request) → All IsServable rs
      → serve_conn error_text panic_text services c k w (wire rs) ≡ record {
        world = (local w rs).0;
        sent = (local w rs).1;
        called = map names_of rs;
        stop = no_header;
      }
  serve_conn-local o k w [] h = serve_conn-end o k w
  serve_conn-local o k w (r ∷ rs) (s, h) =
      serve_conn-step k w r.header_item r.argument_item (wire rs) (o.not_done k)
      ∙ rw (locate_lem r s) (
          on_target_lem o k r w
            (λ w'. serve_conn error_text panic_text services c (suc k) w' (wire rs)) s
          ∙ rw (serve_conn-local o (suc k) (r.mt.func w r.argv).0 rs h))

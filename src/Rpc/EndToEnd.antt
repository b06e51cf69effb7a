-- ===== src/Rpc/EndToEnd.antt =====
-- net/crpc: what `serveConn` of server.go sends, read by `input` of client.go.
use juren_cluster.Prelude.{ℕ, ◌≡◌, ◌≢◌, refl, ap, ◌∙◌, none, some, List, [], ◌∷◌, ◌++◌, Bytes, All}
use juren_cluster.Outcome.{Result, Error, ok, err, panic, stuck, server_error}
use juren_cluster.Rpc.Wire.{Sent, header}
use juren_cluster.Rpc.Client.{Client, call_at, respond, reply_to, outcome_of, input}
use juren_cluster.Rpc.Server.{Services, Func, Conn, Served, serve_conn}
use juren_cluster.Rpc.Server.Dispatch.{
  Request, IsServable, IsOpen, wire, response, local, serve_conn-local,
}

module _ {W Item Value : Type 0} (error_text : Error → Bytes) (panic_text : Bytes → Bytes → Bytes)
    (services : Services (Func W Value)) (c : Conn Item Value) where
  -- How one call ends for the client, from the result of the method.
  abbrev pub answered :
      Client → Request error_text panic_text services c → Result Value → Client × List (ℕ × Value)
  answered cl r (ok v) = (respond cl r.req.seq none, reply_to (call_at r.req.seq cl.pending) v)
  answered cl r (err e) = (respond cl r.req.seq (some (server_error (error_text e))), [])
  answered cl r (panic p) =
      (respond cl r.req.seq (some (server_error (panic_text r.service_name r.method_name))), [])
  answered cl r stuck = (cl, [])

  -- The methods called directly, one after the other, each with its answer.
  abbrev pub direct :
      W → Client → List (Request error_text panic_text services c) → Client × List (ℕ × Value)
  direct w cl [] = (cl, [])
  direct w cl (r ∷ rs) =
      let (w', result) = r.mt.func w r.argv in
      let (cl', replies) = answered cl r result in
      let (last, more) = direct w' cl' rs in (last, replies ++ more)

  outcome_of_lem : (text : Bytes) → text ≢ [] → outcome_of text ≡ some (server_error text)
  outcome_of_lem [] ne = absurd (ne refl)
  outcome_of_lem (t ∷ text) ne = refl

  input-failure :
      (cl : Client) (seq : ℕ) (text : Bytes) (items : List (Sent Value))
      → text ≢ []
      → input cl (header seq text ∷ items) ≡ input (respond cl seq (some (server_error text))) items
  unfolding input
  input-failure cl seq [] items ne = absurd (ne refl)
  input-failure cl seq (t ∷ text) items ne = refl

  input-response :
      ((e : Error) → error_text e ≢ [])
      → ((s m : Bytes) → panic_text s m ≢ [])
      → (cl : Client) (r : Request error_text panic_text services c) (result : Result Value)
        (items : List (Sent Value))
      → input cl (response error_text panic_text services c r result ++ items) ≡ (
        (input (answered cl r result).0 items).0,
        (answered cl r result).1 ++ (input (answered cl r result).0 items).1,
      )
  unfolding input
  input-response he hp cl r (ok v) items = refl
  input-response he hp cl r (err e) items = input-failure cl r.req.seq (error_text e) items (he e)
  input-response he hp cl r (panic p) items =
      input-failure cl r.req.seq (panic_text r.service_name r.method_name) items
        (hp r.service_name r.method_name)
  input-response he hp cl r stuck items = refl

  input-local :
      ((e : Error) → error_text e ≢ [])
      → ((s m : Bytes) → panic_text s m ≢ [])
      → (w : W) (cl : Client) (rs : List (Request error_text panic_text services c))
      → input cl (local error_text panic_text services c w rs).1 ≡ direct w cl rs
  input-local he hp w cl [] = unfold input in refl
  input-local he hp w cl (r ∷ rs) =
      let (w', result) = r.mt.func w r.argv in
      input-response he hp cl r result (local error_text panic_text services c w' rs).1
      ∙ rw (input-local he hp w' (answered cl r result).0 rs)

  -- If the texts of errors and panics are not empty, the connection is not cancelled and takes
  -- what is sent, and every request names a registered method that takes a pointer and returns,
  -- with an argument that decodes: what the client makes of what the server sends for the
  -- requests is what the methods give when they are called directly, one after the other, each
  -- with its reply or its error.
  pub input-serve_conn :
      ((e : Error) → error_text e ≢ [])
      → ((s m : Bytes) → panic_text s m ≢ [])
      → IsOpen error_text panic_text services c
      → (k : ℕ) (w : W) (cl : Client) (rs : List (Request error_text panic_text services c))
      → All (IsServable error_text panic_text services c) rs
      → input cl
          (serve_conn error_text panic_text services c k w
            (wire error_text panic_text services c rs)).sent
        ≡ direct w cl rs
  input-serve_conn he hp o k w cl rs h =
      ap (λ (s : Served W Value). input cl s.sent)
        (serve_conn-local error_text panic_text services c o k w rs h)
      ∙ input-local he hp w cl rs

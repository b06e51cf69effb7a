-- ===== src/Rpc/Client/Runs.antt =====
-- The runs of a connection of net/crpc/client.go: its steps, in whatever order they come.
use juren_cluster.Prelude.{
  ℕ, ◌≡◌, Bool, true, false, Option, some, List, [], ◌∷◌, ◌==◌, if◌then◌else◌,
}
use juren_cluster.Outcome.{Result, Error}
use juren_cluster.Rpc.Client.{
  call_at, Client, new_client, register, sent, send_failed, respond, terminate, close,
}

-- A run of a connection, with the calls that were started, the latest first.
pub data Run : Client → List ℕ → Type 0 where
  begin : Run new_client []
  registered :
      (c : Client) (started : List ℕ) (call : ℕ)
      → Run c started
      → Run (register c call) (call ∷ started)
  was_sent :
      (c : Client) (started : List ℕ) (seq call : ℕ)
      → Run c started
      → call_at seq c.sending ≡ some call
      → Run (sent c seq) started
  was_not_sent :
      (c : Client) (started : List ℕ) (seq call : ℕ) (e : Error)
      → Run c started
      → call_at seq c.sending ≡ some call
      → Run (send_failed c seq call e) started
  responded :
      (c : Client) (started : List ℕ) (seq : ℕ) (outcome : Option Error)
      → Run c started
      → c.shutdown ≡ false
      → Run (respond c seq outcome) started
  terminated :
      (c : Client) (started : List ℕ) (closed : Bool) (e : Error)
      → Run c started
      → c.shutdown ≡ false
      → Run (terminate c closed e) started
  was_closed :
      (c : Client) (started : List ℕ) (r : Result (Unit {0}))
      → Run c started
      → Run (close c r).0 started

unfoldable pub has_call : ℕ → List ℕ → Bool
has_call call [] = false
has_call call (d ∷ ds) = if d == call then true else has_call call ds

unfoldable pub finished : ℕ → List (ℕ × Option Error) → Bool
finished call [] = false
finished call ((d, e) ∷ ds) = if d == call then true else finished call ds

abbrev pub IsPending : Client → ℕ → Type 0
IsPending c call = (seq : ℕ) × (call_at seq c.pending ≡ some call)

-- ===== src/Rpc/Serve.antt =====
-- `Serve` of net/crpc/server.go: what the loop does with what `Accept` gives, one event for each
-- turn. Durations are nanoseconds.
pub mod Backoff
use juren_cluster.Prelude.{
  ℕ, ◌*◌, Bool, true, false, Option, none, some, List, [], ◌∷◌, ltb, ◌==◌, if◌then◌else◌,
}
use juren_cluster.Outcome.{Error}

-- What one call of `Accept` gives: a connection, or an error, which is a timeout or not. With an
-- error goes whether the context is done by then.
pub data Accepted : Type 0 where
  connection : ℕ → Accepted
  timeout : Bool → Accepted
  failure : Bool → Error → Accepted

-- What the loop does: it serves a connection, or sleeps.
pub data Action : Type 0 where
  serve_conn : ℕ → Action
  sleep : ℕ → Action

abbrev pub first_delay : ℕ
first_delay = 5000000

abbrev pub max_delay : ℕ
max_delay = 1000000000

capped : ℕ → ℕ
capped temp_delay = if ltb max_delay temp_delay then max_delay else temp_delay

unfoldable pub next_delay : ℕ → ℕ
unfolding capped
next_delay temp_delay = capped (if temp_delay == 0 then first_delay else temp_delay * 2)

-- The actions, and the error that the loop returned, if it did: `cancelled` is the context's.
pub serve : Error → ℕ → List Accepted → List Action × Option Error
unfolding next_delay
serve cancelled temp_delay [] = ([], none)
serve cancelled temp_delay (connection conn ∷ events) =
    let (actions, stopped) = serve cancelled 0 events in (serve_conn conn ∷ actions, stopped)
serve cancelled temp_delay (timeout true ∷ events) = ([], some cancelled)
serve cancelled temp_delay (timeout false ∷ events) =
    let (actions, stopped) = serve cancelled (next_delay temp_delay) events in
    (sleep (next_delay temp_delay) ∷ actions, stopped)
serve cancelled temp_delay (failure true e ∷ events) = ([], some cancelled)
serve cancelled temp_delay (failure false e ∷ events) = ([], some e)

-- ===== src/Rpc/Client.antt =====
-- net/crpc/client.go: the calls of one connection. Each section that holds the mutex, and each
-- completion of a call, is one step; the connection and the decoder decide which step comes next.
pub mod Runs
pub mod Consistent
pub mod Preserved
pub mod Ends
use juren_cluster.Prelude.{
  ℕ, ◌+◌, ◌%◌, ◌^◌, ◌≡◌, Bool, true, false, ◌||◌, Option, none, some, List, [], ◌∷◌, ◌++◌, Bytes,
  ◌==◌, if◌then◌else◌,
}
use juren_cluster.Rpc.Wire.{Sent, header, body}
use juren_cluster.Outcome.{Result, ok, err, Error, shut_down, server_error, decode_error}

-- A Go map from sequence numbers to calls. A call is its number here, for the pointer.
abbrev pub Calls : Type 0
Calls = List (ℕ × ℕ)

unfoldable pub call_at : ℕ → Calls → Option ℕ
call_at seq [] = none
call_at seq ((j, c) ∷ calls) = if j == seq then some c else call_at seq calls

unfoldable pub without_seq : ℕ → Calls → Calls
without_seq seq [] = []
without_seq seq ((j, c) ∷ calls) =
    let rest = without_seq seq calls in if j == seq then rest else (j, c) ∷ rest

-- The fields of `Client`, the sends that have registered their call and not ended, and the calls
-- that `done` was called for, each with its error, the latest first.
pub record Client : Type 0 where
  pub seq : ℕ
  pub pending : Calls
  pub closing : Bool
  pub shutdown : Bool
  pub sending : Calls
  pub completed : List (ℕ × Option Error)

abbrev pub new_client : Client
new_client = record {
  seq = 0;
  pending = [];
  closing = false;
  shutdown = false;
  sending = [];
  completed = [];
}

-- `send` up to the encoding of the request.
unfoldable pub register : Client → ℕ → Client
register c call =
    if c.closing || c.shutdown
    then record c { completed = (call, some shut_down) ∷ c.completed }
    else record c {
      seq = (c.seq + 1) % 2 ^ 64;
      pending = (c.seq, call) ∷ without_seq c.seq c.pending;
      sending = (c.seq, call) ∷ c.sending;
    }

-- The rest of `send`, where the encoding succeeds and where it fails.
unfoldable pub sent : Client → ℕ → Client
sent c seq = record c { sending = without_seq seq c.sending }

unfoldable pub send_failed : Client → ℕ → ℕ → Error → Client
send_failed c seq call e = record c {
  pending = without_seq seq c.pending;
  sending = without_seq seq c.sending;
  completed = (call, some e) ∷ c.completed;
}

-- One turn of the loop of `input`: a response with a sequence number, and the error that the call
-- gets, from the header or from the decoding of the reply.
unfoldable pub answer : Client → ℕ → Option Error → Option ℕ → Client
answer c seq outcome none = c
answer c seq outcome (some call) = record c {
  pending = without_seq seq c.pending;
  completed = (call, outcome) ∷ c.completed;
}

unfoldable pub respond : Client → ℕ → Option Error → Client
unfolding answer
respond c seq outcome = answer c seq outcome (call_at seq c.pending)

unfoldable pub fail_all : Error → Calls → List (ℕ × Option Error)
fail_all e [] = []
fail_all e ((seq, call) ∷ calls) = (call, some e) ∷ fail_all e calls

abbrev pub outcome_of : Bytes → Option Error
outcome_of [] = none
outcome_of text = some (server_error text)

module _ {Value : Type 0} where
  -- The reply is decoded into that of the call, if there is one.
  unfoldable pub reply_to : Option ℕ → Value → List (ℕ × Value)
  reply_to none v = []
  reply_to (some call) v = (call, v) ∷ []

  -- The loop of `input` over what the server sent, up to where it breaks off, and the replies of calls.
  -- What is not a header, or not a body where one is due, does not decode.
  unfoldable pub input : Client → List (Sent Value) → Client × List (ℕ × Value)
  unfolding respond reply_to
  input c [] = (c, [])
  input c (body v ∷ items) = (c, [])
  input c (header seq [] ∷ []) = (respond c seq (some decode_error), [])
  input c (header seq [] ∷ header seq' text ∷ items) = (respond c seq (some decode_error), [])
  input c (header seq [] ∷ body v ∷ items) =
      let (c', replies) = input (respond c seq none) items in
      (c', reply_to (call_at seq c.pending) v ++ replies)
  input c (header seq (t ∷ text) ∷ items) = input (respond c seq (outcome_of (t ∷ text))) items

-- "Terminate pending calls": `closed` says that the error is the end of the stream or of the
-- connection.
unfoldable pub terminate : Client → Bool → Error → Client
terminate c closed e = record c {
  shutdown = true;
  pending = [];
  completed = fail_all (if c.closing || closed then shut_down else e) c.pending ++ c.completed;
}

-- The result is that of `Close`, with `closed` what closing the connection gives.
pub close : Client → Result (Unit {0}) → Client × Result (Unit {0})
close c closed = if c.closing then (c, err shut_down) else (record c { closing = true }, closed)

-- Whether the `send` of a call has registered it and not returned.
unfoldable pub is_sending : ℕ → Calls → Bool
is_sending call [] = false
is_sending call ((seq, d) ∷ calls) = if d == call then true else is_sending call calls

-- What reading the channel of a call gives: nothing before the call is completed, and then
-- `call.Error`, which every completion overwrites. The latest completion is first in the list.
unfoldable pub latest_error : ℕ → List (ℕ × Option Error) → Option (Option Error)
latest_error call [] = none
latest_error call ((d, e) ∷ completed) = if d == call then some e else latest_error call completed

-- The select of `Call`: the error of the context, if that is what it takes, or the channel; nothing
-- while it waits.
received : Option Error → Option (Option Error) → Option (Result (Unit {0}))
received (some e) completion = some (err e)
received none none = none
received none (some none) = some (ok tt)
received none (some (some e)) = some (err e)

-- `Call` comes to its select when `send`, which `Go` runs for it, has returned.
pub call_result : Option Error → ℕ → Client → Option (Result (Unit {0}))
unfolding received latest_error is_sending
call_result expired call c =
    if is_sending call c.sending then none else received expired (latest_error call c.completed)

-- ===== src/Rpc/Tests.antt =====
-- The RPC transport of net/crpc on concrete events.
use juren_cluster.Prelude.{some, ◌≡◌, ◌↔◌, refl, arith, true, false, none, [], ◌∷◌, ◌++◌, All}
use juren_cluster.Outcome.{io_error, deadline_exceeded}
use juren_cluster.Rpc.Serve.{connection, serve_conn, serve}
use juren_cluster.Rpc.Serve.Backoff.{
  IsPatient, timeouts, sleeps, delay_after, serve-timeouts, serve-IsPatient,
}
use juren_cluster.Rpc.Client.{
  is_sending, call_result, Client, new_client, register, sent, respond, answer, terminate, call_at,
  without_seq,
}
use juren_cluster.Rpc.Client.Runs.{
  Run, begin, registered, was_sent, responded, terminated, has_call,
}
use juren_cluster.Rpc.Client.Ends.{Run-call_result}

serve-timeouts_example :
    serve deadline_exceeded 0 (connection 1 ∷ timeouts 3 ++ connection 2 ∷ []) ≡ (
      serve_conn 1 ∷ sleeps 0 3 ++ (serve deadline_exceeded (delay_after 3) (connection 2 ∷ [])).0,
      (serve deadline_exceeded (delay_after 3) (connection 2 ∷ [])).1,
    )
serve-timeouts_example = serve-timeouts deadline_exceeded 1 3 (connection 2 ∷ []) 0

serve-IsPatient_example : All IsPatient (serve deadline_exceeded 0 (timeouts 9)).0
serve-IsPatient_example = serve-IsPatient deadline_exceeded (timeouts 9)

-- Two calls, an answer to the first one, and the end of the connection.
abbrev two_calls : Client
two_calls = register (register new_client 11) 12

abbrev one_answered : Client
one_answered = respond two_calls 0 none

two_calls-Run : Run two_calls (12 ∷ 11 ∷ [])
two_calls-Run = registered _ _ 12 (registered _ _ 11 begin)

reading : two_calls.shutdown ≡ false
unfolding register
reading = refl

second_started : has_call 12 (12 ∷ 11 ∷ []) ≡ true
unfolding has_call
second_started = refl

one_answered-Run : Run one_answered (12 ∷ 11 ∷ [])
one_answered-Run = responded _ _ 0 none two_calls-Run reading

-- The second request is written, and the first one is not.
abbrev second_written : Client
second_written = sent one_answered 1

second_sending : call_at 1 one_answered.sending ≡ some 12
unfolding register respond answer call_at without_seq
second_sending = refl

second_written-Run : Run second_written (12 ∷ 11 ∷ [])
second_written-Run = was_sent _ _ 1 12 one_answered-Run second_sending

abbrev ended : Client
ended = terminate second_written false (io_error 5)

reading_on : second_written.shutdown ≡ false
unfolding sent register respond answer call_at without_seq
reading_on = refl

Run-call_result_example :
    (call_result (some deadline_exceeded) 12 ended ≡ none) ↔ (is_sending 12 ended.sending ≡ true)
unfolding terminate
Run-call_result_example =
    Run-call_result ended (12 ∷ 11 ∷ []) 12 (some deadline_exceeded)
      (terminated _ _ false (io_error 5) second_written-Run reading_on) (omega arith) second_started
      refl

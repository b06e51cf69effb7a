-- ===== src/Rpc/Client/Ends.antt =====
-- No call of net/crpc/client.go is lost, in whatever order its steps come.
use juren_cluster.Prelude.{
  Option, none, refl, Bool-cases, ◌==◌, ℕ, ◌≡◌, ◌≢◌, ◌↔◌, true, some, List, [], ◌∷◌, length, inl,
  inr, ◌⊎◌,
}
use juren_cluster.LevelDb.KeyOrder.{IsU64}
use juren_cluster.Outcome.{Error}
use juren_cluster.Rpc.Client.{
  Calls, call_at, Client, latest_error, is_sending, call_result, received,
}
use juren_cluster.Rpc.Client.Runs.{Run, has_call, finished, IsPending}
use juren_cluster.Rpc.Client.Preserved.{Run-IsConsistent}

-- Of a connection on which fewer than 2^64 calls are started, in whatever order its steps come:
-- every call that was started is pending under some number or completed.
pub Run-no_call_lost :
    (c : Client) (started : List ℕ) (call : ℕ)
    → Run c started
    → IsU64 (length started)
    → has_call call started ≡ true
    → IsPending c call ⊎ (finished call c.completed ≡ true)
Run-no_call_lost c started call run room h =
    (Run-IsConsistent c started run room).no_call_lost call h

-- Of a connection on which fewer than 2^64 calls are started, in whatever order its steps come:
-- once the loop over its input has ended, every call that was started is completed.
pub Run-all_calls_end :
    (c : Client) (started : List ℕ) (call : ℕ)
    → Run c started
    → IsU64 (length started)
    → has_call call started ≡ true
    → c.shutdown ≡ true
    → finished call c.completed ≡ true
unfolding call_at
Run-all_calls_end c started call run room h ended =
    let inv = Run-IsConsistent c started run room in
    elim (inv.no_call_lost call h) [
      | inl (seq, there) ↦ absurd (nothing_pending seq call c.pending (inv.stopped ended) there)
      | inr done ↦ done
    ]
  where
    nothing_pending :
        (seq call : ℕ) (calls : Calls) → calls ≡ [] → ¬ (call_at seq calls ≡ some call)
    nothing_pending seq call [] e there = cc there
    nothing_pending seq call (p ∷ calls) e there = absurd (cc e)

finished-latest_error :
    (call : ℕ) (completed : List (ℕ × Option Error))
    → finished call completed ≡ true
    → (e : Option Error) × (latest_error call completed ≡ some e)
unfolding finished latest_error
finished-latest_error call [] h = absurd (cc h)
finished-latest_error call ((d, e) ∷ completed) h = elim (Bool-cases (d == call)) [
  | inl this ↦ (e, rw this)
  | inr other ↦
      let (e', earlier) = finished-latest_error call completed (rw other at h) in
      (e', rw (other, earlier))
]

received-some : (expired e : Option Error) → received expired (some e) ≢ none
unfolding received
received-some (some x) e h = cc h
received-some none none h = cc h
received-some none (some e) h = cc h

-- Of a connection on which fewer than 2^64 calls are started, in whatever order its steps come:
-- once the loop over its input has ended, `Call` waits for a call that was started exactly as
-- long as the request of the call is still being written, whether or not its context is done.
pub Run-call_result :
    (c : Client) (started : List ℕ) (call : ℕ) (expired : Option Error)
    → Run c started
    → IsU64 (length started)
    → has_call call started ≡ true
    → c.shutdown ≡ true
    → (call_result expired call c ≡ none) ↔ (is_sending call c.sending ≡ true)
unfolding call_result
Run-call_result c started call expired run room h ended =
    let (e, there) =
      finished-latest_error call c.completed (Run-all_calls_end c started call run room h ended) in
    elim (Bool-cases (is_sending call c.sending)) [
      | inl writing ↦ rw writing (λ waits. refl, λ sends. refl)
      | inr written ↦
          rw (written, there) (λ waits. absurd (received-some expired e waits), λ sends. cc sends)
    ]

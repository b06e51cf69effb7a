-- ===== src/Rpc/Serve/Backoff.antt =====
-- The delays of the accept loop of net/crpc/server.go.
use Prim.Native.Nat.{min}
use native.Mathlib.Nat.{pow-suc}
use juren_cluster.Prelude.{
  ℕ, zero, suc, ◌+◌, ◌*◌, ◌^◌, ◌≤◌, ◌<◌, ◌≡◌, refl, ap, ◌∙◌, arith, true, false, Option, List, [],
  ◌∷◌, ◌++◌, All, inl, inr, ◌⊎◌,
}
use juren_cluster.Outcome.{Error}
use juren_cluster.Rpc.Serve.{
  Accepted, connection, timeout, failure, Action, serve_conn, sleep, first_delay, max_delay,
  next_delay, serve, capped,
}

-- The delay after some timeouts in a row.
abbrev pub delay_after : ℕ → ℕ
delay_after zero = 0
delay_after (suc k) = min (first_delay * 2 ^ k) max_delay

abbrev pub timeouts : ℕ → List Accepted
timeouts zero = []
timeouts (suc n) = timeout false ∷ timeouts n

-- The sleeps of `n` timeouts after `k` others.
abbrev pub sleeps : ℕ → ℕ → List Action
sleeps k zero = []
sleeps k (suc n) = sleep (delay_after (suc k)) ∷ sleeps (suc k) n

doubled :
    (x : ℕ)
    → 0 < x
    → next_delay (min (first_delay * x) max_delay) ≡ min (first_delay * (x * 2)) max_delay
unfolding next_delay capped
doubled x h = ground (arith, h)

pow_pos : (k : ℕ) → 0 < 2 ^ k
pow_pos zero = omega arith
pow_pos (suc k) = rw pow-suc (omega (arith, pow_pos k))

next_delay-delay_after : (k : ℕ) → next_delay (delay_after k) ≡ delay_after (suc k)
unfolding next_delay capped
next_delay-delay_after zero = refl
next_delay-delay_after (suc k) = rw pow-suc (doubled (2 ^ k) (pow_pos k))

timeouts_after :
    (cancelled : Error) (k n : ℕ) (events : List Accepted)
    → serve cancelled (delay_after k) (timeouts n ++ events) ≡ (
      sleeps k n ++ (serve cancelled (delay_after (k + n)) events).0,
      (serve cancelled (delay_after (k + n)) events).1,
    )
unfolding serve
timeouts_after cancelled k zero events = let same : k + 0 ≡ k = omega arith in rw same
timeouts_after cancelled k (suc n) events =
    let rest = timeouts n ++ events in
    let same : suc k + n ≡ k + suc n = omega arith in
    ap (λ (d : ℕ). (sleep d ∷ (serve cancelled d rest).0, (serve cancelled d rest).1))
      (next_delay-delay_after k)
    ∙ ap (λ (w : List Action × Option Error). (sleep (delay_after (suc k)) ∷ w.0, w.1))
        (timeouts_after cancelled (suc k) n events)
    ∙ ap
        (λ (m : ℕ). (
          sleep (delay_after (suc k)) ∷ sleeps (suc k) n
              ++ (serve cancelled (delay_after m) events).0,
          (serve cancelled (delay_after m) events).1,
        ))
        same

-- After a connection, a number of timeouts in a row makes the accept loop sleep once for each,
-- the first time for 5 ms and each time for twice as long as the last, but never longer than a
-- second, and then go on with the delay of the last sleep.
pub serve-timeouts :
    (cancelled : Error) (conn n : ℕ) (events : List Accepted) (temp_delay : ℕ)
    → serve cancelled temp_delay (connection conn ∷ timeouts n ++ events) ≡ (
      serve_conn conn ∷ sleeps 0 n ++ (serve cancelled (delay_after n) events).0,
      (serve cancelled (delay_after n) events).1,
    )
unfolding serve
serve-timeouts cancelled conn n events temp_delay =
    let same : 0 + n ≡ n = omega arith in
    ap (λ (w : List Action × Option Error). (serve_conn conn ∷ w.0, w.1))
      (rw same at (timeouts_after cancelled 0 n events))

-- No sleep is shorter than the first delay or longer than the longest.
abbrev pub IsPatient : Action → Type 0
IsPatient (serve_conn conn) = Unit {0}
IsPatient (sleep d) = (first_delay ≤ d) × (d ≤ max_delay)

abbrev IsDelay : ℕ → Type 0
IsDelay d = (d ≡ 0) ⊎ ((first_delay ≤ d) × (d ≤ max_delay))

next_delay-IsPatient : (d : ℕ) → IsDelay d → IsPatient (sleep (next_delay d))
unfolding next_delay capped
next_delay-IsPatient d (inl none_yet) = (ground (arith, none_yet), ground (arith, none_yet))
next_delay-IsPatient d (inr (low, high)) = (ground (arith, low, high), ground (arith, low, high))

serve_from-IsPatient :
    (cancelled : Error) (d : ℕ) (events : List Accepted)
    → IsDelay d
    → All IsPatient (serve cancelled d events).0
unfolding serve
serve_from-IsPatient cancelled d [] h = tt
serve_from-IsPatient cancelled d (connection conn ∷ events) h =
    (tt, serve_from-IsPatient cancelled 0 events (inl refl))
serve_from-IsPatient cancelled d (timeout true ∷ events) h = tt
serve_from-IsPatient cancelled d (timeout false ∷ events) h =
    let patient = next_delay-IsPatient d h in
    (patient, serve_from-IsPatient cancelled (next_delay d) events (inr patient))
serve_from-IsPatient cancelled d (failure true e ∷ events) h = tt
serve_from-IsPatient cancelled d (failure false e ∷ events) h = tt

-- Whatever `Accept` gives, every sleep of the accept loop is at least 5 ms and at most a second.
pub serve-IsPatient :
    (cancelled : Error) (events : List Accepted) → All IsPatient (serve cancelled 0 events).0
serve-IsPatient cancelled events = serve_from-IsPatient cancelled 0 events (inl refl)

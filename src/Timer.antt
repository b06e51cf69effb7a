-- ===== src/Timer.antt =====
-- helper/timer/timer.go: a function that runs periodically, and the jitter of the period. A duration
-- is an int64 as its 64 bits; the periods here are not negative.
pub mod Laws
mod Tests
use juren_cluster.Prelude.{
  ℕ, ◌+◌, ◌-◌, ◌*◌, ◌%◌, ◌^◌, Bool, true, false, List, [], ◌∷◌, leb, ◌==◌, if◌then◌else◌,
}
use juren_cluster.Outcome.{Result, ok, err, panic, stuck, Error, Panic}

pub record Interval : Type 0 where
  pub duration : ℕ
  pub jitter : ℕ

-- What `Jitter` gives: a duration, the end of the process by `log.Fatal`, or a panic of
-- `rand.Int63n`, whose argument has to be positive.
pub data Jittered : Type 0 where
  jittered : ℕ → Jittered
  fatal : Jittered
  not_positive : Jittered

-- `Jitter` of a `tickerJitter`; `int63n n` is below n.
unfoldable pub jitter : (ℕ → ℕ) → ℕ → ℕ → Jittered
jitter int63n max_jitter d =
    if leb d max_jitter
    then fatal
    else if max_jitter == 0
    then jittered d
    else if leb (2 ^ 63) (2 * max_jitter)
    then not_positive
    else jittered ((d + (int63n (2 * max_jitter) + (2 ^ 64 - max_jitter))) % 2 ^ 64)

-- What the loop meets: the context is done, or the ticker ticks, with what the function finds then.
pub data Tick (E : Type 0) : Type 0 where
  done : Error → Tick E
  tick : E → Tick E

-- How `RunWithTicker` stands: it waits, has returned an error, or is gone in the function.
pub data Running : Type 0 where
  waiting : Running
  returned : Error → Running
  panicked : Panic → Running
  hung : Running

module _ {E W : Type 0} (f : E → W → W × Result (Unit {0})) where
  -- After the function has returned; `next` waits for the next tick.
  after_run : W × Result (Unit {0}) → (W → W × Running) → W × Running
  after_run (w, ok u) next = next w
  after_run (w, err e) next = (w, returned e)
  after_run (w, panic p) next = (w, panicked p)
  after_run (w, stuck) next = (w, hung)

  unfoldable pub run_with_ticker : W → List (Tick E) → W × Running
  unfolding after_run
  run_with_ticker w [] = (w, waiting)
  run_with_ticker w (done e ∷ ticks) = (w, returned e)
  run_with_ticker w (tick x ∷ ticks) = after_run (f x w) (λ w'. run_with_ticker w' ticks)

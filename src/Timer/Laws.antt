-- ===== src/Timer/Laws.antt =====
-- helper/timer/timer.go: the bounds of a period, and what a function that does not fail comes to.
use juren_cluster.Prelude.{
  ℕ, ◌+◌, ◌-◌, ◌*◌, ◌%◌, ◌^◌, ◌<◌, ◌≤◌, ◌≡◌, refl, arith, false, List, [], ◌∷◌, leb, ◌==◌, map,
  ◌++◌, Bool-cases, inl, inr,
}
use juren_cluster.Outcome.{Result, ok, Error}
use juren_cluster.Timer.{jittered, jitter, done, tick, returned, run_with_ticker, after_run}

wraps_back :
    (max_jitter d r : ℕ)
    → max_jitter < d
    → d + max_jitter < 2 ^ 63
    → r < 2 * max_jitter
    → (d + (r + (2 ^ 64 - max_jitter))) % 2 ^ 64 ≡ d + r - max_jitter
wraps_back max_jitter d r less fits below = omega (arith, less, fits, below)

-- For a greatest jitter below the duration, where the two together fit an int64, and a source of
-- numbers that keeps its bound, `Jitter` gives a positive duration that is off by at most the
-- greatest jitter.
pub jitter-near :
    (int63n : ℕ → ℕ) (max_jitter d : ℕ)
    → ((n : ℕ) → 0 < n → int63n n < n)
    → max_jitter < d
    → d + max_jitter < 2 ^ 63
    → (period : ℕ) × (jitter int63n max_jitter d ≡ jittered period)
      × (d ≤ period + max_jitter)
      × (period ≤ d + max_jitter)
      × (0 < period)
unfolding jitter
jitter-near int63n max_jitter d below less fits =
    let enough : leb d max_jitter ≡ false = ground (arith, less) in
    elim (Bool-cases (max_jitter == 0)) [
      | inl none ↦
          (d, rw (enough, none), omega (arith, less), omega (arith, less), omega (arith, less))
      | inr some_jitter ↦
          let positive : leb (2 ^ 63) (2 * max_jitter) ≡ false = ground (arith, less, fits) in
          let has_jitter : 0 < 2 * max_jitter = ground (arith, some_jitter) in
          let r_below = below (2 * max_jitter) has_jitter in
          (
            d + int63n (2 * max_jitter) - max_jitter,
            rw (
              enough,
              some_jitter,
              positive,
              wraps_back max_jitter d (int63n (2 * max_jitter)) less fits r_below,
            ),
            omega (arith, less),
            omega (arith, less, r_below),
            omega (arith, less),
          )
    ]

-- The turns of a function that does not fail, one after the other.
abbrev pub fold : {E W : Type 0} → (E → W → W) → W → List E → W
fold g w [] = w
fold g w (x ∷ xs) = fold g (g x w) xs

module _ {E W : Type 0} (f : E → W → W × Result (Unit {0})) (g : E → W → W)
    (succeeds : (x : E) (w : W) → f x w ≡ (g x w, ok tt)) where
  pub run_with_ticker-fold :
      (e : Error) (w : W) (xs : List E)
      → run_with_ticker f w (map tick xs ++ done e ∷ []) ≡ (fold g w xs, returned e)
  unfolding run_with_ticker after_run
  run_with_ticker-fold e w [] = refl
  run_with_ticker-fold e w (x ∷ xs) = rw (succeeds x w) (run_with_ticker-fold e (g x w) xs)

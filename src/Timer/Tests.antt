-- ===== src/Timer/Tests.antt =====
-- helper/timer/timer.go on a period of five seconds with a jitter of one.
use juren_cluster.Prelude.{ℕ, ◌+◌, ◌-◌, ◌<◌, ◌≤◌, ◌≡◌, arith}
use juren_cluster.Timer.{jittered, jitter}
use juren_cluster.Timer.Laws.{jitter-near}

abbrev largest : ℕ → ℕ
largest n = n - 1

jitter-near_example :
    (period : ℕ) × (jitter largest 1000000000 5000000000 ≡ jittered period)
    × (5000000000 ≤ period + 1000000000)
    × (period ≤ 5000000000 + 1000000000)
    × (0 < period)
jitter-near_example =
    jitter-near largest 1000000000 5000000000 (λ n h. omega (arith, h)) (omega arith) (omega arith)

-- ===== src/Python/Clock.antt =====
-- The clocks that the code reads, as parameters over the state of the world. `monotonic_ns` and
-- `perf_counter_ns` never go back, so a truncated difference of two reads is the difference. Where
-- the code divides in floating point and truncates, the quotient is exact for runs of some months.
use io_iii_runtime.Prelude.{ℕ, ◌-◌, ◌/◌}

pub record Clock (W : Type 0) : Type 0 where
  pub time_ms : W → ℕ × W
  pub monotonic_ns : W → ℕ × W
  pub perf_counter_ns : W → ℕ × W

-- Whole milliseconds from `start` to `now`.
unfoldable pub elapsed_ms : ℕ → ℕ → ℕ
elapsed_ms start now = (now - start) / 1000000

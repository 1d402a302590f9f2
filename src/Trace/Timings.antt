-- ===== src/Trace/Timings.antt =====
-- `stage_timings` of `ExecutionTrace.to_dict` against the sum over the steps.
use io_iii_runtime.Prelude.{
  ℕ, ◌+◌, ◌≡◌, String, List, [], ◌∷◌, arith, if◌then◌else◌, str_eq, eq_iff,
}
use io_iii_runtime.Trace.{TraceStep, Timings, add_timing, stage_timings_from}

-- The entry of a stage, 0 if it has none.
unfoldable pub timing_of : String → Timings → ℕ
timing_of k [] = 0
timing_of k ((j, n) ∷ rest) = if str_eq j k then n else timing_of k rest

-- The durations of the steps of a stage, added up.
unfoldable pub duration_of : String → List TraceStep → ℕ
duration_of k [] = 0
duration_of k (s ∷ rest) =
    let later = duration_of k rest in if str_eq s.stage k then s.duration_ms + later else later

timing_of-add_timing :
    (k j : String) (n : ℕ) (acc : Timings)
    → timing_of k (add_timing j n acc)
      ≡ (if str_eq j k then timing_of k acc + n else timing_of k acc)
unfolding timing_of add_timing
timing_of-add_timing k j n [] = ground arith
timing_of-add_timing k j n ((i, m) ∷ rest) =
    ground (arith, timing_of-add_timing k j n rest, eq_iff i j, eq_iff i k, eq_iff j k)

timing_of-stage_timings_from :
    (k : String) (acc : Timings) (steps : List TraceStep)
    → timing_of k (stage_timings_from acc steps) ≡ timing_of k acc + duration_of k steps
unfolding stage_timings_from duration_of
timing_of-stage_timings_from k acc [] = omega arith
timing_of-stage_timings_from k acc (s ∷ rest) = ground (
  arith,
  timing_of-stage_timings_from k (add_timing s.stage s.duration_ms acc) rest,
  timing_of-add_timing k s.stage s.duration_ms acc,
)

-- The timing of each stage is the sum of the durations of its steps, however often it occurs, and
-- 0 for a stage that does not occur.
pub timing_of-stage_timings :
    (k : String) (steps : List TraceStep)
    → timing_of k (stage_timings_from [] steps) ≡ duration_of k steps
unfolding timing_of
timing_of-stage_timings k steps = omega (arith, timing_of-stage_timings_from k [] steps)

-- ===== src/Trace/Tests.antt =====
-- A short trace, and the theorems at it.
use io_iii_runtime.Prelude.{ℕ, ◌≡◌, refl, String, List, [], ◌∷◌}
use io_iii_runtime.Python.Value.{Fields}
use io_iii_runtime.Trace.{Status, TraceStep, ExecutionTrace, start, transition, stage_timings_from}
use io_iii_runtime.Trace.Lifecycle.{Arrow, Call, apply, apply-Arrow}
use io_iii_runtime.Trace.Timings.{timing_of, duration_of, timing_of-stage_timings}

abbrev timed : String → ℕ → TraceStep
timed s n = record { stage = s; started_at_ms = 5; duration_ms = n; meta = Fields.end }

abbrev fresh : ExecutionTrace
fresh = record { trace_id = "r1"; started_at_ms = 0; steps = []; status = Status.created }

apply-Arrow_example : Arrow Status.created Status.running
unfolding start transition apply
apply-Arrow_example =
    apply-Arrow Call.start_call fresh {t' = record fresh { status = Status.running }} refl

abbrev three_steps : List TraceStep
three_steps = timed "audit" 3 ∷ timed "provider_run" 4 ∷ timed "audit" 5 ∷ []

audit_total : duration_of "audit" three_steps ≡ 8
unfolding duration_of
audit_total = refl

timing_of-stage_timings_example :
    timing_of "audit" (stage_timings_from [] three_steps) ≡ duration_of "audit" three_steps
timing_of-stage_timings_example = timing_of-stage_timings "audit" three_steps

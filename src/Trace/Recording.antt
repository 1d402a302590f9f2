-- ===== src/Trace/Recording.antt =====
-- What one `with trace.step(…)` block does.
use io_iii_runtime.Prelude.{◌≡◌, refl, String, [], ◌∷◌, ◌++◌, arith, ◌⊎◌}
use io_iii_runtime.Python.Value.{Fields}
use io_iii_runtime.Python.Error.{Result, err}
use io_iii_runtime.Python.Clock.{Clock, elapsed_ms}
use io_iii_runtime.Trace.{Status, TraceStep, ExecutionTrace, lifecycle_err, step}
use io_iii_runtime.Trace.Lifecycle.{IsTerminal}

module _ {W : Type 0} (clock : Clock W) {A : Type 0} where
  -- What the block runs: the body, in the world that the first two clock reads leave.
  abbrev pub run_body : (W → Result A × W) → W → Result A × W
  run_body body w = body (clock.perf_counter_ns (clock.time_ms w).1).1

  -- The step that the block records.
  abbrev step_of : String → (Result A → Fields) → (W → Result A × W) → W → TraceStep
  step_of stage meta body w =
      let (t0, w₂) = clock.perf_counter_ns (clock.time_ms w).1 in
      let (r, w₃) = body w₂ in
      record {
        stage = stage;
        started_at_ms = (clock.time_ms w).0;
        duration_ms = elapsed_ms t0 (clock.perf_counter_ns w₃).0;
        meta = meta r;
      }

  abbrev pub IsRecorded :
      String
      → (Result A → Fields)
      → (W → Result A × W)
      → ExecutionTrace
      → W
      → Result A × ExecutionTrace × W
      → Type 0
  IsRecorded stage meta body t w (r, t', w') =
      (r ≡ (run_body body w).0)
      × (t'.status ≡ Status.running)
      × (s : TraceStep) × (t'.steps ≡ t.steps ++ s ∷ [])
      × (s.stage ≡ stage)
      × (s.meta ≡ meta r)

  -- On a created or running trace the block has the outcome of its body, be that a value or an
  -- exception, leaves the trace running, and appends exactly one step, with the given stage and the
  -- meta as the body left it.
  step-IsRecorded :
      (stage : String) (meta : Result A → Fields) (body : W → Result A × W) (t : ExecutionTrace)
      (w : W)
      → (t.status ≡ Status.created) ⊎ (t.status ≡ Status.running)
      → IsRecorded stage meta body t w (step clock stage meta body t w)
  unfolding step
  step-IsRecorded stage meta body t w h =
      (ground arith, ground arith, step_of stage meta body w, ground arith, refl, ground arith)

  -- On a terminal trace the block raises without running its body: the trace and the world are as
  -- they were.
  pub step_blocked :
      (stage : String) (meta : Result A → Fields) (body : W → Result A × W) (t : ExecutionTrace)
      (w : W)
      → IsTerminal t
      → step clock stage meta body t w ≡ (err (lifecycle_err "TRACE_STEP_BLOCKED"), t, w)
  unfolding step
  step_blocked stage meta body t w h = ground arith

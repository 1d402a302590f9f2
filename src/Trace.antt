-- ===== src/Trace.antt =====
-- io_iii/core/execution_trace.py: the trace of a run, its recorder and its lifecycle. A method of
-- `TraceRecorder` takes the trace and returns the new one; a raise leaves it as it was.
pub mod Lifecycle
pub mod Recording
pub mod Timings
mod Tests
use io_iii_runtime.Prelude.{
  ℕ, ◌+◌, String, Bool, true, false, Option, none, some, List, [], ◌∷◌, ◌++◌, if◌then◌else◌, str_eq,
}
use io_iii_runtime.Python.Value.{ℤ, Value, Items, Fields}
use io_iii_runtime.Python.Error.{ExnClass, Exn, exn, Result, ok, err, ◌>>=◌}
use io_iii_runtime.Python.Clock.{Clock, elapsed_ms}

pub data Status : Type 0 where
  created running completed failed : Status

pub record TraceStep : Type 0 where
  pub stage : String
  pub started_at_ms : ℕ
  pub duration_ms : ℕ
  pub meta : Fields

pub record ExecutionTrace : Type 0 where
  pub trace_id : String
  pub started_at_ms : ℕ
  pub steps : List TraceStep
  pub status : Status

-- `TraceRecorder(trace_id=…)`
unfoldable pub new_trace : String → ℕ → ExecutionTrace
new_trace id now = record {
  trace_id = id;
  started_at_ms = now;
  steps = [];
  status = Status.created;
}

-- `_VALID_TRANSITIONS`
abbrev pub is_valid_transition : Status → Status → Bool
is_valid_transition Status.created Status.running = true
is_valid_transition Status.created Status.failed = true
is_valid_transition Status.running Status.completed = true
is_valid_transition Status.running Status.failed = true
is_valid_transition _ _ = false

abbrev pub lifecycle_err : String → Exn
lifecycle_err = exn ExnClass.trace_lifecycle_error

unfoldable pub transition : Status → ExecutionTrace → Result ExecutionTrace
transition to t =
    if is_valid_transition t.status to
    then ok (record t { status = to })
    else err (lifecycle_err "TRACE_INVALID_TRANSITION")

unfoldable pub start : ExecutionTrace → Result ExecutionTrace
unfolding transition
start = transition Status.running

unfoldable pub complete : ExecutionTrace → Result ExecutionTrace
unfolding transition
complete = transition Status.completed

unfoldable pub fail : ExecutionTrace → Result ExecutionTrace
unfolding transition
fail = transition Status.failed

-- The entry of `step`: start a created trace, refuse a terminal one.
auto_start : Status → ExecutionTrace → Result ExecutionTrace
unfolding start
auto_start Status.created t = start t
auto_start _ t = ok t

guard_running : Status → ExecutionTrace → Result ExecutionTrace
guard_running Status.running t = ok t
guard_running _ t = err (lifecycle_err "TRACE_STEP_BLOCKED")

unfoldable pub enter_step : ExecutionTrace → Result ExecutionTrace
unfolding auto_start guard_running
enter_step t = do t' ← auto_start t.status t; guard_running t'.status t'

abbrev pub push : TraceStep → ExecutionTrace → ExecutionTrace
push s t = record t { steps = t.steps ++ s ∷ [] }

module _ {W : Type 0} (clock : Clock W) {A : Type 0} where
  -- The `with` block around `body`, once entered. The step keeps a reference to the caller's
  -- dictionary, so its meta is what that holds when the body has ended.
  record_body :
      String
      → (Result A → Fields)
      → (W → Result A × W)
      → ExecutionTrace
      → W
      → Result A × ExecutionTrace × W
  record_body stage meta body t w =
      let (started, w₁) = clock.time_ms w in
      let (t0, w₂) = clock.perf_counter_ns w₁ in
      let (r, w₃) = body w₂ in
      let (t1, w₄) = clock.perf_counter_ns w₃ in
      let s : TraceStep = record {
        stage = stage;
        started_at_ms = started;
        duration_ms = elapsed_ms t0 t1;
        meta = meta r;
      } in
      (r, push s t, w₄)

  -- `with trace.step(stage, meta=…): body`
  unfoldable pub step :
      String
      → (Result A → Fields)
      → (W → Result A × W)
      → ExecutionTrace
      → W
      → Result A × ExecutionTrace × W
  unfolding record_body enter_step
  step stage meta body t w = elim (enter_step t) [
    | ok t' ↦ record_body stage meta body t' w
    | err e ↦ (err e, t, w)
  ]

-- `stage_timings[s.stage] = stage_timings.get(s.stage, 0) + s.duration_ms`
abbrev pub Timings : Type 0
Timings = List (String × ℕ)

unfoldable pub add_timing : String → ℕ → Timings → Timings
add_timing k n [] = (k, n) ∷ []
add_timing k n ((j, m) ∷ rest) =
    let later = add_timing k n rest in if str_eq j k then (j, m + n) ∷ rest else (j, m) ∷ later

unfoldable pub stage_timings_from : Timings → List TraceStep → Timings
unfolding add_timing
stage_timings_from acc [] = acc
stage_timings_from acc (s ∷ rest) = stage_timings_from (add_timing s.stage s.duration_ms acc) rest

status_text : Status → String
status_text Status.created = "created"
status_text Status.running = "running"
status_text Status.completed = "completed"
status_text Status.failed = "failed"

nat : ℕ → Value
nat n = Value.int (ℤ.pos n)

timing_fields : Timings → Fields
unfolding nat
timing_fields [] = Fields.end
timing_fields ((k, n) ∷ rest) = Fields.field k (nat n) (timing_fields rest)

step_items : List TraceStep → Items
unfolding nat
step_items [] = Items.nil
step_items (s ∷ rest) =
    Items.cons
      (Value.obj (
        Fields.field "stage" (Value.str s.stage) (
          Fields.field "started_at_ms" (nat s.started_at_ms) (
            Fields.field "duration_ms" (nat s.duration_ms)
              (Fields.field "meta" (Value.obj s.meta) Fields.end)))))
      (step_items rest)

unfoldable pub to_dict : ExecutionTrace → Value
unfolding timing_fields step_items status_text nat stage_timings_from
to_dict t = Value.obj (
    Fields.field "schema" (Value.str "io-iii-execution-trace") (
      Fields.field "schema_version" (Value.str "v1.0") (
        Fields.field "trace_id" (Value.str t.trace_id) (
          Fields.field "started_at_ms" (nat t.started_at_ms) (
            Fields.field "status" (Value.str (status_text t.status)) (
              Fields.field "stage_timings"
                (Value.obj (timing_fields (stage_timings_from [] t.steps)))
                (Fields.field "steps" (Value.arr (step_items t.steps)) Fields.end)))))))

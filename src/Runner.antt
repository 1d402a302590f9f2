-- ===== src/Runner.antt =====
-- io_iii/core/runbook_runner.py: the loop over the steps of a runbook. The orchestrator is a
-- parameter `orchestrate` over the state of the world `W`, with the clock; an exception other than
-- an `Exception` subclass (an interrupt) is not modelled.
pub mod Induction
pub mod Outcomes
pub mod Counters
pub mod Calls
pub mod Equivalence
pub mod Tests
use io_iii_runtime.Prelude.{
  ℕ, zero, suc, ◌-◌, String, Bool, true, false, Option, none, some, List, [], ◌∷◌, ◌++◌, length,
}
use io_iii_runtime.Python.Value.{Value}
use io_iii_runtime.Python.Error.{Exn, Result, ok, err}
use io_iii_runtime.Python.Clock.{Clock, elapsed_ms}
use io_iii_runtime.Failure.Types.{RuntimeFailure, value}
use io_iii_runtime.SessionState.{SessionState}
use io_iii_runtime.Engine.{ExecutionResult}
use io_iii_runtime.TaskSpec.{TaskSpec}
use io_iii_runtime.Runbook.{Runbook}
use io_iii_runtime.Runbook.Conditional.{
  WhenCondition, WhenContext, RunbookStep, ConditionalRunbook, evaluate_when,
}

-- `_RUNBOOK_LIFECYCLE_EVENTS`
pub data EventName : Type 0 where
  runbook_started runbook_step_started runbook_step_completed runbook_step_skipped : EventName
  runbook_step_failed runbook_completed runbook_terminated : EventName

pub record LifecycleEvent : Type 0 where
  pub event : EventName
  pub runbook_id : Value
  pub steps_total : ℕ
  pub request_id : Option String
  pub task_spec_id : Option Value
  pub step_index : Option ℕ
  pub terminated_early : Option Bool
  pub failed_step_index : Option ℕ
  pub duration_ms : Option ℕ
  pub total_duration_ms : Option ℕ
  pub failure_kind : Option String
  pub failure_code : Option String

pub record StepOutcome : Type 0 where
  pub step_index : ℕ
  pub task_spec_id : Value
  pub state : Option SessionState
  pub result : Option ExecutionResult
  pub success : Bool
  pub failure : Option RuntimeFailure

-- `metadata` is the projection: the runbook's identifier and the events in emission order.
pub record RunbookResult : Type 0 where
  pub runbook_id : Value
  pub step_outcomes : List StepOutcome
  pub steps_completed : ℕ
  pub steps_skipped : ℕ
  pub failed_step_index : Option ℕ
  pub terminated_early : Bool
  pub events : List LifecycleEvent

-- The fields of every event of one run, and when it started.
pub record RunInfo : Type 0 where
  pub runbook_id : Value
  pub steps_total : ℕ
  pub start_ns : ℕ

-- The local variables of the loops.
pub record Progress : Type 0 where
  pub outcomes : List StepOutcome
  pub events : List LifecycleEvent
  pub skipped : ℕ

-- `RunbookLifecycleEvent(event=…, runbook_id=…, steps_total=…)`
abbrev pub plain_event : RunInfo → EventName → LifecycleEvent
plain_event info name = record {
  event = name;
  runbook_id = info.runbook_id;
  steps_total = info.steps_total;
  request_id = none;
  task_spec_id = none;
  step_index = none;
  terminated_early = none;
  failed_step_index = none;
  duration_ms = none;
  total_duration_ms = none;
  failure_kind = none;
  failure_code = none;
}

abbrev pub step_event : RunInfo → EventName → ℕ → TaskSpec → LifecycleEvent
step_event info name i t = record (plain_event info name) {
  task_spec_id = some t.task_spec_id;
  step_index = some i;
}

abbrev pub emit : LifecycleEvent → Progress → Progress
emit e p = record p { events = p.events ++ e ∷ [] }

abbrev kind_of : Option RuntimeFailure → Option String
kind_of none = none
kind_of (some f) = some (value f.kind)

abbrev code_of : Option RuntimeFailure → Option String
code_of none = none
code_of (some f) = some f.code

abbrev request_of : Option RuntimeFailure → Option String
request_of none = none
request_of (some f) = some f.request_id

-- The `try` suite after `orchestrator.run` returned.
unfoldable pub record_success :
    RunInfo → ℕ → TaskSpec → SessionState → ExecutionResult → ℕ → Progress → Progress
record_success info i t state result ms p = record p {
  outcomes =
      p.outcomes
      ++ record {
        step_index = i;
        task_spec_id = t.task_spec_id;
        state = some state;
        result = some result;
        success = true;
        failure = none;
      }
        ∷ [];
  events =
      p.events
      ++ record (step_event info EventName.runbook_step_completed i t) {
        request_id = some state.request_id;
        duration_ms = some ms;
      }
        ∷ [];
}

abbrev pub failed_outcome : ℕ → TaskSpec → Exn → StepOutcome
failed_outcome i t e = record {
  step_index = i;
  task_spec_id = t.task_spec_id;
  state = none;
  result = none;
  success = false;
  failure = e.runtime_failure;
}

-- The `except` suite up to the `return`: the failed outcome, `runbook_step_failed` and
-- `runbook_terminated`.
unfoldable pub record_failure : RunInfo → ℕ → TaskSpec → Exn → ℕ → ℕ → Progress → Progress
record_failure info i t e ms total_ms p = record p {
  outcomes = p.outcomes ++ failed_outcome i t e ∷ [];
  events =
      (p.events
        ++ record (step_event info EventName.runbook_step_failed i t) {
          request_id = request_of e.runtime_failure;
          terminated_early = some true;
          failed_step_index = some i;
          duration_ms = some ms;
          failure_kind = kind_of e.runtime_failure;
          failure_code = code_of e.runtime_failure;
        }
          ∷ [])
      ++ record (plain_event info EventName.runbook_terminated) {
        terminated_early = some true;
        failed_step_index = some i;
        total_duration_ms = some total_ms;
        failure_kind = kind_of e.runtime_failure;
        failure_code = code_of e.runtime_failure;
      }
        ∷ [];
}

unfoldable pub failed_result : RunInfo → ℕ → ℕ → Progress → RunbookResult
failed_result info i completed p = record {
  runbook_id = info.runbook_id;
  step_outcomes = p.outcomes;
  steps_completed = completed;
  steps_skipped = p.skipped;
  failed_step_index = some i;
  terminated_early = true;
  events = p.events;
}

-- After the loop: `runbook_completed` and the result.
unfoldable pub completed_result : RunInfo → ℕ → ℕ → Progress → RunbookResult
completed_result info completed total_ms p = record {
  runbook_id = info.runbook_id;
  step_outcomes = p.outcomes;
  steps_completed = completed;
  steps_skipped = p.skipped;
  failed_step_index = none;
  terminated_early = false;
  events =
      p.events
      ++ record (plain_event info EventName.runbook_completed) {
        terminated_early = some false;
        total_duration_ms = some total_ms;
      }
        ∷ [];
}

unfoldable pub started : RunInfo → Progress
started info = record {
  outcomes = [];
  events = plain_event info EventName.runbook_started ∷ [];
  skipped = 0;
}

-- What the runner uses of its environment.
pub record Env (W : Type 0) : Type 0 where
  pub clock : Clock W
  pub orchestrate : TaskSpec → W → Result (SessionState × ExecutionResult) × W

module _ {W : Type 0} (env : Env W) where
  -- One call of the orchestrator between two reads of the clock.
  unfoldable pub timed_call : TaskSpec → W → Result (SessionState × ExecutionResult) × ℕ × W
  timed_call t w =
      let (t0, w₁) = env.clock.monotonic_ns w in
      let (r, w₂) = env.orchestrate t w₁ in
      let (t1, w₃) = env.clock.monotonic_ns w₂ in (r, elapsed_ms t0 t1, w₃)

  unfoldable pub total_ms : RunInfo → W → ℕ × W
  total_ms info w = let (now, w') = env.clock.monotonic_ns w in (elapsed_ms info.start_ns now, w')

  -- The loop of `run` from step `i` on.
  unfoldable pub run_steps : RunInfo → ℕ → List TaskSpec → Progress → W → RunbookResult × W
  run_steps info i [] p w =
      let (ms, w') = total_ms info w in (completed_result info info.steps_total ms p, w')
  run_steps info i (t ∷ rest) p w =
      let p' = emit (step_event info EventName.runbook_step_started i t) p in
      let (r, ms, w') = timed_call t w in
      elim r [
        | ok (state, result) ↦
            run_steps info (suc i) rest (record_success info i t state result ms p') w'
        | err e ↦
            let (total, w'') = total_ms info w' in
            (failed_result info i i (record_failure info i t e ms total p'), w'')
      ]

  abbrev pub info_of : Value → ℕ → ℕ → RunInfo
  info_of id total start = record { runbook_id = id; steps_total = total; start_ns = start }

  unfoldable pub run : Runbook → W → RunbookResult × W
  run r w =
      let (start, w') = env.clock.monotonic_ns w in
      let info = info_of r.runbook_id (length r.steps) start in
      run_steps info 0 r.steps (started info) w'

  -- `rb_step.when is None or evaluate_when(rb_step.when, context)`
  unfoldable pub is_due : Option WhenCondition → WhenContext → Result Bool
  is_due none c = ok true
  is_due (some when) c = evaluate_when when c

  unfoldable pub skip : RunInfo → ℕ → TaskSpec → Progress → Progress
  skip info i t p = record (emit (step_event info EventName.runbook_step_skipped i t) p) {
    skipped = suc p.skipped;
  }

  -- The loop of `run_with_context`. `evaluate_when` stands outside the `try`: what it raises
  -- leaves the runner.
  unfoldable pub run_due_steps :
      RunInfo → WhenContext → ℕ → List RunbookStep → Progress → W → Result RunbookResult × W
  run_due_steps info c i [] p w =
      let (ms, w') = total_ms info w in (ok (completed_result info (length p.outcomes) ms p), w')
  run_due_steps info c i (s ∷ rest) p w =
      let t = s.task_spec in
      let p' = emit (step_event info EventName.runbook_step_started i t) p in
      let (r, ms, w') = timed_call t w in
      elim (is_due s.when c) [
        | err e ↦ (err e, w)
        | ok false ↦ run_due_steps info c (suc i) rest (skip info i t p) w
        | ok true ↦ elim r [
          | ok (state, result) ↦
              run_due_steps info c (suc i) rest (record_success info i t state result ms p') w'
          | err e ↦
              let (total, w'') = total_ms info w' in
              let q = record_failure info i t e ms total p' in
              (ok (failed_result info i (length q.outcomes - 1) q), w'')
        ]
      ]

  unfoldable pub run_with_context : ConditionalRunbook → WhenContext → W → Result RunbookResult × W
  run_with_context r c w =
      let (start, w') = env.clock.monotonic_ns w in
      let info = info_of r.runbook_id (length r.steps) start in
      run_due_steps info c 0 r.steps (started info) w'

-- ===== src/Runner/Tests.antt =====
-- A run of two tasks of which the second raises, and the theorems at it.
use io_iii_runtime.Prelude.{
  ℕ, ◌+◌, ◌*◌, ◌≡◌, refl, String, false, none, some, [], ◌∷◌, map, length, if◌then◌else◌, str_eq,
}
use io_iii_runtime.Python.Value.{ℤ, Value, Fields}
use io_iii_runtime.Python.Error.{ok, err, value_err}
use io_iii_runtime.SessionState.{SessionState, no_audit}
use io_iii_runtime.Engine.{ExecutionResult}
use io_iii_runtime.Mode.{SessionMode}
use io_iii_runtime.TaskSpec.{TaskSpec}
use io_iii_runtime.Runbook.{Runbook}
use io_iii_runtime.Runbook.Conditional.{WhenContext}
use io_iii_runtime.Runner.{
  EventName, Env, run, run_with_context, run_steps, timed_call, total_ms, record_success,
  record_failure, failed_result, started,
}
use io_iii_runtime.Runner.Outcomes.{Log, expected, name_of, result, run-Log, run-events}
use io_iii_runtime.Runner.Counters.{IsAccounted, run-IsAccounted}
use io_iii_runtime.Runner.Calls.{Calls, logged_run, run-Calls}
use io_iii_runtime.Runner.Equivalence.{as_conditional, run_with_context-eq-run}

abbrev task : String → String → TaskSpec
task id mode = record {
  task_spec_id = Value.str id;
  mode = mode;
  prompt = "Summarise";
  capabilities = [];
  metadata = Fields.end;
}

abbrev pub snapshot : SessionState
snapshot = record {
  request_id = "r1";
  started_at_ms = ℤ.pos 1000;
  schema_version = "v1";
  latency_ms = none;
  mode = "executor";
  config_dir = "config";
  route = none;
  audit = no_audit false;
  status = "ok";
  provider = "null";
  model = none;
  route_id = "executor";
  persona_contract_version = none;
  persona_id = none;
  task_spec_id = Value.null;
  error_code = none;
  logging_policy = Value.null;
  session_mode = SessionMode.work;
}

abbrev pub empty_result : ExecutionResult
empty_result = record {
  message = "";
  meta = Fields.end;
  provider = "null";
  model = none;
  route_id = "executor";
  audit_meta = none;
  prompt_hash = none;
}

-- The clock ticks in milliseconds; an unknown mode raises.
abbrev pub only_executor : Env ℕ
only_executor = record {
  clock = record {
    time_ms = λ w. (w, w + 1);
    monotonic_ns = λ w. (w * 1000000, w + 1);
    perf_counter_ns = λ w. (w * 1000000, w + 1);
  };
  orchestrate = λ t w. (
    if str_eq t.mode "executor"
        then ok (snapshot, empty_result)
        else err (value_err "unknown mode"),
    w + 10,
  );
}

abbrev two_steps : Runbook
two_steps = record {
  runbook_id = Value.str "rb-1";
  steps = task "ts-1" "executor" ∷ task "ts-2" "dreamer" ∷ task "ts-3" "executor" ∷ [];
}

run-Log_example :
    Log 0 two_steps.steps
      (result only_executor two_steps 0).step_outcomes
      (result only_executor two_steps 0).terminated_early
run-Log_example = run-Log only_executor two_steps 0

run-events_example :
    map name_of (result only_executor two_steps 0).events
    ≡ EventName.runbook_started ∷ expected (result only_executor two_steps 0).step_outcomes
run-events_example = run-events only_executor two_steps 0

run-IsAccounted_example : IsAccounted 3 (run only_executor two_steps 0).0
run-IsAccounted_example = run-IsAccounted only_executor two_steps 0

run-Calls_example :
    Calls two_steps.steps 0 []
      (logged_run only_executor two_steps 0).1.1
      (length (logged_run only_executor two_steps 0).0.step_outcomes)
run-Calls_example = run-Calls only_executor two_steps 0

abbrev context : WhenContext
context = record { session_mode = "work"; persona_mode = "executor" }

run_with_context-eq-run_example :
    run_with_context only_executor (as_conditional two_steps) context 0
    ≡ (ok (run only_executor two_steps 0).0, (run only_executor two_steps 0).1)
run_with_context-eq-run_example = run_with_context-eq-run only_executor two_steps context 0

fails_at_second : (run only_executor two_steps 0).0.failed_step_index ≡ some 1
unfolding run run_steps timed_call total_ms record_success record_failure failed_result started
fails_at_second = refl

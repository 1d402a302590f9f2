-- ===== src/Checkpoint/Tests.antt =====
-- Runs of two tasks of which the second raises, with and without a failure envelope.
use io_iii_runtime.Prelude.{
  ℕ, ◌+◌, ◌*◌, ◌<◌, ◌≡◌, ◌≢◌, refl, String, true, false, none, some, [], ◌∷◌, arith, inr,
  if◌then◌else◌, str_eq,
}
use io_iii_runtime.Python.Text.{strip, is_blank}
use io_iii_runtime.Python.Value.{Value, Fields, truthy}
use io_iii_runtime.Python.Error.{Exn, ok, err, value_err}
use io_iii_runtime.Failure.Types.{RuntimeFailureKind}
use io_iii_runtime.TaskSpec.{TaskSpec}
use io_iii_runtime.TaskSpec.RoundTrip.{IsStripped, IsNormal}
use io_iii_runtime.Runbook.{Runbook}
use io_iii_runtime.Runbook.RoundTrip.{IsValid}
use io_iii_runtime.Runner.{
  completed_result, run, run_steps, timed_call, total_ms, record_success, record_failure,
  failed_result, started,
}
use io_iii_runtime.Runner.Tests.{snapshot, empty_result}
use io_iii_runtime.Checkpoint.{replay, Job, ReplayEnv, execute, resume, step_failure}
use io_iii_runtime.Python.Storage.{Storage}
use io_iii_runtime.Python.Value.{nat}
use io_iii_runtime.Checkpoint.Files.{load_and_validate_checkpoint, integrity}
use io_iii_runtime.Checkpoint.Files.Validation.{fields_of}
use io_iii_runtime.Checkpoint.Written.{
  IsRunnable, ran, terminal, stamp, files_after, execute-loads, execute-unexplained,
}
use io_iii_runtime.Checkpoint.Resuming.{
  next_job, next_start, after, fresh, resume-execute, replay_job, replay-execute,
}

abbrev task : String → String → TaskSpec
task id mode = record {
  task_spec_id = Value.str id;
  mode = mode;
  prompt = "Summarise";
  capabilities = [];
  metadata = Fields.end;
}

abbrev plain_exn : Exn
plain_exn = value_err "MODE_UNKNOWN"

abbrev explained_exn : Exn
explained_exn = record plain_exn {
  runtime_failure = some (record {
    kind = RuntimeFailureKind.internal;
    code = "MODE_UNKNOWN";
    summary = "Internal failure";
    request_id = "r1";
    task_spec_id = Value.str "ts-2";
    retryable = false;
    causal_code = none;
  });
}

-- A mode other than the executor raises; the disk takes every write.
abbrev raising : Exn → ReplayEnv ℕ
raising e = record {
  runner = record {
    clock = record {
      time_ms = λ w. (w, w + 1);
      monotonic_ns = λ w. (w * 1000000, w + 1);
      perf_counter_ns = λ w. (w * 1000000, w + 1);
    };
    orchestrate =
        λ t w. (if str_eq t.mode "executor" then ok (snapshot, empty_result) else err e, w + 10);
  };
  utc_now = λ w. ("2025-01-01T00:00:00Z", w);
  new_run_id = λ w. ("run-2", w);
  task_ids = λ i. "ts-new";
  runbook_id = "rb-new";
  disk = λ w. (none, w + 1);
}

abbrev two_steps : Runbook
two_steps = record {
  runbook_id = Value.str "rb-1";
  steps = task "ts-1" "executor" ∷ task "ts-2" "dreamer" ∷ [];
}

abbrev job : ℕ → Job
job start = record {
  run_id = "run-1";
  source_run_id = "run-1";
  runbook = two_steps;
  start_index = start;
  total_steps = nat 2;
  mode = "runbook";
}

abbrev no_files : Storage
no_files id = none

job-IsRunnable : (start : ℕ) → start < 2 → IsRunnable (job start) "rb-1"
job-IsRunnable start h = record {
  named = refl;
  not_empty = refl;
  counted = refl;
  few_steps = omega arith;
  some_left = h;
}

text_IsStripped_executor : IsStripped "executor"
unfolding strip is_blank
text_IsStripped_executor = record { stripped = refl; not_blank = refl }

text_IsStripped_dreamer : IsStripped "dreamer"
unfolding strip is_blank
text_IsStripped_dreamer = record { stripped = refl; not_blank = refl }

text_IsStripped_prompt : IsStripped "Summarise"
unfolding strip is_blank
text_IsStripped_prompt = record { stripped = refl; not_blank = refl }

task-IsNormal :
    (id mode : String) → truthy (Value.str id) ≡ true → IsStripped mode → IsNormal (task id mode)
task-IsNormal id mode n h = record {
  identified = n;
  mode = h;
  prompt = text_IsStripped_prompt;
  capabilities = tt;
}

two_steps-IsValid : IsValid two_steps
two_steps-IsValid = record {
  identified = refl;
  some_steps = omega arith;
  few_steps = omega arith;
  tasks = (
    task-IsNormal "ts-1" "executor" refl text_IsStripped_executor,
    (task-IsNormal "ts-2" "dreamer" refl text_IsStripped_dreamer, tt),
  );
}

stops_at_second : (ran (raising explained_exn) (job 0) 0).0.terminated_early ≡ true
unfolding run run_steps timed_call total_ms record_success record_failure failed_result started
stops_at_second = refl

second_explained : step_failure (ran (raising explained_exn) (job 0) 0).0 ≢ none
unfolding run run_steps timed_call total_ms record_success record_failure failed_result started
    step_failure
second_explained h = cc

execute-loads_example :
    load_and_validate_checkpoint "run-1" (files_after (raising explained_exn) (job 0) 0 no_files)
    ≡ ok (
        fields_of
          (terminal (raising explained_exn) (job 0) 0)
          (stamp (raising explained_exn) (job 0) 0).0)
execute-loads_example =
    execute-loads (raising explained_exn) (job 0) 0 "rb-1" no_files (job-IsRunnable 0 (omega arith))
      refl (inr second_explained)

unexplained_stops : (ran (raising plain_exn) (job 0) 0).0.terminated_early ≡ true
unfolding run run_steps timed_call total_ms record_success record_failure failed_result started
unexplained_stops = refl

unexplained_step : step_failure (ran (raising plain_exn) (job 0) 0).0 ≡ none
unfolding run run_steps timed_call total_ms record_success record_failure failed_result started
    step_failure
unexplained_step = refl

execute-unexplained_example :
    load_and_validate_checkpoint "run-1" (files_after (raising plain_exn) (job 0) 0 no_files)
    ≡ err integrity
execute-unexplained_example =
    execute-unexplained (raising plain_exn) (job 0) 0 "rb-1" no_files
      (job-IsRunnable 0 (omega arith)) refl unexplained_stops unexplained_step

resume-execute_example :
    resume (raising explained_exn) "run-1" (after (raising explained_exn) (job 0) 0 no_files)
    ≡ execute
        (raising explained_exn)
        (next_job
          (raising explained_exn)
          (job 0)
          0
          (next_start (raising explained_exn) (job 0) 0)
          "run-2")
        (
          (after (raising explained_exn) (job 0) 0 no_files).0,
          (fresh (raising explained_exn) (job 0) 0 no_files).1,
        )
resume-execute_example =
    resume-execute (raising explained_exn) (job 0) 0 "rb-1" no_files
      (job-IsRunnable 0 (omega arith)) two_steps-IsValid refl stops_at_second second_explained

stops_at_once : (ran (raising explained_exn) (job 1) 0).0.terminated_early ≡ true
unfolding run run_steps timed_call total_ms record_success record_failure failed_result started
stops_at_once = refl

first_explained : step_failure (ran (raising explained_exn) (job 1) 0).0 ≢ none
unfolding run run_steps timed_call total_ms record_success record_failure failed_result started
    step_failure
first_explained h = cc

none_completed : (ran (raising explained_exn) (job 1) 0).0.steps_completed ≡ 0
unfolding run run_steps timed_call total_ms record_success record_failure failed_result started
none_completed = refl

replay-execute_example :
    replay (raising explained_exn) "run-1" (after (raising explained_exn) (job 0) 0 no_files)
    ≡ execute (raising explained_exn) (replay_job (raising explained_exn) (job 0) 0 "run-2") (
      (after (raising explained_exn) (job 0) 0 no_files).0,
      (fresh (raising explained_exn) (job 0) 0 no_files).1,
    )
replay-execute_example =
    replay-execute (raising explained_exn) (job 0) 0 "rb-1" no_files
      (job-IsRunnable 0 (omega arith)) two_steps-IsValid refl (inr second_explained)

-- A run of one task, which succeeds.
abbrev calm : Job
calm = record {
  run_id = "run-1";
  source_run_id = "run-1";
  runbook = record { runbook_id = Value.str "rb-1"; steps = task "ts-1" "executor" ∷ [] };
  start_index = 0;
  total_steps = nat 1;
  mode = "runbook";
}

calm-IsRunnable : IsRunnable calm "rb-1"
calm-IsRunnable = record {
  named = refl;
  not_empty = refl;
  counted = refl;
  few_steps = omega arith;
  some_left = omega arith;
}

calm_completes : (ran (raising plain_exn) calm 0).0.terminated_early ≡ false
unfolding run run_steps timed_call total_ms record_success completed_result started
calm_completes = refl

-- ===== src/Checkpoint.antt =====
-- io_iii/core/replay_resume.py: the runs that start from a checkpoint, and the ones that they leave.
pub mod Files
pub mod Written
pub mod Resuming
mod Tests
use io_iii_runtime.Prelude.{
  ℕ, zero, suc, ◌+◌, ◌-◌, String, Bool, true, false, not, ◌&&◌, ◌||◌, Option, none, some, List, [],
  ◌∷◌, ltb, ◌==◌, if◌then◌else◌, length, drop, get_elem?, str_eq,
}
use io_iii_runtime.Python.Value.{
  nat, opt_nat, opt_str, ℤ, Value, Items, Fields, find, get, is_null, is_str, as_int, py_eq,
  is_zero_ℤ,
}
use io_iii_runtime.Python.Error.{
  ExnClass, Exn, exn, Result, ok, err, ◌>>=◌, ◌>>◌, raise_if, require,
}
use io_iii_runtime.Failure.Types.{RuntimeFailureKind, RuntimeFailure, value}
use io_iii_runtime.TaskSpec.{TaskSpec}
use io_iii_runtime.Runbook
use io_iii_runtime.Runbook.{Runbook}
use io_iii_runtime.Runner
use io_iii_runtime.Runner.{StepOutcome, RunbookResult, LifecycleEvent, Env}
use io_iii_runtime.Python.Storage.{Stored, unreadable, parsed, Storage, put}
use io_iii_runtime.Checkpoint.Files.{
  Checkpoint, checkpoint_data, integrity, checkpoint_err, load_and_validate_checkpoint,
}

pub record ReplayResumeResult : Type 0 where
  pub status : String
  pub mode : String
  pub run_id : String
  pub source_run_id : String
  pub runbook_id : Value
  pub steps_completed : ℕ
  pub total_steps : Value
  pub metadata_summary : Option (Value × ℕ)
  pub failure_kind : Option String
  pub failure_code : Option String
  pub failed_step_index : Option ℕ
  pub terminated_early : Option Bool

-- What the module uses of its environment, beside what the runner uses: the clock as texts, the
-- identifiers of `uuid`, and the disk, which may refuse a write.
pub record ReplayEnv (W : Type 0) : Type 0 where
  pub runner : Env W
  pub utc_now : W → String × W
  pub new_run_id : W → String × W
  pub task_ids : ℕ → String
  pub runbook_id : String
  pub disk : W → Option Exn × W

-- The files and the rest of the world.
abbrev pub Disk : Type 0 → Type 0
Disk W = Storage × W

-- `_failure_result`
unfoldable pub failure_result : String → String → String → String → Value → ReplayResumeResult
failure_result code mode run_id source_run_id runbook_id = record {
  status = "error";
  mode = mode;
  run_id = run_id;
  source_run_id = source_run_id;
  runbook_id = runbook_id;
  steps_completed = 0;
  total_steps = nat 0;
  metadata_summary = none;
  failure_kind = some (value RuntimeFailureKind.contract_violation);
  failure_code = some code;
  failed_step_index = none;
  terminated_early = some true;
}

abbrev failure_at : Option ℕ → List StepOutcome → Option RuntimeFailure
failure_at none outcomes = none
failure_at (some i) outcomes = elim (get_elem? outcomes i) [ none ↦ none | some o ↦ o.failure ]

-- The envelope of the failed step, if the run terminated early.
unfoldable pub step_failure : RunbookResult → Option RuntimeFailure
step_failure r = if r.terminated_early then failure_at r.failed_step_index r.step_outcomes else none

abbrev kind_of : Option RuntimeFailure → Option String
kind_of none = none
kind_of (some f) = some (value f.kind)

abbrev code_of : Option RuntimeFailure → Option String
code_of none = none
code_of (some f) = some f.code

abbrev offset : ℕ → Option ℕ → Option ℕ
offset start none = none
offset start (some i) = some (start + i)

-- The arguments that one `_execute` is given.
pub record Job : Type 0 where
  pub run_id : String
  pub source_run_id : String
  pub runbook : Runbook
  pub start_index : ℕ
  pub total_steps : Value
  pub mode : String

-- The checkpoint of a run of no steps.
unfoldable pub empty_checkpoint : Job → String → Checkpoint
empty_checkpoint j created = record {
  run_id = j.run_id;
  source_run_id = j.source_run_id;
  runbook_id = j.runbook.runbook_id;
  snapshot = Runbook.to_dict j.runbook;
  created_at = created;
  steps_completed = 0;
  last_completed_step_index = none;
  total_steps = j.total_steps;
  failed = false;
  failure_kind = none;
  failure_code = none;
  failed_step_index = none;
}

-- The terminal checkpoint of a run of the slice; indices are those of the whole runbook.
unfoldable pub terminal_checkpoint : Job → String → RunbookResult → Checkpoint
terminal_checkpoint j created r = record {
  run_id = j.run_id;
  source_run_id = j.source_run_id;
  runbook_id = j.runbook.runbook_id;
  snapshot = Runbook.to_dict j.runbook;
  created_at = created;
  steps_completed = r.steps_completed;
  last_completed_step_index =
      if ltb 0 r.steps_completed then some (j.start_index + r.steps_completed - 1) else none;
  total_steps = j.total_steps;
  failed = r.terminated_early;
  failure_kind = kind_of (step_failure r);
  failure_code = code_of (step_failure r);
  failed_step_index = offset j.start_index r.failed_step_index;
}

-- The result that goes with a terminal checkpoint.
unfoldable pub result_of : Job → Checkpoint → Option (Value × ℕ) → ReplayResumeResult
result_of j c summary = record {
  status = if c.failed then "error" else "success";
  mode = j.mode;
  run_id = j.run_id;
  source_run_id = j.source_run_id;
  runbook_id = j.runbook.runbook_id;
  steps_completed = c.steps_completed;
  total_steps = j.total_steps;
  metadata_summary = summary;
  failure_kind = if c.failed then c.failure_kind else none;
  failure_code = if c.failed then c.failure_code else none;
  failed_step_index = if c.failed then c.failed_step_index else none;
  terminated_early = if c.failed then some true else none;
}

module _ {W : Type 0} (env : ReplayEnv W) where
  -- `_write_checkpoint`, then `return result`.
  unfoldable pub write_checkpoint :
      Checkpoint → ReplayResumeResult → Disk W → Result ReplayResumeResult × Disk W
  write_checkpoint c result (files, w) =
      let (now, w₁) = env.utc_now w in
      let (refused, w₂) = env.disk w₁ in
      elim refused [
        | none ↦ (ok result, (put c.run_id (checkpoint_data c now) files, w₂))
        | some e ↦ (err e, (files, w₂))
      ]

  -- `_execute` on a slice that is not empty.
  unfoldable pub execute_slice :
      Job → String → List TaskSpec → Disk W → Result ReplayResumeResult × Disk W
  execute_slice j created sliced (files, w) =
      elim (Runbook.create sliced j.runbook.runbook_id env.runbook_id) [
        | err e ↦ (err e, (files, w))
        | ok slice ↦
            let (r, w') = Runner.run env.runner slice w in
            let c = terminal_checkpoint j created r in
            write_checkpoint c (result_of j c (some (r.runbook_id, length r.events))) (files, w')
      ]

  unfoldable pub execute : Job → Disk W → Result ReplayResumeResult × Disk W
  execute j (files, w) =
      let (created, w') = env.utc_now w in
      elim (drop j.start_index j.runbook.steps) [
        | [] ↦
            let c = empty_checkpoint j created in
            write_checkpoint c (result_of j c (some (j.runbook.runbook_id, 0))) (files, w')
        | t ∷ rest ↦ execute_slice j created (t ∷ rest) (files, w')
      ]

  -- `except (ValueError, TypeError)` covers what `Runbook.from_dict` raises.
  unfoldable pub rerun :
      String → String → String → Value → Fields → ℕ → Disk W → Result ReplayResumeResult × Disk W
  rerun mode run_id source runbook_id d start s =
      elim (Runbook.from_dict (get "runbook_snapshot" d) env.task_ids env.runbook_id) [
        | err e ↦
            (ok (failure_result "CHECKPOINT_INTEGRITY_ERROR" mode run_id source runbook_id), s)
        | ok runbook ↦
            execute
              (record {
                run_id = run_id;
                source_run_id = source;
                runbook = runbook;
                start_index = start;
                total_steps = get "total_steps" d;
                mode = mode;
              })
              s
      ]

  -- `checkpoint["runbook_id"]` and `checkpoint["status"]` raise `KeyError` where the key is absent.
  unfoldable pub replay_from :
      String → String → Fields → Disk W → Result ReplayResumeResult × Disk W
  replay_from run_id source d s = elim (find "runbook_id" d) [
    | none ↦ (err (exn ExnClass.key_error "'runbook_id'"), s)
    | some runbook_id ↦ rerun "replay" run_id source runbook_id d 0 s
  ]

  -- `0 if last_completed is None else last_completed + 1`; validation leaves no other values.
  abbrev pub start_of : Option ℤ → ℕ
  start_of (some (ℤ.pos n)) = suc n
  start_of _ = 0

  abbrev pub resume_index : Fields → ℕ
  resume_index d = start_of (as_int (get "last_completed_step_index" d))

  unfoldable pub resume_from :
      String → String → Fields → Disk W → Result ReplayResumeResult × Disk W
  resume_from run_id source d s = elim (find "runbook_id" d) [
    | none ↦ (err (exn ExnClass.key_error "'runbook_id'"), s)
    | some runbook_id ↦ elim (find "status" d) [
      | none ↦ (err (exn ExnClass.key_error "'status'"), s)
      | some status ↦
          if is_str "completed" status
          then (ok (failure_result "RESUME_INVALID_STATE" "resume" run_id source runbook_id), s)
          else rerun "resume" run_id source runbook_id d (resume_index d) s
    ]
  ]

  unfoldable pub replay : String → Disk W → Result ReplayResumeResult × Disk W
  replay source (files, w) =
      let (run_id, w') = env.new_run_id w in
      elim (load_and_validate_checkpoint source files) [
        | err e ↦ (ok (failure_result e.code "replay" run_id source (Value.str "")), (files, w'))
        | ok d ↦ replay_from run_id source d (files, w')
      ]

  unfoldable pub resume : String → Disk W → Result ReplayResumeResult × Disk W
  resume source (files, w) =
      let (run_id, w') = env.new_run_id w in
      elim (load_and_validate_checkpoint source files) [
        | err e ↦ (ok (failure_result e.code "resume" run_id source (Value.str "")), (files, w'))
        | ok d ↦ resume_from run_id source d (files, w')
      ]

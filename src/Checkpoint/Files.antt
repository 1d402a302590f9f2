-- ===== src/Checkpoint/Files.antt =====
-- The checkpoint files of io_iii/core/replay_resume.py: their validation, and what is written.
pub mod Validation
use io_iii_runtime.Prelude.{
  ℕ, zero, suc, ◌+◌, ◌-◌, String, Bool, true, false, not, ◌&&◌, ◌||◌, Option, none, some, List, [],
  ◌∷◌, ltb, ◌==◌, if◌then◌else◌, length, drop, get_elem?, str_eq,
}
use io_iii_runtime.Python.Value.{
  nat, opt_nat, opt_str, ℤ, Value, Items, Fields, find, get, is_null, is_str, as_int, py_eq,
  is_zero_ℤ,
}
use io_iii_runtime.Python.Error.{
  ExnClass, Exn, exn, Result, ok, err, ◌>>=◌, ◌>>◌, raise_if, require,
}
use io_iii_runtime.Failure.Types.{RuntimeFailureKind, RuntimeFailure, value}
use io_iii_runtime.TaskSpec.{TaskSpec}
use io_iii_runtime.Runbook
use io_iii_runtime.Runbook.{Runbook}
use io_iii_runtime.Runner.{StepOutcome, RunbookResult, LifecycleEvent, Env}
use io_iii_runtime.Python.Storage.{Stored, unreadable, undecodable, parsed, Storage, put}

-- `_CheckpointError(code)`
abbrev pub checkpoint_err : String → Exn
checkpoint_err c = record (exn ExnClass.other c) { code = c }

abbrev pub integrity : Exn
integrity = checkpoint_err "CHECKPOINT_INTEGRITY_ERROR"

-- `not isinstance(last_idx, int) or last_idx < 0 or last_idx >= total`
abbrev is_bad_index : Option ℤ → ℤ → Bool
is_bad_index (some (ℤ.pos n)) (ℤ.pos total) = not (ltb n total)
is_bad_index _ _ = true

-- The progress checks, for `steps_completed` and `total_steps` that are integers.
check_progress : ℤ → ℤ → Value → Result (Unit {0})
check_progress completed total last =
    if is_zero_ℤ completed
    then raise_if (not (is_null last)) integrity
    else raise_if (is_bad_index (as_int last) total) integrity

pub check_failure : Fields → Result (Unit {0})
check_failure d =
    raise_if
      (is_str "failed" (get "status" d)
        && (is_null (get "failure_kind" d)
            || (is_null (get "failure_code" d) || is_null (get "failed_step_index" d))))
      integrity

as_mapping : Value → Result Fields
as_mapping (Value.obj d) = ok d
as_mapping _ = err integrity

unfoldable pub validate_checkpoint : String → Value → Result Fields
unfolding check_progress check_failure as_mapping
validate_checkpoint run_id v = do
  d ← as_mapping v
  raise_if (not (is_str "1.0" (get "checkpoint_schema_version" d))) integrity
  raise_if (not (is_str run_id (get "run_id" d))) integrity
  snapshot ← as_mapping (get "runbook_snapshot" d)
  raise_if (not (py_eq (get "runbook_id" d) (get "runbook_id" snapshot))) integrity
  completed ← require (as_int (get "steps_completed" d)) integrity
  total ← require (as_int (get "total_steps" d)) integrity
  check_progress completed total (get "last_completed_step_index" d)
  check_failure d
  ok d

read_stored : String → Option Stored → Result Fields
read_stored run_id none = err (checkpoint_err "CHECKPOINT_NOT_FOUND")
read_stored run_id (some unreadable) = err integrity
read_stored run_id (some undecodable) = err integrity
read_stored run_id (some (parsed v)) = validate_checkpoint run_id v

unfoldable pub load_and_validate_checkpoint : String → Storage → Result Fields
unfolding validate_checkpoint read_stored
load_and_validate_checkpoint run_id files = read_stored run_id (files run_id)

-- The arguments of `_write_checkpoint`.
pub record Checkpoint : Type 0 where
  pub run_id : String
  pub source_run_id : String
  pub runbook_id : Value
  pub snapshot : Value
  pub created_at : String
  pub steps_completed : ℕ
  pub last_completed_step_index : Option ℕ
  pub total_steps : Value
  pub failed : Bool
  pub failure_kind : Option String
  pub failure_code : Option String
  pub failed_step_index : Option ℕ

-- The keys that only a failed checkpoint has.
failure_fields : Checkpoint → Fields
failure_fields c =
    if c.failed
    then Fields.field "failure_kind" (opt_str c.failure_kind) (
        Fields.field "failure_code" (opt_str c.failure_code)
          (Fields.field "failed_step_index" (opt_nat c.failed_step_index) Fields.end))
    else Fields.end

unfoldable pub checkpoint_data : Checkpoint → String → Value
unfolding failure_fields
checkpoint_data c now = Value.obj (
    Fields.field "checkpoint_schema_version" (Value.str "1.0") (
      Fields.field "run_id" (Value.str c.run_id) (
        Fields.field "runbook_id" c.runbook_id (
          Fields.field "source_run_id" (Value.str c.source_run_id) (
            Fields.field "runbook_snapshot" c.snapshot (
              Fields.field "created_at" (Value.str c.created_at) (
                Fields.field "steps_completed" (nat c.steps_completed) (
                  Fields.field "last_completed_step_index" (opt_nat c.last_completed_step_index) (
                    Fields.field "total_steps" c.total_steps (
                      Fields.field "status" (Value.str (if c.failed then "failed" else "completed"))
                        (Fields.field "updated_at" (Value.str now) (failure_fields c))))))))))))

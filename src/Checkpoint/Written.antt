-- ===== src/Checkpoint/Written.antt =====
-- The checkpoint that `_execute` leaves, and whether it can be loaded again.
use io_iii_runtime.Prelude.{
  ◌≤◌, ◌<◌, ◌≡◌, ◌≢◌, refl, String, true, false, Option, none, some, List, [], ◌∷◌, arith, eq_refl,
  ◌⊎◌, length, drop, length-drop, ap, ◌∙◌,
}
use io_iii_runtime.Python.Value.{Value, Fields, truthy}
use io_iii_runtime.Python.Error.{Exn, Result, ok, err, ◌>>=◌, ◌>>◌}
use io_iii_runtime.TaskSpec.{TaskSpec}
use io_iii_runtime.Runbook
use io_iii_runtime.Runbook.{Runbook, runbook_max_steps}
use io_iii_runtime.Runner
use io_iii_runtime.Runner.{RunbookResult}
use io_iii_runtime.Runner.Counters.{run-IsAccounted}
use io_iii_runtime.Checkpoint.{
  Job, ReplayEnv, Disk, ReplayResumeResult, terminal_checkpoint, step_failure, result_of,
  write_checkpoint, execute_slice, execute,
}
use io_iii_runtime.Python.Storage.{Storage, put}
use io_iii_runtime.Python.Value.{nat}
use io_iii_runtime.Checkpoint.Files.{
  Checkpoint, checkpoint_data, load_and_validate_checkpoint, validate_checkpoint, integrity,
  check_failure,
}
use io_iii_runtime.Checkpoint.Files.Validation.{
  fields_of, Progresses, Explains, IsConsistent, validate_written, check_failure_ok,
  check_failure_bad,
}

-- A job on a loaded runbook of which some steps are left.
pub record IsRunnable (j : Job) (name : String) : Type 0 where
  pub named : j.runbook.runbook_id ≡ Value.str name
  pub not_empty : truthy (Value.str name) ≡ true
  pub counted : j.total_steps ≡ nat (length j.runbook.steps)
  pub few_steps : length j.runbook.steps ≤ runbook_max_steps
  pub some_left : j.start_index < length j.runbook.steps

pub load_put :
    (id : String) (v : Value) (files : Storage)
    → load_and_validate_checkpoint id (put id v files) ≡ validate_checkpoint id v
unfolding load_and_validate_checkpoint
load_put id v files = rw (eq_refl id)

module _ {W : Type 0} (env : ReplayEnv W) (j : Job) (w : W) where
  -- The runbook of the steps that are left.
  abbrev pub slice : Runbook
  slice = record { runbook_id = j.runbook.runbook_id; steps = drop j.start_index j.runbook.steps }

  abbrev pub ran : RunbookResult × W
  ran = Runner.run env.runner slice (env.utc_now w).1

  abbrev pub terminal : Checkpoint
  terminal = terminal_checkpoint j (env.utc_now w).0 ran.0

  abbrev pub stamp : String × W
  stamp = env.utc_now ran.1

  -- Whether the disk takes the checkpoint.
  abbrev pub refusal : Option Exn × W
  refusal = env.disk stamp.1

  create_slice :
      (name : String) (ts : List TaskSpec)
      → IsRunnable j name
      → drop j.start_index j.runbook.steps ≡ ts
      → Runbook.create ts j.runbook.runbook_id env.runbook_id
        ≡ ok (record { runbook_id = j.runbook.runbook_id; steps = ts })
  unfolding Runbook.create
  create_slice name [] h e =
      absurd
        (omega (arith, h.some_left, ap (length {0}) e, length-drop j.start_index j.runbook.steps))
  create_slice name (t ∷ ts) h e =
      let few : length (t ∷ ts) ≤ 20 =
        omega (arith, h.few_steps, ap (length {0}) e, length-drop j.start_index j.runbook.steps) in
      rw (h.named, h.not_empty) (ground (arith, few))

  write_accepted :
      (c : Checkpoint) (r : ReplayResumeResult) (files : Storage) (v : W)
      → (env.disk (env.utc_now v).1).0 ≡ none
      → write_checkpoint env c r (files, v) ≡ (
        ok r,
        (put c.run_id (checkpoint_data c (env.utc_now v).0) files, (env.disk (env.utc_now v).1).1),
      )
  unfolding write_checkpoint
  write_accepted c r files v h = rw (h, write_checkpoint)

  abbrev final_result : ReplayResumeResult
  final_result = result_of j terminal (some (ran.0.runbook_id, length ran.0.events))

  execute-drop :
      (files : Storage) (ts : List TaskSpec)
      → ts ≢ []
      → drop j.start_index j.runbook.steps ≡ ts
      → execute env j (files, w)
        ≡ execute_slice env j (env.utc_now w).0 ts (files, (env.utc_now w).1)
  unfolding execute
  execute-drop files [] n e = absurd (n refl)
  execute-drop files (t ∷ ts) n e = rw (e, execute)

  -- A runnable job on a disk that takes the write runs the slice once and leaves its checkpoint.
  pub execute_runs :
      (name : String) (files : Storage)
      → IsRunnable j name
      → refusal.0 ≡ none
      → execute env j (files, w)
        ≡ (ok final_result, (put j.run_id (checkpoint_data terminal stamp.0) files, refusal.1))
  unfolding execute_slice terminal_checkpoint
  execute_runs name files h d =
      let left : drop j.start_index j.runbook.steps ≢ [] = λ e.
        omega (arith, h.some_left, ap (length {0}) e, length-drop j.start_index j.runbook.steps) in
      rw (execute-drop files (drop j.start_index j.runbook.steps) left refl) (
        rw (create_slice name (drop j.start_index j.runbook.steps) h refl, execute_slice)
          (write_accepted terminal final_result files ran.1 d))

  to_dict_fields : Fields
  to_dict_fields = elim (Runbook.to_dict j.runbook) [ Value.obj d ↦ d | _ ↦ Fields.end ]

  terminal-Progresses :
      (name : String) → IsRunnable j name → Progresses terminal (length j.runbook.steps)
  unfolding terminal_checkpoint
  terminal-Progresses name h = ground (
    arith,
    run-IsAccounted env.runner slice (env.utc_now w).1,
    length-drop j.start_index j.runbook.steps,
  )

  terminal-IsConsistent :
      (name : String)
      → IsRunnable j name
      → IsConsistent terminal (length j.runbook.steps) to_dict_fields name
  unfolding terminal_checkpoint Runbook.to_dict to_dict_fields
  terminal-IsConsistent name h = record {
    counted = h.counted;
    held = refl;
    named = h.named;
    bound = h.named;
    progress = terminal-Progresses name h;
  }

  abbrev pub files_after : Storage → Storage
  files_after files = (execute env j (files, w)).1.0

  load_after :
      (name : String) (files : Storage)
      → IsRunnable j name
      → refusal.0 ≡ none
      → load_and_validate_checkpoint j.run_id (files_after files)
        ≡ validate_checkpoint j.run_id (checkpoint_data terminal stamp.0)
  load_after name files h d =
      ap
        (λ (out : Result ReplayResumeResult × Disk W).
          load_and_validate_checkpoint j.run_id out.1.0)
        (execute_runs name files h d)
      ∙ load_put j.run_id (checkpoint_data terminal stamp.0) files

  pub terminal-Explains :
      (ran.0.terminated_early ≡ false) ⊎ (step_failure ran.0 ≢ none) → Explains terminal
  unfolding terminal_checkpoint
  terminal-Explains x = ground (arith, run-IsAccounted env.runner slice (env.utc_now w).1)

  pub validate_terminal :
      (name : String)
      → IsRunnable j name
      → validate_checkpoint j.run_id (checkpoint_data terminal stamp.0)
        ≡ (do check_failure (fields_of terminal stamp.0); ok (fields_of terminal stamp.0))
  unfolding terminal_checkpoint
  validate_terminal name h =
      validate_written terminal (length j.runbook.steps) to_dict_fields name stamp.0
        (terminal-IsConsistent name h)

  -- What a run of a job on a runbook of at most 20 steps with steps left leaves can be loaded again
  -- under its run identifier, as it was written, if the disk took the write and the run succeeded or
  -- its failing step carried a failure envelope.
  pub execute-loads :
      (name : String) (files : Storage)
      → IsRunnable j name
      → refusal.0 ≡ none
      → (ran.0.terminated_early ≡ false) ⊎ (step_failure ran.0 ≢ none)
      → load_and_validate_checkpoint j.run_id (files_after files) ≡ ok (fields_of terminal stamp.0)
  execute-loads name files h d x =
      load_after name files h d
      ∙ validate_terminal name h
      ∙ ap (λ m. m >>= λ _. ok (fields_of terminal stamp.0))
          (check_failure_ok terminal stamp.0 (terminal-Explains x))

  -- If the run of such a job stopped at a step that raised an exception without a failure envelope,
  -- and the disk took the write, the checkpoint that the run leaves is refused as corrupt.
  pub execute-unexplained :
      (name : String) (files : Storage)
      → IsRunnable j name
      → refusal.0 ≡ none
      → ran.0.terminated_early ≡ true
      → step_failure ran.0 ≡ none
      → load_and_validate_checkpoint j.run_id (files_after files) ≡ err integrity
  unfolding terminal_checkpoint
  execute-unexplained name files h d t x =
      load_after name files h d
      ∙ validate_terminal name h
      ∙ ap (λ m. m >>= λ _. ok (fields_of terminal stamp.0))
          (check_failure_bad terminal stamp.0 t (rw x))

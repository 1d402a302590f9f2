-- ===== src/Checkpoint/Resuming.antt =====
-- What `resume` and `replay` do with the checkpoint that a run left.
use io_iii_runtime.Prelude.{
  ℕ, false, inl, ◌⊎◌, ◌+◌, ◌≡◌, ◌≢◌, refl, String, true, none, arith, ltb, if◌then◌else◌, inr, ap,
  ◌∙◌,
}
use io_iii_runtime.Python.Value.{Fields}
use io_iii_runtime.Python.Error.{ok}
use io_iii_runtime.Runbook.RoundTrip.{IsValid, from_dict-to_dict_runbook}
use io_iii_runtime.Checkpoint.{
  replay, replay_from, failure_result, Job, ReplayEnv, Disk, terminal_checkpoint, step_failure,
  execute, rerun, resume_from, resume, resume_index,
}
use io_iii_runtime.Python.Storage.{Storage}
use io_iii_runtime.Checkpoint.Files.{checkpoint_data, load_and_validate_checkpoint}
use io_iii_runtime.Checkpoint.Files.Validation.{fields_of}
use io_iii_runtime.Checkpoint.Written.{IsRunnable, ran, terminal, stamp, refusal, execute-loads}

module _ {W : Type 0} (env : ReplayEnv W) (j : Job) (w : W) where
  -- The run that `resume` starts from the checkpoint of `j`, at step `start`.
  abbrev pub next_job : ℕ → String → Job
  next_job start id = record {
    run_id = id;
    source_run_id = j.run_id;
    runbook = j.runbook;
    start_index = start;
    total_steps = j.total_steps;
    mode = "resume";
  }

  -- The step after the last one that the run of `j` completed, and step 0 if it completed none.
  abbrev pub next_start : ℕ
  next_start =
      let done = (ran env j w).0.steps_completed in if ltb 0 done then j.start_index + done else 0

  abbrev here : Fields
  here = fields_of (terminal env j w) (stamp env j w).0

  resume_index-here : resume_index env here ≡ next_start
  unfolding terminal_checkpoint checkpoint_data
  resume_index-here = ground arith

  rerun-here :
      (id : String) (s : Disk W)
      → IsValid j.runbook
      → rerun env "resume" id j.run_id j.runbook.runbook_id here next_start s
        ≡ execute env (next_job next_start id) s
  unfolding rerun terminal_checkpoint checkpoint_data
  rerun-here id s v =
      rw (from_dict-to_dict_runbook j.runbook env.task_ids env.runbook_id v, rerun) refl

  resume_from-here :
      (id : String) (s : Disk W)
      → (ran env j w).0.terminated_early ≡ true
      → resume_from env id j.run_id here s
        ≡ rerun env "resume" id j.run_id j.runbook.runbook_id here (resume_index env here) s
  unfolding resume_from terminal_checkpoint checkpoint_data
  resume_from-here id s t = rw t refl

  resume_loaded :
      (d : Fields) (s : Disk W)
      → load_and_validate_checkpoint j.run_id s.0 ≡ ok d
      → resume env j.run_id s
        ≡ resume_from env (env.new_run_id s.1).0 j.run_id d (s.0, (env.new_run_id s.1).1)
  unfolding resume
  resume_loaded d s e = rw (e, resume) refl

  abbrev pub after : Storage → Disk W
  after files = (execute env j (files, w)).1

  abbrev pub fresh : Storage → String × W
  fresh files = env.new_run_id (after files).1

  -- Resuming a run that stopped at a failing step with a failure envelope executes, from the state
  -- and the files that the run left and under a fresh run identifier, the job that starts at the
  -- step after the last completed one, or at step 0 of the runbook if the run completed no step.
  -- The job is one of a valid runbook with steps left, and the disk took its checkpoint.
  pub resume-execute :
      (name : String) (files : Storage)
      → IsRunnable j name
      → IsValid j.runbook
      → (refusal env j w).0 ≡ none
      → (ran env j w).0.terminated_early ≡ true
      → step_failure (ran env j w).0 ≢ none
      → resume env j.run_id (after files)
        ≡ execute env (next_job next_start (fresh files).0) ((after files).0, (fresh files).1)
  resume-execute name files h v d t x =
      resume_loaded here (after files) (execute-loads env j w name files h d (inr x))
      ∙ resume_from-here (fresh files).0 ((after files).0, (fresh files).1) t
      ∙ ap
          (λ n.
            rerun env "resume" (fresh files).0 j.run_id j.runbook.runbook_id here n
              ((after files).0, (fresh files).1))
          resume_index-here
      ∙ rerun-here (fresh files).0 ((after files).0, (fresh files).1) v

  -- The run that `replay` starts from the checkpoint of `j`.
  abbrev pub replay_job : String → Job
  replay_job id = record {
    run_id = id;
    source_run_id = j.run_id;
    runbook = j.runbook;
    start_index = 0;
    total_steps = j.total_steps;
    mode = "replay";
  }

  replay_loaded :
      (d : Fields) (s : Disk W)
      → load_and_validate_checkpoint j.run_id s.0 ≡ ok d
      → replay env j.run_id s
        ≡ replay_from env (env.new_run_id s.1).0 j.run_id d (s.0, (env.new_run_id s.1).1)
  unfolding replay
  replay_loaded d s e = rw (e, replay) refl

  replay_from-here :
      (id : String) (s : Disk W)
      → IsValid j.runbook
      → replay_from env id j.run_id here s ≡ execute env (replay_job id) s
  unfolding replay_from rerun terminal_checkpoint checkpoint_data
  replay_from-here id s v =
      rw (from_dict-to_dict_runbook j.runbook env.task_ids env.runbook_id v, rerun) refl

  -- Replaying a run that succeeded, or stopped at a failing step with a failure envelope, executes
  -- its whole runbook from step 0, from the state and the files that the run left and under a fresh
  -- run identifier. The job is one of a valid runbook with steps left, and the disk took its
  -- checkpoint.
  pub replay-execute :
      (name : String) (files : Storage)
      → IsRunnable j name
      → IsValid j.runbook
      → (refusal env j w).0 ≡ none
      → ((ran env j w).0.terminated_early ≡ false) ⊎ (step_failure (ran env j w).0 ≢ none)
      → replay env j.run_id (after files)
        ≡ execute env (replay_job (fresh files).0) ((after files).0, (fresh files).1)
  replay-execute name files h v d x =
      replay_loaded here (after files) (execute-loads env j w name files h d x)
      ∙ replay_from-here (fresh files).0 ((after files).0, (fresh files).1) v

  resume_from-completed :
      (id : String) (s : Disk W)
      → (ran env j w).0.terminated_early ≡ false
      → resume_from env id j.run_id here s
        ≡ (ok (failure_result "RESUME_INVALID_STATE" "resume" id j.run_id j.runbook.runbook_id), s)
  unfolding resume_from terminal_checkpoint checkpoint_data
  resume_from-completed id s t = rw t refl

  -- Resuming a run that succeeded executes nothing: it gives the result with RESUME_INVALID_STATE
  -- and leaves the files as they were, for a job with steps left whose checkpoint the disk took.
  pub resume-completed :
      (name : String) (files : Storage)
      → IsRunnable j name
      → (refusal env j w).0 ≡ none
      → (ran env j w).0.terminated_early ≡ false
      → resume env j.run_id (after files) ≡ (
        ok (
            failure_result "RESUME_INVALID_STATE" "resume"
              (fresh files).0
              j.run_id
              j.runbook.runbook_id),
        ((after files).0, (fresh files).1),
      )
  resume-completed name files h d t =
      resume_loaded here (after files) (execute-loads env j w name files h d (inl t))
      ∙ resume_from-completed (fresh files).0 ((after files).0, (fresh files).1) t

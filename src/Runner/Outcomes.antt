-- ===== src/Runner/Outcomes.antt =====
-- The outcomes of a run: one for each step in order, all successful up to a failure, which is last.
use io_iii_runtime.Prelude.{
  ℕ, suc, ◌≡◌, refl, Bool, true, false, none, some, List, [], ◌∷◌, ◌++◌, map, length, append_assoc,
  append-nil, sym, subst, if◌then◌else◌, ◌∙◌,
}
use mathlib.Core.List.{map-append}
use io_iii_runtime.Python.Error.{Exn, ok}
use io_iii_runtime.SessionState.{SessionState}
use io_iii_runtime.Engine.{ExecutionResult}
use io_iii_runtime.TaskSpec.{TaskSpec}
use io_iii_runtime.Runbook.{Runbook}
use io_iii_runtime.Runner.{
  EventName, LifecycleEvent, StepOutcome, RunbookResult, RunInfo, Progress, record_success,
  failed_outcome, record_failure, failed_result, completed_result, started, Env, timed_call,
  run_steps, run, info_of,
}
use io_iii_runtime.Runner.Induction.{run_steps_induction, finished, stopped, succeeded}

-- `Log i ts os b`: the outcomes `os` belong to the first tasks of `ts`, numbered from `i`; `b` says
-- that the last one failed, and without it every task has its outcome.
pub data Log : ℕ → List TaskSpec → List StepOutcome → Bool → Type 0 where
  all_done : {i : ℕ} → Log i [] [] false
  step_failed :
      {i : ℕ} {t : TaskSpec} {rest : List TaskSpec} {o : StepOutcome}
      → o.step_index ≡ i
      → o.task_spec_id ≡ t.task_spec_id
      → o.success ≡ false
      → o.state ≡ none
      → o.result ≡ none
      → Log i (t ∷ rest) (o ∷ []) true
  step_done :
      {i : ℕ} {t : TaskSpec} {rest : List TaskSpec} {o : StepOutcome} {os : List StepOutcome}
      {b : Bool}
      → o.step_index ≡ i
      → o.task_spec_id ≡ t.task_spec_id
      → o.success ≡ true
      → o.failure ≡ none
      → Log (suc i) rest os b
      → Log i (t ∷ rest) (o ∷ os) b

-- The names of the events after `runbook_started`, read off the outcomes.
pub expected : List StepOutcome → List EventName
expected [] = EventName.runbook_completed ∷ []
expected (o ∷ os) =
    let later = expected os in
    EventName.runbook_step_started
    ∷ (if o.success
        then EventName.runbook_step_completed ∷ later
        else EventName.runbook_step_failed ∷ EventName.runbook_terminated ∷ [])

abbrev pub name_of : LifecycleEvent → EventName
name_of e = e.event

-- What the rest of the loop adds to the progress `p`.
pub record Extends (i : ℕ) (ts : List TaskSpec) (p : Progress) (r : RunbookResult) : Type 0 where
  pub later : List StepOutcome
  pub outcomes : r.step_outcomes ≡ p.outcomes ++ later
  pub log : Log i ts later r.terminated_early
  pub names : map name_of r.events ≡ map name_of p.events ++ expected later

module _ {W : Type 0} (env : Env W) (info : RunInfo) where
  Extends-finished : (i : ℕ) (p : Progress) (w : W) → Extends i [] p (finished env info p w).0
  unfolding completed_result expected
  Extends-finished i p w = record {
    later = [];
    outcomes = sym (append-nil p.outcomes);
    log = all_done;
    names = simp map-append;
  }

  Extends-stopped :
      (i : ℕ) (t : TaskSpec) (rest : List TaskSpec) (p : Progress) (w : W) (e : Exn)
      → Extends i (t ∷ rest) p (stopped env info i t e p w).0
  unfolding failed_result record_failure expected
  Extends-stopped i t rest p w e = record {
    later = failed_outcome i t e ∷ [];
    outcomes = refl;
    log = step_failed refl refl refl refl refl;
    names = simp (map-append, append_assoc);
  }

  succeeded_outcome : ℕ → TaskSpec → SessionState × ExecutionResult → StepOutcome
  succeeded_outcome i t a = record {
    step_index = i;
    task_spec_id = t.task_spec_id;
    state = some a.0;
    result = some a.1;
    success = true;
    failure = none;
  }

  Extends-next :
      (i : ℕ) (t : TaskSpec) (rest : List TaskSpec) (p : Progress) (w : W)
      (a : SessionState × ExecutionResult) (out : RunbookResult × W)
      → (timed_call env t w).0 ≡ ok a
      → Extends (suc i) rest (succeeded env info i t a p w) out.0
      → Extends i (t ∷ rest) p out.0
  unfolding record_success expected succeeded_outcome
  Extends-next i t rest p w a out h x = record {
    later = succeeded_outcome i t a ∷ x.later;
    outcomes = x.outcomes ∙ append_assoc p.outcomes (succeeded_outcome i t a ∷ []) x.later;
    log = step_done refl refl refl refl x.log;
    names = x.names ∙ simp (map-append, append_assoc);
  }

  run_steps-Extends :
      (i : ℕ) (ts : List TaskSpec) (p : Progress) (w : W)
      → Extends i ts p (run_steps env info i ts p w).0
  run_steps-Extends =
      run_steps_induction env info (λ i ts p w out. Extends i ts p out.0) Extends-finished
        (λ i t rest p w e h. Extends-stopped i t rest p w e) Extends-next

module _ {W : Type 0} (env : Env W) (r : Runbook) (w : W) where
  abbrev pub result : RunbookResult
  result = (run env r w).0

  abbrev info_here : RunInfo
  info_here = info_of env r.runbook_id (length r.steps) (env.clock.monotonic_ns w).0

  of_run : Extends 0 r.steps (started info_here) result
  unfolding run
  of_run =
      run_steps-Extends env info_here 0 r.steps (started info_here) (env.clock.monotonic_ns w).1

  -- Whatever the orchestrator and the clock do, a run has one outcome for each executed step, in
  -- order and with the step's identifier; all are successes without a failure record, except that
  -- a run that terminated early has a last one that is a failure without state and result; and a
  -- run that did not terminate early has an outcome for every step.
  pub run-Log : Log 0 r.steps result.step_outcomes result.terminated_early
  unfolding started
  run-Log = subst (λ os. Log 0 r.steps os result.terminated_early) (sym of_run.outcomes) of_run.log

  -- The events of a run are `runbook_started`, then for each outcome `runbook_step_started` and
  -- `runbook_step_completed`, and at the end either `runbook_completed`, or for a failed outcome
  -- `runbook_step_failed` and `runbook_terminated`, after which nothing is emitted.
  pub run-events :
      map name_of result.events ≡ EventName.runbook_started ∷ expected result.step_outcomes
  unfolding started
  run-events =
      subst (λ os. map name_of result.events ≡ EventName.runbook_started ∷ expected os)
        (sym of_run.outcomes) of_run.names

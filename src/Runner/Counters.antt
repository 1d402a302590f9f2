-- ===== src/Runner/Counters.antt =====
-- What a run reports of itself: the counters of its result.
use io_iii_runtime.Prelude.{
  ℕ, suc, ◌+◌, ◌<◌, ◌≡◌, refl, true, false, none, some, List, [], ◌∷◌, arith, ◌⊎◌, Bool, Option,
  ◌++◌, inl, inr, length, length-append,
}
use io_iii_runtime.Python.Error.{Exn, ok, err}
use io_iii_runtime.SessionState.{SessionState}
use io_iii_runtime.Engine.{ExecutionResult}
use io_iii_runtime.TaskSpec.{TaskSpec}
use io_iii_runtime.Runbook.{Runbook}
use io_iii_runtime.Runner.{
  EventName, LifecycleEvent, RunbookResult, RunInfo, Progress, record_success, failed_outcome,
  record_failure, failed_result, completed_result, started, Env, timed_call, run, info_of,
}
use io_iii_runtime.Runner.Induction.{run_steps_induction, finished, stopped, succeeded}

-- The last event, with what it says of the run.
abbrev pub Closes : EventName → Bool → Option ℕ → RunbookResult → Type 0
Closes name early failed r =
    (before : List LifecycleEvent) × (e : LifecycleEvent) × (r.events ≡ before ++ e ∷ [])
    × (e.event ≡ name)
    × (e.terminated_early ≡ some early)
    × (e.failed_step_index ≡ failed)

-- The counters of a result of a runbook of `total` steps.
abbrev pub IsAccounted : ℕ → RunbookResult → Type 0
IsAccounted total r =
    (r.terminated_early ≡ true)
      × (r.failed_step_index ≡ some r.steps_completed)
      × (length r.step_outcomes ≡ suc r.steps_completed)
      × (r.steps_completed < total)
      × (r.steps_skipped ≡ 0)
      × Closes EventName.runbook_terminated true (some r.steps_completed) r
    ⊎ (r.terminated_early ≡ false)
      × (r.failed_step_index ≡ none)
      × (length r.step_outcomes ≡ r.steps_completed)
      × (r.steps_completed ≡ total)
      × (r.steps_skipped ≡ 0)
      × Closes EventName.runbook_completed false none r

module _ {W : Type 0} (env : Env W) (info : RunInfo) where
  abbrev Accounts : ℕ → List TaskSpec → Progress → W → RunbookResult × W → Type 0
  Accounts i ts p w out =
      length p.outcomes ≡ i
      → i + length ts ≡ info.steps_total
      → p.skipped ≡ 0
      → IsAccounted info.steps_total out.0

  Accounts-finished : (i : ℕ) (p : Progress) (w : W) → Accounts i [] p w (finished env info p w)
  unfolding completed_result
  Accounts-finished i p w h k z =
      inr (refl, refl, omega arith, refl, z, (p.events, _, refl, refl, refl, refl))

  Accounts-stopped :
      (i : ℕ) (t : TaskSpec) (rest : List TaskSpec) (p : Progress) (w : W) (e : Exn)
      → (timed_call env t w).0 ≡ err e
      → Accounts i (t ∷ rest) p w (stopped env info i t e p w)
  unfolding failed_result record_failure
  Accounts-stopped i t rest p w e x h k z = inl (
    refl,
    refl,
    omega (arith, length-append p.outcomes (failed_outcome i t e ∷ [])),
    omega arith,
    z,
    (_, _, refl, refl, refl, refl),
  )

  Accounts-next :
      (i : ℕ) (t : TaskSpec) (rest : List TaskSpec) (p : Progress) (w : W)
      (a : SessionState × ExecutionResult) (out : RunbookResult × W)
      → (timed_call env t w).0 ≡ ok a
      → Accounts (suc i) rest (succeeded env info i t a p w) w out
      → Accounts i (t ∷ rest) p w out
  unfolding record_success
  Accounts-next i t rest p w a out x y h k z =
      y (omega (arith, length-append {0} p.outcomes)) (omega arith) z

module _ {W : Type 0} (env : Env W) (r : Runbook) (w : W) where
  -- A run that terminated early failed at the step whose index is the number of completed steps,
  -- with one outcome more than that and at least one step not completed; any other run completed
  -- every step, with one outcome for each. No step is counted as skipped, and the last event is
  -- `runbook_terminated` with that index, or `runbook_completed` without one.
  pub run-IsAccounted : IsAccounted (length r.steps) (run env r w).0
  unfolding run started
  run-IsAccounted =
      let info = info_of env r.runbook_id (length r.steps) (env.clock.monotonic_ns w).0 in
      run_steps_induction env info (Accounts env info) (Accounts-finished env info)
        (Accounts-stopped env info) (Accounts-next env info) 0 r.steps (started info)
        (env.clock.monotonic_ns w).1 refl (omega arith) refl

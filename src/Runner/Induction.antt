-- ===== src/Runner/Induction.antt =====
-- Induction over the loop of `run`: the end of the list, a step that raises, a step that returns.
use io_iii_runtime.Prelude.{ℕ, suc, ◌≡◌, refl, List, [], ◌∷◌, ◌⊎◌, inl, inr}
use io_iii_runtime.Python.Error.{Exn, Result, ok, err}
use io_iii_runtime.SessionState.{SessionState}
use io_iii_runtime.Engine.{ExecutionResult}
use io_iii_runtime.TaskSpec.{TaskSpec}
use io_iii_runtime.Runner.{
  EventName, RunbookResult, RunInfo, Progress, step_event, emit, record_success, record_failure,
  failed_result, completed_result, Env, timed_call, total_ms, run_steps,
}

pub Result-cases {ℓ} :
    {A : Type ℓ} (r : Result A) → ((a : A) × (r ≡ ok a)) ⊎ ((e : Exn) × (r ≡ err e))
Result-cases (ok a) = inl (a, refl)
Result-cases (err e) = inr (e, refl)

module _ {W : Type 0} (env : Env W) (info : RunInfo) where
  -- The progress when step `i` has been announced.
  abbrev pub announced : ℕ → TaskSpec → Progress → Progress
  announced i t p = emit (step_event info EventName.runbook_step_started i t) p

  abbrev pub world_after : TaskSpec → W → W
  world_after t w = (timed_call env t w).2

  abbrev pub succeeded : ℕ → TaskSpec → SessionState × ExecutionResult → Progress → W → Progress
  succeeded i t (state, result) p w =
      record_success info i t state result (timed_call env t w).1 (announced i t p)

  -- The progress of a failed step `i`.
  abbrev pub failed_at : ℕ → TaskSpec → Exn → Progress → W → Progress
  failed_at i t e p w =
      record_failure info i t e (timed_call env t w).1 (total_ms env info (world_after t w)).0
        (announced i t p)

  abbrev pub stopped : ℕ → TaskSpec → Exn → Progress → W → RunbookResult × W
  stopped i t e p w =
      (failed_result info i i (failed_at i t e p w), (total_ms env info (world_after t w)).1)

  run_steps_ok :
      (i : ℕ) (t : TaskSpec) (rest : List TaskSpec) (p : Progress) (w : W)
      (a : SessionState × ExecutionResult)
      → (timed_call env t w).0 ≡ ok a
      → run_steps env info i (t ∷ rest) p w
        ≡ run_steps env info (suc i) rest (succeeded i t a p w) (world_after t w)
  unfolding run_steps
  run_steps_ok i t rest p w a h = rw (h, run_steps)

  run_steps_err :
      (i : ℕ) (t : TaskSpec) (rest : List TaskSpec) (p : Progress) (w : W) (e : Exn)
      → (timed_call env t w).0 ≡ err e
      → run_steps env info i (t ∷ rest) p w ≡ stopped i t e p w
  unfolding run_steps
  run_steps_err i t rest p w e h = rw (h, run_steps)

  abbrev pub finished : Progress → W → RunbookResult × W
  finished p w =
      (completed_result info info.steps_total (total_ms env info w).0 p, (total_ms env info w).1)

  module _ {κ} (P : ℕ → List TaskSpec → Progress → W → RunbookResult × W → Type κ)
      (done : (i : ℕ) (p : Progress) (w : W) → P i [] p w (finished p w))
      (fails : (i : ℕ) (t : TaskSpec) (rest : List TaskSpec) (p : Progress) (w : W) (e : Exn)
        → (timed_call env t w).0 ≡ err e
        → P i (t ∷ rest) p w (stopped i t e p w))
      (next : (i : ℕ) (t : TaskSpec) (rest : List TaskSpec) (p : Progress) (w : W)
          (a : SessionState × ExecutionResult) (out : RunbookResult × W)
        → (timed_call env t w).0 ≡ ok a
        → P (suc i) rest (succeeded i t a p w) (world_after t w) out
        → P i (t ∷ rest) p w out) where
    pub run_steps_induction :
        (i : ℕ) (ts : List TaskSpec) (p : Progress) (w : W)
        → P i ts p w (run_steps env info i ts p w)
    run_steps_induction i [] p w = unfold run_steps in done i p w
    run_steps_induction i (t ∷ rest) p w = elim (Result-cases (timed_call env t w).0) [
      | inl (a, h) ↦ rw (run_steps_ok i t rest p w a h) (
          next i t rest p w a
            (run_steps env info (suc i) rest (succeeded i t a p w) (world_after t w)) h
            (run_steps_induction (suc i) rest (succeeded i t a p w) (world_after t w)))
      | inr (e, h) ↦ rw (run_steps_err i t rest p w e h) (fails i t rest p w e h)
    ]

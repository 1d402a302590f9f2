-- ===== src/Runner/Equivalence.antt =====
-- `run_with_context` on steps without conditions is `run`.
use io_iii_runtime.Prelude.{
  ℕ, suc, ◌+◌, ◌-◌, ◌≡◌, refl, none, List, [], ◌∷◌, map, arith, length, length-append, ap,
}
use io_iii_runtime.Python.Error.{Exn, ok, err}
use io_iii_runtime.SessionState.{SessionState}
use io_iii_runtime.Engine.{ExecutionResult}
use io_iii_runtime.TaskSpec.{TaskSpec}
use io_iii_runtime.Runbook.{Runbook}
use io_iii_runtime.Runbook.Conditional.{WhenContext, RunbookStep, ConditionalRunbook}
use io_iii_runtime.Runner.{
  RunbookResult, RunInfo, Progress, record_success, failed_outcome, record_failure, started, Env,
  timed_call, run, info_of, is_due, run_due_steps, run_with_context,
}
use io_iii_runtime.Runner.Induction.{
  run_steps_induction, finished, stopped, succeeded, failed_at, world_after,
}

abbrev pub unconditional : TaskSpec → RunbookStep
unconditional t = record { task_spec = t; when = none }

abbrev pub as_conditional : Runbook → ConditionalRunbook
as_conditional r = record { runbook_id = r.runbook_id; steps = map unconditional r.steps }

length-map : (ts : List TaskSpec) → length (map unconditional ts) ≡ length ts
length-map [] = refl
length-map (t ∷ ts) = ap suc (length-map ts)

module _ {W : Type 0} (env : Env W) (info : RunInfo) (c : WhenContext) where
  -- The two loops agree from step `i` on, if there is one outcome for each earlier step.
  abbrev Agrees : ℕ → List TaskSpec → Progress → W → RunbookResult × W → Type 0
  Agrees i ts p w out =
      length p.outcomes ≡ i
      → i + length ts ≡ info.steps_total
      → run_due_steps env info c i (map unconditional ts) p w ≡ (ok out.0, out.1)

  Agrees-finished : (i : ℕ) (p : Progress) (w : W) → Agrees i [] p w (finished env info p w)
  unfolding run_due_steps
  Agrees-finished i p w h k = let e : length p.outcomes ≡ info.steps_total = omega arith in rw e

  Agrees-stopped :
      (i : ℕ) (t : TaskSpec) (rest : List TaskSpec) (p : Progress) (w : W) (e : Exn)
      → (timed_call env t w).0 ≡ err e
      → Agrees i (t ∷ rest) p w (stopped env info i t e p w)
  unfolding run_due_steps is_due
  Agrees-stopped i t rest p w e x h k =
      let count : length (failed_at env info i t e p w).outcomes - 1 ≡ i =
        unfold record_failure in
        omega (arith, length-append p.outcomes (failed_outcome i t e ∷ [])) in
      rw (x, run_due_steps) (rw count)

  Agrees-next :
      (i : ℕ) (t : TaskSpec) (rest : List TaskSpec) (p : Progress) (w : W)
      (a : SessionState × ExecutionResult) (out : RunbookResult × W)
      → (timed_call env t w).0 ≡ ok a
      → Agrees (suc i) rest (succeeded env info i t a p w) (world_after env info t w) out
      → Agrees i (t ∷ rest) p w out
  unfolding run_due_steps is_due
  Agrees-next i t rest p w a out x y h k =
      let count : length (succeeded env info i t a p w).outcomes ≡ suc i =
        unfold record_success in omega (arith, length-append {0} p.outcomes) in
      rw (x, run_due_steps) (y count (omega arith))

module _ {W : Type 0} (env : Env W) (r : Runbook) (c : WhenContext) (w : W) where
  -- A conditional runbook in which no step has a condition runs as the plain runbook of its tasks
  -- does: the same calls, events, outcomes and counters, in every context.
  pub run_with_context-eq-run :
      run_with_context env (as_conditional r) c w ≡ (ok (run env r w).0, (run env r w).1)
  unfolding run_with_context run started
  run_with_context-eq-run =
      let info = info_of env r.runbook_id (length r.steps) (env.clock.monotonic_ns w).0 in
      rw (length-map r.steps) (
        run_steps_induction env info (Agrees env info c) (Agrees-finished env info c)
          (Agrees-stopped env info c) (Agrees-next env info c) 0 r.steps (started info)
          (env.clock.monotonic_ns w).1 refl (omega arith))

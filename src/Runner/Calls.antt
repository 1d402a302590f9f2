-- ===== src/Runner/Calls.antt =====
-- Which calls of the orchestrator a run makes: the world is paired with a log of them.
use io_iii_runtime.Prelude.{
  ℕ, suc, ◌+◌, ◌≡◌, refl, List, [], ◌∷◌, ◌++◌, arith, length, length-append, append-nil,
  append_assoc, ap, ◌∙◌, sym,
}
use io_iii_runtime.Python.Error.{Exn, ok, err}
use io_iii_runtime.SessionState.{SessionState}
use io_iii_runtime.Engine.{ExecutionResult}
use io_iii_runtime.TaskSpec.{TaskSpec}
use io_iii_runtime.Runbook.{Runbook}
use io_iii_runtime.Runner.{
  RunbookResult, RunInfo, Progress, record_success, failed_outcome, record_failure, failed_result,
  completed_result, started, Env, timed_call, total_ms, run, info_of,
}
use io_iii_runtime.Runner.Induction.{run_steps_induction, finished, stopped, succeeded, world_after}

abbrev pub Logged : Type 0 → Type 0
Logged W = W × List TaskSpec

module _ {W : Type 0} where
  abbrev read : (W → ℕ × W) → Logged W → ℕ × Logged W
  read f (w, calls) = let (n, w') = f w in (n, (w', calls))

  -- The same environment, which also notes each task that the orchestrator is called with.
  abbrev pub logged : Env W → Env (Logged W)
  logged env = record {
    clock = record {
      time_ms = read env.clock.time_ms;
      monotonic_ns = read env.clock.monotonic_ns;
      perf_counter_ns = read env.clock.perf_counter_ns;
    };
    orchestrate = λ t s. let (r, w') = env.orchestrate t s.0 in (r, (w', s.1 ++ t ∷ []));
  }

-- What the rest of the loop does: it calls the orchestrator with the first of the tasks `ts`, once
-- for each outcome that it adds.
pub record Calls (ts : List TaskSpec) (outcomes : ℕ) (before after : List TaskSpec) (total : ℕ)
    : Type 0 where
  pub made : List TaskSpec
  pub unmade : List TaskSpec
  pub split : ts ≡ made ++ unmade
  pub calls : after ≡ before ++ made
  pub count : total ≡ outcomes + length made

module _ {W : Type 0} (env : Env W) (info : RunInfo) where
  abbrev Makes : ℕ → List TaskSpec → Progress → Logged W → RunbookResult × Logged W → Type 0
  Makes i ts p s out = Calls ts (length p.outcomes) s.1 out.1.1 (length out.0.step_outcomes)

  Makes-finished :
      (i : ℕ) (p : Progress) (s : Logged W) → Makes i [] p s (finished (logged env) info p s)
  unfolding completed_result total_ms
  Makes-finished i p s = record {
    made = [];
    unmade = [];
    split = refl;
    calls = sym (append-nil s.1);
    count = omega arith;
  }

  Makes-stopped :
      (i : ℕ) (t : TaskSpec) (rest : List TaskSpec) (p : Progress) (s : Logged W) (e : Exn)
      → (timed_call (logged env) t s).0 ≡ err e
      → Makes i (t ∷ rest) p s (stopped (logged env) info i t e p s)
  unfolding failed_result record_failure total_ms timed_call
  Makes-stopped i t rest p s e h = record {
    made = t ∷ [];
    unmade = rest;
    split = refl;
    calls = refl;
    count = omega (arith, length-append p.outcomes (failed_outcome i t e ∷ []));
  }

  Makes-next :
      (i : ℕ) (t : TaskSpec) (rest : List TaskSpec) (p : Progress) (s : Logged W)
      (a : SessionState × ExecutionResult) (out : RunbookResult × Logged W)
      → (timed_call (logged env) t s).0 ≡ ok a
      → Makes
          (suc i)
          rest
          (succeeded (logged env) info i t a p s)
          (world_after (logged env) info t s)
          out
      → Makes i (t ∷ rest) p s out
  unfolding record_success timed_call
  Makes-next i t rest p s a out h x = record {
    made = t ∷ x.made;
    unmade = x.unmade;
    split = ap (λ ts. t ∷ ts) x.split;
    calls = x.calls ∙ append_assoc s.1 (t ∷ []) x.made;
    count = omega (arith, x.count, length-append {0} p.outcomes);
  }

module _ {W : Type 0} (env : Env W) (r : Runbook) (w : W) where
  abbrev pub logged_run : RunbookResult × Logged W
  logged_run = run (logged env) r (w, [])

  -- A run calls the orchestrator with an initial part of the steps in declared order, each once,
  -- and with as many of them as the result has outcomes: no step is retried, skipped or reordered.
  pub run-Calls : Calls r.steps 0 [] logged_run.1.1 (length logged_run.0.step_outcomes)
  unfolding run started
  run-Calls =
      let info = info_of (logged env) r.runbook_id (length r.steps) (env.clock.monotonic_ns w).0 in
      run_steps_induction (logged env) info (Makes env info) (Makes-finished env info)
        (Makes-stopped env info) (Makes-next env info) 0 r.steps (started info)
        ((env.clock.monotonic_ns w).1, [])

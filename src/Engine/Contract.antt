-- ===== src/Engine/Contract.antt =====
-- The contract of `run`: what a run that returns has done, and what a run that raises leaves.
use io_iii_runtime.Prelude.{◌≡◌, refl, subst, false, some, [], ◌∷◌, ◌++◌, arith, ◌⊎◌}
use io_iii_runtime.Python.Value.{Value}
use io_iii_runtime.Python.Error.{Exn, Result, ok, err}
use io_iii_runtime.Python.Effect.{Ends}
use io_iii_runtime.Trace.{Status, ExecutionTrace, fail, transition}
use io_iii_runtime.Failure.Types.{RuntimeFailure}
use io_iii_runtime.Failure.Classify.{Phase, classify_exception-HasIds}
use io_iii_runtime.Safety.{default_forbidden_keys}
use io_iii_runtime.Safety.Guard.{has_forbidden}
use io_iii_runtime.SessionState.{SessionState}
use io_iii_runtime.Observability.{EngineEventKind}
use io_iii_runtime.Engine.{ExecutionResult}
use io_iii_runtime.Engine.Environment.{Services, Request}
use io_iii_runtime.Engine.Actions.{RunState, kinds, emit_event, with_trace}
use io_iii_runtime.Engine.Course.{Returns, returned_kinds, IsFinal, is_audited, body-Triple}
use io_iii_runtime.Engine.Run.{
  body, initial, recover, run_traced, close_trace, failure_of, failed_meta,
}
use io_iii_runtime.Engine.Plan.{Kinds, IsStart}
use io_iii_runtime.Engine.Rules.{At, Early}
use io_iii_runtime.Engine.Emits.{emit_free}
use io_iii_runtime.Engine.Closing.{Reports}

module _ {W : Type 0} (services : Services W) (req : Request W) where
  -- The closed trace is a terminal one.
  abbrev pub IsTerminal : Status → Type 0
  IsTerminal st = (st ≡ Status.completed) ⊎ (st ≡ Status.failed)

  close_trace-IsTerminal : (t : ExecutionTrace) → IsTerminal (close_trace services req t).status
  unfolding close_trace fail transition
  close_trace-IsTerminal t = ground arith

  abbrev pub HasEnvelope : Exn → Type 0
  HasEnvelope e =
      (f : RuntimeFailure) × (e.runtime_failure ≡ some f)
      × (f.request_id ≡ req.session_state.request_id)
      × (f.task_spec_id ≡ req.session_state.task_spec_id)

  abbrev pub Raises : Exn → RunState W → Type 0
  Raises e s =
      (ks : Kinds) × IsStart (is_audited services req) ks
      × At (ks ++ EngineEventKind.run_failed ∷ []) s
      × IsTerminal s.trace.status
      × HasEnvelope e

  failure_of-ids :
      (e : Exn) (p : Phase)
      → ((failure_of services req e p).request_id ≡ req.session_state.request_id)
        × ((failure_of services req e p).task_spec_id ≡ req.session_state.task_spec_id)
  unfolding failure_of
  failure_of-ids e p =
      classify_exception-HasIds req.session_state.request_id req.session_state.task_spec_id
        services.tables e p

  failed_meta-free :
      (f : RuntimeFailure) (p : Phase)
      → has_forbidden default_forbidden_keys (Value.obj (failed_meta services req f p)) ≡ false
  unfolding failed_meta has_forbidden
  failed_meta-free f p = refl

  recover-Ends :
      (r : Result (SessionState × ExecutionResult) × RunState W)
      → Ends (Returns services req) (Early (is_audited services req)) r
      → Ends (Returns services req) Raises (recover services req r)
  unfolding recover emit_event
  recover-Ends (ok o, s) h = h
  recover-Ends (err e, s) (ks, here, walked, short) =
      let f = failure_of services req e s.phase in
      let (same_request, same_task) = failure_of-ids e s.phase in
      let closed_state = with_trace (close_trace services req s.trace) s in
      (
        ks,
        walked,
        emit_free services.clock req.session_state ks EngineEventKind.run_failed
            (failed_meta services req f s.phase) (failed_meta-free f s.phase) (omega (arith, short))
            closed_state here,
        close_trace-IsTerminal s.trace,
        (f, refl, same_request, same_task),
      )

  run_traced-Ends : (w : W) → Ends (Returns services req) Raises (run_traced services req w)
  unfolding run_traced initial
  run_traced-Ends w =
      recover-Ends (body services req (initial services req w))
        (((body-Triple services req)).at (initial services req w) refl)

  -- A run that returns has emitted exactly the started, routed and provider events, then on the local
  -- path one challenger event if the audit is on and one revision event if also the verdict is
  -- `needs_work`, then the output and the complete event; its trace is completed, and its result reports
  -- these events.
  pub run_traced-Returns :
      (w : W) (f : SessionState) (r : ExecutionResult) (s : RunState W)
      → run_traced services req w ≡ (ok (f, r), s)
      → (kinds s.events ≡ (returned_kinds services req) f)
        × (s.trace.status ≡ Status.completed)
        × Reports r s
  run_traced-Returns w f r s h =
      let ((events, status), reports, _) =
        subst (Ends (Returns services req) Raises) h (run_traced-Ends w) in
      (events, status, reports)

  -- A run that raises has emitted a proper beginning of the sequence that a run of the same request with
  -- some verdict emits when it returns, so a challenger or a revision event only on the local path with the
  -- audit on, and then the failed event as its last one; its trace is terminal, and the exception carries an
  -- envelope with the identifiers of the run.
  pub run_traced-Raises :
      (w : W) (e : Exn) (s : RunState W) → run_traced services req w ≡ (err e, s) → Raises e s
  run_traced-Raises w e s h = subst (Ends (Returns services req) Raises) h (run_traced-Ends w)

  pub run_traced-IsFinal :
      (w : W) (f : SessionState) (r : ExecutionResult) (s : RunState W)
      → run_traced services req w ≡ (ok (f, r), s)
      → (IsFinal services req) f
  run_traced-IsFinal w f r s h =
      (subst (Ends (Returns services req) Raises) h (run_traced-Ends w)).2

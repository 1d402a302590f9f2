-- ===== src/Engine/Run.antt =====
-- `run`: its two paths in their `try` block, and the handler of every exception.
use io_iii_runtime.Prelude.{String, some, [], if◌then◌else◌, str_eq}
use io_iii_runtime.Python.Value.{Value, Fields, is_null}
use io_iii_runtime.Python.Error.{Exn, Result, ok, err}
use io_iii_runtime.Python.Effect.{◌>>=◌, ◌>>◌}
use io_iii_runtime.Failure.Types.{RuntimeFailure}
use io_iii_runtime.Failure.Types as Types
use io_iii_runtime.Failure.Classify.{Phase, classify_exception}
use io_iii_runtime.Trace.{ExecutionTrace, Status, new_trace, fail}
use io_iii_runtime.SessionState.{SessionState}
use io_iii_runtime.Observability.{EngineEventKind}
use io_iii_runtime.Engine.{ExecutionResult}
use io_iii_runtime.Engine.Environment.{Services, Request}
use io_iii_runtime.Engine.Actions.{RunState, Action, set_phase, with_trace}
use io_iii_runtime.Engine.Results.{fallback_of, mirror_audit}
use io_iii_runtime.Engine.Paths.{emit_kind, null_path, ollama_path}
use io_iii_runtime.Engine.Passes.{use_capability}

-- The names of the phases in an event.
abbrev pub phase_text : Phase → String
phase_text Phase.setup = "setup"
phase_text Phase.capability = "capability"
phase_text Phase.provider = "provider"
phase_text Phase.audit = "audit"
phase_text Phase.revision = "revision"
phase_text Phase.route = "route"
phase_text Phase.validation = "validation"
phase_text Phase.no_hint = ""

-- `caller`: a run with a task comes from the orchestrator.
abbrev pub caller_of : Value → String
caller_of v = if is_null v then "cli" else "orchestrator"

module _ {W : Type 0} (services : Services W) (req : Request W) where
  unfoldable pub started_meta : Fields
  started_meta = Fields.field "mode" (Value.str req.session_state.mode) (
      Fields.field "provider" (Value.str req.session_state.provider)
        (Fields.field "caller" (Value.str (caller_of req.session_state.task_spec_id)) Fields.end))

  unfoldable pub routed_meta : SessionState → Fields
  routed_meta state = Fields.field "selected_provider" (Value.str state.provider) (
      Fields.field "route_id" (Value.str state.route_id)
        (Fields.field "fallback_used" (Value.bool (fallback_of state.route)) Fields.end))

  -- The `try` block of `run`.
  unfoldable pub body : Action W (SessionState × ExecutionResult)
  unfolding use_capability null_path ollama_path started_meta routed_meta
  body =
      let state = mirror_audit req.audit req.session_state in
      do
        emit_kind services req EngineEventKind.run_started started_meta
        cap ← use_capability services req req.deps req.capability_id
        set_phase Phase.setup
        emit_kind services req EngineEventKind.route_resolved (routed_meta state)
        let local = ollama_path services req state cap in
            if str_eq state.provider "ollama" then local else null_path services req state cap

  -- Step 1 of the handler.
  fail_trace : ExecutionTrace → Result ExecutionTrace → ExecutionTrace
  fail_trace t (ok t') = t'
  fail_trace t (err e) = t

  unfoldable pub close_trace : ExecutionTrace → ExecutionTrace
  unfolding fail_trace fail
  close_trace t = elim t.status [
    | Status.completed ↦ t
    | Status.failed ↦ t
    | _ ↦ fail_trace t (fail t)
  ]

  unfoldable pub failure_of : Exn → Phase → RuntimeFailure
  unfolding classify_exception
  failure_of e phase =
      classify_exception req.session_state.request_id req.session_state.task_spec_id services.tables
        e phase

  unfoldable pub failed_meta : RuntimeFailure → Phase → Fields
  failed_meta f phase = Fields.field "failure_kind" (Value.str (Types.value f.kind)) (
      Fields.field "failure_code" (Value.str f.code)
        (Fields.field "phase" (Value.str (phase_text phase)) Fields.end))

  -- A raise of the event is suppressed; the exception carries the envelope.
  handle : Exn → RunState W → RunState W → Result (SessionState × ExecutionResult) × RunState W
  handle e before s = (err (record e { runtime_failure = some (failure_of e before.phase) }), s)

  unfoldable pub recover :
      Result (SessionState × ExecutionResult) × RunState W
      → Result (SessionState × ExecutionResult) × RunState W
  unfolding handle close_trace failure_of failed_meta
  recover (ok a, s) = (ok a, s)
  recover (err e, s) =
      handle e s
        (emit_kind services req EngineEventKind.run_failed
          (failed_meta (failure_of e s.phase) s.phase) (with_trace (close_trace s.trace) s)).1

  -- `TraceRecorder(…)` reads the clock once.
  unfoldable pub initial : W → RunState W
  unfolding new_trace
  initial w =
      let (now, w') = services.clock.time_ms w in
      record {
        trace = new_trace req.session_state.request_id now;
        events = [];
        phase = Phase.setup;
        world = w';
      }

  -- The run with the state that it ends in.
  unfoldable pub run_traced : W → Result (SessionState × ExecutionResult) × RunState W
  unfolding recover body initial
  run_traced w = recover (body (initial w))

  -- `run`
  unfoldable pub run : W → Result (SessionState × ExecutionResult) × W
  unfolding run_traced
  run w = let (r, s) = run_traced w in (r, s.world)

-- ===== src/Engine/Actions.antt =====
-- The state of a run (its trace, its events, its phase and the world) and the actions on it.
use io_iii_runtime.Prelude.{String, List, map}
use io_iii_runtime.Python.Value.{Fields}
use io_iii_runtime.Python.Error.{Result, ok, err}
use io_iii_runtime.Python.Effect.{Effect}
use io_iii_runtime.Python.Clock.{Clock}
use io_iii_runtime.Failure.Classify.{Phase}
use io_iii_runtime.Trace.{ExecutionTrace, step, complete}
use io_iii_runtime.Observability.{EngineEventKind, EngineEvent, EngineObservabilityLog, emit}
use io_iii_runtime.SessionState.{SessionState}

pub record RunState (W : Type 0) : Type 0 where
  pub trace : ExecutionTrace
  pub events : EngineObservabilityLog
  pub phase : Phase
  pub world : W

abbrev pub Action : Type 0 → Type 0 → Type 0
Action W A = Effect (RunState W) A

module _ {W : Type 0} where
  abbrev pub with_phase : Phase → RunState W → RunState W
  with_phase p s = record { trace = s.trace; events = s.events; phase = p; world = s.world }

  -- `_phase = …`
  unfoldable pub set_phase : Phase → Action W (Unit {0})
  set_phase p s = (ok tt, with_phase p s)

  -- A computation on the world alone.
  unfoldable pub in_world : {A : Type 0} → Effect W A → Action W A
  in_world body s =
      let (r, w) = body s.world in
      (r, record { trace = s.trace; events = s.events; phase = s.phase; world = w })

  abbrev pub with_trace : ExecutionTrace → RunState W → RunState W
  with_trace t s = record { trace = t; events = s.events; phase = s.phase; world = s.world }

  abbrev pub sealed : Result ExecutionTrace → Action W (Unit {0})
  sealed (ok t) s = (ok tt, with_trace t s)
  sealed (err e) s = (err e, s)

  -- `trace.complete()`
  unfoldable pub complete_trace : Action W (Unit {0})
  unfolding complete
  complete_trace s = sealed (complete s.trace) s

  module _ (clock : Clock W) where
    -- `with trace.step(stage, meta=…): body`
    unfoldable pub in_step : {A : Type 0} → String → (Result A → Fields) → Effect W A → Action W A
    unfolding step
    in_step stage meta body s =
        let (r, t, w) = step clock stage meta body s.trace s.world in
        (r, record { trace = t; events = s.events; phase = s.phase; world = w })

    -- `_obs.emit(kind, …)`, with the identifiers of the run.
    unfoldable pub emit_event : SessionState → EngineEventKind → Fields → Action W (Unit {0})
    unfolding emit
    emit_event session kind meta s =
        let (r, log, w) =
          emit clock session.request_id session.task_spec_id kind meta s.events s.world in
        (r, record { trace = s.trace; events = log; phase = s.phase; world = w })

abbrev pub kinds : EngineObservabilityLog → List EngineEventKind
kinds = map EngineEvent.kind

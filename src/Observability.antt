-- ===== src/Observability.antt =====
-- io_iii/core/engine_observability.py: the bounded log of the engine's lifecycle events.
pub mod Bounds
mod Tests
use io_iii_runtime.Prelude.{ℕ, ◌+◌, String, Bool, List, [], ◌∷◌, ◌++◌, if◌then◌else◌, leb, length}
use io_iii_runtime.Python.Value.{Value, Items, Fields, nat}
use io_iii_runtime.Python.Error.{ExnClass, Exn, exn, Result, ok, err, ◌>>=◌, ◌>>◌, raise_if}
use io_iii_runtime.Python.Clock.{Clock}
use io_iii_runtime.Safety.{assert_no_forbidden_keys, default_forbidden_keys}

pub data EngineEventKind : Type 0 where
  run_started route_resolved provider_execution_complete : EngineEventKind
  challenger_audit_complete revision_complete : EngineEventKind
  output_emitted run_complete run_failed : EngineEventKind

-- `kind.value`
abbrev pub value : EngineEventKind → String
value EngineEventKind.run_started = "engine_run_started"
value EngineEventKind.route_resolved = "route_resolved"
value EngineEventKind.provider_execution_complete = "provider_execution_complete"
value EngineEventKind.challenger_audit_complete = "challenger_audit_complete"
value EngineEventKind.revision_complete = "revision_complete"
value EngineEventKind.output_emitted = "output_emitted"
value EngineEventKind.run_complete = "engine_run_complete"
value EngineEventKind.run_failed = "engine_run_failed"

pub record EngineEvent : Type 0 where
  pub kind : EngineEventKind
  pub timestamp_ms : ℕ
  pub request_id : String
  pub task_spec_id : Value
  pub meta : Fields

-- `_MAX_EVENTS`
abbrev pub max_events : ℕ
max_events = 16

-- `_events`
abbrev pub EngineObservabilityLog : Type 0
EngineObservabilityLog = List EngineEvent

-- The checks of `emit`, before the event is appended.
unfoldable pub check_emit : Fields → EngineObservabilityLog → Result (Unit {0})
unfolding assert_no_forbidden_keys
check_emit meta log =
    raise_if (leb max_events (length log))
      (exn ExnClass.runtime_error "OBSERVABILITY_LOG_CAPACITY: cannot emit '")
    >> assert_no_forbidden_keys default_forbidden_keys (Value.obj meta)

module _ {W : Type 0} (clock : Clock W) (request_id : String) (task_spec_id : Value) where
  append_event : EngineEventKind → Fields → EngineObservabilityLog → W → EngineObservabilityLog × W
  append_event kind meta log w =
      let (now, w') = clock.time_ms w in
      let e : EngineEvent = record {
        kind = kind;
        timestamp_ms = now;
        request_id = request_id;
        task_spec_id = task_spec_id;
        meta = meta;
      } in
      (log ++ e ∷ [], w')

  -- A raise leaves the log as it was.
  unfoldable pub emitted :
      Result (Unit {0})
      → EngineEventKind
      → Fields
      → EngineObservabilityLog
      → W
      → Result (Unit {0}) × EngineObservabilityLog × W
  unfolding append_event
  emitted (ok _) kind meta log w =
      let (log', w') = append_event kind meta log w in (ok tt, log', w')
  emitted (err e) kind meta log w = (err e, log, w)

  unfoldable pub emit :
      EngineEventKind
      → Fields
      → EngineObservabilityLog
      → W
      → Result (Unit {0}) × EngineObservabilityLog × W
  unfolding check_emit emitted
  emit kind meta log = emitted (check_emit meta log) kind meta log

event_dict : EngineEvent → Fields
event_dict e = Fields.field "kind" (Value.str (value e.kind)) (
    Fields.field "timestamp_ms" (nat e.timestamp_ms) (
      Fields.field "request_id" (Value.str e.request_id) (
        Fields.field "task_spec_id" e.task_spec_id
          (Fields.field "meta" (Value.obj e.meta) Fields.end))))

unfoldable pub to_list : EngineObservabilityLog → Items
unfolding event_dict
to_list [] = Items.nil
to_list (e ∷ log) = Items.cons (Value.obj (event_dict e)) (to_list log)

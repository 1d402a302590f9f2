-- ===== src/Observability/Tests.antt =====
-- A log with one event, and emits on it.
use io_iii_runtime.Prelude.{◌≡◌, refl, [], ◌∷◌, arith}
use io_iii_runtime.Python.Value.{Value, Fields}
use io_iii_runtime.Python.Error.{err}
use io_iii_runtime.Safety.{size, forbidden_err}
use io_iii_runtime.Safety.Guard.{has_forbidden}
use io_iii_runtime.Samples.{ticking}
use io_iii_runtime.Observability.{EngineEventKind, EngineObservabilityLog, emit}
use io_iii_runtime.Observability.Bounds.{IsSafe, emit-IsSafe}

abbrev one_event : EngineObservabilityLog
one_event =
    record {
      kind = EngineEventKind.run_started;
      timestamp_ms = 3;
      request_id = "r1";
      task_spec_id = Value.null;
      meta = Fields.field "mode" (Value.str "executor") Fields.end;
    }
    ∷ []

-- The verdict of a challenger can smuggle a forbidden key in; the event is refused.
smuggled_key_refused :
    emit ticking "r1" Value.null EngineEventKind.challenger_audit_complete
      (Fields.field "verdict" (Value.obj (Fields.field "draft" Value.null Fields.end)) Fields.end)
      one_event
      4
    ≡ (err forbidden_err, one_event, 4)
unfolding emit size
smuggled_key_refused = refl

one_event-IsSafe : IsSafe one_event
unfolding has_forbidden
one_event-IsSafe = (omega arith, (refl, tt))

emit-IsSafe_example :
    IsSafe (emit ticking "r1" Value.null EngineEventKind.route_resolved Fields.end one_event 4).1
emit-IsSafe_example =
    emit-IsSafe ticking "r1" Value.null EngineEventKind.route_resolved Fields.end one_event 4
      one_event-IsSafe

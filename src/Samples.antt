-- ===== src/Samples.antt =====
-- A clock, a configuration and a session that the tests of several components run with.
use io_iii_runtime.Prelude.{ℕ, ◌+◌, ◌*◌, false, none, some}
use io_iii_runtime.Python.Value.{ℤ, Value, Fields}
use io_iii_runtime.Python.Clock.{Clock}
use io_iii_runtime.Config.{Io3Config}
use io_iii_runtime.Mode.{SessionMode}
use io_iii_runtime.SessionState.{SessionState, RouteInfo, no_audit}

-- The world is the number of reads.
abbrev pub ticking : Clock ℕ
ticking = record {
  time_ms = λ w. (w, w + 1);
  monotonic_ns = λ w. (w * 1000000, w + 1);
  perf_counter_ns = λ w. (w * 1000000, w + 1);
}

abbrev routing_table : Fields
routing_table =
    Fields.field "modes"
      (Value.obj (
        Fields.field "executor"
          (Value.obj (
            Fields.field "primary" (Value.str "local:mistral")
              (Fields.field "secondary" (Value.str "null:null") Fields.end)))
          Fields.end))
      Fields.end

abbrev pub config : Io3Config
config = record {
  config_dir = "config";
  providers =
      Fields.field "providers"
        (Value.obj (
          Fields.field "ollama" (Value.obj (Fields.field "enabled" (Value.str "yes") Fields.end))
            Fields.end))
        Fields.end;
  logging = Fields.end;
  routing = Fields.field "routing_table" (Value.obj routing_table) Fields.end;
  runtime = Fields.end;
}

abbrev pub local_route : RouteInfo
local_route = record {
  mode = "executor";
  primary_target = some "local:mistral";
  secondary_target = some "null:null";
  selected_target = some "local:mistral";
  selected_provider = "ollama";
  fallback_used = false;
  fallback_reason = none;
  boundaries = Fields.end;
}

abbrev pub session : SessionState
session = record {
  request_id = "r1";
  started_at_ms = ℤ.pos 0;
  schema_version = "v1";
  latency_ms = none;
  mode = "executor";
  config_dir = "config";
  route = some local_route;
  audit = no_audit false;
  status = "ok";
  provider = "ollama";
  model = none;
  route_id = "executor";
  persona_contract_version = some "v0.1";
  persona_id = none;
  task_spec_id = Value.str "ts-1";
  error_code = none;
  logging_policy = Value.obj Fields.end;
  session_mode = SessionMode.work;
}

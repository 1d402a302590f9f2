-- ===== src/Orchestrator.antt =====
-- io_iii/core/orchestrator.py: the one route, the one session and the one engine run of a task.
-- `fresh_id` is `make_request_id`, which reads the clock and the process identifier.
pub mod Contract
mod Tests
use io_iii_runtime.Prelude.{
  ℕ, suc, String, Bool, true, false, Option, none, some, List, [], ◌∷◌, if◌then◌else◌, length, ltb,
}
use io_iii_runtime.Python.Text.{is_empty}
use io_iii_runtime.Python.Value.{ℤ, Value, Fields}
use io_iii_runtime.Python.Error.{ExnClass, Exn, value_err, Result, ok, err, raise_if}
use io_iii_runtime.Python.Effect.{Effect, ◌>>=◌, ◌>>◌, pure, lift}
use io_iii_runtime.Config.{Io3Config}
use io_iii_runtime.Mode.{SessionMode}
use io_iii_runtime.SessionState.{SessionState, RouteInfo, no_audit, validate_session_state}
use io_iii_runtime.Routing.{RouteSelection, resolve_route}
use io_iii_runtime.TaskSpec.{TaskSpec}
use io_iii_runtime.Persona.{persona_contract_version}
use io_iii_runtime.Engine.{ExecutionResult}
use io_iii_runtime.Engine.Environment.{Services, RuntimeDependencies, Request}
use io_iii_runtime.Engine.Challenger.{routing_of}
use io_iii_runtime.Engine.Run as Engine

abbrev route_of : RouteSelection → RouteInfo
route_of selection = record {
  mode = selection.mode;
  primary_target = selection.primary_target;
  secondary_target = selection.secondary_target;
  selected_target = selection.selected_target;
  selected_provider = selection.selected_provider;
  fallback_used = selection.fallback_used;
  fallback_reason = selection.fallback_reason;
  boundaries = selection.boundaries;
}

-- The frozen snapshot of a run.
unfoldable pub session_of : Io3Config → Bool → TaskSpec → RouteSelection → String → ℕ → SessionState
session_of config audit task selection request_id now = record {
  request_id = request_id;
  started_at_ms = ℤ.pos now;
  schema_version = "v1";
  latency_ms = none;
  mode = selection.mode;
  config_dir = config.config_dir;
  route = some (route_of selection);
  audit = no_audit audit;
  status = "ok";
  provider = selection.selected_provider;
  model = none;
  route_id = selection.mode;
  persona_contract_version = some persona_contract_version;
  persona_id = none;
  task_spec_id = task.task_spec_id;
  error_code = none;
  logging_policy = Value.obj config.logging;
  session_mode = SessionMode.work;
}

abbrev pub first : List String → Option String
first [] = none
first (c ∷ cs) = some c

-- `capability_payload if capability_id else None`
abbrev payload_for : Option String → Value → Value
payload_for none payload = Value.null
payload_for (some id) payload = if is_empty id then Value.null else payload

-- The keyword arguments of `run` besides the task.
pub record Call (W : Type 0) : Type 0 where
  pub config : Io3Config
  pub deps : RuntimeDependencies W
  pub audit : Bool
  pub capability_payload : Value
  pub request_id : Option String

module _ {W : Type 0} (services : Services W) (fresh_id : W → String × W) where
  -- `request_id or make_request_id()`
  request_id_of : Option String → Effect W String
  request_id_of none w = let (id, w') = fresh_id w in (ok id, w')
  request_id_of (some id) w =
      let (new, w') = fresh_id w in if is_empty id then (ok new, w') else (ok id, w)

  now_ms : Effect W ℕ
  now_ms w = let (now, w') = services.clock.time_ms w in (ok now, w')

  -- Everything in front of the engine: the checks, the route, and the session, validated.
  unfoldable pub prepare : Call W → TaskSpec → Effect W SessionState
  unfolding resolve_route routing_of session_of request_id_of now_ms validate_session_state
  prepare call task = do
    lift (
        raise_if (ltb 1 (length task.capabilities))
          (value_err "ORCHESTRATOR_SINGLE_RUN: TaskSpec declares "))
    routing ← lift (routing_of call.config)
    selection ←
        lift (resolve_route call.config.providers ("null" ∷ "ollama" ∷ []) routing task.mode)
    id ← request_id_of call.request_id
    now ← now_ms
    lift (validate_session_state (session_of call.config call.audit task selection id now))
    pure (session_of call.config call.audit task selection id now)

  unfoldable pub request_for : Call W → TaskSpec → SessionState → Request W
  request_for call task state = record {
    config = call.config;
    session_state = state;
    user_prompt = task.prompt;
    audit = call.audit;
    deps = some call.deps;
    challenger_fn = none;
    ollama_provider_factory = none;
    capability_id = first task.capabilities;
    capability_payload = payload_for (first task.capabilities) call.capability_payload;
  }

  -- The engine, and the validation of the state that it returns.
  unfoldable pub execute :
      Call W → TaskSpec → SessionState → Effect W (SessionState × ExecutionResult)
  unfolding request_for validate_session_state
  execute call task state = do
    out ← Engine.run services (request_for call task state)
    lift (validate_session_state out.0)
    pure out

  -- `run`
  unfoldable pub run : Call W → TaskSpec → Effect W (SessionState × ExecutionResult)
  unfolding prepare execute
  run call task = prepare call task >>= execute call task

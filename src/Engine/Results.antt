-- ===== src/Engine/Results.antt =====
-- What a run returns: the final state, the result and its metadata.
use io_iii_runtime.Prelude.{
  ℕ, suc, ◌-◌, ◌+◌, ◌==◌, String, Bool, true, false, not, Option, none, some, if◌then◌else◌,
}
use io_iii_runtime.Python.Value.{ℤ, Value, Fields, opt_str, nat, is_null}
use io_iii_runtime.SessionState.{SessionState, RouteInfo}
use io_iii_runtime.Persona.{persona_contract_version}
use io_iii_runtime.Context.{estimate_chars}
use io_iii_runtime.Engine.{ExecutionResult}
use io_iii_runtime.Engine.Environment.{Generated}
use io_iii_runtime.Engine.Passes.{Audited}

-- `max(0, now - started)`; the model's `-` stops at 0.
unfoldable pub latency : ℕ → ℤ → ℕ
latency now (ℤ.pos started) = now - started
latency now (ℤ.negsuc n) = suc (n + now)

abbrev pub model_meta : String → Option String → Fields
model_meta provider model =
    Fields.field "provider" (Value.str provider) (Fields.field "model" (opt_str model) Fields.end)

abbrev pub fallback_of : Option RouteInfo → Bool
fallback_of none = false
fallback_of (some r) = r.fallback_used

abbrev pub selected_of : Option RouteInfo → Option String
selected_of none = none
selected_of (some r) = r.selected_target

-- `audit_state`: the flag of the request on the session's own counters.
abbrev pub mirror_audit : Bool → SessionState → SessionState
mirror_audit enabled s = record s { audit = record s.audit { audit_enabled = enabled } }

abbrev pub with_capability : Option Fields → Fields → Fields
with_capability none rest = rest
with_capability (some m) rest = Fields.field "capability" (Value.obj m) rest

abbrev null_meta : SessionState → Fields → Fields
null_meta state rest = Fields.field "provider" (Value.str "null") (
    Fields.field "mode" (Value.str state.mode) (
      Fields.field "route_id" (Value.str state.route_id)
        (Fields.field "stub" (Value.bool true) rest)))

abbrev pub finished : String → Option String → ℕ → SessionState → SessionState
finished provider model ms state = record state {
  status = "ok";
  provider = provider;
  model = model;
  latency_ms = some (ℤ.pos ms);
}

-- `state2` and the result of the null path.
abbrev pub null_outcome :
    SessionState → Option Fields → Value → Value → ℕ → SessionState × ExecutionResult
null_outcome state cap trace_dict events ms = (
  finished "null" none ms state,
  record {
    message = "";
    meta = null_meta state (
        Fields.field "trace" trace_dict
          (with_capability cap (Fields.field "engine_events" events Fields.end)));
    provider = "null";
    model = none;
    route_id = state.route_id;
    audit_meta = none;
    prompt_hash = none;
  },
)

-- `ExecutionMetrics(…).to_dict()`, of io_iii/core/telemetry.py
unfoldable pub metrics : Generated → String → String → ℕ → Value
metrics g prompt model ms = Value.obj (
    Fields.field "call_count" (nat 1) (
      Fields.field "input_tokens"
        (if is_null g.input_tokens then nat (estimate_chars prompt) else g.input_tokens)
        (Fields.field "output_tokens" g.output_tokens (
          Fields.field "latency_ms" (nat ms)
            (Fields.field "model_used" (Value.str model) Fields.end)))))

abbrev pub was_revised : Audited → Bool
was_revised a = not (a.revision_passes == 0)

module _ (audit : Bool) where
  -- `audit_meta if audit else None`
  audit_record : Audited → Option Value
  audit_record a =
      if audit
      then some (
          Value.obj (
            Fields.field "audit_used" (Value.bool (not (a.audit_passes == 0))) (
              Fields.field "audit_verdict" a.verdict
                (Fields.field "revised" (Value.bool (was_revised a)) Fields.end))))
      else none

  -- `state2` of the path through a provider.
  abbrev pub audited_state : String → ℕ → Audited → SessionState → SessionState
  audited_state model ms a state = record (finished "ollama" (some model) ms state) {
    audit = record {
      audit_enabled = audit;
      audit_passes = ℤ.pos a.audit_passes;
      revision_passes = ℤ.pos a.revision_passes;
      audit_verdict = a.verdict;
      revised = was_revised a;
    };
  }

  unfoldable pub ollama_result :
      SessionState
      → String
      → Audited
      → Option Fields
      → Value
      → Value
      → Value
      → String
      → ExecutionResult
  unfolding audit_record
  ollama_result state model a cap trace_dict telemetry events prompt_hash = record {
    message = a.text;
    meta = Fields.field "persona_contract_version" (Value.str persona_contract_version) (
        Fields.field "trace" trace_dict (
          Fields.field "telemetry" telemetry
            (with_capability cap (Fields.field "engine_events" events Fields.end))));
    provider = "ollama";
    model = some model;
    route_id = state.route_id;
    audit_meta = audit_record a;
    prompt_hash = some prompt_hash;
  }

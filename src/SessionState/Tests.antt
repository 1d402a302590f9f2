-- ===== src/SessionState/Tests.antt =====
-- A snapshot before and after a run with an audit.
use io_iii_runtime.Prelude.{◌≡◌, refl, true, none, some}
use io_iii_runtime.Python.Text.{is_blank}
use io_iii_runtime.Python.Value.{ℤ, Value, Fields}
use io_iii_runtime.Python.Error.{err, value_err}
use io_iii_runtime.Mode.{SessionMode}
use io_iii_runtime.SessionState.{SessionState, no_audit, validate_session_state}

abbrev pub audited : SessionState
audited = record {
  request_id = "r1";
  started_at_ms = ℤ.pos 1000;
  schema_version = "v1";
  latency_ms = some (ℤ.pos 30);
  mode = "executor";
  config_dir = "config";
  route = none;
  audit = record (no_audit true) { audit_passes = ℤ.pos 1; audit_verdict = Value.str "pass" };
  status = "ok";
  provider = "ollama";
  model = some "mistral";
  route_id = "executor";
  persona_contract_version = none;
  persona_id = none;
  task_spec_id = Value.str "ts-1";
  error_code = none;
  logging_policy = Value.obj Fields.end;
  session_mode = SessionMode.work;
}

two_audits_refused :
    validate_session_state
      (record audited { audit = record (no_audit true) { audit_passes = ℤ.pos 2 } })
    ≡ err (value_err "AuditGateState.audit_passes exceeds")
unfolding validate_session_state is_blank
two_audits_refused = refl

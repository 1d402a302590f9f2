-- ===== src/SessionState.antt =====
-- io_iii/core/session_state.py: the control-plane snapshot of a run and its validation. What a
-- field's type in the model already ensures (a text is a text) is not checked again.
pub mod Validation
mod Tests
use io_iii_runtime.Prelude.{
  ℕ, suc, String, Bool, true, false, not, ◌&&◌, ◌||◌, Option, none, some, ltb, if◌then◌else◌,
  str_eq,
}
use io_iii_runtime.Python.Text.{is_empty, is_blank}
use io_iii_runtime.Python.Value.{ℤ, Value, Fields, is_negative}
use io_iii_runtime.Python.Error.{value_err, Result, ok, err, ◌>>=◌, ◌>>◌, raise_if}
use io_iii_runtime.Mode.{SessionMode}

pub record RouteInfo : Type 0 where
  pub mode : String
  pub primary_target : Option String
  pub secondary_target : Option String
  pub selected_target : Option String
  pub selected_provider : String
  pub fallback_used : Bool
  pub fallback_reason : Option String
  pub boundaries : Fields

pub record AuditGateState : Type 0 where
  pub audit_enabled : Bool
  pub audit_passes : ℤ
  pub revision_passes : ℤ
  pub audit_verdict : Value
  pub revised : Bool

abbrev pub no_audit : Bool → AuditGateState
no_audit enabled = record {
  audit_enabled = enabled;
  audit_passes = ℤ.pos 0;
  revision_passes = ℤ.pos 0;
  audit_verdict = Value.null;
  revised = false;
}

-- `task_spec_id` is `null` for a run with no task.
pub record SessionState : Type 0 where
  pub request_id : String
  pub started_at_ms : ℤ
  pub schema_version : String
  pub latency_ms : Option ℤ
  pub mode : String
  pub config_dir : String
  pub route : Option RouteInfo
  pub audit : AuditGateState
  pub status : String
  pub provider : String
  pub model : Option String
  pub route_id : String
  pub persona_contract_version : Option String
  pub persona_id : Option String
  pub task_spec_id : Value
  pub error_code : Option String
  pub logging_policy : Value
  pub session_mode : SessionMode

abbrev pub max_audit_passes : ℕ
max_audit_passes = 1

abbrev pub max_revision_passes : ℕ
max_revision_passes = 1

abbrev exceeds : ℤ → ℕ → Bool
exceeds (ℤ.pos n) k = ltb k n
exceeds (ℤ.negsuc n) k = false

abbrev is_late : Option ℤ → Bool
is_late none = false
is_late (some z) = is_negative z

abbrev is_missing : Option String → Bool
is_missing none = true
is_missing (some c) = is_empty c

-- Neither `None` nor a text with something in it.
is_bad_task_spec_id : Value → Bool
is_bad_task_spec_id Value.null = false
is_bad_task_spec_id (Value.str s) = is_blank s
is_bad_task_spec_id _ = true

validate_audit : AuditGateState → Result (Unit {0})
validate_audit a = do
  raise_if (is_negative a.audit_passes) (value_err "AuditGateState.audit_passes")
  raise_if (is_negative a.revision_passes) (value_err "AuditGateState.revision_passes")
  raise_if (exceeds a.audit_passes max_audit_passes)
      (value_err "AuditGateState.audit_passes exceeds")
  raise_if (exceeds a.revision_passes max_revision_passes)
      (value_err "AuditGateState.revision_passes exceeds")

validate_route : String → Option RouteInfo → Result (Unit {0})
validate_route mode none = ok tt
validate_route mode (some r) = do
  raise_if (not (str_eq r.mode mode)) (value_err "RouteInfo.mode must match SessionState.mode")
  raise_if (is_empty r.selected_provider)
      (value_err "RouteInfo.selected_provider must be a non-empty string")

unfoldable pub validate_session_state : SessionState → Result (Unit {0})
unfolding is_bad_task_spec_id validate_audit validate_route
validate_session_state s = do
  raise_if (not (str_eq s.schema_version "v1"))
      (value_err "SessionState.schema_version must be 'v1'")
  raise_if (is_empty s.request_id) (value_err "SessionState.request_id must be a non-empty string")
  raise_if (is_negative s.started_at_ms) (value_err "SessionState.started_at_ms")
  raise_if (is_late s.latency_ms) (value_err "SessionState.latency_ms")
  raise_if (not (str_eq s.status "ok") && not (str_eq s.status "error"))
      (value_err "SessionState.status must be 'ok' or 'error'")
  raise_if (str_eq s.status "error" && is_missing s.error_code)
      (value_err "SessionState.error_code must be set when status == 'error'")
  raise_if (is_bad_task_spec_id s.task_spec_id)
      (value_err "SessionState.task_spec_id must be a non-empty string when set")
  validate_audit s.audit
  validate_route s.mode s.route

-- ===== src/SessionState/Validation.antt =====
-- What a validated snapshot satisfies.
use io_iii_runtime.Prelude.{◌≡◌, ◌≢◌, ◌⊎◌, none, some, arith, eq_iff, Option-cases, inl, inr}
use io_iii_runtime.Python.Value.{ℤ}
use io_iii_runtime.Python.Error.{ok}
use io_iii_runtime.SessionState.{SessionState, RouteInfo, validate_session_state}

-- The contract of SessionState v1 as the class comment has it.
pub record IsValid (s : SessionState) : Type 0 where
  pub schema : s.schema_version ≡ "v1"
  pub status_value : (s.status ≡ "ok") ⊎ (s.status ≡ "error")
  pub error_coded : (s.status ≢ "error") ⊎ (s.error_code ≢ none)
  pub audits_bounded : (s.audit.audit_passes ≡ ℤ.pos 0) ⊎ (s.audit.audit_passes ≡ ℤ.pos 1)
  pub revisions_bounded : (s.audit.revision_passes ≡ ℤ.pos 0) ⊎ (s.audit.revision_passes ≡ ℤ.pos 1)
  pub route_mode : (s.route ≡ none) ⊎ ((r : RouteInfo) × (s.route ≡ some r) × (r.mode ≡ s.mode))

-- A snapshot that validation accepts has schema v1, a known status with an error code when it is
-- an error, at most one audit pass and one revision pass, and a route, if any, for its own mode.
pub validate-IsValid : (s : SessionState) → validate_session_state s ≡ ok tt → IsValid s
unfolding validate_session_state
validate-IsValid s h = record {
  schema = ground (arith, eq_iff s.schema_version "v1");
  status_value = ground (arith, eq_iff s.status "ok", eq_iff s.status "error");
  error_coded = ground (arith, eq_iff s.status "error");
  audits_bounded = ground arith;
  revisions_bounded = ground arith;
  route_mode = elim (Option-cases s.route) [
    | inl e ↦ inl e
    | inr (r, e) ↦ inr (r, e, ground (arith, eq_iff r.mode s.mode))
  ];
}

-- ===== src/Engine/Validity.antt =====
-- A run keeps the session valid, and within the bounds of its audit.
use io_iii_runtime.Prelude.{
  ℕ, ◌≤◌, ◌≡◌, sym, subst, String, Bool, none, arith, if◌then◌else◌, str_eq, inl, inr, Bool-cases,
}
use io_iii_runtime.Python.Error.{ok}
use io_iii_runtime.SessionState.{SessionState, validate_session_state}
use io_iii_runtime.Engine.{ExecutionResult}
use io_iii_runtime.Engine.Environment.{Services, Request}
use io_iii_runtime.Engine.Actions.{RunState}
use io_iii_runtime.Engine.Passes.{Audited}
use io_iii_runtime.Engine.Results.{finished, audited_state, mirror_audit}
use io_iii_runtime.Engine.Run.{run_traced}
use io_iii_runtime.Engine.Course.{IsFinal, IsNullState, IsAuditedState}
use io_iii_runtime.Engine.Contract.{run_traced-IsFinal}

null_state-valid :
    (b : Bool) (ms : ℕ) (s : SessionState)
    → validate_session_state s ≡ ok tt
    → validate_session_state (finished "null" none ms (mirror_audit b s)) ≡ ok tt
unfolding validate_session_state
null_state-valid b ms s h = ground arith

audited_state-valid :
    (b : Bool) (m : String) (ms : ℕ) (a : Audited) (s : SessionState)
    → a.audit_passes ≤ 1
    → a.revision_passes ≤ 1
    → validate_session_state s ≡ ok tt
    → validate_session_state (audited_state b m ms a (mirror_audit b s)) ≡ ok tt
unfolding validate_session_state
audited_state-valid b m ms a s one two h = ground arith

-- `IsFinal`, by the answer to whether the provider is the local one.
abbrev Choice : {W : Type 0} → Services W → Request W → SessionState → Bool → Type 0
Choice services req f b = if b then IsAuditedState services req f else IsNullState services req f

passes_bound : (b : Bool) (n : ℕ) → n ≡ (if b then 1 else 0) → n ≤ 1
passes_bound b n h = ground arith

final-valid :
    {W : Type 0} (services : Services W) (req : Request W) (f : SessionState)
    → validate_session_state req.session_state ≡ ok tt
    → IsFinal services req f
    → validate_session_state f ≡ ok tt
final-valid services req f h final =
    elim (Bool-cases (str_eq req.session_state.provider "ollama")) [
      | inl local ↦
          let (m, ms, a, eq, audits, revisions) = subst (Choice services req f) local final in
          subst (λ g. validate_session_state g ≡ ok tt) (sym eq)
            (audited_state-valid req.audit m ms a req.session_state (passes_bound _ _ audits)
              (passes_bound _ _ revisions) h)
      | inr other ↦
          let (ms, eq) = subst (Choice services req f) other final in
          subst (λ g. validate_session_state g ≡ ok tt) (sym eq)
            (null_state-valid req.audit ms req.session_state h)
    ]

-- The state that a run returns passes the validation again if the session that it was given does.
pub run_traced-validate :
    {W : Type 0} (services : Services W) (req : Request W) (w : W) (f : SessionState)
    (r : ExecutionResult) (s : RunState W)
    → validate_session_state req.session_state ≡ ok tt
    → run_traced services req w ≡ (ok (f, r), s)
    → validate_session_state f ≡ ok tt
run_traced-validate services req w f r s valid h =
    final-valid services req f valid (run_traced-IsFinal services req w f r s h)

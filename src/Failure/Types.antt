-- ===== src/Failure/Types.antt =====
-- The failure categories and the envelope of io_iii/core/failure_model.py.
use io_iii_runtime.Prelude.{String, Bool, Option}
use io_iii_runtime.Python.Value.{Value}

pub data RuntimeFailureKind : Type 0 where
  route_resolution provider_execution audit_challenger capability : RuntimeFailureKind
  contract_violation internal : RuntimeFailureKind

pub record RuntimeFailure : Type 0 where
  pub kind : RuntimeFailureKind
  pub code : String
  pub summary : String
  pub request_id : String
  pub task_spec_id : Value
  pub retryable : Bool
  pub causal_code : Option String

-- `kind.value`
abbrev pub value : RuntimeFailureKind → String
value RuntimeFailureKind.route_resolution = "route_resolution"
value RuntimeFailureKind.provider_execution = "provider_execution"
value RuntimeFailureKind.audit_challenger = "audit_challenger"
value RuntimeFailureKind.capability = "capability"
value RuntimeFailureKind.contract_violation = "contract_violation"
value RuntimeFailureKind.internal = "internal"

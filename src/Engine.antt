-- ===== src/Engine.antt =====
-- io_iii/core/engine.py: what an execution returns.
pub mod Environment
pub mod Challenger
pub mod Actions
pub mod Passes
pub mod Results
pub mod Limits
pub mod Paths
pub mod Run
pub mod Plan
pub mod Rules
pub mod Emits
pub mod Protocol
pub mod Closing
pub mod Course
pub mod Contract
pub mod Validity
pub mod Tests
use io_iii_runtime.Prelude.{String, Option}
use io_iii_runtime.Python.Value.{Value, Fields}

pub record ExecutionResult : Type 0 where
  pub message : String
  pub meta : Fields
  pub provider : String
  pub model : Option String
  pub route_id : String
  pub audit_meta : Option Value
  pub prompt_hash : Option String

-- ===== src/Failure.antt =====
-- io_iii/core/failure_model.py: how an exception becomes a typed failure envelope.
pub mod Types
pub mod CausalCode
pub mod Classify
mod Tests

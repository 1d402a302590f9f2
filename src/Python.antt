-- ===== src/Python.antt =====
-- The part of Python that the program rests on: texts, dynamic values, exceptions.
pub mod Text
pub mod Value
pub mod Storage
pub mod Error
pub mod Clock
pub mod Effect

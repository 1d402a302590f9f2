-- ===== src/Observability/Bounds.antt =====
-- What the log of the engine's events can hold.
use io_iii_runtime.Prelude.{
  ◌≤◌, ◌<◌, ◌≡◌, refl, String, false, [], ◌∷◌, arith, length, length-append, All, All-append,
}
use io_iii_runtime.Python.Value.{Value, Fields}
use io_iii_runtime.Python.Error.{Result, ok, err}
use io_iii_runtime.Python.Clock.{Clock}
use io_iii_runtime.Safety.{default_forbidden_keys}
use io_iii_runtime.Safety.Guard.{has_forbidden, assert_no_forbidden_keys_lem}
use io_iii_runtime.Observability.{
  EngineEventKind, EngineEvent, EngineObservabilityLog, max_events, check_emit, emitted, emit,
}

abbrev pub IsClean : EngineEvent → Type 0
IsClean e = has_forbidden default_forbidden_keys (Value.obj e.meta) ≡ false

abbrev pub IsSafe : EngineObservabilityLog → Type 0
IsSafe log = (length log ≤ max_events) × All IsClean log

check_emit-ok :
    (meta : Fields) (log : EngineObservabilityLog)
    → check_emit meta log ≡ ok tt
    → (length log < max_events) × (has_forbidden default_forbidden_keys (Value.obj meta) ≡ false)
unfolding check_emit
check_emit-ok meta log h =
    ground (arith, assert_no_forbidden_keys_lem default_forbidden_keys (Value.obj meta))

module _ {W : Type 0} (clock : Clock W) (request_id : String) (task_spec_id : Value) where
  emitted-IsSafe :
      (r : Result (Unit {0})) (kind : EngineEventKind) (meta : Fields)
      (log : EngineObservabilityLog) (w : W)
      → check_emit meta log ≡ r
      → IsSafe log
      → IsSafe (emitted clock request_id task_spec_id r kind meta log w).1
  unfolding emitted
  emitted-IsSafe (ok _) kind meta log w h (bound, clean) =
      let fits = check_emit-ok meta log h in
      (
        omega (arith, length-append log (_ ∷ []), fits),
        All-append IsClean log (_ ∷ []) clean (fits.1, tt),
      )
  emitted-IsSafe (err e) kind meta log w h safe = safe

  -- An emit keeps the log within its capacity and free of forbidden keys, whether it appends the event
  -- or raises.
  pub emit-IsSafe :
      (kind : EngineEventKind) (meta : Fields) (log : EngineObservabilityLog) (w : W)
      → IsSafe log
      → IsSafe (emit clock request_id task_spec_id kind meta log w).1
  unfolding emit
  emit-IsSafe kind meta log w safe = emitted-IsSafe (check_emit meta log) kind meta log w refl safe

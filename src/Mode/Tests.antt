-- ===== src/Mode/Tests.antt =====
-- Gates in both modes, and the theorems at them.
use io_iii_runtime.Prelude.{ℕ, ◌≡◌, ◌↔◌, refl, Option, none, some, [], arith}
use io_iii_runtime.Python.Value.{ℤ, Value, Fields}
use io_iii_runtime.Python.Error.{ok}
use io_iii_runtime.Mode.{
  SessionMode, StewardThresholds, ThresholdKey, PauseState, StewardGate, check,
}
use io_iii_runtime.Mode.Gate.{Fires, gate_result, pause_iff}

abbrev every_third : StewardThresholds
every_third = record { step_count = some 3; token_budget = none; capability_classes = [] }

abbrev supervised : StewardGate
supervised = record { session_mode = SessionMode.steward; thresholds = every_third }

abbrev config : Fields
config =
    Fields.field "steward_thresholds"
      (Value.obj (Fields.field "step_count" (Value.int (ℤ.pos 3)) Fields.end)) Fields.end

abbrev pause_at_two : PauseState
pause_at_two = record {
  threshold_key = ThresholdKey.step_count;
  step_index = 2;
  steps_total = 50;
  session_mode = SessionMode.steward;
  run_id = "r1";
}

pause_iff_example :
    ((p : PauseState) × (gate_result supervised 2 50 "r1" 0 [] ≡ ok (some p)))
    ↔ ((supervised.session_mode ≡ SessionMode.steward) × Fires every_third 2 0 [])
pause_iff_example =
    pause_iff supervised 2 50 "r1" 0 []
      (record { positive_steps = λ e. omega (arith, some_three e) })
  where
    some_three : ◌≡◌ {A = Option ℕ} (some 3) (some 0) → ◌≡◌ {A = ℕ} 3 0
    some_three e = ground arith

pauses_at_two : gate_result supervised 2 50 "r1" 0 [] ≡ ok (some pause_at_two)
unfolding check
pauses_at_two = refl

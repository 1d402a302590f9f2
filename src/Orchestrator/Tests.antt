-- ===== src/Orchestrator/Tests.antt =====
-- Tasks with a known and an unknown mode, and one whose provider fails.
use io_iii_runtime.Prelude.{ℕ, ◌+◌, ◌≡◌, refl, String, false, none, some, []}
use io_iii_runtime.Python.Text.{strip, split_colon, is_blank}
use io_iii_runtime.Python.Value.{Value, Fields}
use io_iii_runtime.Python.Error.{ExnClass, Exn, exn, Result, ok, err, value_err}
use io_iii_runtime.Python.Effect.{◌>>=◌, pure, lift, gets}
use io_iii_runtime.Samples.{config}
use io_iii_runtime.Safety
use io_iii_runtime.TaskSpec.{TaskSpec}
use io_iii_runtime.Routing.{select, usable, parse_target, is_available, is_provider_enabled}
use io_iii_runtime.Engine.Run as Engine
use io_iii_runtime.Engine.Tests.{services}
use io_iii_runtime.Engine.Actions.{in_step, emit_event, set_phase, in_world}
use io_iii_runtime.Orchestrator.{Call, prepare, run}
use io_iii_runtime.Orchestrator.Contract.{
  IsExplained, engine, run-eq-prepare-engine, run-IsExplained,
}

abbrev task : String → TaskSpec
task mode = record {
  task_spec_id = Value.str "ts-1";
  mode = mode;
  prompt = "Hi";
  capabilities = [];
  metadata = Fields.end;
}

-- The provider raises.
abbrev call : Call ℕ
call = record {
  config = config;
  deps = record {
    ollama_provider_factory =
        λ providers w. (err (exn ExnClass.provider_error "PROVIDER_UNAVAILABLE: "), w);
    challenger_fn = none;
    capability_registry = [];
  };
  audit = false;
  capability_payload = Value.null;
  request_id = some "r1";
}

abbrev fresh_id : ℕ → String × ℕ
fresh_id w = ("new", w + 1)

unknown_mode :
    run services fresh_id call (task "poet") 0
    ≡ (err (value_err "routing_table.yaml: unknown mode"), 0)
unfolding run pure lift ◌>>=◌ split_colon strip
unknown_mode = refl

run-eq-prepare-engine_example :
    run services fresh_id call (task "executor") 0
    ≡ (prepare services fresh_id call (task "executor")
          >>= engine services fresh_id call (task "executor"))
        0
run-eq-prepare-engine_example = run-eq-prepare-engine services fresh_id call (task "executor") 0

abbrev error_or {ℓ} : {A : Type ℓ} → Result A → Exn
error_or (ok a) = value_err ""
error_or (err e) = e

abbrev error : Exn
error = error_or (run services fresh_id call (task "executor") 0).0

run-IsExplained_example :
    IsExplained services fresh_id call
      (task "executor")
      error
      0
      (run services fresh_id call (task "executor") 0).1
unfolding run pure lift gets strip split_colon is_blank select usable parse_target is_available
    is_provider_enabled Engine.run Safety.size in_step emit_event ◌>>=◌ set_phase in_world
run-IsExplained_example =
    run-IsExplained services fresh_id call (task "executor") 0 error
      (run services fresh_id call (task "executor") 0).1 refl

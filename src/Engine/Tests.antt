-- ===== src/Engine/Tests.antt =====
-- Runs with a provider that asks for a revision, with one that fails, and without one.
use io_iii_runtime.Prelude.{ℕ, ◌≡◌, refl, true, none, some, [], ◌∷◌}
use io_iii_runtime.Python.Text.{strip, split_colon, is_blank}
use io_iii_runtime.Python.Value.{Value, Fields}
use io_iii_runtime.Python.Error.{ExnClass, Exn, exn, Result, ok, err, value_err}
use io_iii_runtime.Python.Effect.{◌>>=◌, pure, lift, gets}
use io_iii_runtime.SessionState.{SessionState, validate_session_state}
use io_iii_runtime.Engine.{ExecutionResult}
use io_iii_runtime.Trace.{Status}
use io_iii_runtime.Engine.Course.{returned_kinds}
use io_iii_runtime.Engine.Contract.{Raises, run_traced-Returns, run_traced-Raises}
use io_iii_runtime.Engine.Closing.{Reports}
use io_iii_runtime.Engine.Validity.{run_traced-validate}
use io_iii_runtime.Safety.{assert_no_forbidden_keys}
use io_iii_runtime.Safety
use io_iii_runtime.Samples.{ticking, config, session}
use io_iii_runtime.Observability.{EngineEventKind}
use io_iii_runtime.Engine.Environment.{Services, Request}
use io_iii_runtime.Engine.Actions.{RunState, kinds, in_step, emit_event, set_phase, in_world}
use io_iii_runtime.Engine.Run.{run_traced}

abbrev pub services : Services ℕ
services = record {
  clock = ticking;
  tables = record { is_alnum = λ c. true; to_upper = λ c. "" };
  encoder = record { dumps = λ v. ok "{}"; show = λ v. "" };
  library = record {
    show = λ v. "";
    capitalize = λ s. s;
    canonical_json = λ v. "{}";
    sha256 = λ s. "hash";
    characters = λ s. [];
  };
  read_persona = λ w. (err (exn ExnClass.os_error "missing"), w);
  read_user_profile = λ w. (err (exn ExnClass.os_error "missing"), w);
  default_factory = λ providers w. (
    ok (record { generate = λ model prompt w. (ok "answer", w); generate_with_metrics = none }),
    w,
  );
  loads = λ s. ok Value.null;
  dumps_indented = λ v. ok "{}";
  parse_int = λ s. none;
}

-- The challenger is the default one, or one with the given verdict.
abbrev request : Request ℕ
request = record {
  config = config;
  session_state = session;
  user_prompt = "Hi";
  audit = true;
  deps = none;
  challenger_fn =
      some (λ c p d w. (ok (Fields.field "verdict" (Value.str "needs_work") Fields.end), w));
  ollama_provider_factory = none;
  capability_id = none;
  capability_payload = Value.null;
}

revised_kinds :
    kinds (run_traced services request 0).1.events
    ≡ EngineEventKind.run_started ∷ EngineEventKind.route_resolved
      ∷ EngineEventKind.provider_execution_complete ∷ EngineEventKind.challenger_audit_complete
      ∷ EngineEventKind.revision_complete ∷ EngineEventKind.output_emitted
      ∷ EngineEventKind.run_complete ∷ []
unfolding run_traced pure lift gets strip Safety.size split_colon in_step emit_event ◌>>=◌ set_phase
    in_world
revised_kinds = refl

-- What a run leaves.
abbrev ended : Request ℕ → RunState ℕ
ended req = (run_traced services req 0).1

abbrev empty_result : ExecutionResult
empty_result = record {
  message = "";
  meta = Fields.end;
  provider = "";
  model = none;
  route_id = "";
  audit_meta = none;
  prompt_hash = none;
}

abbrev value_or {ℓ} : {A : Type ℓ} → Result A → A → A
value_or (ok a) b = a
value_or (err e) b = b

abbrev revised_state : SessionState
revised_state = (value_or (run_traced services request 0).0 (session, empty_result)).0

abbrev revised_result : ExecutionResult
revised_result = (value_or (run_traced services request 0).0 (session, empty_result)).1

run_traced-Returns_example :
    (kinds (ended request).events ≡ returned_kinds services request revised_state)
    × ((ended request).trace.status ≡ Status.completed)
    × Reports revised_result (ended request)
unfolding run_traced pure lift gets strip Safety.size split_colon in_step emit_event ◌>>=◌ set_phase
    in_world
run_traced-Returns_example =
    run_traced-Returns services request 0 revised_state revised_result (ended request) refl

run_traced-validate_example : validate_session_state revised_state ≡ ok tt
unfolding run_traced pure lift gets strip Safety.size split_colon in_step emit_event ◌>>=◌ set_phase
    in_world validate_session_state is_blank
run_traced-validate_example =
    run_traced-validate services request 0 revised_state revised_result (ended request) refl refl

-- A challenger that raises.
abbrev failing : Request ℕ
failing = record request {
  challenger_fn = some (λ c p d w. (err (exn ExnClass.runtime_error "unreachable"), w));
}

abbrev error_or {ℓ} : {A : Type ℓ} → Result A → Exn
error_or (ok a) = value_err ""
error_or (err e) = e

run_traced-Raises_example :
    Raises services failing (error_or (run_traced services failing 0).0) (ended failing)
unfolding run_traced pure lift gets strip Safety.size split_colon in_step emit_event ◌>>=◌ set_phase
    in_world
run_traced-Raises_example =
    run_traced-Raises services failing 0 (error_or (run_traced services failing 0).0)
      (ended failing) refl

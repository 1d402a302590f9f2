-- ===== src/Capabilities/Tests.antt =====
-- A registry of one capability, and calls of it.
use io_iii_runtime.Prelude.{ℕ, ◌+◌, ◌≡◌, refl, true, false, none, [], ◌∷◌, All}
use io_iii_runtime.Python.Text.{strip}
use io_iii_runtime.Python.Value.{ℤ, Value, Fields}
use io_iii_runtime.Python.Error.{ok, err, value_err}
use io_iii_runtime.Samples.{ticking, config, session}
use io_iii_runtime.Capabilities.{
  Capability, CapabilityCategory, CapabilityContext, CapabilityRegistry, CapabilityResult, Outcome,
  register_all, get, not_found,
}
use io_iii_runtime.Capabilities.Registry.{register_all-IsEntry, IsEntry}
use io_iii_runtime.Capabilities.Invocation.{Encoder, invoke_capability_once, error_code_from_exc}
use io_iii_runtime.Capabilities.Bounds.{IsCall, invoke_capability_once-IsCall}

-- An encoder that writes `{}` for every value.
abbrev braces : Encoder
braces = record { dumps = λ v. ok "{}"; show = λ v. "{}" }

abbrev result : CapabilityResult
result = record {
  ok_flag = true;
  output = Fields.field "n" Value.null Fields.end;
  error_code = none;
}

-- Returns its result and counts the call in the world.
abbrev echo : ℤ → Capability ℕ
echo max_input = record {
  spec = record {
    capability_id = " cap.echo ";
    version = "v0";
    category = CapabilityCategory.computation;
    description = "";
    bounds = record {
      max_calls = ℤ.pos 1;
      timeout_ms = ℤ.pos 50;
      max_input_chars = max_input;
      max_output_chars = ℤ.pos 20;
      side_effects_allowed = false;
    };
    input_schema = none;
    output_schema = none;
  };
  invoke = λ ctx payload w. (Outcome.returned result, w + 1);
}

abbrev registry : ℤ → CapabilityRegistry ℕ
registry max_input = (strip " cap.echo ", echo max_input) ∷ []

abbrev context : CapabilityContext
context = record { config = config; session_state = session }

-- An input over the bound is refused, and the capability is not called.
long_input_refused :
    invoke_capability_once ticking braces (registry (ℤ.pos 1)) "cap.echo" Fields.end context 7
    ≡ (err (value_err "CAPABILITY_INPUT_TOO_LARGE: "), 7)
unfolding invoke_capability_once strip
long_input_refused = refl

-- The code that a trace step reports for an unknown capability.
unknown_code : error_code_from_exc not_found ≡ "CAPABILITY_EXCEPTION"
unfolding error_code_from_exc
unknown_code = refl

registry-IsEntry : All IsEntry (registry (ℤ.pos 5))
unfolding register_all strip
registry-IsEntry = register_all-IsEntry (echo (ℤ.pos 5) ∷ []) [] (registry (ℤ.pos 5)) refl tt

abbrev call_record : Fields
call_record = Fields.field "capability_id" (Value.str " cap.echo ") (
    Fields.field "version" (Value.str "v0") (
      Fields.field "category" (Value.str "computation") (
        Fields.field "ok" (Value.bool true) (
          Fields.field "error_code" Value.null (
            Fields.field "duration_ms" (Value.int (ℤ.pos 2))
              (Fields.field "output" (Value.obj result.output) Fields.end))))))

invoke_capability_once-IsCall_example :
    (c : Capability ℕ) × (get (registry (ℤ.pos 5)) "cap.echo" ≡ ok c)
    × IsCall ticking braces c Fields.end context 1 call_record
unfolding invoke_capability_once strip
invoke_capability_once-IsCall_example =
    invoke_capability_once-IsCall ticking braces (registry (ℤ.pos 5)) "cap.echo" Fields.end context
      0 call_record refl

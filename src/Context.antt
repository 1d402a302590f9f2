-- ===== src/Context.antt =====
-- io_iii/core/context_assembly.py and io_iii/core/preflight.py: the prompt of a run and what is
-- recorded of it. The JSON encoder, `sha256`, `str` and `str.capitalize` are parameters.
pub mod Prompt
pub mod Metadata
pub mod Budget
mod Tests
use io_iii_runtime.Prelude.{ℕ, String, Bool, List, [], ◌∷◌, Option, none, some, ltb}
use io_iii_runtime.Python.Text.Slice.{str_length}
use io_iii_runtime.Python.Value.{ℤ, Value, Items, Fields, nat}
use io_iii_runtime.Python.Error.{value_err, Result, ok, err, ◌>>=◌, raise_if}
use io_iii_runtime.SessionState.{SessionState}
use io_iii_runtime.Memory.{MemoryRecord}
use io_iii_runtime.Context.Prompt.{Library, Persona, build_system_prompt}
use io_iii_runtime.Context.Metadata.{build_assembly_metadata, select_bounded_memory}

abbrev pub assembly_version : String
assembly_version = "adr-010/v1"

-- `_DEFAULT_MEMORY_BUDGET_CHARS`
abbrev pub default_memory_budget_chars : ℤ
default_memory_budget_chars = ℤ.pos 4000

-- `messages` is the pair of the system message and the user message.
pub record AssembledContext : Type 0 where
  pub system_prompt : String
  pub user_prompt : String
  pub messages : Items
  pub prompt_hash : String
  pub assembly_metadata : Fields

message : String → String → Value
message role content =
    Value.obj
      (Fields.field "role" (Value.str role) (Fields.field "content" (Value.str content) Fields.end))

-- `_build_messages`
unfoldable pub build_messages : String → String → Items
unfolding message
build_messages system_prompt user_prompt =
    Items.cons (message "system" system_prompt) (Items.cons (message "user" user_prompt) Items.nil)

module _ (lib : Library) where
  -- `_compute_prompt_hash`
  unfoldable pub compute_prompt_hash : Items → String
  compute_prompt_hash messages = lib.sha256 (lib.canonical_json (Value.arr messages))

  unfoldable pub assembled :
      SessionState → String → Fields → List MemoryRecord → String → AssembledContext
  unfolding build_messages compute_prompt_hash build_assembly_metadata
  assembled state user_prompt route_metadata injected system_prompt = record {
    system_prompt = system_prompt;
    user_prompt = user_prompt;
    messages = build_messages system_prompt user_prompt;
    prompt_hash = compute_prompt_hash (build_messages system_prompt user_prompt);
    assembly_metadata =
        build_assembly_metadata state route_metadata system_prompt user_prompt
          (build_messages system_prompt user_prompt) injected;
  }

  unfoldable pub assemble_context :
      Persona
      → SessionState
      → String
      → String
      → Fields
      → List MemoryRecord
      → ℤ
      → Result AssembledContext
  unfolding assembled build_system_prompt select_bounded_memory
  assemble_context persona state user_prompt contract route_metadata memory budget =
      let injected = select_bounded_memory budget 0 memory in
      build_system_prompt lib persona state contract route_metadata injected >>= λ system_prompt.
      ok (assembled state user_prompt route_metadata injected system_prompt)

-- `_DEFAULT_CONTEXT_LIMIT_CHARS`
abbrev pub default_context_limit_chars : ℕ
default_context_limit_chars = 32000

abbrev pub estimate_chars : String → ℕ
estimate_chars = str_length

unfoldable pub check_context_limit : String → ℕ → Result (Unit {0})
check_context_limit prompt limit_chars =
    raise_if (ltb limit_chars (estimate_chars prompt))
      (value_err "CONTEXT_LIMIT_EXCEEDED: estimated_chars=")

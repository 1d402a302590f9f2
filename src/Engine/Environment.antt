-- ===== src/Engine/Environment.antt =====
-- What a run is given: the services it calls, the providers, the dependencies and the request.
use io_iii_runtime.Prelude.{String, Bool, Option}
use io_iii_runtime.Python.Value.{ℤ, Value, Fields}
use io_iii_runtime.Python.Error.{Result}
use io_iii_runtime.Python.Effect.{Effect}
use io_iii_runtime.Python.Clock.{Clock}
use io_iii_runtime.Failure.CausalCode.{CharTables}
use io_iii_runtime.SessionState.{SessionState}
use io_iii_runtime.Config.{Io3Config}
use io_iii_runtime.Capabilities.{CapabilityRegistry}
use io_iii_runtime.Capabilities.Invocation.{Encoder}
use io_iii_runtime.Context.Prompt.{Library}

-- What `generate_with_metrics` returns.
pub record Generated : Type 0 where
  pub text : String
  pub input_tokens : Value
  pub output_tokens : Value

-- `generate model prompt`. A provider may lack `generate_with_metrics`.
pub record Provider (W : Type 0) : Type 0 where
  pub generate : String → String → Effect W String
  pub generate_with_metrics : Option (String → String → Effect W Generated)

abbrev pub Factory : Type 0 → Type 0
Factory W = Fields → Effect W (Provider W)

-- `challenger_fn(cfg, user_prompt, draft)`
abbrev pub Challenger : Type 0 → Type 0
Challenger W = Io3Config → String → String → Effect W Fields

-- Clocks, files, the JSON module and the text functions of Python. `default_factory` is
-- `OllamaProvider.from_config`; the two readers give what parsing `persona.yaml` and
-- `user_profile.yaml` gives.
pub record Services (W : Type 0) : Type 0 where
  pub clock : Clock W
  pub tables : CharTables
  pub encoder : Encoder
  pub library : Library
  pub read_persona : Effect W Value
  pub read_user_profile : Effect W Value
  pub default_factory : Factory W
  pub loads : String → Result Value
  pub dumps_indented : Value → Result String
  pub parse_int : String → Option ℤ

-- io_iii/core/dependencies.py
pub record RuntimeDependencies (W : Type 0) : Type 0 where
  pub ollama_provider_factory : Factory W
  pub challenger_fn : Option (Challenger W)
  pub capability_registry : CapabilityRegistry W

-- The arguments of `run`.
pub record Request (W : Type 0) : Type 0 where
  pub config : Io3Config
  pub session_state : SessionState
  pub user_prompt : String
  pub audit : Bool
  pub deps : Option (RuntimeDependencies W)
  pub challenger_fn : Option (Challenger W)
  pub ollama_provider_factory : Option (Factory W)
  pub capability_id : Option String
  pub capability_payload : Value

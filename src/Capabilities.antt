-- ===== src/Capabilities.antt =====
-- io_iii/core/capabilities.py: what a capability declares and the registry of capabilities, a
-- dictionary by stripped identifier. `invoke` is the capability's own code, over the state of the
-- world.
pub mod Registry
pub mod Invocation
pub mod Bounds
mod Tests
use io_iii_runtime.Prelude.{
  ℕ, String, Bool, true, false, ◌||◌, Option, none, some, List, [], ◌∷◌, ◌++◌, ltb, ◌==◌,
  if◌then◌else◌, str_eq, is_some,
}
use io_iii_runtime.Python.Text.{strip, is_empty}
use io_iii_runtime.Python.Value.{ℤ, Value, Fields}
use io_iii_runtime.Python.Error.{
  ExnClass, Exn, value_err, Result, ok, err, ◌>>=◌, ◌>>◌, raise_if, require,
}
use io_iii_runtime.Config.{Io3Config}
use io_iii_runtime.SessionState.{SessionState}

pub data CapabilityCategory : Type 0 where
  computation validation transformation external_interaction : CapabilityCategory

-- `category.value`
abbrev pub value : CapabilityCategory → String
value CapabilityCategory.computation = "computation"
value CapabilityCategory.validation = "validation"
value CapabilityCategory.transformation = "transformation"
value CapabilityCategory.external_interaction = "external_interaction"

pub record CapabilityBounds : Type 0 where
  pub max_calls : ℤ
  pub timeout_ms : ℤ
  pub max_input_chars : ℤ
  pub max_output_chars : ℤ
  pub side_effects_allowed : Bool

pub record CapabilitySpec : Type 0 where
  pub capability_id : String
  pub version : String
  pub category : CapabilityCategory
  pub description : String
  pub bounds : CapabilityBounds
  pub input_schema : Option Fields
  pub output_schema : Option Fields

pub record CapabilityResult : Type 0 where
  pub ok_flag : Bool
  pub output : Fields
  pub error_code : Option String

-- `execution_context` is always `None` where the engine builds one.
pub record CapabilityContext : Type 0 where
  pub config : Io3Config
  pub session_state : SessionState

-- How the future of an invocation ends: with a result, with an exception, or behind its time.
pub data Outcome : Type 0 where
  returned : CapabilityResult → Outcome
  raised : Exn → Outcome
  timed_out : Outcome

pub record Capability (W : Type 0) : Type 0 where
  pub spec : CapabilitySpec
  pub invoke : CapabilityContext → Fields → W → Outcome × W

-- `n < 1`
abbrev pub below_one : ℤ → Bool
below_one (ℤ.pos n) = n == 0
below_one (ℤ.negsuc n) = true

-- `_by_id`
abbrev pub CapabilityRegistry : Type 0 → Type 0
CapabilityRegistry W = List (String × Capability W)

unfoldable pub lookup {ℓ} : {A : Type ℓ} → String → List (String × A) → Option A
lookup k [] = none
lookup k ((j, a) ∷ rest) = let later = lookup k rest in if str_eq j k then some a else later

-- The registration bounds.
unfoldable pub check_bounds : CapabilityBounds → Result (Unit {0})
check_bounds b = do
  raise_if (below_one b.max_calls) (value_err "CAPABILITY_BOUNDS_INVALID: max_calls must be >= 1")
  raise_if (below_one b.timeout_ms) (value_err "CAPABILITY_BOUNDS_INVALID: timeout_ms must be >= 1")
  raise_if (below_one b.max_input_chars || below_one b.max_output_chars)
      (value_err "CAPABILITY_BOUNDS_INVALID: max_input_chars/max_output_chars must be >= 1")

-- The text of a `KeyError` is the representation of its argument, in quotes.
abbrev pub not_found : Exn
not_found = record {
  class = ExnClass.key_error;
  message = "\"CAPABILITY_NOT_FOUND: '";
  first_arg = some "CAPABILITY_NOT_FOUND: '";
  code = "";
  runtime_failure = none;
}

module _ {W : Type 0} where
  unfoldable pub register : Capability W → CapabilityRegistry W → Result (CapabilityRegistry W)
  unfolding lookup check_bounds
  register cap registry =
      let id = strip cap.spec.capability_id in
      do
        raise_if (is_empty id)
            (value_err "CAPABILITY_ID_EMPTY: capability_id must be a non-empty string")
        raise_if (is_some (lookup id registry)) (value_err "CAPABILITY_ID_DUPLICATE: '")
        check_bounds cap.spec.bounds
        ok (registry ++ (id, cap) ∷ [])

  -- The constructor: each capability in turn.
  unfoldable pub register_all :
      List (Capability W) → CapabilityRegistry W → Result (CapabilityRegistry W)
  unfolding register
  register_all [] registry = ok registry
  register_all (cap ∷ caps) registry =
      register cap registry >>= λ registry'. register_all caps registry'

  unfoldable pub get : CapabilityRegistry W → String → Result (Capability W)
  unfolding lookup
  get registry capability_id = require (lookup (strip capability_id) registry) not_found

  unfoldable pub has : CapabilityRegistry W → String → Bool
  unfolding lookup
  has registry capability_id = is_some (lookup (strip capability_id) registry)

-- `default_registry()`
abbrev pub default_registry : {W : Type 0} → CapabilityRegistry W
default_registry = []

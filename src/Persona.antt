-- ===== src/Persona.antt =====
-- io_iii/persona_contract.py: the contracts, and the identity and profile blocks with their
-- defaults. What reading a file gives (a value, or an exception) is an argument.
use io_iii_runtime.Prelude.{String, [], ◌∷◌, if◌then◌else◌, str_eq}
use io_iii_runtime.Python.Text.Join.{concat}
use io_iii_runtime.Python.Value.{Value, Items, Fields, get}
use io_iii_runtime.Python.Error.{Result, ok, err}

abbrev pub persona_contract_version : String
persona_contract_version = "v0.1"

-- `EXECUTOR_PERSONA_CONTRACT`
abbrev pub executor_persona_contract : String
executor_persona_contract = concat (
    "IO-III Persona Contract (Executor)\n" ∷ "Version: v0.1\n" ∷ "\n"
    ∷ "Role: Deterministic local execution engine.\n" ∷ "Priorities:\n"
    ∷ "- Deterministic routing (no self-routing)\n" ∷ "- Bounded execution (no recursion loops)\n"
    ∷ "- Single unified final output\n"
    ∷ "- Avoid introducing new facts unless explicitly requested\n"
    ∷ "- Prefer concise, technically precise language\n" ∷ [])

-- `CHALLENGER_PERSONA_CONTRACT`
abbrev pub challenger_persona_contract : String
challenger_persona_contract = concat (
    "IO-III Persona Contract (Challenger)\n" ∷ "Version: v0.1\n" ∷ "\n"
    ∷ "Role: Single-pass audit layer (ADR-008).\n" ∷ "Priorities:\n"
    ∷ "- Evaluate executor draft for policy/compliance risk\n"
    ∷ "- Highlight factual risk, contradictions, missing verification\n"
    ∷ "- Never rewrite the draft\n" ∷ "- Never introduce new facts\n"
    ∷ "- Respond in strict JSON only\n" ∷ [])

abbrev pub identity_defaults : Fields
identity_defaults =
    Fields.field "name" (Value.str "IO-III")
      (Fields.field "description" (Value.str "") (Fields.field "style" (Value.str "") Fields.end))

abbrev pub user_profile_defaults : Fields
user_profile_defaults = Fields.field "name" (Value.str "") (
    Fields.field "role" (Value.str "") (
      Fields.field "expertise" (Value.arr Items.nil) (
        Fields.field "preferences" (Value.obj Fields.end)
          (Fields.field "notes" (Value.str "") Fields.end))))

-- `d[k] = v`
unfoldable pub set : String → Value → Fields → Fields
set k v Fields.end = Fields.field k v Fields.end
set k v (Fields.field j w d) =
    let later = set k v d in if str_eq j k then Fields.field j v d else Fields.field j w later

-- `{**a, **b}`
unfoldable pub merge : Fields → Fields → Fields
unfolding set
merge a Fields.end = a
merge a (Fields.field k v b) = merge (set k v a) b

-- The block under `key`, over the defaults; anything that is not a mapping there raises, and the
-- defaults are returned.
over_defaults : Fields → Value → Fields
unfolding merge
over_defaults defaults (Value.obj d) = merge defaults d
over_defaults defaults v = defaults

block : Fields → String → Value → Fields
unfolding over_defaults
block defaults key (Value.obj d) = over_defaults defaults (get key d)
block defaults key v = defaults

from_file : Fields → String → Result Value → Fields
unfolding block
from_file defaults key (ok v) = block defaults key v
from_file defaults key (err e) = defaults

unfoldable pub load_user_profile : Result Value → Fields
unfolding from_file
load_user_profile = from_file user_profile_defaults "user"

unfoldable pub load_identity : Result Value → Fields
unfolding from_file
load_identity = from_file identity_defaults "identity"

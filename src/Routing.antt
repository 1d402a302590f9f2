-- ===== src/Routing.antt =====
-- io_iii/routing.py: the route of a mode from the routing table, with its fallback.
pub mod Usable
pub mod Selection
mod Tests
use io_iii_runtime.Prelude.{
  String, Bool, true, false, not, ◌&&◌, ◌||◌, Option, none, some, List, [], ◌∷◌, if◌then◌else◌,
  str_eq,
}
use io_iii_runtime.Python.Text.{elem, strip, split_colon, is_empty}
use io_iii_runtime.Python.Value.{Value, Fields, find, get, truthy, is_null, is_str, as_obj}
use io_iii_runtime.Python.Error.{Exn, value_err, Result, ok, err, ◌>>=◌, ◌>>◌, raise_if, require}

pub record RouteSelection : Type 0 where
  pub mode : String
  pub primary_target : Option String
  pub secondary_target : Option String
  pub selected_target : Option String
  pub selected_provider : String
  pub fallback_used : Bool
  pub fallback_reason : Option String
  pub boundaries : Fields

-- `_require_mapping(v, where=…)`
require_mapping : Value → String → Result Fields
require_mapping v place = require (as_obj v) (value_err place)

-- `d.get(k, {})`
mapping_at : String → Fields → Value
mapping_at k d = elim (find k d) [ none ↦ Value.obj Fields.end | some v ↦ v ]

abbrev pub bad_target : Exn
bad_target = value_err "Invalid target format"

parts : Option (String × String) → Result (String × String)
parts none = err bad_target
parts (some (namespace, model)) =
    if is_empty (strip namespace) || is_empty (strip model)
    then err bad_target
    else ok (strip namespace, strip model)

unfoldable pub parse_target : String → Result (String × String)
unfolding parts
parse_target target = parts (split_colon target)

abbrev pub namespace_to_provider : String → String
namespace_to_provider namespace = if str_eq namespace "local" then "ollama" else namespace

enabled_in : Value → Bool
enabled_in (Value.obj p) = truthy (get "enabled" p)
enabled_in _ = false

provider_enabled : Value → String → Bool
unfolding enabled_in mapping_at
provider_enabled (Value.obj providers) name = enabled_in (mapping_at name providers)
provider_enabled _ name = false

unfoldable pub is_provider_enabled : Fields → String → Bool
unfolding provider_enabled mapping_at
is_provider_enabled config name = provider_enabled (mapping_at "providers" config) name

-- `supported_providers or {"null"}`
abbrev pub supported_or_null : List String → List String
supported_or_null [] = "null" ∷ []
supported_or_null (p ∷ ps) = p ∷ ps

module _ (config : Fields) (supported : List String) where
  -- The two tests of `usable`.
  unfoldable pub is_available : String → Bool
  is_available provider =
      elem provider (supported_or_null supported)
      && (not (truthy (Value.obj config)) || is_provider_enabled config provider)

  unfoldable pub usable : String → Result (Bool × String)
  usable target = do
    parsed ← parse_target target
    ok (is_available (namespace_to_provider parsed.0), namespace_to_provider parsed.0)

  abbrev pub by_primary : String → Fields → String → String → String → RouteSelection
  by_primary mode boundaries primary secondary provider = record {
    mode = mode;
    primary_target = some primary;
    secondary_target = some secondary;
    selected_target = some primary;
    selected_provider = provider;
    fallback_used = false;
    fallback_reason = none;
    boundaries = boundaries;
  }

  -- The secondary target, or the null provider if that is not usable either.
  abbrev pub by_fallback : String → Fields → String → String → Bool × String → RouteSelection
  by_fallback mode boundaries primary secondary (available, provider) = record {
    mode = mode;
    primary_target = some primary;
    secondary_target = some secondary;
    selected_target = if available then some secondary else none;
    selected_provider = if available then provider else "null";
    fallback_used = true;
    fallback_reason = some "model_unavailable";
    boundaries = boundaries;
  }

  unfoldable pub select : String → Fields → String → String → Result RouteSelection
  select mode boundaries primary secondary = do
    first ← usable primary
    if first.0
        then ok (by_primary mode boundaries primary secondary first.1)
        else do second ← usable secondary; ok (by_fallback mode boundaries primary secondary second)

  select_from : String → Fields → Value → Value → Result RouteSelection
  select_from mode boundaries (Value.str primary) (Value.str secondary) =
      select mode boundaries primary secondary
  select_from mode boundaries _ _ = err (value_err "routing_table.yaml: modes.")

  unfoldable pub resolve_route : Value → String → Result RouteSelection
  unfolding select_from mapping_at require_mapping
  resolve_route routing mode = do
    table ← require_mapping routing "routing_table.yaml root must be a mapping/dict"
    rules ←
        require_mapping (mapping_at "rules" table)
          "routing_table.yaml: rules must be a mapping/dict"
    raise_if
        (not
          (is_null (get "selection_method" rules) || is_str "mode" (get "selection_method" rules)))
        (value_err "routing_table.yaml: rules.selection_method must be 'mode'")
    boundaries ←
        require_mapping (mapping_at "boundaries" rules)
          "routing_table.yaml: rules.boundaries must be a mapping/dict"
    modes ←
        require_mapping (mapping_at "modes" table)
          "routing_table.yaml: modes must be a mapping/dict"
    entry ← require (find mode modes) (value_err "routing_table.yaml: unknown mode")
    spec ← require_mapping entry "routing_table.yaml: modes."
    select_from mode boundaries (get "primary" spec) (get "secondary" spec)

-- ===== src/Routing/Tests.antt =====
-- A table in which the primary provider is disabled.
use io_iii_runtime.Prelude.{◌≡◌, refl, String, true, false, some, List, [], ◌∷◌}
use io_iii_runtime.Python.Text.{strip, split_colon}
use io_iii_runtime.Python.Value.{Value, Fields}
use io_iii_runtime.Python.Error.{ok}
use io_iii_runtime.Routing.{
  RouteSelection, is_available, is_provider_enabled, parse_target, usable, select, resolve_route,
}
use io_iii_runtime.Routing.Selection.{IsRouted, resolve_route-IsRouted}

abbrev one : String → Value → Fields
one k v = Fields.field k v Fields.end

abbrev table : Value
table = Value.obj (
    one "modes" (
      Value.obj (
        one "executor" (
          Value.obj (
            Fields.field "primary" (Value.str "local:m1")
              (one "secondary" (Value.str "openai:m2")))))))

abbrev config : Fields
config = one "providers" (
    Value.obj (
      Fields.field "ollama" (Value.obj (one "enabled" (Value.bool false)))
        (one "openai" (Value.obj (one "enabled" (Value.bool true))))))

abbrev supported : List String
supported = "ollama" ∷ "openai" ∷ []

abbrev route : RouteSelection
route = record {
  mode = "executor";
  primary_target = some "local:m1";
  secondary_target = some "openai:m2";
  selected_target = some "openai:m2";
  selected_provider = "openai";
  fallback_used = true;
  fallback_reason = some "model_unavailable";
  boundaries = Fields.end;
}

resolves : resolve_route config supported table "executor" ≡ ok route
unfolding resolve_route select usable is_available is_provider_enabled parse_target strip
    split_colon
resolves = refl

resolve_route-IsRouted_example : IsRouted config supported table "executor" route
resolve_route-IsRouted_example =
    resolve_route-IsRouted config supported table "executor" route resolves

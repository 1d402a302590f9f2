-- ===== src/Engine/Challenger.antt =====
-- `_run_challenger`: one audit of a draft by the challenger model, and the default challenger that
-- `run` builds from it.
use io_iii_runtime.Prelude.{String, Bool, true, Option, none, some, [], ◌∷◌, if◌then◌else◌, str_eq}
use io_iii_runtime.Python.Text.{strip, is_empty}
use io_iii_runtime.Python.Text.Join.{concat}
use io_iii_runtime.Python.Value.{ℤ, Value, Items, Fields, find, has, opt_str}
use io_iii_runtime.Python.Error.{ExnClass, Exn, exn, type_err, Result, ok, err, require}
use io_iii_runtime.Python.Effect.{Effect, ◌>>=◌, pure, lift}
use io_iii_runtime.Config.{Io3Config}
use io_iii_runtime.Mode.{SessionMode}
use io_iii_runtime.SessionState.{SessionState, RouteInfo, no_audit}
use io_iii_runtime.Routing.{RouteSelection, resolve_route, parse_target}
use io_iii_runtime.Persona.{
  persona_contract_version, challenger_persona_contract, load_identity, load_user_profile, set,
}
use io_iii_runtime.Context.{assemble_context, default_memory_budget_chars}
use io_iii_runtime.Context.Prompt.{Persona}
use io_iii_runtime.Engine.Environment.{Factory, Challenger, Services}

-- `parsed.setdefault(k, v)`
set_default : String → Value → Fields → Fields
unfolding set
set_default k v d = if has k d then d else set k v d

-- The four keys, where they are missing.
with_defaults : Fields → Fields
unfolding set_default
with_defaults d = set_default "suggested_fixes" (Value.arr Items.nil) (
    set_default "high_risk_claims" (Value.arr Items.nil)
      (set_default "issues" (Value.arr Items.nil) (set_default "verdict" (Value.str "pass") d)))

abbrev pub autopass : Fields
autopass = Fields.field "verdict" (Value.str "pass") (
    Fields.field "issues" (Value.arr Items.nil) (
      Fields.field "high_risk_claims" (Value.arr Items.nil)
        (Fields.field "suggested_fixes" (Value.arr Items.nil) Fields.end)))

-- What the challenger's text says; anything but a JSON object passes.
unfoldable pub read_verdict : Result Value → Fields
unfolding with_defaults
read_verdict (ok (Value.obj d)) = with_defaults d
read_verdict r = autopass

abbrev challenger_prompt : String → String → String
challenger_prompt user_prompt draft = concat (
    "Audit the executor draft below for policy/compliance risk, factual risk, contradictions, "
    ∷ "or missing verification steps.\n\n" ∷ "You MUST NOT rewrite the draft.\n"
    ∷ "You MUST NOT introduce new facts.\n" ∷ "Respond in strict JSON with keys:\n" ∷ "{\n"
    ∷ "  \"verdict\": \"pass\"|\"needs_work\",\n" ∷ "  \"issues\": [],\n"
    ∷ "  \"high_risk_claims\": [],\n" ∷ "  \"suggested_fixes\": []\n" ∷ "}\n\n" ∷ "USER_PROMPT:\n"
    ∷ user_prompt ∷ "\n\n" ∷ "EXECUTOR_DRAFT:\n" ∷ draft ∷ "\n" ∷ [])

abbrev as_challenger : Option RouteInfo → Option RouteInfo
as_challenger none = none
as_challenger (some r) = some (record r { mode = "challenger" })

-- The snapshot that the challenger's prompt is assembled for.
unfoldable pub challenger_state : Io3Config → String → Option SessionState → SessionState
challenger_state config model none = record {
  request_id = "challenger-audit";
  started_at_ms = ℤ.pos 0;
  schema_version = "v1";
  latency_ms = none;
  mode = "challenger";
  config_dir = config.config_dir;
  route = none;
  audit = no_audit true;
  status = "ok";
  provider = "ollama";
  model = some model;
  route_id = "challenger";
  persona_contract_version = some persona_contract_version;
  persona_id = none;
  task_spec_id = Value.null;
  error_code = none;
  logging_policy = Value.obj (Fields.field "content" (Value.str "disabled") Fields.end);
  session_mode = SessionMode.work;
}
challenger_state config model (some s) = record s {
  mode = "challenger";
  route = as_challenger s.route;
  provider = "ollama";
  model = some model;
  route_id = "challenger";
  audit = no_audit true;
}

-- The non-content facts of a route.
abbrev pub route_facts : String → Option String → Bool → String → Fields
route_facts provider target fallback_used route_id =
    Fields.field "selected_provider" (Value.str provider) (
      Fields.field "selected_target" (opt_str target) (
        Fields.field "fallback_used" (Value.bool fallback_used)
          (Fields.field "route_id" (Value.str route_id) Fields.end)))

-- `cfg.routing["routing_table"]`
unfoldable pub routing_of : Io3Config → Result Value
routing_of config =
    require (find "routing_table" config.routing) (exn ExnClass.key_error "'routing_table'")

-- A target that is there and not empty.
abbrev pub target_of : Option String → Option String
target_of none = none
target_of (some t) = if is_empty t then none else some t

module _ {W : Type 0} (services : Services W) where
  -- `load_identity()` and `load_user_profile()`; neither raises.
  unfoldable pub load_persona : Effect W Persona
  unfolding load_identity load_user_profile
  load_persona w =
      let (identity, w₁) = services.read_persona w in
      let (profile, w₂) = services.read_user_profile w₁ in
      (
        ok (record { identity = load_identity identity; user_profile = load_user_profile profile }),
        w₂,
      )

  module _ (config : Io3Config) (factory : Factory W) (state : Option SessionState) where
    -- The call of the challenger model at `target`.
    ask : String → String → RouteSelection → String → Effect W Fields
    unfolding load_persona assemble_context parse_target challenger_state read_verdict strip
    ask user_prompt draft selection target = do
      parsed ← lift (parse_target target)
      provider ← factory config.providers
      persona ← load_persona
      c ← lift (
          assemble_context services.library persona (challenger_state config parsed.1 state)
            (challenger_prompt user_prompt draft) challenger_persona_contract
            (route_facts selection.selected_provider selection.selected_target
              selection.fallback_used "challenger")
            [] default_memory_budget_chars)
      raw ←
          provider.generate parsed.1 (
            concat
              (c.system_prompt ∷ "\n\nUser:\n" ∷ c.user_prompt ∷ "\n\nIO-III Challenger:" ∷ []))
      pure (read_verdict (services.loads (strip raw)))

    -- No ollama target: pass.
    ask_if_available : String → String → RouteSelection → Option String → Effect W Fields
    unfolding ask
    ask_if_available user_prompt draft selection none = pure autopass
    ask_if_available user_prompt draft selection (some target) =
        let asked = ask user_prompt draft selection target in
        if str_eq selection.selected_provider "ollama" then asked else pure autopass

    unfoldable pub run_challenger : String → String → Effect W Fields
    unfolding ask_if_available resolve_route routing_of
    run_challenger user_prompt draft = do
      routing ← lift (routing_of config)
      selection ←
          lift (resolve_route config.providers ("null" ∷ "ollama" ∷ []) routing "challenger")
      ask_if_available user_prompt draft selection (target_of selection.selected_target)

-- The second attempt leaves out a keyword argument that `_run_challenger` requires.
abbrev pub missing_argument : Exn
missing_argument =
    type_err "_run_challenger() missing 1 required keyword-only argument: 'ollama_provider_factory'"

abbrev retried : ExnClass → Exn → Exn
retried ExnClass.type_error e = missing_argument
retried _ e = e

abbrev pub retry {ℓ} : {W : Type 0} {A : Type ℓ} → Result A × W → Result A × W
retry (ok a, w) = (ok a, w)
retry (err e, w) = (err (retried e.class e), w)

-- The `challenger_fn` of a run that is given none; it sees the session as the run has it then.
unfoldable pub default_challenger :
    {W : Type 0} → Services W → Factory W → SessionState → Challenger W
unfolding run_challenger
default_challenger services factory state config user_prompt draft w =
    retry (run_challenger services config factory (some state) user_prompt draft w)

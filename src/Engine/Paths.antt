-- ===== src/Engine/Paths.antt =====
-- The two paths of a run: the null provider, and a provider with its audit.
use io_iii_runtime.Prelude.{ℕ, String, Option, none, some, [], ◌∷◌, length}
use io_iii_runtime.Python.Text.Join.{concat}
use io_iii_runtime.Python.Text.{strip}
use io_iii_runtime.Python.Value.{Value, Fields, nat}
use io_iii_runtime.Python.Error.{value_err, Result, ok, require}
use io_iii_runtime.Python.Effect.{Effect, ◌>>=◌, ◌>>◌, pure, lift, gets}
use io_iii_runtime.Failure.Classify.{Phase}
use io_iii_runtime.Trace.{to_dict}
use io_iii_runtime.SessionState.{SessionState}
use io_iii_runtime.Routing.{parse_target}
use io_iii_runtime.Safety.{assert_no_forbidden_keys, default_forbidden_keys}
use io_iii_runtime.Observability.{EngineEventKind, to_list}
use io_iii_runtime.Persona.{executor_persona_contract, persona_contract_version}
use io_iii_runtime.Context.{AssembledContext, assemble_context, default_memory_budget_chars}
use io_iii_runtime.Engine.{ExecutionResult}
use io_iii_runtime.Engine.Environment.{
  Generated, Provider, Factory, Challenger, Services, RuntimeDependencies, Request,
}
use io_iii_runtime.Engine.Challenger.{default_challenger, load_persona, route_facts, target_of}
use io_iii_runtime.Engine.Actions.{Action, set_phase, in_world, in_step, emit_event, complete_trace}
use io_iii_runtime.Engine.Results.{
  latency, model_meta, fallback_of, selected_of, null_outcome, metrics, ollama_result,
  audited_state,
}
use io_iii_runtime.Engine.Limits.{check_prompt}
use io_iii_runtime.Engine.Passes.{Audited, audit_stage}

abbrev pick {ℓ} : {A : Type ℓ} → Option A → A → A
pick none a = a
pick (some b) a = b

-- What an exchange with the provider gives, stripped, with the token counts it may report.
abbrev plain : String → Generated
plain text = record { text = text; input_tokens = Value.null; output_tokens = Value.null }

module _ {W : Type 0} (services : Services W) (req : Request W) where
  abbrev factory_of : Option (RuntimeDependencies W) → Factory W
  factory_of none = services.default_factory
  factory_of (some deps) = deps.ollama_provider_factory

  -- The explicit factory, the one of the dependencies, or the default.
  unfoldable pub chosen_factory : Factory W
  chosen_factory = pick req.ollama_provider_factory (factory_of req.deps)

  challenger_of : Option (RuntimeDependencies W) → SessionState → Challenger W
  unfolding chosen_factory default_challenger
  challenger_of none state = default_challenger services chosen_factory state
  challenger_of (some deps) state =
      pick deps.challenger_fn (default_challenger services chosen_factory state)

  unfoldable pub chosen_challenger : SessionState → Challenger W
  unfolding challenger_of
  chosen_challenger state = pick req.challenger_fn (challenger_of req.deps state)

  abbrev pub emit_kind : EngineEventKind → Fields → Action W (Unit {0})
  emit_kind = emit_event services.clock req.session_state

  -- The guard on the output of a capability.
  unfoldable pub guard_capability : Option Fields → Result (Unit {0})
  unfolding assert_no_forbidden_keys
  guard_capability none = ok tt
  guard_capability (some m) = assert_no_forbidden_keys default_forbidden_keys (Value.obj m)

  -- The trace is completed and serialised, and checked for content.
  unfoldable pub seal : Action W Value
  unfolding complete_trace to_dict assert_no_forbidden_keys
  seal = do
    complete_trace
    trace_dict ← gets (λ s. to_dict s.trace)
    lift (assert_no_forbidden_keys default_forbidden_keys trace_dict)
    pure trace_dict

  -- The last two events.
  unfoldable pub announce_end : String → Option String → Action W (Unit {0})
  announce_end provider model = do
    emit_kind EngineEventKind.output_emitted (model_meta provider model)
    steps ← gets (λ s. length s.trace.steps)
    emit_kind EngineEventKind.run_complete (Fields.field "trace_step_count" (nat steps) Fields.end)

  abbrev pub now_ms : Action W ℕ
  now_ms = in_world (λ w. let (now, w') = services.clock.time_ms w in (ok now, w'))

  unfoldable pub null_path :
      SessionState → Option Fields → Action W (SessionState × ExecutionResult)
  unfolding seal guard_capability announce_end latency to_list
  null_path state cap = do
    in_step services.clock "provider_run"
        (λ r. Fields.field "provider" (Value.str "null") Fields.end) (λ w. (ok tt, w))
    emit_kind EngineEventKind.provider_execution_complete (model_meta "null" none)
    trace_dict ← seal
    lift (guard_capability cap)
    announce_end "null" none
    events ← gets (λ s. Value.arr (to_list s.events))
    now ← now_ms
    pure (null_outcome state cap trace_dict events (latency now state.started_at_ms))

  -- Context assembly, and the check of the prompt's length.
  unfoldable pub prepare : SessionState → String → Action W AssembledContext
  unfolding assemble_context load_persona
  prepare state target =
      in_step services.clock "context_assembly"
        (λ r.
          Fields.field "persona_contract_version" (Value.str persona_contract_version)
            (Fields.field "route_id" (Value.str state.route_id) Fields.end))
        (load_persona services >>= λ persona. lift (
          assemble_context services.library persona state req.user_prompt executor_persona_contract
            (route_facts state.provider (some target) (fallback_of state.route) state.route_id) []
            default_memory_budget_chars))

  -- `generate_with_metrics` where the provider has it, `generate` otherwise.
  unfoldable pub infer : Provider W → String → String → Effect W Generated
  unfolding strip
  infer provider model prompt =
      (elim provider.generate_with_metrics [
        | some generate ↦ generate model prompt
        | none ↦ provider.generate model prompt >>= λ text. pure (plain text)
      ])
      >>= λ g. pure (record g { text = strip g.text })

  -- What follows the provider's answer.
  unfoldable pub conclude :
      SessionState
      → Option Fields
      → String
      → String
      → String
      → Generated
      → Audited
      → Action W (SessionState × ExecutionResult)
  unfolding seal guard_capability announce_end latency metrics ollama_result to_list
  conclude state cap model prompt prompt_hash g a = do
    trace_dict ← seal
    now ← now_ms
    lift (guard_capability cap)
    announce_end "ollama" (some model)
    events ← gets (λ s. Value.arr (to_list s.events))
    later ← now_ms
    pure (
      audited_state req.audit model (latency later state.started_at_ms) a state,
      ollama_result req.audit state model a cap trace_dict
          (metrics g prompt model (latency now state.started_at_ms)) events prompt_hash,
    )

  abbrev final_prompt : AssembledContext → String
  final_prompt c = concat (c.system_prompt ∷ "\n\nUser:\n" ∷ c.user_prompt ∷ "\n\nIO-III:" ∷ [])

  -- The call of the provider, from the assembly of its prompt to its answer.
  unfoldable pub answer :
      SessionState → String → String → Provider W → Action W (AssembledContext × Generated)
  unfolding prepare check_prompt infer
  answer state target model provider = do
    c ← prepare state target
    lift (check_prompt services.parse_int req.config.runtime (final_prompt c))
    set_phase Phase.provider
    g ←
        in_step services.clock "provider_inference" (λ r. model_meta "ollama" (some model))
          (infer provider model (final_prompt c))
    pure (c, g)

  unfoldable pub ollama_path :
      SessionState → Option Fields → Action W (SessionState × ExecutionResult)
  unfolding answer conclude audit_stage parse_target chosen_factory chosen_challenger
  ollama_path state cap = do
    target ← lift (
        require (target_of (selected_of state.route))
          (value_err "No selected_target available for ollama route"))
    parsed ← lift (parse_target target)
    provider ← in_world (chosen_factory req.config.providers)
    answered ← answer state target parsed.1 provider
    emit_kind EngineEventKind.provider_execution_complete (model_meta "ollama" (some parsed.1))
    a ← audit_stage services req (chosen_challenger state) provider parsed.1 answered.1.text
    conclude state cap parsed.1 (final_prompt answered.0) answered.0.prompt_hash answered.1 a

-- ===== src/Engine/Passes.antt =====
-- The passes of a run: the capability call, the challenger's audit and the revision.
use io_iii_runtime.Prelude.{ℕ, String, true, false, Option, none, some, [], ◌∷◌, leb, if◌then◌else◌}
use io_iii_runtime.Python.Text.{strip, is_empty}
use io_iii_runtime.Python.Text.Join.{concat}
use io_iii_runtime.Python.Value.{Value, Fields, get, truthy, is_str, nat}
use io_iii_runtime.Python.Error.{ExnClass, Exn, exn, Result, ok, err, raise_if}
use io_iii_runtime.Python.Effect.{Effect, ◌>>=◌, ◌>>◌, pure, lift}
use io_iii_runtime.Failure.Classify.{Phase}
use io_iii_runtime.SessionState.{max_audit_passes, max_revision_passes}
use io_iii_runtime.Observability.{EngineEventKind}
use io_iii_runtime.Capabilities.Invocation.{
  validate_payload, invoke_capability_once, error_code_from_exc,
}
use io_iii_runtime.Engine.Environment.{Provider, Challenger, Services, RuntimeDependencies, Request}
use io_iii_runtime.Engine.Actions.{Action, set_phase, in_step, emit_event}

-- `cap_trace_meta`, when the call has ended.
capability_meta : String → Result Fields → Fields
capability_meta id r = Fields.field "capability_id" (Value.str id) (
    Fields.field "success"
      (elim r [ ok m ↦ Value.bool (truthy (get "ok" m)) | err e ↦ Value.bool false ])
      (Fields.field "error_code"
        (elim r [ ok m ↦ get "error_code" m | err e ↦ Value.str (error_code_from_exc e) ])
        Fields.end))

-- What the audit of a run comes to.
pub record Audited : Type 0 where
  pub text : String
  pub verdict : Value
  pub audit_passes : ℕ
  pub revision_passes : ℕ

abbrev pub unaudited : String → Audited
unaudited text = record { text = text; verdict = Value.null; audit_passes = 0; revision_passes = 0 }

module _ {W : Type 0} (services : Services W) (req : Request W) where
  -- The capability surface, for an identifier that is there and not empty.
  unfoldable pub call_capability : RuntimeDependencies W → String → Action W (Option Fields)
  unfolding validate_payload invoke_capability_once capability_meta
  call_capability deps id = do
    set_phase Phase.capability
    payload ← lift (validate_payload services.encoder req.capability_payload)
    m ← in_step services.clock "capability_execution" (capability_meta id) (
        invoke_capability_once services.clock services.encoder deps.capability_registry id payload
          (record { config = req.config; session_state = req.session_state }))
    pure (some m)

  unfoldable pub use_capability :
      Option (RuntimeDependencies W) → Option String → Action W (Option Fields)
  unfolding call_capability
  use_capability (some deps) (some id) =
      let called = call_capability deps id in if is_empty id then pure none else called
  use_capability _ _ = pure none

  -- `_do_challenger_pass`
  unfoldable pub do_challenger_pass : Challenger W → String → ℕ → Action W Fields
  do_challenger_pass challenger text audit_passes = do
    audit_result ←
        in_step services.clock "challenger_audit"
          (λ r. Fields.field "enabled" (Value.bool true) Fields.end)
          (challenger req.config req.user_prompt text)
    emit_event services.clock req.session_state EngineEventKind.challenger_audit_complete (
        Fields.field "verdict" (get "verdict" audit_result)
          (Fields.field "audit_passes" (nat audit_passes) Fields.end))
    pure audit_result

  abbrev revision_prompt : String → String → String
  revision_prompt text feedback = concat (
      "You are IO-III Executor performing a single controlled revision.\n"
      ∷ "Address the challenger feedback below.\n" ∷ "You MUST NOT introduce new facts.\n"
      ∷ "Preserve user intent.\n\n" ∷ "USER_PROMPT:\n" ∷ req.user_prompt ∷ "\n\n"
      ∷ "ORIGINAL_DRAFT:\n" ∷ text ∷ "\n\n" ∷ "CHALLENGER_FEEDBACK:\n" ∷ feedback ∷ "\n\n"
      ∷ "Produce the improved final answer only." ∷ [])

  -- `provider.generate(…).strip()`
  generate_stripped : Provider W → String → String → Effect W String
  unfolding strip
  generate_stripped provider model prompt = do
    raw ← provider.generate model prompt
    pure (strip raw)

  -- `_do_revision`
  unfoldable pub do_revision : Provider W → String → String → Fields → ℕ → Action W String
  unfolding generate_stripped
  do_revision provider model text audit_result revision_passes = do
    feedback ← lift (services.dumps_indented (Value.obj audit_result))
    revised ←
        in_step services.clock "revision_inference"
          (λ r.
            Fields.field "provider" (Value.str "ollama")
              (Fields.field "model" (Value.str model) Fields.end))
          (generate_stripped provider model (revision_prompt text feedback))
    emit_event services.clock req.session_state EngineEventKind.revision_complete
        (Fields.field "revision_passes" (nat revision_passes) Fields.end)
    pure revised

  limit_err : String → Exn
  limit_err = exn ExnClass.runtime_error

  -- The revision that an audit with the verdict `needs_work` asks for.
  unfoldable pub revise : Provider W → String → String → Fields → Action W Audited
  unfolding do_revision limit_err
  revise provider model text audit_result = do
    lift (
        raise_if (leb max_revision_passes 0)
          (limit_err "REVISION_LIMIT_EXCEEDED: revision_passes="))
    set_phase Phase.revision
    revised ← do_revision provider model text audit_result 1
    pure (record {
      text = revised;
      verdict = get "verdict" audit_result;
      audit_passes = 1;
      revision_passes = 1;
    })

  abbrev pub approved : String → Fields → Audited
  approved text audit_result = record {
    text = text;
    verdict = get "verdict" audit_result;
    audit_passes = 1;
    revision_passes = 0;
  }

  unfoldable pub audit_pass : Challenger W → Provider W → String → String → Action W Audited
  unfolding do_challenger_pass revise limit_err
  audit_pass challenger provider model text = do
    lift (raise_if (leb max_audit_passes 0) (limit_err "AUDIT_LIMIT_EXCEEDED: audit_passes="))
    set_phase Phase.audit
    audit_result ← do_challenger_pass challenger text 1
    let revision = revise provider model text audit_result in
        if is_str "needs_work" (get "verdict" audit_result)
        then revision
        else pure (approved text audit_result)

  -- The optional audit.
  unfoldable pub audit_stage : Challenger W → Provider W → String → String → Action W Audited
  unfolding audit_pass
  audit_stage challenger provider model text =
      let audited = audit_pass challenger provider model text in
      if req.audit then audited else pure (unaudited text)

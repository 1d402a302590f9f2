-- ===== src/Engine/Course.antt =====
-- The course of the body of a run: its events, its result and its final state, on both paths.
use io_iii_runtime.Prelude.{
  ℕ, ◌≤◌, ◌≡◌, refl, sym, subst, String, Bool, true, false, ◌&&◌, Option, none, [], ◌∷◌, ◌++◌,
  arith, length, if◌then◌else◌, str_eq, inl, inr, Bool-cases,
}
use io_iii_runtime.Python.Value.{Value, Fields, is_str}
use io_iii_runtime.Python.Error.{Exn}
use io_iii_runtime.Python.Effect.{Ends-map, Triple, Triple-bind, Triple-pure, Triple-if, Triple-map}
use io_iii_runtime.SessionState.{SessionState}
use io_iii_runtime.Observability.{EngineEventKind}
use io_iii_runtime.Engine.{ExecutionResult}
use io_iii_runtime.Engine.Environment.{Provider, Services, Request}
use io_iii_runtime.Engine.Actions.{RunState}
use io_iii_runtime.Engine.Passes.{Audited}
use io_iii_runtime.Engine.Results.{finished, audited_state, mirror_audit}
use io_iii_runtime.Engine.Paths.{answer, prepare, ollama_path, null_path, chosen_challenger}
use io_iii_runtime.Engine.Run.{body}
use io_iii_runtime.Engine.Plan.{
  Kinds, routed_kinds, answered_kinds, pass_kinds, closed, none-IsStart, started-IsStart,
  routed-IsStart, passes-IsStart, output-IsStart,
}
use io_iii_runtime.Engine.Rules.{
  At, Early, Done, lift-Quiet, set_phase-Quiet, in_world-Quiet, in_step-Quiet, Triple-Quiet,
}
use io_iii_runtime.Engine.Emits.{Triple-emit}
use io_iii_runtime.Engine.Protocol.{use_capability-Quiet, IsAudit, audit_stage-Triple}
use io_iii_runtime.Engine.Closing.{Reports, null_path-Triple, conclude-Triple}

length-pass_kinds : (b : Bool) (v : Value) → length (answered_kinds ++ pass_kinds b v) ≤ 5
length-pass_kinds false v = omega arith
length-pass_kinds true v = elim (Bool-cases (is_str "needs_work" v)) [
  | inl h ↦ rw h (omega arith)
  | inr h ↦ rw h (omega arith)
]

module _ {W : Type 0} (services : Services W) (req : Request W) where
  -- The final state of a run that returns.
  abbrev pub IsNullState : SessionState → Type 0
  IsNullState f =
      (ms : ℕ) × (f ≡ finished "null" none ms (mirror_audit req.audit req.session_state))

  abbrev pub IsAuditedState : SessionState → Type 0
  IsAuditedState f =
      (m : String) × (ms : ℕ) × (a : Audited) × (f
        ≡ audited_state req.audit m ms a (mirror_audit req.audit req.session_state))
      × (a.audit_passes ≡ (if req.audit then 1 else 0))
      × (a.revision_passes ≡ (if req.audit && is_str "needs_work" a.verdict then 1 else 0))

  abbrev pub IsFinal : SessionState → Type 0
  IsFinal f = if str_eq req.session_state.provider "ollama" then IsAuditedState f else IsNullState f

  abbrev pub returned_kinds : SessionState → Kinds
  returned_kinds f = closed (
      answered_kinds
      ++ (if str_eq req.session_state.provider "ollama"
          then pass_kinds req.audit f.audit.audit_verdict
          else []))

  abbrev pub Returns : SessionState × ExecutionResult → RunState W → Type 0
  Returns o s = Done (returned_kinds o.0) s × Reports o.1 s × IsFinal o.0

  -- Whether the run has an audit: the flag counts on the local path.
  abbrev pub is_audited : Bool
  is_audited = if str_eq req.session_state.provider "ollama" then req.audit else false

  answer-Triple :
      (state : SessionState) (target model : String) (provider : Provider W)
      → Triple
          (At routed_kinds)
          (answer services req state target model provider)
          (λ r s. At routed_kinds s)
          (Early req.audit)
  unfolding answer prepare
  answer-Triple state target model provider =
      Triple-Quiet routed_kinds _ _ (in_step-Quiet services.clock _ _ _) (routed-IsStart req.audit)
        (omega arith)
        λ c.
          Triple-Quiet routed_kinds _ _ (lift-Quiet _) (routed-IsStart req.audit) (omega arith) λ a.
            Triple-Quiet routed_kinds _ _ (set_phase-Quiet _) (routed-IsStart req.audit)
              (omega arith)
              λ b.
                Triple-Quiet routed_kinds _ _ (in_step-Quiet services.clock _ _ _)
                  (routed-IsStart req.audit) (omega arith) λ g. Triple-pure _ λ s h. h

  -- The state behind the flag of the request.
  abbrev mirrored : SessionState
  mirrored = mirror_audit req.audit req.session_state

  concluded-Returns :
      (a : Audited) (m : String) (ms : ℕ) (f : SessionState) (r : ExecutionResult) (s : RunState W)
      → str_eq req.session_state.provider "ollama" ≡ true
      → a.audit_passes ≡ (if req.audit then 1 else 0)
      → a.revision_passes ≡ (if req.audit && is_str "needs_work" a.verdict then 1 else 0)
      → Done (closed (answered_kinds ++ pass_kinds req.audit a.verdict)) s
      → Reports r s
      → f ≡ audited_state req.audit m ms a mirrored
      → Returns (f, r) s
  concluded-Returns a m ms f r s local audits revisions done reports eq = rw local (
    subst (λ g. Done (closed (answered_kinds ++ pass_kinds req.audit g.audit.audit_verdict)) s)
        (sym eq) done,
    reports,
    (m, ms, a, eq, audits, revisions),
  )

  -- The local path, where the session's provider is the local one.
  ollama_path-Triple :
      (cap : Option Fields)
      → str_eq req.session_state.provider "ollama" ≡ true
      → Triple (At routed_kinds) (ollama_path services req mirrored cap) Returns (Early req.audit)
  unfolding ollama_path
  ollama_path-Triple cap local =
      Triple-Quiet routed_kinds _ _ (lift-Quiet _) (routed-IsStart req.audit) (omega arith)
        λ target.
          Triple-Quiet routed_kinds _ _ (lift-Quiet _) (routed-IsStart req.audit) (omega arith)
            λ parsed.
              Triple-Quiet routed_kinds _ _ (in_world-Quiet _) (routed-IsStart req.audit)
                (omega arith)
                λ provider.
                  Triple-bind (λ r s. At routed_kinds s) _ _
                    (answer-Triple mirrored target parsed.1 provider)
                    λ answered.
                      Triple-emit services.clock req.session_state routed_kinds _ _ _
                        (routed-IsStart req.audit) (omega arith)
                        λ u.
                          Triple-bind (IsAudit services req) _ _
                            (audit_stage-Triple services req
                              (chosen_challenger services req mirrored) provider parsed.1
                              answered.1.text)
                            λ a. record {
                              at = λ s h.
                                  Ends-map _ Returns (Early req.audit) (Early req.audit) _
                                    (λ o s' k.
                                      concluded-Returns a k.2.0 k.2.1 o.0 o.1 s' local h.1 h.2 k.0
                                        k.1 k.2.2)
                                    (λ e s' k. k)
                                    ((conclude-Triple services req _ mirrored cap parsed.1 _
                                        answered.0.prompt_hash answered.1 a
                                        (passes-IsStart req.audit a.verdict)
                                        (output-IsStart req.audit a.verdict)
                                        (length-pass_kinds req.audit a.verdict)).at
                                      s h.0);
                            }

  -- A beginning with the audit of one path is one of the run.
  Early-run :
      (b : Bool) (e : Exn) (s : RunState W) → is_audited ≡ b → Early b e s → Early is_audited e s
  Early-run b e s same h = subst (λ c. Early c e s) (sym same) h

  local-Triple :
      (cap : Option Fields)
      → str_eq req.session_state.provider "ollama" ≡ true
      → Triple (At routed_kinds) (ollama_path services req mirrored cap) Returns (Early is_audited)
  local-Triple cap local =
      Triple-map (ollama_path services req mirrored cap) (λ s h. h) (λ o s h. h)
        (λ e s h. Early-run req.audit e s (rw local refl) h) (ollama_path-Triple cap local)

  other-Triple :
      (cap : Option Fields)
      → str_eq req.session_state.provider "ollama" ≡ false
      → Triple (At routed_kinds) (null_path services req mirrored cap) Returns (Early is_audited)
  other-Triple cap other =
      Triple-map (null_path services req mirrored cap) (λ s h. h) (λ o s h. rw other h)
        (λ e s h. Early-run false e s (rw other refl) h)
        (null_path-Triple services req mirrored cap)

  pub body-Triple : Triple (At []) (body services req) Returns (Early is_audited)
  unfolding body
  body-Triple =
      Triple-emit services.clock req.session_state [] _ _ _ (none-IsStart is_audited) (omega arith)
        λ u.
          Triple-Quiet (EngineEventKind.run_started ∷ []) _ _
            (use_capability-Quiet services req _ _) (started-IsStart is_audited) (omega arith)
            λ cap.
              Triple-Quiet (EngineEventKind.run_started ∷ []) _ _ (set_phase-Quiet _)
                (started-IsStart is_audited) (omega arith)
                λ v.
                  Triple-emit services.clock req.session_state (EngineEventKind.run_started ∷ []) _
                    _ _ (started-IsStart is_audited) (omega arith)
                    λ w.
                      Triple-if (str_eq req.session_state.provider "ollama") _ _ (local-Triple cap)
                        (other-Triple cap)

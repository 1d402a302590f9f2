-- ===== src/Engine/Protocol.antt =====
-- The lifecycle events of a run that returns, and of one that raises.
use io_iii_runtime.Prelude.{
  ◌≡◌, String, true, ◌&&◌, Option, none, some, [], ◌∷◌, ◌++◌, arith, if◌then◌else◌,
}
use io_iii_runtime.Python.Text.{is_empty}
use io_iii_runtime.Python.Value.{Fields, get, is_str}
use io_iii_runtime.Python.Effect.{Triple, Triple-bind, Triple-pure, Triple-if}
use io_iii_runtime.Observability.{EngineEventKind}
use io_iii_runtime.Engine.Environment.{Provider, Challenger, Services, RuntimeDependencies, Request}
use io_iii_runtime.Engine.Actions.{RunState}
use io_iii_runtime.Engine.Passes.{
  Audited, call_capability, use_capability, do_challenger_pass, do_revision, revise, audit_pass,
  audit_stage,
}
use io_iii_runtime.Engine.Plan.{
  Kinds, answered_kinds, pass_kinds, answered-IsStart, audited-IsStart,
}
use io_iii_runtime.Engine.Rules.{
  bind-Quiet, pure-Quiet, if-Quiet, lift-Quiet, set_phase-Quiet, in_step-Quiet, At, Early, Quiet,
  Triple-Quiet,
}
use io_iii_runtime.Engine.Emits.{Triple-emit}

module _ {W : Type 0} (services : Services W) (req : Request W) where
  -- The audit has the passes that the flag and the verdict ask for, and their events.
  abbrev pub IsAudit : Audited → RunState W → Type 0
  IsAudit a s =
      At (answered_kinds ++ pass_kinds req.audit a.verdict) s
      × (a.audit_passes ≡ (if req.audit then 1 else 0))
      × (a.revision_passes ≡ (if req.audit && is_str "needs_work" a.verdict then 1 else 0))

  do_challenger_pass-Triple :
      (challenger : Challenger W) (text : String)
      → Triple
          (At answered_kinds)
          (do_challenger_pass services req challenger text 1)
          (λ a s. At (answered_kinds ++ EngineEventKind.challenger_audit_complete ∷ []) s)
          (Early req.audit)
  unfolding do_challenger_pass
  do_challenger_pass-Triple challenger text =
      Triple-Quiet answered_kinds _ _ (in_step-Quiet services.clock _ _ _)
        (answered-IsStart req.audit) (omega arith)
        λ r.
          Triple-emit services.clock req.session_state answered_kinds _ _ _
            (answered-IsStart req.audit) (omega arith) λ a. Triple-pure _ λ s h. h

  abbrev audited_kinds : Kinds
  audited_kinds = answered_kinds ++ EngineEventKind.challenger_audit_complete ∷ []

  abbrev revised_kinds : Kinds
  revised_kinds = audited_kinds ++ EngineEventKind.revision_complete ∷ []

  do_revision-Triple :
      (provider : Provider W) (model text : String) (r : Fields)
      → req.audit ≡ true
      → Triple
          (At audited_kinds)
          (do_revision services req provider model text r 1)
          (λ a s. At revised_kinds s)
          (Early req.audit)
  unfolding do_revision
  do_revision-Triple provider model text r audit =
      Triple-Quiet audited_kinds _ _ (lift-Quiet _) (audited-IsStart req.audit audit) (omega arith)
        λ feedback.
          Triple-Quiet audited_kinds _ _ (in_step-Quiet services.clock _ _ _)
            (audited-IsStart req.audit audit) (omega arith)
            λ revised.
              Triple-emit services.clock req.session_state audited_kinds _ _ _
                (audited-IsStart req.audit audit) (omega arith) λ a. Triple-pure _ λ s h. h

  revise-Triple :
      (provider : Provider W) (model text : String) (r : Fields)
      → req.audit ≡ true
      → is_str "needs_work" (get "verdict" r) ≡ true
      → Triple
          (At audited_kinds)
          (revise services req provider model text r)
          IsAudit
          (Early req.audit)
  unfolding revise
  revise-Triple provider model text r audit needs_work =
      Triple-Quiet audited_kinds _ _ (lift-Quiet _) (audited-IsStart req.audit audit) (omega arith)
        λ a.
          Triple-Quiet audited_kinds _ _ (set_phase-Quiet _) (audited-IsStart req.audit audit)
            (omega arith)
            λ b.
              Triple-bind (λ x s. At revised_kinds s) _ _
                (do_revision-Triple provider model text r audit)
                λ revised. Triple-pure _ λ s here. ground (arith, here)

  audit_pass-Triple :
      (challenger : Challenger W) (provider : Provider W) (model text : String)
      → req.audit ≡ true
      → Triple
          (At answered_kinds)
          (audit_pass services req challenger provider model text)
          IsAudit
          (Early req.audit)
  unfolding audit_pass
  audit_pass-Triple challenger provider model text audit =
      Triple-Quiet answered_kinds _ _ (lift-Quiet _) (answered-IsStart req.audit) (omega arith) λ a.
        Triple-Quiet answered_kinds _ _ (set_phase-Quiet _) (answered-IsStart req.audit)
          (omega arith)
          λ b.
            Triple-bind (λ x s. At audited_kinds s) _ _ (do_challenger_pass-Triple challenger text)
              λ r.
                Triple-if (is_str "needs_work" (get "verdict" r)) _ _
                  (revise-Triple provider model text r audit)
                  (λ fine. Triple-pure _ λ s here. ground (arith, here))

  pub audit_stage-Triple :
      (challenger : Challenger W) (provider : Provider W) (model text : String)
      → Triple
          (At answered_kinds)
          (audit_stage services req challenger provider model text)
          IsAudit
          (Early req.audit)
  unfolding audit_stage
  audit_stage-Triple challenger provider model text =
      Triple-if req.audit _ _ (audit_pass-Triple challenger provider model text)
        (λ off. Triple-pure _ λ s here. ground (arith, here))

  call_capability-Quiet :
      (deps : RuntimeDependencies W) (id : String) → Quiet (call_capability services req deps id)
  unfolding call_capability
  call_capability-Quiet deps id = bind-Quiet _ _ (set_phase-Quiet _) λ a.
      bind-Quiet _ _ (lift-Quiet _)
        λ p. bind-Quiet _ _ (in_step-Quiet services.clock _ _ _) λ m. pure-Quiet _

  pub use_capability-Quiet :
      (deps : Option (RuntimeDependencies W)) (id : Option String)
      → Quiet (use_capability services req deps id)
  unfolding use_capability
  use_capability-Quiet (some deps) (some id) =
      if-Quiet (is_empty id) _ _ (pure-Quiet _) (call_capability-Quiet deps id)
  use_capability-Quiet (some deps) none = pure-Quiet _
  use_capability-Quiet none id = pure-Quiet _

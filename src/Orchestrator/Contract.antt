-- ===== src/Orchestrator/Contract.antt =====
-- What the orchestrator passes on from the engine.
use io_iii_runtime.Prelude.{◌≡◌, refl, sym, ◌∙◌, subst, String, arith, ◌⊎◌, inl, inr}
use io_iii_runtime.Python.Error.{Exn, Result, ok, err}
use io_iii_runtime.Python.Effect.{
  Effect, Ends, Triple, Triple-bind, ◌>>=◌, ◌>>◌, pure, lift, proceed,
}
use io_iii_runtime.SessionState.{SessionState, validate_session_state}
use io_iii_runtime.TaskSpec.{TaskSpec}
use io_iii_runtime.Engine.{ExecutionResult}
use io_iii_runtime.Engine.Environment.{Services, Request}
use io_iii_runtime.Engine.Actions.{RunState}
use io_iii_runtime.Engine.Run as Engine
use io_iii_runtime.Engine.Contract.{HasEnvelope, run_traced-Raises}
use io_iii_runtime.Engine.Validity.{run_traced-validate}
use io_iii_runtime.Orchestrator.{Call, prepare, request_for, execute, run, session_of}

-- What the engine leaves of a request with a valid session.
module _ {W : Type 0} (services : Services W) (req : Request W) where
  outcome-Ends :
      (p : Result (SessionState × ExecutionResult) × RunState W) (w : W)
      → validate_session_state req.session_state ≡ ok tt
      → Engine.run_traced services req w ≡ p
      → Ends
          (λ o w'. validate_session_state o.0 ≡ ok tt)
          (λ e w'. HasEnvelope services req e)
          (p.0, p.1.world)
  outcome-Ends (ok (f, r), s) w valid h = run_traced-validate services req w f r s valid h
  outcome-Ends (err e, s) w valid h =
      let (_, _, _, _, envelope) = run_traced-Raises services req w e s h in envelope

  run-Ends :
      (w : W)
      → validate_session_state req.session_state ≡ ok tt
      → Ends
          (λ o w'. validate_session_state o.0 ≡ ok tt)
          (λ e w'. HasEnvelope services req e)
          (Engine.run services req w)
  unfolding Engine.run
  run-Ends w valid = outcome-Ends (Engine.run_traced services req w) w valid refl

module _ {W : Type 0} (services : Services W) (fresh_id : W → String × W) (call : Call W)
    (task : TaskSpec) where
  -- The session that the engine is given.
  abbrev IsPrepared : SessionState → W → Type 0
  IsPrepared state w =
      (validate_session_state state ≡ ok tt) × (state.task_spec_id ≡ task.task_spec_id)

  anything : {A : Type 0} (r : Result A × W) → Ends (λ a w. Unit {0}) (λ e w. Unit {0}) r
  anything (ok a, w) = tt
  anything (err e, w) = tt

  Triple-any :
      {A : Type 0} (m : Effect W A) → Triple (λ w. Unit {0}) m (λ a w. Unit {0}) (λ e w. Unit {0})
  Triple-any m = record { at = λ w h. anything (m w) }

  validated-Ends :
      (state : SessionState) (w : W) (r : Result (Unit {0}))
      → validate_session_state state ≡ r
      → state.task_spec_id ≡ task.task_spec_id
      → Ends IsPrepared (λ e w. Unit {0}) (proceed (r, w) (λ u w. (ok state, w)))
  validated-Ends state w (ok _) valid same = (valid, same)
  validated-Ends state w (err e) valid same = tt

  validated-Triple :
      (state : SessionState)
      → state.task_spec_id ≡ task.task_spec_id
      → Triple
          (λ w. Unit {0})
          (lift (validate_session_state state) >> pure state)
          IsPrepared
          (λ e w. Unit {0})
  unfolding lift pure ◌>>=◌
  validated-Triple state same = record {
    at = λ w h. validated-Ends state w (validate_session_state state) refl same;
  }

  prepare-Triple :
      Triple (λ w. Unit {0}) (prepare services fresh_id call task) IsPrepared (λ e w. Unit {0})
  unfolding prepare session_of
  prepare-Triple =
      Triple-bind (λ u w. Unit {0}) _ _ (Triple-any _)
        λ a.
          Triple-bind (λ u w. Unit {0}) _ _ (Triple-any _)
            λ routing.
              Triple-bind (λ u w. Unit {0}) _ _ (Triple-any _)
                λ selection.
                  Triple-bind (λ u w. Unit {0}) _ _ (Triple-any _)
                    λ id.
                      Triple-bind (λ u w. Unit {0}) _ _ (Triple-any _)
                        λ now.
                          validated-Triple (session_of call.config call.audit task selection id now)
                            refl

  -- The engine in the place of `run`'s last three lines.
  abbrev pub engine : SessionState → Effect W (SessionState × ExecutionResult)
  engine state = Engine.run services (request_for services fresh_id call task state)

  checked-eq :
      (p : Result (SessionState × ExecutionResult) × W) (E : Exn → W → Type 0)
      → Ends (λ o w'. validate_session_state o.0 ≡ ok tt) E p
      → proceed p (λ o. lift (validate_session_state o.0) >> pure o) ≡ p
  unfolding lift pure ◌>>=◌
  checked-eq (ok o, w) E h = rw h
  checked-eq (err e, w) E h = refl

  engine-Ends :
      (state : SessionState) (w : W)
      → validate_session_state state ≡ ok tt
      → Ends
          (λ o w'. validate_session_state o.0 ≡ ok tt)
          (λ e w'. HasEnvelope services (request_for services fresh_id call task state) e)
          (engine state w)
  unfolding request_for
  engine-Ends state w valid =
      run-Ends services (request_for services fresh_id call task state) w valid

  execute-engine :
      (state : SessionState) (w : W)
      → validate_session_state state ≡ ok tt
      → execute services fresh_id call task state w ≡ engine state w
  unfolding execute ◌>>=◌
  execute-engine state w valid = checked-eq (engine state w) _ (engine-Ends state w valid)

  prepared-eq :
      (p : Result SessionState × W)
      → Ends IsPrepared (λ e w. Unit {0}) p
      → proceed p (execute services fresh_id call task) ≡ proceed p engine
  prepared-eq (ok state, w) (valid, same) = execute-engine state w valid
  prepared-eq (err e, w) h = refl

  -- The orchestrator prepares a session and does one engine run with it, and nothing else: the
  -- validation of the returned state never raises.
  pub run-eq-prepare-engine :
      (w : W)
      → run services fresh_id call task w ≡ (prepare services fresh_id call task >>= engine) w
  unfolding run ◌>>=◌
  run-eq-prepare-engine w =
      prepared-eq (prepare services fresh_id call task w) (prepare-Triple.at w tt)

  -- The preparation raised, or the engine did.
  abbrev pub IsExplained : Exn → W → W → Type 0
  IsExplained e w w' =
      (prepare services fresh_id call task w ≡ (err e, w'))
      ⊎ ((state : SessionState) × (w₁ : W) × (prepare services fresh_id call task w
            ≡ (ok state, w₁))
          × (engine state w₁ ≡ (err e, w'))
          × (state.task_spec_id ≡ task.task_spec_id)
          × HasEnvelope services (request_for services fresh_id call task state) e)

  raised-IsExplained :
      (p : Result SessionState × W) (e : Exn) (w w' : W)
      → prepare services fresh_id call task w ≡ p
      → Ends IsPrepared (λ e w. Unit {0}) p
      → proceed p engine ≡ (err e, w')
      → IsExplained e w w'
  raised-IsExplained (ok state, w₁) e w w' h (valid, same) raised = inr (
    state,
    w₁,
    h,
    raised,
    same,
    subst
        (Ends (λ o w'. validate_session_state o.0 ≡ ok tt)
          (λ e w'. HasEnvelope services (request_for services fresh_id call task state) e))
        raised (engine-Ends state w₁ valid),
  )
  raised-IsExplained (err d, w₁) e w w' h prepared raised = inl (ground arith)

  -- An exception of the orchestrator is the one that the preparation raises, in the world that it leaves; or
  -- the preparation gives a session of the task's identifier, and it is the one that the engine raises at that
  -- session, in the world that the engine leaves, and carries an envelope with the session's identifiers.
  pub run-IsExplained :
      (w : W) (e : Exn) (w' : W)
      → run services fresh_id call task w ≡ (err e, w')
      → IsExplained e w w'
  unfolding ◌>>=◌
  run-IsExplained w e w' h =
      raised-IsExplained (prepare services fresh_id call task w) e w w' refl
        (prepare-Triple.at w tt) (sym (run-eq-prepare-engine w) ∙ h)

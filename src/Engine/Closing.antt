-- ===== src/Engine/Closing.antt =====
-- The end of a run that returns: the trace is completed, the last events follow, and the result
-- reports them.
use io_iii_runtime.Prelude.{
  ℕ, ◌≤◌, ◌≡◌, refl, ◌∙◌, String, Bool, false, Option, none, some, [], ◌∷◌, ◌++◌, arith, length,
  length-append,
}
use io_iii_runtime.Python.Value.{Value, Fields, get}
use io_iii_runtime.Python.Error.{Result, ok, err}
use io_iii_runtime.Python.Effect.{Ends, Triple, Triple-bind, Triple-pure, ◌>>=◌, pure, gets}
use io_iii_runtime.Trace.{Status, ExecutionTrace, complete, transition}
use io_iii_runtime.SessionState.{SessionState}
use io_iii_runtime.Observability.{EngineEventKind, to_list}
use io_iii_runtime.Engine.{ExecutionResult}
use io_iii_runtime.Engine.Environment.{Generated, Services, Request}
use io_iii_runtime.Engine.Actions.{RunState, in_world, complete_trace, sealed}
use io_iii_runtime.Engine.Passes.{Audited}
use io_iii_runtime.Engine.Results.{
  latency, metrics, ollama_result, finished, audited_state, null_outcome,
}
use io_iii_runtime.Engine.Paths.{seal, announce_end, conclude, null_path, now_ms}
use io_iii_runtime.Engine.Rules.{
  At, Early, Done, in_step-Quiet, Triple-Quiet, Triple-Still, lift-Still, gets-Still,
  in_world-Still,
}
use io_iii_runtime.Engine.Emits.{Triple-emit, emit-Done-Triple}
use io_iii_runtime.Engine.Plan.{
  Kinds, IsStart, routed_kinds, answered_kinds, closed, routed-IsStart, answered-IsStart,
  output-IsStart,
}

complete-completed : (t t' : ExecutionTrace) → complete t ≡ ok t' → t'.status ≡ Status.completed
unfolding complete transition
complete-completed t t' h = ground arith

-- The result reports the events of the run in its state.
abbrev pub Reports : {W : Type 0} → ExecutionResult → RunState W → Type 0
Reports r s = get "engine_events" r.meta ≡ Value.arr (to_list s.events)

module _ {W : Type 0} (services : Services W) (req : Request W) where
  sealed-Ends :
      {b : Bool} (ks : Kinds) (r : Result ExecutionTrace) (s : RunState W)
      → IsStart b ks
      → length ks ≤ 6
      → At ks s
      → complete s.trace ≡ r
      → Ends (λ a s'. Done ks s') (Early b) (sealed r s)
  sealed-Ends ks (ok t) s opened short here h = (here, complete-completed s.trace t h)
  sealed-Ends ks (err e) s opened short here h = (ks, here, opened, short)

  complete_trace-Triple :
      {b : Bool} (ks : Kinds)
      → IsStart b ks
      → length ks ≤ 6
      → Triple (At {W = W} ks) complete_trace (λ a s. Done ks s) (Early b)
  unfolding complete_trace
  complete_trace-Triple ks opened short = record {
    at = λ s here. sealed-Ends ks (complete s.trace) s opened short here refl;
  }

  seal-Triple :
      {b : Bool} (ks : Kinds)
      → IsStart b ks
      → length ks ≤ 6
      → Triple (At ks) (seal services req) (λ a s. Done ks s) (Early b)
  unfolding seal
  seal-Triple ks opened short =
      Triple-bind (λ a s. Done ks s) _ _ (complete_trace-Triple ks opened short)
        λ a.
          Triple-Still ks _ _ (gets-Still _) opened short
            λ d. Triple-Still ks _ _ (lift-Still _) opened short λ b. Triple-pure _ λ s h. h

  announce_end-Triple :
      {b : Bool} (ks : Kinds) (provider : String) (model : Option String)
      → IsStart b ks
      → IsStart b (ks ++ EngineEventKind.output_emitted ∷ [])
      → length ks ≤ 5
      → Triple
          (Done ks)
          (announce_end services req provider model)
          (λ a s. Done (closed ks) s)
          (Early b)
  unfolding announce_end
  announce_end-Triple ks provider model opened emitted short =
      Triple-bind (λ a s. Done (ks ++ EngineEventKind.output_emitted ∷ []) s) _ _
        (emit-Done-Triple services.clock req.session_state ks _ _ opened (omega (arith, short)))
        λ a.
          Triple-Still (ks ++ EngineEventKind.output_emitted ∷ []) _ _ (gets-Still _) emitted
            (omega (arith, short, length-append ks (EngineEventKind.output_emitted ∷ [])))
            λ n.
              emit-Done-Triple services.clock req.session_state _ _ _ emitted
                (omega (arith, short, length-append ks (EngineEventKind.output_emitted ∷ [])))

  -- Reading the events, the clock, and the outcome that they make.
  reported-Triple :
      {b : Bool} (ks : Kinds) (out : Value → ℕ → SessionState × ExecutionResult)
      (Final : SessionState → Type 0)
      → ((events : Value) (now : ℕ) → get "engine_events" (out events now).1.meta ≡ events)
      → ((events : Value) (now : ℕ) → Final (out events now).0)
      → Triple
          (Done ks)
          (gets (λ s. Value.arr (to_list s.events)) >>= λ events.
            now_ms services req >>= λ now. pure (out events now))
          (λ o s. Done ks s × Reports o.1 s × Final o.0)
          (Early b)
  unfolding gets in_world
  reported-Triple ks out Final reports final =
      Triple-bind (λ events s. Done ks s × (events ≡ Value.arr (to_list s.events))) _ _
        (record { at = λ s h. (h, refl) })
        λ events.
          Triple-bind (λ now s. Done ks s × (events ≡ Value.arr (to_list s.events))) _ _
            (record { at = λ s h. h })
            λ now. Triple-pure _ λ s h. (h.0, reports events now ∙ h.1, final events now)

  null_reports :
      (state : SessionState) (cap : Option Fields) (d events : Value) (n : ℕ)
      → get "engine_events" (null_outcome state cap d events n).1.meta ≡ events
  null_reports state none d events n = refl
  null_reports state (some m) d events n = refl

  pub null_path-Triple :
      (state : SessionState) (cap : Option Fields)
      → Triple
          (At (routed_kinds))
          (null_path services req state cap)
          (λ o s.
            Done (closed answered_kinds) s
            × Reports o.1 s
            × ((ms : ℕ) × (o.0 ≡ finished "null" none ms state)))
          (Early false)
  unfolding null_path
  null_path-Triple state cap =
      Triple-Quiet _ _ _ (in_step-Quiet services.clock _ _ _) (routed-IsStart false) (omega arith)
        λ r.
          Triple-emit services.clock req.session_state _ _ _ _ (routed-IsStart false) (omega arith)
            λ a.
              Triple-bind (λ d s. Done answered_kinds s) _ _
                (seal-Triple answered_kinds (answered-IsStart false) (omega arith))
                λ d.
                  Triple-Still answered_kinds _ _ (lift-Still _) (answered-IsStart false)
                    (omega arith)
                    λ b.
                      Triple-bind (λ u s. Done (closed answered_kinds) s) _ _
                        (announce_end-Triple answered_kinds "null" none (answered-IsStart false)
                          (output-IsStart false Value.null) (omega arith))
                        λ u.
                          reported-Triple (closed answered_kinds) _
                            (λ f. (ms : ℕ) × (f ≡ finished "null" none ms state))
                            (λ events now.
                              null_reports state cap d events (latency now state.started_at_ms))
                            (λ events now. (_, refl))

  ollama_reports :
      (state : SessionState) (model : String) (a : Audited) (cap : Option Fields)
      (d t events : Value) (h : String)
      → get "engine_events" (ollama_result req.audit state model a cap d t events h).meta ≡ events
  unfolding ollama_result
  ollama_reports state model a none d t events h = refl
  ollama_reports state model a (some m) d t events h = refl

  pub conclude-Triple :
      {b : Bool} (ks : Kinds) (state : SessionState) (cap : Option Fields)
      (model prompt hash : String) (g : Generated) (a : Audited)
      → IsStart b ks
      → IsStart b (ks ++ EngineEventKind.output_emitted ∷ [])
      → length ks ≤ 5
      → Triple
          (At ks)
          (conclude services req state cap model prompt hash g a)
          (λ o s.
            Done (closed ks) s
            × Reports o.1 s
            × ((m : String) × (ms : ℕ) × (o.0 ≡ audited_state req.audit m ms a state)))
          (Early b)
  unfolding conclude
  conclude-Triple ks state cap model prompt hash g a opened emitted short =
      Triple-bind (λ d s. Done ks s) _ _ (seal-Triple ks opened (omega (arith, short)))
        λ d. Triple-Still ks _ _ (in_world-Still _) opened (omega (arith, short)) λ now.
          Triple-Still ks _ _ (lift-Still _) opened (omega (arith, short)) λ b.
            Triple-bind (λ u s. Done (closed ks) s) _ _
              (announce_end-Triple ks "ollama" (some model) opened emitted short)
              λ u.
                reported-Triple (closed ks) _
                  (λ f. (m : String) × (ms : ℕ) × (f ≡ audited_state req.audit m ms a state))
                  (λ events later.
                    ollama_reports state model a cap d
                      (metrics g prompt model (latency now state.started_at_ms)) events hash)
                  (λ events later. (model, _, refl))

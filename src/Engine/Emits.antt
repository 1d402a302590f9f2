-- ===== src/Engine/Emits.antt =====
-- The rules for the emission of an event.
use io_iii_runtime.Prelude.{
  suc, ◌≤◌, ◌<◌, ◌≡◌, refl, sym, ap, ◌∙◌, subst, Bool, false, [], ◌∷◌, ◌++◌, arith, length,
}
use io_iii_runtime.Python.Value.{Value, Fields}
use io_iii_runtime.Python.Error.{Result, ok, err}
use io_iii_runtime.Python.Effect.{Ends, Ends-map, Triple, Triple-bind, ◌>>=◌}
use io_iii_runtime.Python.Clock.{Clock}
use io_iii_runtime.SessionState.{SessionState}
use io_iii_runtime.Safety.{default_forbidden_keys}
use io_iii_runtime.Safety.Guard.{has_forbidden, assert_no_forbidden_keys_lem}
use io_iii_runtime.Observability.{
  EngineEventKind, EngineObservabilityLog, max_events, check_emit, emitted, emit,
}
use io_iii_runtime.Engine.Plan.{Kinds, IsStart}
use io_iii_runtime.Engine.Actions.{RunState, Action, kinds, emit_event}
use io_iii_runtime.Engine.Rules.{At, Early, Done}

kinds-append : (log log' : EngineObservabilityLog) → kinds (log ++ log') ≡ kinds log ++ kinds log'
kinds-append [] log' = refl
kinds-append (e ∷ log) log' = ap (λ ks. e.kind ∷ ks) (kinds-append log log')

pub length-kinds : (log : EngineObservabilityLog) → length (kinds log) ≡ length log
length-kinds [] = refl
length-kinds (e ∷ log) = ap suc (length-kinds log)

check_emit_free :
    (meta : Fields) (log : EngineObservabilityLog)
    → has_forbidden default_forbidden_keys (Value.obj meta) ≡ false
    → length log < max_events
    → check_emit meta log ≡ ok tt
unfolding check_emit
check_emit_free meta log free room =
    ground (arith, assert_no_forbidden_keys_lem default_forbidden_keys (Value.obj meta))

module _ {W : Type 0} (clock : Clock W) (session : SessionState) where
  abbrev stored :
      EngineEventKind → Fields → RunState W → Result (Unit {0}) → Result (Unit {0}) × RunState W
  stored kind meta s r =
      let (r', log, w) =
        emitted clock session.request_id session.task_spec_id r kind meta s.events s.world in
      (r', record { trace = s.trace; events = log; phase = s.phase; world = w })

  stored-Ends :
      (ks : Kinds) (kind : EngineEventKind) (meta : Fields) (s : RunState W) (r : Result (Unit {0}))
      → At ks s
      → Ends
          (λ a s'. At (ks ++ kind ∷ []) s' × (s'.trace ≡ s.trace))
          (λ e s'. At ks s')
          (stored kind meta s r)
  unfolding emitted
  stored-Ends ks kind meta s (ok _) here =
      (kinds-append s.events (_ ∷ []) ∙ ap (λ l. l ++ kind ∷ []) here, refl)
  stored-Ends ks kind meta s (err e) here = here

  -- An emit moves a run at `ks` to the event behind `ks`, or leaves it at `ks` by a raise.
  emit-At :
      (ks : Kinds) (kind : EngineEventKind) (meta : Fields) (s : RunState W)
      → At ks s
      → Ends
          (λ a s'. At (ks ++ kind ∷ []) s' × (s'.trace ≡ s.trace))
          (λ e s'. At ks s')
          (emit_event clock session kind meta s)
  unfolding emit_event emit
  emit-At ks kind meta s here = stored-Ends ks kind meta s (check_emit meta s.events) here

  pub Triple-emit :
      {b : Bool} {B : Type 0} {Q : B → RunState W → Type 0} (ks : Kinds) (kind : EngineEventKind)
      (meta : Fields) (next : Unit {0} → Action W B)
      → IsStart b ks
      → length ks ≤ 6
      → ((a : Unit {0}) → Triple (At (ks ++ kind ∷ [])) (next a) Q (Early b))
      → Triple (At ks) (emit_event clock session kind meta >>= next) Q (Early b)
  Triple-emit ks kind meta next opened short rest =
      Triple-bind (λ a s. At (ks ++ kind ∷ []) s) (emit_event clock session kind meta) next
        (record {
          at = λ s here.
              Ends-map _ _ _ _ (emit_event clock session kind meta s) (λ a s' h. h.0)
                (λ e s' h. (ks, h, opened, short)) (emit-At ks kind meta s here);
        })
        rest

  -- The same behind the completion of the trace.
  pub emit-Done-Triple :
      {b : Bool} (ks : Kinds) (kind : EngineEventKind) (meta : Fields)
      → IsStart b ks
      → length ks ≤ 6
      → Triple
          (Done ks)
          (emit_event clock session kind meta)
          (λ a s. Done (ks ++ kind ∷ []) s)
          (Early b)
  emit-Done-Triple ks kind meta opened short = record {
    at = λ s (here, sealed).
        Ends-map _ _ _ _ (emit_event clock session kind meta s)
          (λ a s' h. (h.0, ap (λ t. t.status) h.1 ∙ sealed)) (λ e s' h. (ks, h, opened, short))
          (emit-At ks kind meta s here);
  }

  -- An emit of few keys, none of them forbidden, does not raise.
  pub emit_free :
      (ks : Kinds) (kind : EngineEventKind) (meta : Fields)
      → has_forbidden default_forbidden_keys (Value.obj meta) ≡ false
      → length ks < max_events
      → (s : RunState W) → At ks s
      → At (ks ++ kind ∷ []) (emit_event clock session kind meta s).1
  unfolding emit_event emit
  emit_free ks kind meta free room s here =
      subst (λ r. At (ks ++ kind ∷ []) (stored kind meta s r).1)
        (sym (
          check_emit_free meta s.events free
            (omega (arith, length-kinds s.events, ap length here))))
        (stored-Ends ks kind meta s (ok tt) here).0

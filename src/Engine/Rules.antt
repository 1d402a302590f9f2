-- ===== src/Engine/Rules.antt =====
-- The rules by which a run keeps the documented sequence of its events.
use io_iii_runtime.Prelude.{
  ◌≤◌, ◌≡◌, refl, ap, ◌∙◌, String, Bool, true, false, length, if◌then◌else◌,
}
use io_iii_runtime.Python.Value.{Fields}
use io_iii_runtime.Python.Error.{Exn, Result, ok, err}
use io_iii_runtime.Python.Effect.{
  Effect, Ends, Triple, Triple-bind, ◌>>=◌, proceed, pure, lift, gets,
}
use io_iii_runtime.Python.Clock.{Clock}
use io_iii_runtime.Trace.{Status}
use io_iii_runtime.Failure.Classify.{Phase}
use io_iii_runtime.Engine.Plan.{Kinds, IsStart}
use io_iii_runtime.Engine.Actions.{RunState, Action, kinds, set_phase, in_world, in_step}

module _ {W : Type 0} where
  abbrev pub At : Kinds → RunState W → Type 0
  At ks s = kinds s.events ≡ ks

  -- What holds when a run raises.
  abbrev pub Early : Bool → Exn → RunState W → Type 0
  Early b e s = (ks : Kinds) × At ks s × IsStart b ks × (length ks ≤ 6)

  -- The events and the trace are completed.
  abbrev pub Done : Kinds → RunState W → Type 0
  Done ks s = At ks s × (s.trace.status ≡ Status.completed)

  -- The action emits nothing.
  pub record Quiet {A : Type 0} (action : Action W A) : Type 0 where
    pub same : (s : RunState W) → (action s).1.events ≡ s.events

  quiet_outcome :
      {b : Bool} {A : Type 0} (ks : Kinds) (s : RunState W) (r : Result A × RunState W)
      → IsStart b ks
      → length ks ≤ 6
      → At ks s
      → r.1.events ≡ s.events
      → Ends (λ a s'. At ks s') (Early b) r
  quiet_outcome ks s (ok a, s') opened short here same = ap kinds same ∙ here
  quiet_outcome ks s (err e, s') opened short here same = (ks, ap kinds same ∙ here, opened, short)

  -- An action that emits nothing stays at the same events, whatever comes next.
  pub Triple-Quiet :
      {b : Bool} {A B : Type 0} {Q : B → RunState W → Type 0} (ks : Kinds) (action : Action W A)
      (next : A → Action W B)
      → Quiet action
      → IsStart b ks
      → length ks ≤ 6
      → ((a : A) → Triple (At ks) (next a) Q (Early b))
      → Triple (At ks) (action >>= next) Q (Early b)
  Triple-Quiet ks action next quiet opened short rest =
      Triple-bind (λ a s. At ks s) action next
        (record { at = λ s here. quiet_outcome ks s (action s) opened short here (quiet.same s) })
        rest

  proceed-same :
      {A B : Type 0} (r : Result A × RunState W) (next : A → Action W B) (s : RunState W)
      → r.1.events ≡ s.events
      → ((a : A) → Quiet (next a))
      → (proceed r next).1.events ≡ s.events
  proceed-same (ok a, s') next s same quiet = (quiet a).same s' ∙ same
  proceed-same (err e, s') next s same quiet = same

  pub bind-Quiet :
      {A B : Type 0} (action : Action W A) (next : A → Action W B)
      → Quiet action
      → ((a : A) → Quiet (next a))
      → Quiet (action >>= next)
  unfolding ◌>>=◌
  bind-Quiet action next quiet rest = record {
    same = λ s. proceed-same (action s) next s (quiet.same s) rest;
  }

  pub pure-Quiet : {A : Type 0} (a : A) → Quiet (pure a)
  unfolding pure
  pure-Quiet a = record { same = λ s. refl }

  pub if-Quiet :
      {A : Type 0} (b : Bool) (action other : Action W A)
      → Quiet action
      → Quiet other
      → Quiet (if b then action else other)
  if-Quiet true action other q r = q
  if-Quiet false action other q r = r

  pub lift-Quiet : {A : Type 0} (r : Result A) → Quiet (lift r)
  unfolding lift
  lift-Quiet r = record { same = λ s. refl }

  pub gets-Quiet : {A : Type 0} (f : RunState W → A) → Quiet (gets f)
  unfolding gets
  gets-Quiet f = record { same = λ s. refl }

  pub set_phase-Quiet : (p : Phase) → Quiet (set_phase p)
  unfolding set_phase
  set_phase-Quiet p = record { same = λ s. refl }

  pub in_world-Quiet : {A : Type 0} (body : Effect W A) → Quiet (in_world body)
  unfolding in_world
  in_world-Quiet body = record { same = λ s. refl }

  pub in_step-Quiet :
      (clock : Clock W) {A : Type 0} (stage : String) (meta : Result A → Fields) (body : Effect W A)
      → Quiet (in_step clock stage meta body)
  unfolding in_step
  in_step-Quiet clock stage meta body = record { same = λ s. refl }

  -- Behind the completion of the trace: an action that keeps the events and the trace.
  pub record Still {A : Type 0} (action : Action W A) : Type 0 where
    pub events : (s : RunState W) → (action s).1.events ≡ s.events
    pub trace : (s : RunState W) → (action s).1.trace ≡ s.trace

  still_outcome :
      {b : Bool} {A : Type 0} (ks : Kinds) (s : RunState W) (r : Result A × RunState W)
      → IsStart b ks
      → length ks ≤ 6
      → Done ks s
      → r.1.events ≡ s.events
      → r.1.trace ≡ s.trace
      → Ends (λ a s'. Done ks s') (Early b) r
  still_outcome ks s (ok a, s') opened short (here, sealed) same kept =
      (ap kinds same ∙ here, ap (λ t. t.status) kept ∙ sealed)
  still_outcome ks s (err e, s') opened short (here, sealed) same kept =
      (ks, ap kinds same ∙ here, opened, short)

  pub Triple-Still :
      {b : Bool} {A B : Type 0} {Q : B → RunState W → Type 0} (ks : Kinds) (action : Action W A)
      (next : A → Action W B)
      → Still action
      → IsStart b ks
      → length ks ≤ 6
      → ((a : A) → Triple (Done ks) (next a) Q (Early b))
      → Triple (Done ks) (action >>= next) Q (Early b)
  Triple-Still ks action next still opened short rest =
      Triple-bind (λ a s. Done ks s) action next
        (record {
          at = λ s here.
              still_outcome ks s (action s) opened short here (still.events s) (still.trace s);
        })
        rest

  pub lift-Still : {A : Type 0} (r : Result A) → Still (lift r)
  unfolding lift
  lift-Still r = record { events = λ s. refl; trace = λ s. refl }

  pub gets-Still : {A : Type 0} (f : RunState W → A) → Still (gets f)
  unfolding gets
  gets-Still f = record { events = λ s. refl; trace = λ s. refl }

  pub in_world-Still : {A : Type 0} (body : Effect W A) → Still (in_world body)
  unfolding in_world
  in_world-Still body = record { events = λ s. refl; trace = λ s. refl }

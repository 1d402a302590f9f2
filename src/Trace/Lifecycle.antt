-- ===== src/Trace/Lifecycle.antt =====
-- The lifecycle of a trace, over any sequence of calls of its recorder.
use io_iii_runtime.Prelude.{ℕ, ◌≡◌, ◌≢◌, refl, String, List, [], ◌∷◌, arith, ◌⊎◌, inl}
use io_iii_runtime.Python.Error.{Result, ok, err}
use io_iii_runtime.Trace.{
  Status, TraceStep, ExecutionTrace, new_trace, start, complete, fail, enter_step, push,
}

-- The arrows of the class comment of `TraceLifecycleError`, and what recording a step does.
pub data Arrow : Status → Status → Type 0 where
  begin : Arrow Status.created Status.running
  fail_early : Arrow Status.created Status.failed
  finish : Arrow Status.running Status.completed
  fail_late : Arrow Status.running Status.failed
  stay : Arrow Status.running Status.running

pub data Call : Type 0 where
  start_call complete_call fail_call : Call
  step_call : TraceStep → Call

-- A step that is entered is recorded, whether its body raises or not.
unfoldable pub apply : Call → ExecutionTrace → Result ExecutionTrace
apply Call.start_call t = start t
apply Call.complete_call t = complete t
apply Call.fail_call t = fail t
apply (Call.step_call s) t = elim (enter_step t) [ ok t' ↦ ok (push s t') | err e ↦ err e ]

-- A caller that catches `TraceLifecycleError` goes on with the trace as it was.
abbrev after : Result ExecutionTrace → ExecutionTrace → ExecutionTrace
after (ok t') t = t'
after (err e) t = t

unfoldable pub apply_all : List Call → ExecutionTrace → ExecutionTrace
apply_all [] t = t
apply_all (c ∷ cs) t = apply_all cs (after (apply c t) t)

-- A call that does not raise follows an arrow of the documented lifecycle.
pub apply-Arrow :
    (c : Call) (t : ExecutionTrace) {t' : ExecutionTrace}
    → apply c t ≡ ok t'
    → Arrow t.status t'.status
unfolding apply start complete fail enter_step
apply-Arrow c t h = grind (arith, begin, fail_early, finish, fail_late, stay)

abbrev pub IsTerminal : ExecutionTrace → Type 0
IsTerminal t = (t.status ≡ Status.completed) ⊎ (t.status ≡ Status.failed)

after-apply_of_IsTerminal : (c : Call) (t : ExecutionTrace) → IsTerminal t → after (apply c t) t ≡ t
unfolding apply start complete fail enter_step
after-apply_of_IsTerminal c t h = ground arith

-- After `completed` or `failed` no sequence of calls changes the trace, its steps included.
apply_all_of_IsTerminal : (cs : List Call) (t : ExecutionTrace) → IsTerminal t → apply_all cs t ≡ t
unfolding apply_all
apply_all_of_IsTerminal [] t h = refl
apply_all_of_IsTerminal (c ∷ cs) t h =
    rw (after-apply_of_IsTerminal c t h) (apply_all_of_IsTerminal cs t h)

-- A trace that was just made.
abbrev IsStarted : ExecutionTrace → Type 0
IsStarted t = (t.status ≡ Status.created) × (t.steps ≡ []) ⊎ (t.status ≢ Status.created)

after-apply-IsStarted :
    (c : Call) (t : ExecutionTrace) → IsStarted t → IsStarted (after (apply c t) t)
unfolding apply start complete fail enter_step
after-apply-IsStarted c t h = grind arith

apply_all-IsStarted :
    (cs : List Call) (t : ExecutionTrace) → IsStarted t → IsStarted (apply_all cs t)
unfolding apply_all
apply_all-IsStarted [] t h = h
apply_all-IsStarted (c ∷ cs) t h =
    apply_all-IsStarted cs (after (apply c t) t) (after-apply-IsStarted c t h)

-- Whatever is called on a new recorder, a trace that has recorded a step has left `created`.
pub steps_need_start :
    (cs : List Call) (id : String) (now : ℕ)
    → (apply_all cs (new_trace id now)).steps ≢ []
    → (apply_all cs (new_trace id now)).status ≢ Status.created
unfolding new_trace
steps_need_start cs id now h =
    ground (arith, apply_all-IsStarted cs (new_trace id now) (inl (refl, refl)))

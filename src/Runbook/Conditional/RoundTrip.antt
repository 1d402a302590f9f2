-- ===== src/Runbook/Conditional/RoundTrip.antt =====
-- A conditional runbook survives `to_dict` and `from_dict`.
use io_iii_runtime.Prelude.{
  ℕ, suc, ◌≤◌, ◌<◌, ◌≡◌, refl, String, true, Option, none, some, List, [], ◌∷◌, arith, All, length,
}
use io_iii_runtime.Python.Value.{truthy}
use io_iii_runtime.Python.Error.{ok}
use io_iii_runtime.TaskSpec
use io_iii_runtime.TaskSpec.RoundTrip.{IsNormal, from_dict-to_dict}
use io_iii_runtime.Runbook.{runbook_max_steps}
use io_iii_runtime.Runbook.Conditional.{
  WhenCondition, RunbookStep, ConditionalRunbook, IsAllowed, in_set, when_value, create_when,
  when_from_dict, step_from_dict, when_from, task_from, create_conditional,
}
use io_iii_runtime.Runbook.Conditional.Dict.{
  when_to_dict, step_to_dict, step_items, steps_from, conditional_to_dict, conditional_from_dict,
}

abbrev WhenIsAllowed : Option WhenCondition → Type 0
WhenIsAllowed none = Unit
WhenIsAllowed (some w) = IsAllowed w

-- The task is in normal form; the condition has an allowed key and operator.
abbrev pub StepIsNormal : RunbookStep → Type 0
StepIsNormal s = IsNormal s.task_spec × WhenIsAllowed s.when

pub record IsValid (r : ConditionalRunbook) : Type 0 where
  pub identified : truthy r.runbook_id ≡ true
  pub some_steps : 0 < length r.steps
  pub few_steps : length r.steps ≤ runbook_max_steps
  pub steps_normal : All StepIsNormal r.steps

when_from_dict-when_to_dict :
    (w : WhenCondition) → IsAllowed w → when_from_dict (when_to_dict w) ≡ ok w
unfolding when_from_dict when_to_dict create_when in_set when_value
when_from_dict-when_to_dict w (key, op) = rw (key, op) refl

task_from-to_dict :
    (t : TaskSpec.TaskSpec) (fresh : String)
    → IsNormal t
    → task_from (TaskSpec.to_dict t) fresh ≡ ok t
unfolding task_from TaskSpec.to_dict
task_from-to_dict t fresh h = from_dict-to_dict t fresh h

when_from-when_to_dict :
    (w : WhenCondition) → IsAllowed w → when_from (when_to_dict w) ≡ ok (some w)
unfolding when_from when_to_dict
when_from-when_to_dict w h = rw (when_from_dict-when_to_dict w h) refl

step_of :
    (t : TaskSpec.TaskSpec) (o : Option WhenCondition) (fresh : String)
    → StepIsNormal (record { task_spec = t; when = o })
    → step_from_dict (step_to_dict (record { task_spec = t; when = o })) fresh
      ≡ ok (record { task_spec = t; when = o })
unfolding step_from_dict step_to_dict
step_of t none fresh (h, a) = rw (task_from-to_dict t fresh h) refl
step_of t (some w) fresh (h, a) = rw (task_from-to_dict t fresh h, when_from-when_to_dict w a) refl

step_from_dict-step_to_dict :
    (s : RunbookStep) (fresh : String)
    → StepIsNormal s
    → step_from_dict (step_to_dict s) fresh ≡ ok s
step_from_dict-step_to_dict s fresh h = step_of s.task_spec s.when fresh h

steps_from-step_items :
    (ss : List RunbookStep) (ids : ℕ → String) (i : ℕ)
    → All StepIsNormal ss
    → steps_from (step_items ss) ids i ≡ ok ss
unfolding steps_from step_items
steps_from-step_items [] ids i h = refl
steps_from-step_items (s ∷ ss) ids i h =
    rw (step_from_dict-step_to_dict s (ids i) h.0, steps_from-step_items ss ids (suc i) h.1) refl

create_conditional_of_IsValid :
    (r : ConditionalRunbook) (fresh : String)
    → IsValid r
    → create_conditional r.steps r.runbook_id fresh ≡ ok r
unfolding create_conditional
create_conditional_of_IsValid r fresh h = ground arith

-- A valid conditional runbook is what `from_dict` gives back from its dictionary: identifier, steps, order
-- and conditions, a step without a condition included, whatever identifiers `new_id` offers.
pub conditional_from_dict-conditional_to_dict :
    (r : ConditionalRunbook) (ids : ℕ → String) (fresh : String)
    → IsValid r
    → conditional_from_dict (conditional_to_dict r) ids fresh ≡ ok r
unfolding conditional_from_dict conditional_to_dict
conditional_from_dict-conditional_to_dict r ids fresh h =
    rw (steps_from-step_items r.steps ids 0 h.steps_normal)
      (create_conditional_of_IsValid r fresh h)

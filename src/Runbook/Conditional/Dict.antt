-- ===== src/Runbook/Conditional/Dict.antt =====
-- `to_dict` and `from_dict` of the steps and the conditional runbooks of io_iii/core/runbook.py. The
-- identifiers that `new_id` returns are arguments, as for runbooks.
use io_iii_runtime.Prelude.{ℕ, suc, String, Option, none, some, List, [], ◌∷◌}
use io_iii_runtime.Python.Value.{Value, Items, Fields, get}
use io_iii_runtime.Python.Error.{value_err, Result, ok, err, ◌>>=◌}
use io_iii_runtime.TaskSpec
use io_iii_runtime.Runbook.Conditional.{
  WhenCondition, RunbookStep, ConditionalRunbook, step_from_dict, create_conditional,
}

unfoldable pub when_to_dict : WhenCondition → Value
when_to_dict w = Value.obj (
    Fields.field "key" (Value.str w.key)
      (Fields.field "value" (Value.str w.value) (Fields.field "op" (Value.str w.op) Fields.end)))

-- A step without a condition has no key `when`.
when_field : Option WhenCondition → Fields
unfolding when_to_dict
when_field none = Fields.end
when_field (some w) = Fields.field "when" (when_to_dict w) Fields.end

unfoldable pub step_to_dict : RunbookStep → Value
unfolding when_field
step_to_dict s =
    Value.obj (Fields.field "task_spec" (TaskSpec.to_dict s.task_spec) (when_field s.when))

unfoldable pub step_items : List RunbookStep → Items
step_items [] = Items.nil
step_items (s ∷ ss) = Items.cons (step_to_dict s) (step_items ss)

unfoldable pub conditional_to_dict : ConditionalRunbook → Value
unfolding step_items
conditional_to_dict r = Value.obj (
    Fields.field "runbook_id" r.runbook_id
      (Fields.field "steps" (Value.arr (step_items r.steps)) Fields.end))

unfoldable pub steps_from : Items → (ℕ → String) → ℕ → Result (List RunbookStep)
steps_from Items.nil ids i = ok []
steps_from (Items.cons v vs) ids i = do
  s ← step_from_dict v (ids i)
  rest ← steps_from vs ids (suc i)
  ok (s ∷ rest)

step_list : Value → (ℕ → String) → Result (List RunbookStep)
unfolding steps_from
step_list (Value.arr vs) ids = steps_from vs ids 0
step_list _ ids = err (value_err "ConditionalRunbook 'steps' must be a list")

unfoldable pub conditional_from_dict : Value → (ℕ → String) → String → Result ConditionalRunbook
unfolding step_list create_conditional
conditional_from_dict (Value.obj d) ids fresh = do
  steps ← step_list (get "steps" d) ids
  create_conditional steps (get "runbook_id" d) fresh
conditional_from_dict _ ids fresh =
    err (value_err "ConditionalRunbook input must be a mapping/object")

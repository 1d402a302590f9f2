-- ===== src/Runbook.antt =====
-- io_iii/core/runbook.py: bounded lists of tasks. The isinstance checks of the steps hold by type.
-- `fresh` is what `new_id` of the runbook returns, `ids i` what it returns for step `i`.
pub mod Conditional
pub mod RoundTrip
mod Tests
use io_iii_runtime.Prelude.{
  ℕ, suc, ◌≤◌, ◌≡◌, refl, String, Bool, true, false, Option, none, some, List, [], ◌∷◌, arith, ltb,
  if◌then◌else◌, length, ◌<◌,
}
use io_iii_runtime.Python.Value.{Value, Items, Fields, get, truthy}
use io_iii_runtime.Python.Error.{value_err, Result, ok, err, ◌>>=◌, ◌>>◌, raise_if}
use io_iii_runtime.TaskSpec
use io_iii_runtime.TaskSpec.{TaskSpec, id_or}

abbrev pub runbook_max_steps : ℕ
runbook_max_steps = 20

pub record Runbook : Type 0 where
  pub runbook_id : Value
  pub steps : List TaskSpec

abbrev pub is_nil {ℓ} : {A : Type ℓ} → List A → Bool
is_nil [] = true
is_nil (_ ∷ _) = false

unfoldable pub create : List TaskSpec → Value → String → Result Runbook
create steps id fresh = do
  raise_if (is_nil steps) (value_err "RUNBOOK_EMPTY")
  raise_if (ltb runbook_max_steps (length steps)) (value_err "RUNBOOK_MAX_STEPS_EXCEEDED")
  ok (record { runbook_id = id_or id fresh; steps = steps })

unfoldable pub task_items : List TaskSpec → Items
task_items [] = Items.nil
task_items (t ∷ rest) = Items.cons (TaskSpec.to_dict t) (task_items rest)

unfoldable pub to_dict : Runbook → Value
unfolding task_items
to_dict r = Value.obj (
    Fields.field "runbook_id" r.runbook_id
      (Fields.field "steps" (Value.arr (task_items r.steps)) Fields.end))

unfoldable pub tasks_from : Items → (ℕ → String) → ℕ → Result (List TaskSpec)
tasks_from Items.nil ids i = ok []
tasks_from (Items.cons v vs) ids i = do
  t ← TaskSpec.from_dict v (ids i)
  rest ← tasks_from vs ids (suc i)
  ok (t ∷ rest)

steps_from : Value → (ℕ → String) → Result (List TaskSpec)
steps_from (Value.arr vs) ids = tasks_from vs ids 0
steps_from _ ids = err (value_err "Runbook 'steps' must be a list")

unfoldable pub from_dict : Value → (ℕ → String) → String → Result Runbook
unfolding steps_from
from_dict (Value.obj d) ids fresh = do
  steps ← steps_from (get "steps" d) ids
  create steps (get "runbook_id" d) fresh
from_dict _ ids fresh = err (value_err "Runbook input must be a mapping/object")

-- Every runbook that `create` returns has between 1 and `runbook_max_steps` steps, the given ones.
pub create_bounds :
    (steps : List TaskSpec) (id : Value) (fresh : String) (r : Runbook)
    → create steps id fresh ≡ ok r
    → (r.steps ≡ steps) × (0 < length r.steps) × (length r.steps ≤ runbook_max_steps)
unfolding create
create_bounds [] id fresh r h = ground arith
create_bounds (t ∷ ts) id fresh r h = ground arith

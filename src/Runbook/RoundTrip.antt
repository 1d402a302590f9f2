-- ===== src/Runbook/RoundTrip.antt =====
-- A runbook survives `to_dict` and `from_dict`.
use io_iii_runtime.Prelude.{
  ℕ, suc, ◌≤◌, ◌<◌, ◌≡◌, refl, String, true, List, [], ◌∷◌, arith, All, length,
}
use io_iii_runtime.Python.Value.{truthy}
use io_iii_runtime.Python.Error.{ok}
use io_iii_runtime.TaskSpec.{TaskSpec}
use io_iii_runtime.TaskSpec.RoundTrip.{IsNormal, from_dict-to_dict}
use io_iii_runtime.Runbook.{
  Runbook, runbook_max_steps, create, task_items, tasks_from, from_dict, to_dict,
}

pub record IsValid (r : Runbook) : Type 0 where
  pub identified : truthy r.runbook_id ≡ true
  pub some_steps : 0 < length r.steps
  pub few_steps : length r.steps ≤ runbook_max_steps
  pub tasks : All IsNormal r.steps

tasks_from-task_items :
    (ts : List TaskSpec) (ids : ℕ → String) (i : ℕ)
    → All IsNormal ts
    → tasks_from (task_items ts) ids i ≡ ok ts
unfolding tasks_from task_items
tasks_from-task_items [] ids i h = refl
tasks_from-task_items (t ∷ ts) ids i h =
    rw (from_dict-to_dict t (ids i) h.0, tasks_from-task_items ts ids (suc i) h.1)

create_of_IsValid :
    (r : Runbook) (fresh : String) → IsValid r → create r.steps r.runbook_id fresh ≡ ok r
unfolding create
create_of_IsValid r fresh h = ground arith

-- A valid runbook is what `from_dict` gives back from its dictionary: identifier, steps and order,
-- whatever identifiers `new_id` offers.
pub from_dict-to_dict_runbook :
    (r : Runbook) (ids : ℕ → String) (fresh : String)
    → IsValid r
    → from_dict (to_dict r) ids fresh ≡ ok r
unfolding from_dict to_dict
from_dict-to_dict_runbook r ids fresh h =
    rw (tasks_from-task_items r.steps ids 0 h.tasks) (create_of_IsValid r fresh h)

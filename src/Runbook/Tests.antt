-- ===== src/Runbook/Tests.antt =====
-- Runbooks and conditions at concrete input.
use io_iii_runtime.Prelude.{◌≡◌, refl, some, none, false, [], ◌∷◌, arith}
use io_iii_runtime.Python.Value.{Value}
use io_iii_runtime.Python.Text.{strip, is_blank}
use io_iii_runtime.Python.Error.{ok}
use io_iii_runtime.TaskSpec.Tests.{summarise}
use io_iii_runtime.TaskSpec.RoundTrip.{IsStripped, IsNormal}
use io_iii_runtime.Runbook.{Runbook, from_dict, to_dict}
use io_iii_runtime.Runbook.Conditional.{
  WhenCondition, WhenContext, ConditionalRunbook, evaluate_when,
}
use io_iii_runtime.Runbook.Conditional.Dict.{conditional_to_dict, conditional_from_dict}
use io_iii_runtime.Runbook.Conditional.RoundTrip.{conditional_from_dict-conditional_to_dict}
use io_iii_runtime.Runbook.RoundTrip.{from_dict-to_dict_runbook}

abbrev single : Runbook
single = record { runbook_id = Value.str "rb-1"; steps = summarise ∷ [] }

abbrev in_steward : WhenCondition
in_steward = record { key = "session_mode"; value = "steward"; op = "eq" }

abbrev working : WhenContext
working = record { session_mode = "work"; persona_mode = "executor" }

text_IsStripped_executor : IsStripped "executor"
unfolding strip is_blank
text_IsStripped_executor = record { stripped = refl; not_blank = refl }

text_IsStripped_prompt : IsStripped "Summarise"
unfolding strip is_blank
text_IsStripped_prompt = record { stripped = refl; not_blank = refl }

text_IsStripped_capability : IsStripped "cap.echo"
unfolding strip is_blank
text_IsStripped_capability = record { stripped = refl; not_blank = refl }

summarise-IsNormal : IsNormal summarise
summarise-IsNormal = record {
  identified = refl;
  mode = text_IsStripped_executor;
  prompt = text_IsStripped_prompt;
  capabilities = (text_IsStripped_capability, tt);
}

from_dict-to_dict_runbook_example : from_dict (to_dict single) (λ i. "ts-new") "rb-new" ≡ ok single
from_dict-to_dict_runbook_example =
    from_dict-to_dict_runbook single (λ i. "ts-new") "rb-new"
      (record {
        identified = refl;
        some_steps = omega arith;
        few_steps = omega arith;
        tasks = (summarise-IsNormal, tt);
      })

-- A step under a condition and one without.
abbrev branching : ConditionalRunbook
branching = record {
  runbook_id = Value.str "crb-1";
  steps =
      record { task_spec = summarise; when = some in_steward }
      ∷ record { task_spec = summarise; when = none }
      ∷ [];
}

conditional_from_dict-conditional_to_dict_example :
    conditional_from_dict (conditional_to_dict branching) (λ i. "ts-new") "crb-new" ≡ ok branching
conditional_from_dict-conditional_to_dict_example =
    conditional_from_dict-conditional_to_dict branching (λ i. "ts-new") "crb-new"
      (record {
        identified = refl;
        some_steps = omega arith;
        few_steps = omega arith;
        steps_normal = ((summarise-IsNormal, (refl, refl)), ((summarise-IsNormal, tt), tt));
      })

-- The mode `work` is not `steward`.
in_steward_at_work : evaluate_when in_steward working ≡ ok false
unfolding evaluate_when
in_steward_at_work = refl

-- ===== src/TaskSpec/Tests.antt =====
-- A task created from padded texts.
use io_iii_runtime.Prelude.{◌≡◌, refl, [], ◌∷◌}
use io_iii_runtime.Python.Text.{strip, is_blank}
use io_iii_runtime.Python.Value.{Value, Items, Fields}
use io_iii_runtime.Python.Error.{ok}
use io_iii_runtime.TaskSpec.{
  TaskSpec, create, from_dict, to_dict, ensure_non_empty_string, ensure_string_list, ensure_mapping,
}
use io_iii_runtime.TaskSpec.RoundTrip.{create-to_dict-from_dict}

abbrev pub summarise : TaskSpec
summarise = record {
  task_spec_id = Value.str "ts-1";
  mode = "executor";
  prompt = "Summarise";
  capabilities = "cap.echo" ∷ [];
  metadata = Fields.end;
}

abbrev padded_capabilities : Value
padded_capabilities = Value.arr (Items.cons (Value.str " cap.echo") Items.nil)

created :
    create
      (Value.str " executor ")
      (Value.str "Summarise ")
      padded_capabilities
      Value.null
      Value.null
      "ts-1"
    ≡ ok summarise
unfolding create ensure_non_empty_string ensure_string_list ensure_mapping strip is_blank
created = refl

create-to_dict-from_dict_example : from_dict (to_dict summarise) "ts-2" ≡ ok summarise
create-to_dict-from_dict_example =
    create-to_dict-from_dict (Value.str " executor ") (Value.str "Summarise ") padded_capabilities
      Value.null Value.null "ts-1" "ts-2" summarise refl created

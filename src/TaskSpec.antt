-- ===== src/TaskSpec.antt =====
-- io_iii/core/task_spec.py: the contract of one run. Arguments that the code checks are dynamic
-- values; the identifier is never checked and stays one. `fresh` is what `new_id` returns.
pub mod RoundTrip
pub mod Tests
use io_iii_runtime.Prelude.{
  String, Bool, true, false, Option, none, some, List, [], ◌∷◌, if◌then◌else◌,
}
use io_iii_runtime.Python.Text.{strip, is_blank}
use io_iii_runtime.Python.Value.{Value, Items, Fields, get, truthy}
use io_iii_runtime.Python.Error.{value_err, Result, ok, err, ◌>>=◌}

pub record TaskSpec : Type 0 where
  pub task_spec_id : Value
  pub mode : String
  pub prompt : String
  pub capabilities : List String
  pub metadata : Fields

unfoldable pub ensure_non_empty_string : Value → String → Result String
ensure_non_empty_string (Value.str s) name =
    if is_blank s then err (value_err name) else ok (strip s)
ensure_non_empty_string _ name = err (value_err name)

ensure_strings : Items → String → Result (List String)
unfolding ensure_non_empty_string
ensure_strings Items.nil name = ok []
ensure_strings (Items.cons v vs) name = do
  s ← ensure_non_empty_string v name
  rest ← ensure_strings vs name
  ok (s ∷ rest)

unfoldable pub ensure_string_list : Value → String → Result (List String)
unfolding ensure_strings
ensure_string_list Value.null name = ok []
ensure_string_list (Value.arr vs) name = ensure_strings vs name
ensure_string_list _ name = err (value_err name)

unfoldable pub ensure_mapping : Value → String → Result Fields
ensure_mapping Value.null name = ok Fields.end
ensure_mapping (Value.obj d) name = ok d
ensure_mapping _ name = err (value_err name)

-- `task_spec_id or cls.new_id()`
abbrev pub id_or : Value → String → Value
id_or v fresh = if truthy v then v else Value.str fresh

unfoldable pub create : Value → Value → Value → Value → Value → String → Result TaskSpec
create mode prompt capabilities metadata id fresh = do
  mode' ← ensure_non_empty_string mode "mode must be a non-empty string"
  prompt' ← ensure_non_empty_string prompt "prompt must be a non-empty string"
  capabilities' ← ensure_string_list capabilities "capabilities entries must be non-empty strings"
  metadata' ← ensure_mapping metadata "metadata must be a mapping/object"
  ok (record {
    task_spec_id = id_or id fresh;
    mode = mode';
    prompt = prompt';
    capabilities = capabilities';
    metadata = metadata';
  })

unfoldable pub from_dict : Value → String → Result TaskSpec
unfolding create
from_dict (Value.obj d) fresh =
    create (get "mode" d) (get "prompt" d) (get "capabilities" d) (get "metadata" d)
      (get "task_spec_id" d) fresh
from_dict _ fresh = err (value_err "TaskSpec input must be a mapping/object")

pub text_items : List String → Items
text_items [] = Items.nil
text_items (s ∷ rest) = Items.cons (Value.str s) (text_items rest)

unfoldable pub to_dict : TaskSpec → Value
unfolding text_items
to_dict t = Value.obj (
    Fields.field "task_spec_id" t.task_spec_id (
      Fields.field "mode" (Value.str t.mode) (
        Fields.field "prompt" (Value.str t.prompt) (
          Fields.field "capabilities" (Value.arr (text_items t.capabilities))
            (Fields.field "metadata" (Value.obj t.metadata) Fields.end)))))

-- ===== src/Safety/Tests.antt =====
-- Values with and without a forbidden key, and the guard at them.
use io_iii_runtime.Prelude.{◌≡◌, refl}
use io_iii_runtime.Python.Value.{Value, Items, Fields}
use io_iii_runtime.Python.Error.{err, raise_if}
use io_iii_runtime.Safety.{assert_no_forbidden_keys, default_forbidden_keys, forbidden_err}
use io_iii_runtime.Safety.Guard.{has_forbidden, assert_no_forbidden_keys_lem}

-- `{"a": [{"b": null}, {"prompt": 1}]}`, with the key inside the list.
abbrev nested : Value
nested = Value.obj (
    Fields.field "a"
      (Value.arr (
        Items.cons (Value.obj (Fields.field "b" Value.null Fields.end))
          (Items.cons (Value.obj (Fields.field "prompt" (Value.str "x") Fields.end)) Items.nil)))
      Fields.end)

nested_raises : assert_no_forbidden_keys default_forbidden_keys nested ≡ err forbidden_err
unfolding assert_no_forbidden_keys io_iii_runtime.Safety.size
nested_raises = refl

assert_no_forbidden_keys_lem_example :
    assert_no_forbidden_keys default_forbidden_keys nested
    ≡ raise_if (has_forbidden default_forbidden_keys nested) forbidden_err
assert_no_forbidden_keys_lem_example = assert_no_forbidden_keys_lem default_forbidden_keys nested

-- ===== src/Safety.antt =====
-- io_iii/core/content_safety.py: the guard that keeps content keys out of metadata. The loop over
-- the stack of values takes fuel; `assert_no_forbidden_keys` gives it the size of the value, and
-- `Safety.Guard` shows that this is enough.
pub mod Guard
mod Tests
use io_iii_runtime.Prelude.{
  ℕ, zero, suc, ◌+◌, String, Bool, true, false, ◌||◌, List, [], ◌∷◌, if◌then◌else◌, str_eq,
}
use io_iii_runtime.Python.Text.{elem}
use io_iii_runtime.Python.Value.{Value, Items, Fields}
use io_iii_runtime.Python.Error.{ExnClass, Exn, exn, value_err, Result, ok, err, ◌>>=◌}

-- `DEFAULT_FORBIDDEN_KEYS`
abbrev pub default_forbidden_keys : List String
default_forbidden_keys =
    "prompt" ∷ "user_prompt" ∷ "system_prompt" ∷ "assembled_prompt" ∷ "message" ∷ "completion"
    ∷ "draft" ∷ "revision" ∷ "content" ∷ "file_content" ∷ "file_text" ∷ []

-- `METADATA_FORBIDDEN_KEYS`
abbrev pub metadata_forbidden_keys : List String
metadata_forbidden_keys = "output" ∷ default_forbidden_keys

abbrev pub forbidden_err : Exn
forbidden_err = value_err "forbidden key present in structure"

-- The number of values and of keys, which bounds the rounds of the loop.
unfoldable mutual
  pub size : Value → ℕ
  size (Value.arr xs) = suc (size_items xs)
  size (Value.obj d) = suc (size_fields d)
  size Value.null = 1
  size (Value.bool b) = 1
  size (Value.int z) = 1
  size (Value.float m k) = 1
  size (Value.str s) = 1

  pub size_items : Items → ℕ
  size_items Items.nil = 0
  size_items (Items.cons x xs) = size x + size_items xs

  pub size_fields : Fields → ℕ
  size_fields Fields.end = 0
  size_fields (Fields.field k v d) = size v + size_fields d

-- `stack.append(v)` for each item of a dictionary, its keys checked on the way.
push_fields : List String → Fields → List Value → Result (List Value)
push_fields forbidden Fields.end stack = ok stack
push_fields forbidden (Fields.field k v d) stack =
    let rest = push_fields forbidden d (v ∷ stack) in
    if elem k forbidden then err forbidden_err else rest

-- `stack.extend(list(cur))`
push_items : Items → List Value → List Value
push_items Items.nil stack = stack
push_items (Items.cons x xs) stack = push_items xs (x ∷ stack)

-- What one round does with the value that it popped.
expand : List String → Value → List Value → Result (List Value)
unfolding push_fields push_items
expand forbidden (Value.obj d) stack = push_fields forbidden d stack
expand forbidden (Value.arr xs) stack = ok (push_items xs stack)
expand forbidden _ stack = ok stack

-- `while stack`
unfoldable pub guard_loop : List String → ℕ → List Value → Result (Unit {0})
unfolding expand
guard_loop forbidden fuel [] = ok tt
guard_loop forbidden zero (v ∷ stack) = err (exn ExnClass.other "out of fuel")
guard_loop forbidden (suc fuel) (v ∷ stack) =
    expand forbidden v stack >>= λ stack'. guard_loop forbidden fuel stack'

unfoldable pub assert_no_forbidden_keys : List String → Value → Result (Unit {0})
unfolding guard_loop
assert_no_forbidden_keys forbidden v = guard_loop forbidden (size v) (v ∷ [])

-- ===== src/Context/Metadata.antt =====
-- The memory that is injected into a prompt, and the content-free record of an assembly.
use io_iii_runtime.Prelude.{
  ℕ, suc, ◌+◌, String, Bool, true, Option, none, some, List, [], ◌∷◌, ltb, if◌then◌else◌, length,
}
use io_iii_runtime.Python.Text.Slice.{str_length}
use io_iii_runtime.Python.Text.Join.{concat}
use io_iii_runtime.Python.Value.{ℤ, Value, Items, Fields, find, nat, opt_str}
use io_iii_runtime.SessionState.{SessionState}
use io_iii_runtime.Memory.{MemoryRecord}

-- `n > budget`
abbrev pub is_over : ℕ → ℤ → Bool
is_over n (ℤ.pos b) = ltb b n
is_over n (ℤ.negsuc b) = true

-- `_select_bounded_memory`, with the total of the values that are already selected.
unfoldable pub select_bounded_memory : ℤ → ℕ → List MemoryRecord → List MemoryRecord
select_bounded_memory budget total [] = []
select_bounded_memory budget total (r ∷ rs) =
    let rest = select_bounded_memory budget (total + str_length r.value) rs in
    if is_over (total + str_length r.value) budget then [] else r ∷ rest

-- `MemoryRecord.identifier`
abbrev pub identifier : MemoryRecord → String
identifier r = concat (r.scope ∷ "/" ∷ r.key ∷ [])

unfoldable pub identifiers : List MemoryRecord → Items
identifiers [] = Items.nil
identifiers (r ∷ rs) = Items.cons (Value.str (identifier r)) (identifiers rs)

unfoldable pub total_chars : List MemoryRecord → ℕ
total_chars [] = 0
total_chars (r ∷ rs) = str_length r.value + total_chars rs

abbrev pub safe_keys : List String
safe_keys = "selected_provider" ∷ "selected_target" ∷ "fallback_used" ∷ "route_id" ∷ []

keep : String → Option Value → Fields → Fields
keep k none d = d
keep k (some v) d = Fields.field k v d

-- The entries of `d` under the given keys, in the order of the keys.
unfoldable pub restrict : List String → Fields → Fields
unfolding keep
restrict [] d = Fields.end
restrict (k ∷ ks) d = keep k (find k d) (restrict ks d)

unfoldable pub count_items : Items → ℕ
count_items Items.nil = 0
count_items (Items.cons v vs) = suc (count_items vs)

-- `_build_assembly_metadata`
unfoldable pub build_assembly_metadata :
    SessionState → Fields → String → String → Items → List MemoryRecord → Fields
unfolding identifiers total_chars restrict count_items
build_assembly_metadata state route_metadata system_prompt user_prompt messages injected =
    Fields.field "assembly_version" (Value.str "adr-010/v1") (
      Fields.field "mode" (Value.str state.mode) (
        Fields.field "provider" (Value.str state.provider) (
          Fields.field "model" (opt_str state.model) (
            Fields.field "route_id" (Value.str state.route_id) (
              Fields.field "audit_enabled" (Value.bool state.audit.audit_enabled) (
                Fields.field "system_prompt_chars" (nat (str_length system_prompt)) (
                  Fields.field "user_prompt_chars" (nat (str_length user_prompt)) (
                    Fields.field "message_count" (nat (count_items messages)) (
                      Fields.field "route_metadata_safe"
                        (Value.obj (restrict safe_keys route_metadata))
                        (Fields.field "memory_keys_released" (Value.arr (identifiers injected)) (
                          Fields.field "memory_records_count" (nat (length injected)) (
                            Fields.field "memory_total_chars" (nat (total_chars injected))
                              Fields.end))))))))))))

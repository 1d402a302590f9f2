-- ===== src/TaskSpec/RoundTrip.antt =====
-- A task that `create` accepted survives `to_dict` and `from_dict`.
use io_iii_runtime.Prelude.{
  String, ◌≡◌, refl, true, false, List, [], ◌∷◌, arith, All, Bool-cases, inl, inr, subst, ◌∙◌,
}
use io_iii_runtime.Python.Text.{strip, is_blank}
use io_iii_runtime.Python.Text.Strip.{strip_idem, is_blank-strip}
use io_iii_runtime.Python.Value.{Value, Items, truthy}
use io_iii_runtime.Python.Error.{ok}
use io_iii_runtime.TaskSpec.{
  TaskSpec, ensure_non_empty_string, ensure_strings, ensure_string_list, ensure_mapping, create,
  id_or, from_dict, to_dict, text_items,
}

-- The form that `create` gives to a text.
pub record IsStripped (s : String) : Type 0 where
  pub stripped : strip s ≡ s
  pub not_blank : is_blank s ≡ false

pub record IsNormal (t : TaskSpec) : Type 0 where
  pub identified : truthy t.task_spec_id ≡ true
  pub mode : IsStripped t.mode
  pub prompt : IsStripped t.prompt
  pub capabilities : All IsStripped t.capabilities

ensure-IsStripped :
    (v : Value) (name s : String) → ensure_non_empty_string v name ≡ ok s → IsStripped s
unfolding ensure_non_empty_string
ensure-IsStripped (Value.str t) name s h = elim (Bool-cases (is_blank t)) [
  | inl b ↦ ground arith
  | inr n ↦
      let e : strip t ≡ s = ground arith in
      subst IsStripped e (record { stripped = strip_idem t; not_blank = is_blank-strip t ∙ n })
]
ensure-IsStripped _ name s h = cc

ensure_strings-IsStripped :
    (vs : Items) (name : String) (ss : List String)
    → ensure_strings vs name ≡ ok ss
    → All IsStripped ss
unfolding ensure_strings
ensure_strings-IsStripped Items.nil name [] h = tt
ensure_strings-IsStripped Items.nil name (s ∷ ss) h = cc
ensure_strings-IsStripped (Items.cons v vs) name [] h = ground arith
ensure_strings-IsStripped (Items.cons v vs) name (s ∷ ss) h =
    (ensure-IsStripped v name s (ground arith), ensure_strings-IsStripped vs name ss (ground arith))

ensure_of_IsStripped :
    (s name : String) → IsStripped s → ensure_non_empty_string (Value.str s) name ≡ ok s
unfolding ensure_non_empty_string
ensure_of_IsStripped s name h = rw (h.not_blank, h.stripped)

ensure_strings-text_items :
    (ss : List String) (name : String)
    → All IsStripped ss
    → ensure_strings (text_items ss) name ≡ ok ss
unfolding ensure_strings text_items
ensure_strings-text_items [] name h = refl
ensure_strings-text_items (s ∷ ss) name h =
    rw (ensure_of_IsStripped s name h.0, ensure_strings-text_items ss name h.1)

-- A task in normal form is what `from_dict` gives back from its dictionary.
pub from_dict-to_dict :
    (t : TaskSpec) (fresh : String) → IsNormal t → from_dict (to_dict t) fresh ≡ ok t
unfolding from_dict to_dict ensure_string_list ensure_mapping
from_dict-to_dict t fresh h = rw (
  ensure_of_IsStripped t.mode "mode must be a non-empty string" h.mode,
  ensure_of_IsStripped t.prompt "prompt must be a non-empty string" h.prompt,
  ensure_strings-text_items t.capabilities "capabilities entries must be non-empty strings"
      h.capabilities,
  h.identified,
)

ensure_string_list-IsStripped :
    (v : Value) (name : String) (ss : List String)
    → ensure_string_list v name ≡ ok ss
    → All IsStripped ss
unfolding ensure_string_list
ensure_string_list-IsStripped Value.null name [] h = tt
ensure_string_list-IsStripped Value.null name (s ∷ ss) h = cc
ensure_string_list-IsStripped (Value.arr vs) name ss h = ensure_strings-IsStripped vs name ss h
ensure_string_list-IsStripped _ name ss h = cc

id_or-truthy :
    (v : Value) (fresh : String) → truthy (Value.str fresh) ≡ true → truthy (id_or v fresh) ≡ true
id_or-truthy v fresh h = elim (Bool-cases (truthy v)) [ inl t ↦ rw t t | inr f ↦ rw f h ]

-- What `create` accepts is in normal form, if `new_id` gives a non-empty text.
pub create-IsNormal :
    (mode prompt capabilities metadata id : Value) (fresh : String) (t : TaskSpec)
    → truthy (Value.str fresh) ≡ true
    → create mode prompt capabilities metadata id fresh ≡ ok t
    → IsNormal t
unfolding create
create-IsNormal mode prompt capabilities metadata id fresh t f h = record {
  identified =
      let e : id_or id fresh ≡ t.task_spec_id = ground arith in
      subst (λ v. truthy v ≡ true) e (id_or-truthy id fresh f);
  mode = ensure-IsStripped mode "mode must be a non-empty string" t.mode (ground arith);
  prompt = ensure-IsStripped prompt "prompt must be a non-empty string" t.prompt (ground arith);
  capabilities =
      ensure_string_list-IsStripped capabilities "capabilities entries must be non-empty strings"
        t.capabilities (ground arith);
}

-- A task that `create` accepted is given back by `from_dict` from its own dictionary, whatever the
-- two fresh identifiers, if the first is a non-empty text.
pub create-to_dict-from_dict :
    (mode prompt capabilities metadata id : Value) (fresh fresh' : String) (t : TaskSpec)
    → truthy (Value.str fresh) ≡ true
    → create mode prompt capabilities metadata id fresh ≡ ok t
    → from_dict (to_dict t) fresh' ≡ ok t
create-to_dict-from_dict mode prompt capabilities metadata id fresh fresh' t f h =
    from_dict-to_dict t fresh' (create-IsNormal mode prompt capabilities metadata id fresh t f h)

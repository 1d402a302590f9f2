-- ===== src/Mode/Loading.antt =====
-- What `load_steward_thresholds` lets through.
use io_iii_runtime.Prelude.{
  ℕ, ◌≡◌, ◌≢◌, String, false, Option, none, some, List, [], ◌∷◌, arith, All, Bool-cases, inl, inr,
  subst,
}
use io_iii_runtime.Python.Text.{is_blank}
use io_iii_runtime.Python.Value.{Value, Items, Fields, find, get, truthy}
use io_iii_runtime.Python.Error.{ok}
use io_iii_runtime.Mode.{
  StewardThresholds, no_thresholds, load_positive, class_name, class_names, load_classes, load_raw,
  load_steward_thresholds,
}

pub record IsLoaded (th : StewardThresholds) : Type 0 where
  pub positive_steps : th.step_count ≢ some 0
  pub positive_tokens : th.token_budget ≢ some 0
  pub named_classes : All (λ c. is_blank c ≡ false) th.capability_classes

no_thresholds-IsLoaded : IsLoaded no_thresholds
no_thresholds-IsLoaded = record {
  positive_steps = λ e. cc;
  positive_tokens = λ e. cc;
  named_classes = tt;
}

load_positive-ne-zero : (o : Option Value) (r : Option ℕ) → load_positive o ≡ ok r → r ≢ some 0
unfolding load_positive
load_positive-ne-zero o r h e = ground arith

class_name-named : (v : Value) (c : String) → class_name v ≡ ok c → is_blank c ≡ false
unfolding class_name
class_name-named v c h = ground arith

class_names-named :
    (vs : Items) (cs : List String) → class_names vs ≡ ok cs → All (λ c. is_blank c ≡ false) cs
unfolding class_names
class_names-named Items.nil [] h = tt
class_names-named Items.nil (c ∷ cs) h = cc
class_names-named (Items.cons v vs) [] h = ground arith
class_names-named (Items.cons v vs) (c ∷ cs) h =
    (class_name-named v c (ground arith), class_names-named vs cs (ground arith))

load_classes-named :
    (o : Option Value) (cs : List String)
    → load_classes o ≡ ok cs
    → All (λ c. is_blank c ≡ false) cs
unfolding load_classes
load_classes-named none [] h = tt
load_classes-named none (c ∷ cs) h = cc
load_classes-named (some (Value.arr vs)) cs h = class_names-named vs cs h
load_classes-named (some _) cs h = cc

load_raw-IsLoaded : (v : Value) (th : StewardThresholds) → load_raw v ≡ ok th → IsLoaded th
unfolding load_raw
load_raw-IsLoaded (Value.obj raw) th h = record {
  positive_steps = load_positive-ne-zero (find "step_count" raw) th.step_count (ground arith);
  positive_tokens = load_positive-ne-zero (find "token_budget" raw) th.token_budget (ground arith);
  named_classes =
      load_classes-named (find "capability_classes" raw) th.capability_classes (ground arith);
}
load_raw-IsLoaded _ th h = cc

-- Whatever the runtime configuration holds, thresholds that load have no zero count, no zero
-- budget and no blank class name.
pub load-IsLoaded :
    (config : Fields) (th : StewardThresholds)
    → load_steward_thresholds config ≡ ok th
    → IsLoaded th
unfolding load_steward_thresholds
load-IsLoaded config th h = elim (Bool-cases (truthy (get "steward_thresholds" config))) [
  | inl t ↦ load_raw-IsLoaded (get "steward_thresholds" config) th (rw t at h)
  | inr f ↦ let e : no_thresholds ≡ th = ground arith in subst IsLoaded e no_thresholds-IsLoaded
]

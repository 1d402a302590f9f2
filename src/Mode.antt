-- ===== src/Mode.antt =====
-- io_iii/core/session_mode.py: the session mode, the steward thresholds and the gate that pauses.
pub mod Loading
pub mod Gate
pub mod Periods
mod Tests
use io_iii_runtime.Prelude.{
  ℕ, zero, suc, ◌+◌, ◌%◌, ◌<◌, String, Bool, true, false, not, ◌&&◌, ◌||◌, Option, none, some, List,
  [], ◌∷◌, ltb, ◌==◌, if◌then◌else◌,
}
use io_iii_runtime.Python.Text.{elem, is_blank}
use io_iii_runtime.Python.Value.{ℤ, Value, Items, Fields, find, get, truthy, as_int}
use io_iii_runtime.Python.Error.{ExnClass, Exn, exn, value_err, Result, ok, err, ◌>>=◌}

pub data SessionMode : Type 0 where
  work steward : SessionMode

-- `mode.value`
abbrev pub mode_value : SessionMode → String
mode_value SessionMode.work = "work"
mode_value SessionMode.steward = "steward"

abbrev pub default_session_mode : SessionMode
default_session_mode = SessionMode.work

pub record StewardThresholds : Type 0 where
  pub step_count : Option ℕ
  pub token_budget : Option ℕ
  pub capability_classes : List String

abbrev pub no_thresholds : StewardThresholds
no_thresholds = record { step_count = none; token_budget = none; capability_classes = [] }

abbrev pub invalid : Exn
invalid = value_err "STEWARD_THRESHOLD_INVALID"

-- `isinstance(v, int)` and `v > 0`
abbrev positive : Option ℤ → Result ℕ
positive (some (ℤ.pos (suc n))) = ok (suc n)
positive _ = err invalid

load_positive : Option Value → Result (Option ℕ)
load_positive none = ok none
load_positive (some v) = do n ← positive (as_int v); ok (some n)

class_name : Value → Result String
class_name (Value.str s) = if is_blank s then err invalid else ok s
class_name _ = err invalid

class_names : Items → Result (List String)
unfolding class_name
class_names Items.nil = ok []
class_names (Items.cons v vs) = do c ← class_name v; cs ← class_names vs; ok (c ∷ cs)

load_classes : Option Value → Result (List String)
unfolding class_names
load_classes none = ok []
load_classes (some (Value.arr vs)) = class_names vs
load_classes _ = err invalid

load_raw : Value → Result StewardThresholds
unfolding load_positive load_classes
load_raw (Value.obj raw) = do
  steps ← load_positive (find "step_count" raw)
  tokens ← load_positive (find "token_budget" raw)
  classes ← load_classes (find "capability_classes" raw)
  ok (record { step_count = steps; token_budget = tokens; capability_classes = classes })
load_raw _ = err invalid

unfoldable pub load_steward_thresholds : Fields → Result StewardThresholds
unfolding load_raw
load_steward_thresholds config =
    let raw = get "steward_thresholds" config in
    if truthy raw then load_raw raw else ok no_thresholds

-- The names of the thresholds, which a pause reports.
pub data ThresholdKey : Type 0 where
  step_count token_budget capability_classes : ThresholdKey

pub record PauseState : Type 0 where
  pub threshold_key : ThresholdKey
  pub step_index : ℕ
  pub steps_total : ℕ
  pub session_mode : SessionMode
  pub run_id : String

pub record ModeTransitionEvent : Type 0 where
  pub from_mode : String
  pub to_mode : String
  pub user_action : String
  pub step_index : Option ℕ

unfoldable pub transition_mode :
    SessionMode → SessionMode → String → Option ℕ → SessionMode × ModeTransitionEvent
transition_mode current target action step = (
  target,
  record {
    from_mode = mode_value current;
    to_mode = mode_value target;
    user_action = action;
    step_index = step;
  },
)

-- `(step_index + 1) % step_count == 0`; a zero `step_count` raises `ZeroDivisionError`.
pub step_fires : Option ℕ → ℕ → Result Bool
step_fires none i = ok false
step_fires (some zero) i = err (exn ExnClass.other "integer modulo by zero")
step_fires (some (suc n)) i = ok ((i + 1) % suc n == 0)

abbrev pub token_fires : Option ℕ → ℕ → Bool
token_fires none tokens = false
token_fires (some budget) tokens = ltb budget tokens

-- `any(cls in classes for cls in invoked)`; the test `if thresholds.capability_classes` skips the
-- loop over an empty list, in which no class would be found.
unfoldable pub class_fires : List String → List String → Bool
class_fires classes [] = false
class_fires classes (c ∷ cs) = elem c classes || class_fires classes cs

unfoldable pub evaluate_thresholds :
    StewardThresholds → ℕ → ℕ → List String → Result (Option ThresholdKey)
unfolding step_fires
evaluate_thresholds th i tokens invoked = do
  fired ← step_fires th.step_count i
  ok (
      if fired
      then some ThresholdKey.step_count
      else if token_fires th.token_budget tokens
      then some ThresholdKey.token_budget
      else if class_fires th.capability_classes invoked
      then some ThresholdKey.capability_classes
      else none)

pub record StewardGate : Type 0 where
  pub session_mode : SessionMode
  pub thresholds : StewardThresholds

unfoldable pub update_mode :
    StewardGate → SessionMode → String → Option ℕ → StewardGate × ModeTransitionEvent
unfolding transition_mode
update_mode g target action step =
    let (mode, event) = transition_mode g.session_mode target action step in
    (record g { session_mode = mode }, event)

abbrev pause_of : StewardGate → ℕ → ℕ → String → Option ThresholdKey → Option PauseState
pause_of g i total run none = none
pause_of g i total run (some key) = some (record {
  threshold_key = key;
  step_index = i;
  steps_total = total;
  session_mode = g.session_mode;
  run_id = run;
})

abbrev pub is_steward : SessionMode → Bool
is_steward SessionMode.steward = true
is_steward SessionMode.work = false

unfoldable pub check : StewardGate → ℕ → ℕ → String → ℕ → List String → Result (Option PauseState)
unfolding evaluate_thresholds
check g i total run tokens invoked =
    if is_steward g.session_mode
    then (do
      key ← evaluate_thresholds g.thresholds i tokens invoked
      ok (pause_of g i total run key))
    else ok none

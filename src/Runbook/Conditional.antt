-- ===== src/Runbook/Conditional.antt =====
-- The conditional runbooks of io_iii/core/runbook.py, and `evaluate_when` of
-- io_iii/core/runbook_runner.py.
pub mod Dict
pub mod RoundTrip
use io_iii_runtime.Prelude.{
  ◌≡◌, refl, String, Bool, true, false, not, ◌||◌, Option, none, some, List, arith, ltb,
  if◌then◌else◌, length, str_eq, inl, inr, Bool-cases, subst, ap, ◌∙◌,
}
use io_iii_runtime.Python.Value.{Value, Fields, get, find}
use io_iii_runtime.Python.Error.{
  ExnClass, exn, value_err, type_err, Result, ok, err, ◌>>=◌, ◌>>◌, raise_if,
}
use io_iii_runtime.TaskSpec
use io_iii_runtime.TaskSpec.{TaskSpec, id_or}
use io_iii_runtime.Runbook.{runbook_max_steps, is_nil}

pub record WhenCondition : Type 0 where
  pub key : String
  pub value : String
  pub op : String

pub record WhenContext : Type 0 where
  pub session_mode : String
  pub persona_mode : String

-- Membership in a frozen set of texts; a list or a dictionary cannot be hashed.
in_set : (String → Bool) → String → Value → Result String
in_set p code (Value.str s) = if p s then ok s else err (value_err code)
in_set p code (Value.arr _) = err (type_err "unhashable type")
in_set p code (Value.obj _) = err (type_err "unhashable type")
in_set p code _ = err (value_err code)

abbrev is_allowed_key : String → Bool
is_allowed_key s = str_eq s "session_mode" || str_eq s "persona_mode"

abbrev is_allowed_op : String → Bool
is_allowed_op s = str_eq s "eq" || str_eq s "neq"

when_value : Value → Result String
when_value (Value.str s) = ok s
when_value _ = err (type_err "WHEN_CONDITION_INVALID_VALUE")

unfoldable pub create_when : Value → Value → Value → Result WhenCondition
unfolding in_set when_value
create_when key value op = do
  key' ← in_set is_allowed_key "WHEN_CONDITION_INVALID_KEY" key
  op' ← in_set is_allowed_op "WHEN_CONDITION_INVALID_OP" op
  value' ← when_value value
  ok (record { key = key'; value = value'; op = op' })

-- `data.get(k, d)`
abbrev get_or : String → Value → Fields → Value
get_or k d fields = elim (find k fields) [ none ↦ d | some v ↦ v ]

unfoldable pub when_from_dict : Value → Result WhenCondition
unfolding create_when
when_from_dict (Value.obj d) =
    create_when (get_or "key" (Value.str "") d) (get_or "value" (Value.str "") d)
      (get_or "op" (Value.str "eq") d)
when_from_dict _ = err (value_err "WhenCondition input must be a mapping/object")

-- `getattr(context, key)`
context_field : WhenContext → String → Result String
context_field c key =
    if str_eq key "session_mode"
    then ok c.session_mode
    else if str_eq key "persona_mode"
    then ok c.persona_mode
    else err (exn ExnClass.other "AttributeError")

unfoldable pub evaluate_when : WhenCondition → WhenContext → Result Bool
unfolding context_field
evaluate_when w c = do
  actual ← context_field c w.key
  ok (if str_eq w.op "eq" then str_eq actual w.value else not (str_eq actual w.value))

pub record RunbookStep : Type 0 where
  pub task_spec : TaskSpec
  pub when : Option WhenCondition

when_from : Value → Result (Option WhenCondition)
when_from Value.null = ok none
when_from v = do w ← when_from_dict v; ok (some w)

task_from : Value → String → Result TaskSpec
task_from Value.null fresh = err (value_err "RunbookStep 'task_spec' is required")
task_from v fresh = TaskSpec.from_dict v fresh

unfoldable pub step_from_dict : Value → String → Result RunbookStep
unfolding when_from task_from
step_from_dict (Value.obj d) fresh = do
  t ← task_from (get "task_spec" d) fresh
  w ← when_from (get "when" d)
  ok (record { task_spec = t; when = w })
step_from_dict _ fresh = err (value_err "RunbookStep input must be a mapping/object")

pub record ConditionalRunbook : Type 0 where
  pub runbook_id : Value
  pub steps : List RunbookStep

unfoldable pub create_conditional : List RunbookStep → Value → String → Result ConditionalRunbook
create_conditional steps id fresh = do
  raise_if (is_nil steps) (value_err "CONDITIONAL_RUNBOOK_EMPTY")
  raise_if (ltb runbook_max_steps (length steps))
      (value_err "CONDITIONAL_RUNBOOK_MAX_STEPS_EXCEEDED")
  ok (record { runbook_id = id_or id fresh; steps = steps })

-- The same condition with `eq` and `neq` exchanged.
abbrev pub flip : WhenCondition → WhenCondition
flip w = record w { op = if str_eq w.op "eq" then "neq" else "eq" }

in_set-holds :
    (p : String → Bool) (code : String) (v : Value) (s : String)
    → in_set p code v ≡ ok s
    → p s ≡ true
unfolding in_set
in_set-holds p code (Value.str t) s h = elim (Bool-cases (p t)) [
  | inl b ↦ let e : t ≡ s = ground arith in subst (λ x. p x ≡ true) e b
  | inr n ↦ ground arith
]
in_set-holds p code (Value.arr _) s h = cc
in_set-holds p code (Value.obj _) s h = cc
in_set-holds p code _ s h = cc

abbrev IsAllowed : WhenCondition → Type 0
IsAllowed w = (is_allowed_key w.key ≡ true) × (is_allowed_op w.op ≡ true)

inverted :
    (k o : Result String) (r : Result String) (w : WhenCondition)
    → (do k' ← k; o' ← o; r' ← r; ok (record { key = k'; value = r'; op = o' })) ≡ ok w
    → (k ≡ ok w.key) × (o ≡ ok w.op)
inverted k o r w h = ground arith

create_when-IsAllowed :
    (key value op : Value) (w : WhenCondition) → create_when key value op ≡ ok w → IsAllowed w
unfolding create_when
create_when-IsAllowed key value op w h =
    let parts =
      inverted (in_set is_allowed_key "WHEN_CONDITION_INVALID_KEY" key)
        (in_set is_allowed_op "WHEN_CONDITION_INVALID_OP" op) (when_value value) w h in
    (
      in_set-holds is_allowed_key "WHEN_CONDITION_INVALID_KEY" key w.key parts.0,
      in_set-holds is_allowed_op "WHEN_CONDITION_INVALID_OP" op w.op parts.1,
    )

-- The field of the context that the condition reads.
abbrev read : WhenCondition → WhenContext → String
read w c = if str_eq w.key "session_mode" then c.session_mode else c.persona_mode

evaluate_of_IsAllowed :
    (w : WhenCondition) (c : WhenContext)
    → IsAllowed w
    → evaluate_when w c
      ≡ ok (if str_eq w.op "eq" then str_eq (read w c) w.value else not (str_eq (read w c) w.value))
unfolding evaluate_when
evaluate_of_IsAllowed w c h = ground arith

flip-IsAllowed : (w : WhenCondition) → IsAllowed w → IsAllowed (flip w)
flip-IsAllowed w h = (h.0, elim (Bool-cases (str_eq w.op "eq")) [ inl e ↦ rw e | inr n ↦ rw n ])

abbrev test_of : WhenCondition → WhenContext → Bool
test_of w c =
    if str_eq w.op "eq" then str_eq (read w c) w.value else not (str_eq (read w c) w.value)

not-not : (b : Bool) → b ≡ not (not b)
not-not true = refl
not-not false = refl

test_of-flip : (w : WhenCondition) (c : WhenContext) → test_of (flip w) c ≡ not (test_of w c)
test_of-flip w c = elim (Bool-cases (str_eq w.op "eq")) [
  | inl e ↦ rw e
  | inr n ↦ rw n (not-not (str_eq (read w c) w.value))
]

-- A condition that `create_when` accepts evaluates in every context without raising, and the same
-- condition with the other operator evaluates to the opposite.
evaluate_when_total :
    (key value op : Value) (w : WhenCondition) (c : WhenContext)
    → create_when key value op ≡ ok w
    → (b : Bool) × (evaluate_when w c ≡ ok b) × (evaluate_when (flip w) c ≡ ok (not b))
evaluate_when_total key value op w c h =
    let a = create_when-IsAllowed key value op w h in
    (
      test_of w c,
      evaluate_of_IsAllowed w c a,
      evaluate_of_IsAllowed (flip w) c (flip-IsAllowed w a) ∙ ap ok (test_of-flip w c),
    )

-- ===== src/Constellation.antt =====
-- io_iii/core/constellation.py: the check of the model bindings. `to_int` is what `int` returns or
-- raises.
pub mod Models
pub mod Integrity
mod Tests
use io_iii_runtime.Prelude.{
  ℕ, String, Bool, true, false, not, ◌&&◌, ◌||◌, Option, none, some, ltb, if◌then◌else◌, str_eq,
}
use io_iii_runtime.Python.Text.{is_empty, strip, split_colon}
use io_iii_runtime.Python.Value.{ℤ, Value, Fields, get, truthy}
use io_iii_runtime.Python.Error.{
  ExnClass, Exn, exn, value_err, Result, ok, err, ◌>>=◌, ◌>>◌, raise_if,
}
use io_iii_runtime.Runbook.{runbook_max_steps}

abbrev pub drift : Exn
drift = value_err "CONSTELLATION_DRIFT: "

-- A method that a value of this type does not have.
abbrev pub no_attribute : Exn
no_attribute = exn ExnClass.other "AttributeError"

abbrev pub after_colon : String → Option (String × String) → String
after_colon target none = target
after_colon target (some (namespace, model)) = model

-- `_extract_model`
unfoldable pub extract_model : String → String
extract_model target = after_colon target (split_colon target)

-- `(v or "").strip()`
unfoldable pub stripped : Value → Result String
stripped (Value.str s) = ok (strip s)
stripped v = if truthy v then err no_attribute else ok ""

-- `(role_cfg.get("primary") or "").strip()`
unfoldable pub primary_of : Value → Result String
unfolding stripped
primary_of (Value.obj d) = stripped (get "primary" d)
primary_of v = err no_attribute

-- `d.get(k) or {}`, of which the code reads keys.
unfoldable pub table_of : Value → Result Fields
table_of (Value.obj d) = ok d
table_of v = if truthy v then err no_attribute else ok Fields.end

unfoldable pub distinct : Value → Value → Result (Unit {0})
unfolding primary_of extract_model
distinct executor challenger = do
  p ← primary_of executor
  q ← primary_of challenger
  raise_if (not (is_empty p) && not (is_empty q) && str_eq (extract_model p) (extract_model q))
      drift

-- Check 1: executor and challenger.
unfoldable pub check_collapse : Fields → Result (Unit {0})
unfolding distinct
check_collapse modes =
    if truthy (get "executor" modes) && truthy (get "challenger" modes)
    then distinct (get "executor" modes) (get "challenger" modes)
    else ok tt

unfoldable pub bound : Value → Result (Unit {0})
unfolding primary_of
bound (Value.obj d) = do p ← primary_of (Value.obj d); raise_if (is_empty p) drift
bound v = err drift

-- Check 2: each role has a primary model.
unfoldable pub check_bindings : Fields → Result (Unit {0})
unfolding bound
check_bindings Fields.end = ok tt
check_bindings (Fields.field role v rest) = do bound v; check_bindings rest

abbrev pub too_long : ℤ → Bool
too_long (ℤ.pos n) = ltb runbook_max_steps n
too_long (ℤ.negsuc n) = false

-- The classes of the `except` clause.
abbrev pub is_skipped : ExnClass → Bool
is_skipped ExnClass.value_error = true
is_skipped ExnClass.type_error = true
is_skipped _ = false

unfoldable pub limited : Result ℤ → Result (Unit {0})
limited (ok n) = raise_if (too_long n) drift
limited (err e) = if is_skipped e.class then ok tt else err e

module _ (to_int : Value → Result ℤ) where
  unfoldable pub declared : Value → Result (Unit {0})
  unfolding limited
  declared Value.null = ok tt
  declared v = limited (to_int v)

  unfoldable pub short : Value → Result (Unit {0})
  unfolding declared
  short (Value.obj d) = declared (get "max_steps" d)
  short v = ok tt

  -- Check 3: the declared steps of each role.
  unfoldable pub check_chains : Fields → Result (Unit {0})
  unfolding short
  check_chains Fields.end = ok tt
  check_chains (Fields.field role v rest) = do short v; check_chains rest

  unfoldable pub check_modes : Fields → Result (Unit {0})
  unfolding check_collapse check_bindings check_chains
  check_modes Fields.end = ok tt
  check_modes (Fields.field role v rest) = do
    check_collapse (Fields.field role v rest)
    check_bindings (Fields.field role v rest)
    check_chains (Fields.field role v rest)

  unfoldable pub check_constellation : Value → Result (Unit {0})
  unfolding table_of check_modes
  check_constellation (Value.obj d) = do
    table ← table_of (get "routing_table" d)
    modes ← table_of (get "modes" table)
    check_modes modes
  check_constellation v = ok tt

-- ===== src/Engine/Limits.antt =====
-- The configured limit of the prompt's length.
use io_iii_runtime.Prelude.{ℕ, zero, suc, ◌/◌, ◌^◌, String, true, false, Option, none, some}
use io_iii_runtime.Python.Value.{ℤ, Value, Fields, find, nat}
use io_iii_runtime.Python.Error.{value_err, type_err, Result, ok, err}
use io_iii_runtime.Context.{check_context_limit, default_context_limit_chars}

negated : ℕ → ℤ
negated zero = ℤ.pos 0
negated (suc n) = ℤ.negsuc n

int_of_text : Option ℤ → Result ℤ
int_of_text none = err (value_err "invalid literal for int() with base 10: ")
int_of_text (some z) = ok z

-- `int(v)`, which drops the digits behind the point.
to_int : (String → Option ℤ) → Value → Result ℤ
unfolding negated int_of_text
to_int parse (Value.int z) = ok z
to_int parse (Value.bool true) = ok (ℤ.pos 1)
to_int parse (Value.bool false) = ok (ℤ.pos 0)
to_int parse (Value.float (ℤ.pos m) k) = ok (ℤ.pos (m / 10 ^ k))
to_int parse (Value.float (ℤ.negsuc m) k) = ok (negated (suc m / 10 ^ k))
to_int parse (Value.str s) = int_of_text (parse s)
to_int parse v =
    err (type_err "int() argument must be a string, a bytes-like object or a real number")

limit_value : Option Value → Value
limit_value none = nat default_context_limit_chars
limit_value (some v) = v

-- A limit that is not positive turns the check off.
check_positive : String → ℤ → Result (Unit {0})
unfolding check_context_limit
check_positive prompt (ℤ.pos (suc n)) = check_context_limit prompt (suc n)
check_positive prompt z = ok tt

checked : Result ℤ → String → Result (Unit {0})
unfolding check_positive
checked (ok limit) prompt = check_positive prompt limit
checked (err e) prompt = err e

unfoldable pub check_prompt : (String → Option ℤ) → Fields → String → Result (Unit {0})
unfolding to_int checked limit_value
check_prompt parse runtime prompt =
    checked (to_int parse (limit_value (find "context_limit_chars" runtime))) prompt

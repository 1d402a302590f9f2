-- ===== src/Constellation/Tests.antt =====
-- A sound and a collapsed constellation.
use io_iii_runtime.Prelude.{◌≡◌, refl, String}
use io_iii_runtime.Python.Text.{strip, split_colon}
use io_iii_runtime.Python.Value.{ℤ, Value, Fields, nat}
use io_iii_runtime.Python.Error.{Result, ok, err, type_err}
use io_iii_runtime.Constellation.{check_constellation, drift, extract_model}
use io_iii_runtime.Constellation.Integrity.{IsIntact, check_constellation-IsIntact}

-- `int` on the numbers and on nothing else.
abbrev int_of : Value → Result ℤ
int_of (Value.int z) = ok z
int_of v = err (type_err "int() argument must be ")

abbrev role : String → Value
role target =
    Value.obj
      (Fields.field "primary" (Value.str target) (Fields.field "max_steps" (nat 20) Fields.end))

abbrev modes : String → Fields
modes challenger =
    Fields.field "executor" (role "local:qwen3:8b")
      (Fields.field "challenger" (role challenger) Fields.end)

abbrev table : String → Fields
table challenger = Fields.field "modes" (Value.obj (modes challenger)) Fields.end

abbrev config : String → Fields
config challenger = Fields.field "routing_table" (Value.obj (table challenger)) Fields.end

check_constellation-IsIntact_example : IsIntact int_of (modes "local:mistral")
unfolding check_constellation strip split_colon
check_constellation-IsIntact_example =
    check_constellation-IsIntact int_of (config "local:mistral") (table "local:mistral")
      (modes "local:mistral") refl refl refl

-- Two targets with the same model in different namespaces collapse.
collapsed : check_constellation int_of (Value.obj (config "remote:qwen3:8b")) ≡ err drift
unfolding check_constellation strip split_colon
collapsed = refl

-- A target without a namespace loses the part in front of its tag.
no_namespace : extract_model "qwen3:8b" ≡ "8b"
unfolding extract_model split_colon
no_namespace = refl

-- The same model with and without its namespace passes.
passes_twice : check_constellation int_of (Value.obj (config "qwen3:8b")) ≡ ok tt
unfolding check_constellation strip split_colon
passes_twice = refl

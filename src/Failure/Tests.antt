-- ===== src/Failure/Tests.antt =====
-- Failures of two concrete exceptions, and the theorems at them.
use Prim.Native.Char.{code}
use Prim.Native.String.{[], ◌∷◌}
use io_iii_runtime.Prelude.{◌≡◌, refl, ◌&&◌, some, leb}
use io_iii_runtime.Python.Error.{ExnClass, Exn, exn}
use io_iii_runtime.Python.Text.{split_colon, strip}
use io_iii_runtime.Python.Value.{Value}
use io_iii_runtime.Failure.CausalCode.{
  CharTables, extract_causal_code, is_code, IsCausal, extract_causal_code-IsCausal,
}
use io_iii_runtime.Failure.Classify.{
  Phase, classify_exception, IsLinked, classify_exception-IsLinked,
}

-- The tables on ASCII: the letters of the codes are upper case already.
abbrev ascii : CharTables
ascii = record { is_alnum = λ c. leb b'A' (code c) && leb (code c) b'Z'; to_upper = λ c. c ∷ [] }

abbrev too_large : Exn
too_large = exn ExnClass.value_error "CAPABILITY_INPUT_TOO_LARGE: 30000 chars"

too_large_code : extract_causal_code ascii too_large ≡ some "CAPABILITY_INPUT_TOO_LARGE"
unfolding extract_causal_code split_colon strip is_code
too_large_code = refl

extract_causal_code-IsCausal_example : IsCausal ascii too_large "CAPABILITY_INPUT_TOO_LARGE"
extract_causal_code-IsCausal_example =
    extract_causal_code-IsCausal ascii too_large "CAPABILITY_INPUT_TOO_LARGE" refl too_large_code

abbrev plain : Exn
plain = exn ExnClass.value_error "no code here"

-- A failure without a causal code, in the phase of the audit.
classify_exception-IsLinked_example :
    IsLinked "r1" Value.null ExnClass.value_error
      (extract_causal_code ascii plain)
      (classify_exception "r1" Value.null ascii plain Phase.audit)
classify_exception-IsLinked_example =
    classify_exception-IsLinked "r1" Value.null ascii plain Phase.audit

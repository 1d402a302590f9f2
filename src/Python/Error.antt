-- ===== src/Python/Error.antt =====
-- Exceptions, and computations that return a value or raise. The message of an exception that the
-- code raises is kept up to the first interpolated part: the stable code before the colon.
use io_iii_runtime.Prelude.{String, Bool, true, false, Option, none, some, ◌≡◌, refl, arith}
use io_iii_runtime.Failure.Types.{RuntimeFailure}

pub data ExnClass : Type 0 where
  value_error type_error runtime_error key_error os_error : ExnClass
  provider_error trace_lifecycle_error other : ExnClass

-- `first_arg` is `args[0]` when that is a text; `code` is the attribute of a `ProviderError`;
-- `runtime_failure` is the attribute that the engine attaches.
pub record Exn : Type 0 where
  pub class : ExnClass
  pub message : String
  pub first_arg : Option String
  pub code : String
  pub runtime_failure : Option RuntimeFailure

abbrev pub exn : ExnClass → String → Exn
exn c m = record { class = c; message = m; first_arg = some m; code = ""; runtime_failure = none }

abbrev pub value_err : String → Exn
value_err = exn ExnClass.value_error

abbrev pub type_err : String → Exn
type_err = exn ExnClass.type_error

pub data Result {ℓ} (A : Type ℓ) : Type ℓ where
  ok : A → Result A
  err : Exn → Result A

-- Go on with the value, or pass the exception on.
infixl 5 ◌>>=◌
abbrev pub ◌>>=◌ {ℓ κ} : {A : Type ℓ} {B : Type κ} → Result A → (A → Result B) → Result B
err e >>= next = err e
ok a >>= next = next a

-- Go on after a statement that may raise.
infixl 5 ◌>>◌
abbrev pub ◌>>◌ {ℓ} : {B : Type ℓ} → Result (Unit {0}) → Result B → Result B
statement >> rest = statement >>= λ _. rest

-- `if b: raise e`
abbrev pub raise_if : Bool → Exn → Result (Unit {0})
raise_if true e = err e
raise_if false e = ok tt

-- A value that must be there.
abbrev pub require {ℓ} : {A : Type ℓ} → Option A → Exn → Result A
require none e = err e
require (some a) e = ok a

-- What returns has a first part that returned.
pub bind-inv {ℓ κ} :
    {A : Type ℓ} {B : Type κ} (r : Result A) (next : A → Result B) (b : B)
    → (r >>= next) ≡ ok b
    → (a : A) × (r ≡ ok a) × (next a ≡ ok b)
bind-inv (ok a) next b h = (a, refl, h)
bind-inv (err e) next b h = absurd (ground arith)

-- ===== src/Failure/CausalCode.antt =====
-- `_extract_causal_code`: a stable code out of an exception, never its free text.
use Prim.Native.Char.{Char, code}
use Prim.Native.String.{[], ◌∷◌, ◌++◌}
use io_iii_runtime.Prelude.{
  String, ◌≡◌, Bool, true, false, ◌&&◌, Option, none, some, List, arith, ◌==◌, if◌then◌else◌,
  str_eq, ◌≢◌, ◌⊎◌, inl, inr, Bool-cases, eq_iff, eq_refl, refl, ◌∙◌, subst,
}
use text.Mathlib.Text.{starts_with}
use io_iii_runtime.Python.Text.{strip, split_colon, is_empty, elem}
use io_iii_runtime.Python.Error.{ExnClass, Exn}

-- The Unicode tables behind `str.isalnum` and `str.upper`, character by character.
pub record CharTables : Type 0 where
  pub is_alnum : Char → Bool
  pub to_upper : Char → String

abbrev pub stable_prefixes : List String
stable_prefixes = List.◌∷◌ "CAPABILITY_" (
    List.◌∷◌ "AUDIT_" (
      List.◌∷◌ "REVISION_" (
        List.◌∷◌ "TRACE_" (
          List.◌∷◌ "ORCHESTRATOR_" (
            List.◌∷◌ "PROVIDER_" (
              List.◌∷◌ "OBSERVABILITY_" (
                List.◌∷◌ "CONTRACT_" (
                  List.◌∷◌ "CONTEXT_" (
                    List.◌∷◌ "CONSTELLATION_"
                      (List.◌∷◌ "MEMORY_" (List.◌∷◌ "SNAPSHOT_" List.[])))))))))))

-- `s.split(":", 1)[0]`
abbrev before_colon : String → String
before_colon s = elim (split_colon s) [ none ↦ s | some p ↦ p.0 ]

pub or_else : Option String → Option String → Option String
or_else none o = o
or_else (some c) o = some c

-- `a or b`, where `a` is a text or `None`
abbrev pub or_text : Option String → String → String
or_text none d = d
or_text (some c) d = if is_empty c then d else c

abbrev pub is_provider_error : ExnClass → Bool
is_provider_error ExnClass.provider_error = true
is_provider_error _ = false

module _ (t : CharTables) where
  pub upper : String → String
  upper [] = []
  upper (c ∷ s) = t.to_upper c ++ upper s

  -- `s.replace("_", "")` character by character, then `isalnum` on each
  alnum_or_underscore : String → Bool
  alnum_or_underscore [] = true
  alnum_or_underscore (c ∷ s) =
      (if code c == b'_' then true else t.is_alnum c) && alnum_or_underscore s

  -- `"".isalnum()` is false: some character is not an underscore
  has_other : String → Bool
  has_other [] = false
  has_other (c ∷ s) = let rest = has_other s in if code c == b'_' then rest else true

  unfoldable pub is_code : String → Bool
  unfolding upper alnum_or_underscore has_other
  is_code s = (alnum_or_underscore s && has_other s) && str_eq s (upper s)

  -- One `for prefix` loop; a prefix that matches with a bad token goes on to the next one.
  try_prefixes : List String → String → Option String
  try_prefixes List.[] candidate = none
  try_prefixes (List.◌∷◌ p ps) candidate =
      let token = strip (before_colon candidate) in
      let rest = try_prefixes ps candidate in
      if starts_with candidate p && is_code token then some token else rest

  pub try_extract : String → Option String
  unfolding try_prefixes
  try_extract candidate = try_prefixes stable_prefixes candidate

  -- `args[0]` is tried where `str(exc)` gives nothing.
  try_arg : Option String → Option String
  try_arg none = none
  try_arg (some a) = try_extract a

  unfoldable pub extract_causal_code : Exn → Option String
  unfolding try_extract try_arg or_else
  extract_causal_code e =
      if is_provider_error e.class
      then some e.code
      else or_else (try_extract e.message) (try_arg e.first_arg)

  -- Each character is an underscore or alphanumeric in the tables.
  abbrev pub AllCodeChars : String → Type 0
  AllCodeChars [] = Unit
  AllCodeChars (c ∷ s) = ((code c ≡ b'_') ⊎ (t.is_alnum c ≡ true)) × AllCodeChars s

  -- Some character is not an underscore.
  abbrev pub SomeOther : String → Type 0
  SomeOther [] = ⊥
  SomeOther (c ∷ s) = (code c ≢ b'_') ⊎ SomeOther s

  -- The token in front of the first colon of `s`, which has the form of a code; `s` starts with a stable
  -- prefix.
  abbrev pub IsToken : String → String → Type 0
  IsToken s c =
      (c ≡ strip (before_colon s))
      × AllCodeChars c
      × SomeOther c
      × (c ≡ upper c)
      × ((p : String) × (elem p stable_prefixes ≡ true) × (starts_with s p ≡ true))

  -- The text of the exception has that token, or else its first argument.
  abbrev pub IsCausal : Exn → String → Type 0
  IsCausal e c = IsToken e.message c ⊎ ((a : String) × (e.first_arg ≡ some a) × IsToken a c)

  alnum-AllCodeChars : (s : String) → alnum_or_underscore s ≡ true → AllCodeChars s
  unfolding alnum_or_underscore
  alnum-AllCodeChars [] h = tt
  alnum-AllCodeChars (c ∷ s) h = (ground arith, alnum-AllCodeChars s (ground arith))

  has_other-SomeOther : (s : String) → has_other s ≡ true → SomeOther s
  unfolding has_other
  has_other-SomeOther [] h = absurd (ground arith)
  has_other-SomeOther (c ∷ s) h = elim (Bool-cases (code c == b'_')) [
    | inl u ↦ inr (has_other-SomeOther s (ground arith))
    | inr n ↦ inl (ground arith)
  ]

  found-IsToken :
      (s p : String)
      → elem p stable_prefixes ≡ true
      → starts_with s p && is_code (strip (before_colon s)) ≡ true
      → IsToken s (strip (before_colon s))
  unfolding is_code
  found-IsToken s p member h =
      let token = strip (before_colon s) in
      let alnum : alnum_or_underscore token ≡ true = ground arith in
      let other : has_other token ≡ true = ground arith in
      let capitals : str_eq token (upper token) ≡ true = ground arith in
      (
        refl,
        alnum-AllCodeChars token alnum,
        has_other-SomeOther token other,
        (eq_iff token (upper token)).0 capitals,
        (p, member, ground arith),
      )

  try_prefixes-IsToken :
      (ps : List String) (s c : String)
      → ((p : String) → elem p ps ≡ true → elem p stable_prefixes ≡ true)
      → try_prefixes ps s ≡ some c
      → IsToken s c
  unfolding try_prefixes
  try_prefixes-IsToken List.[] s c members h = absurd (ground arith)
  try_prefixes-IsToken (List.◌∷◌ p ps) s c members h =
      elim (Bool-cases (starts_with s p && is_code (strip (before_colon s)))) [
        | inl b ↦
            let same : strip (before_colon s) ≡ c = ground arith in
            subst (IsToken s) same (found-IsToken s p (members p (rw (eq_refl p) refl)) b)
        | inr n ↦ try_prefixes-IsToken ps s c (λ q m. members q (ground (arith, m))) (ground arith)
      ]

  try_extract-IsToken : (s c : String) → try_extract s ≡ some c → IsToken s c
  unfolding try_extract
  try_extract-IsToken s c h = try_prefixes-IsToken stable_prefixes s c (λ p m. m) h

  or_arg-IsCausal :
      (e : Exn) (first : Option String) (arg : Option String) (c : String)
      → try_extract e.message ≡ first
      → e.first_arg ≡ arg
      → or_else first (try_arg arg) ≡ some c
      → IsCausal e c
  unfolding or_else try_arg
  or_arg-IsCausal e (some d) arg c hm ha h = inl (try_extract-IsToken e.message c (hm ∙ h))
  or_arg-IsCausal e none none c hm ha h = absurd (ground arith)
  or_arg-IsCausal e none (some a) c hm ha h = inr (a, ha, try_extract-IsToken a c h)

  -- What is extracted from an exception other than a `ProviderError` is the stripped token in front of the
  -- first colon of its text or of its first argument, which starts with a stable prefix. Each character of
  -- the token is an underscore or alphanumeric, not all are underscores, and the token is its own
  -- upper-case form.
  pub extract_causal_code-IsCausal :
      (e : Exn) (c : String)
      → is_provider_error e.class ≡ false
      → extract_causal_code e ≡ some c
      → IsCausal e c
  unfolding extract_causal_code
  extract_causal_code-IsCausal e c n h =
      or_arg-IsCausal e (try_extract e.message) e.first_arg c refl refl (rw n at h)

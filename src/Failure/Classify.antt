-- ===== src/Failure/Classify.antt =====
-- `classify_exception`: the cascade from an exception and a phase hint to a failure envelope.
use text.Mathlib.Text.{starts_with}
use io_iii_runtime.Prelude.{
  String, ◌≡◌, Bool, true, false, ◌||◌, Option, none, some, arith, if◌then◌else◌, str_eq, eq_iff,
  ap, ◌↔◌, Bool-cases, inl, inr, refl, sym,
}
use io_iii_runtime.Python.Value.{Value}
use io_iii_runtime.Failure.Types.{RuntimeFailureKind, RuntimeFailure}
use io_iii_runtime.Failure.CausalCode.{CharTables, extract_causal_code, or_text, is_provider_error}
use io_iii_runtime.Python.Error.{ExnClass, Exn}

-- The values of `phase_hint`.
pub data Phase : Type 0 where
  setup capability provider audit revision route validation no_hint : Phase

-- `causal_code and causal_code.startswith(p)`
abbrev pub code_starts : Option String → String → Bool
code_starts none p = false
code_starts (some c) p = starts_with c p

abbrev pub code_is : Option String → String → Bool
code_is none p = false
code_is (some c) p = str_eq c p

abbrev pub is_trace_error : ExnClass → Bool
is_trace_error ExnClass.trace_lifecycle_error = true
is_trace_error _ = false

abbrev is_contract_class : ExnClass → Bool
is_contract_class ExnClass.value_error = true
is_contract_class ExnClass.type_error = true
is_contract_class _ = false

abbrev is_capability : Phase → Bool
is_capability Phase.capability = true
is_capability _ = false

abbrev is_audit : Phase → Bool
is_audit Phase.audit = true
is_audit Phase.revision = true
is_audit _ = false

abbrev is_route : Phase → Bool
is_route Phase.route = true
is_route _ = false

abbrev is_provider : Phase → Bool
is_provider Phase.provider = true
is_provider _ = false

abbrev is_validation : Phase → Bool
is_validation Phase.validation = true
is_validation _ = false

module _ (request_id : String) (task_spec_id : Value) where
  abbrev envelope : RuntimeFailureKind → String → String → Bool → Option String → RuntimeFailure
  envelope kind code summary retryable causal = record {
    kind = kind;
    code = code;
    summary = summary;
    request_id = request_id;
    task_spec_id = task_spec_id;
    retryable = retryable;
    causal_code = causal;
  }

  -- Steps 6 to 8.
  classify_late : ExnClass → Phase → Option String → RuntimeFailure
  classify_late c hint causal =
      if is_provider hint
      then envelope RuntimeFailureKind.provider_execution
          (or_text causal "PROVIDER_EXECUTION_FAILED") "Provider execution failed"
          (code_is causal "PROVIDER_UNAVAILABLE") causal
      else if is_contract_class c || is_validation hint
      then envelope RuntimeFailureKind.contract_violation (or_text causal "CONTRACT_VIOLATION")
          "Runtime contract or invariant violation" false causal
      else envelope RuntimeFailureKind.internal (or_text causal "INTERNAL_ERROR")
          "Unexpected internal runtime failure" false causal

  -- Steps 3 to 5.
  classify_phase : ExnClass → Phase → Option String → RuntimeFailure
  classify_phase c hint causal =
      if is_capability hint || code_starts causal "CAPABILITY_"
      then envelope RuntimeFailureKind.capability (or_text causal "CAPABILITY_EXCEPTION")
          "Capability invocation failed" false causal
      else if is_audit hint || (code_starts causal "AUDIT_" || code_starts causal "REVISION_")
      then envelope RuntimeFailureKind.audit_challenger (or_text causal "AUDIT_FAILURE")
          "Audit or revision pass failed" false causal
      else if is_route hint || code_starts causal "ORCHESTRATOR_"
      then envelope RuntimeFailureKind.route_resolution (or_text causal "ROUTE_RESOLUTION_FAILED")
          "Route resolution failed for declared mode" false causal
      else classify_late c hint causal

  unfoldable pub classify_exception : CharTables → Exn → Phase → RuntimeFailure
  unfolding classify_phase classify_late
  classify_exception t e hint =
      let causal = extract_causal_code t e in
      if is_provider_error e.class
      then envelope RuntimeFailureKind.provider_execution e.code "Provider execution failed"
          (str_eq e.code "PROVIDER_UNAVAILABLE") (some e.code)
      else if is_trace_error e.class
      then envelope RuntimeFailureKind.contract_violation
          (or_text causal "TRACE_CONTRACT_VIOLATION") "Execution trace lifecycle contract violated"
          false causal
      else classify_phase e.class hint causal

  -- The kinds and codes that are retryable.
  abbrev pub IsTransient : RuntimeFailure → Type 0
  IsTransient f =
      (f.kind ≡ RuntimeFailureKind.provider_execution)
      × (f.causal_code ≡ some "PROVIDER_UNAVAILABLE")

  code_is_iff : (o : Option String) (c : String) → (code_is o c ≡ true) ↔ (o ≡ some c)
  code_is_iff none c = (λ h. cc, λ h. cc)
  code_is_iff (some d) c = (λ h. ap some ((eq_iff d c).0 h), λ h. (eq_iff d c).1 (ground arith))

  classify_late-IsTransient :
      (c : ExnClass) (hint : Phase) (o : Option String)
      → ((classify_late c hint o).retryable ≡ true) ↔ IsTransient (classify_late c hint o)
  unfolding classify_late
  classify_late-IsTransient c hint o = ground (arith, code_is_iff o "PROVIDER_UNAVAILABLE")

  classify_phase-IsTransient :
      (c : ExnClass) (hint : Phase) (o : Option String)
      → ((classify_phase c hint o).retryable ≡ true) ↔ IsTransient (classify_phase c hint o)
  unfolding classify_phase
  classify_phase-IsTransient c hint o = ground (arith, classify_late-IsTransient c hint o)

  -- A failure is retryable exactly when its kind is PROVIDER_EXECUTION and its causal code is
  -- PROVIDER_UNAVAILABLE, whatever the exception and the phase.
  pub classify_exception-retryable :
      (t : CharTables) (e : Exn) (hint : Phase)
      → ((classify_exception t e hint).retryable ≡ true) ↔ IsTransient (classify_exception t e hint)
  unfolding classify_exception
  classify_exception-retryable t e hint = ground (
    arith,
    classify_phase-IsTransient e.class hint (extract_causal_code t e),
    eq_iff e.code "PROVIDER_UNAVAILABLE",
  )

  abbrev pub HasIds : RuntimeFailure → Type 0
  HasIds f = (f.request_id ≡ request_id) × (f.task_spec_id ≡ task_spec_id)

  classify_phase-HasIds :
      (c : ExnClass) (hint : Phase) (o : Option String) → HasIds (classify_phase c hint o)
  unfolding classify_phase classify_late
  classify_phase-HasIds c hint o = ground arith

  pub classify_exception-HasIds :
      (t : CharTables) (e : Exn) (hint : Phase) → HasIds (classify_exception t e hint)
  unfolding classify_exception
  classify_exception-HasIds t e hint =
      ground (arith, classify_phase-HasIds e.class hint (extract_causal_code t e))

  -- The code of a failure of each kind without a causal code; a violation is one of the trace or of a
  -- contract.
  abbrev pub fallback_code : ExnClass → RuntimeFailureKind → String
  fallback_code c RuntimeFailureKind.provider_execution = "PROVIDER_EXECUTION_FAILED"
  fallback_code c RuntimeFailureKind.capability = "CAPABILITY_EXCEPTION"
  fallback_code c RuntimeFailureKind.audit_challenger = "AUDIT_FAILURE"
  fallback_code c RuntimeFailureKind.route_resolution = "ROUTE_RESOLUTION_FAILED"
  fallback_code c RuntimeFailureKind.contract_violation =
      if is_trace_error c then "TRACE_CONTRACT_VIOLATION" else "CONTRACT_VIOLATION"
  fallback_code c RuntimeFailureKind.internal = "INTERNAL_ERROR"

  -- The identifiers are those of the run, the causal code is `causal`, and the code is that or the fallback.
  abbrev pub IsLinked : ExnClass → Option String → RuntimeFailure → Type 0
  IsLinked c causal f =
      HasIds f
      × (f.causal_code ≡ causal)
      × (if is_provider_error c
          then (f.kind ≡ RuntimeFailureKind.provider_execution) × (some f.code ≡ causal)
          else f.code ≡ or_text causal (fallback_code c f.kind))

  classify_late-fallback :
      (c : ExnClass) (hint : Phase) (o : Option String)
      → is_trace_error c ≡ false
      → ((classify_late c hint o).causal_code ≡ o)
        × ((classify_late c hint o).code
            ≡ or_text o (fallback_code c (classify_late c hint o).kind))
  unfolding classify_late
  classify_late-fallback c hint o h = ground arith

  classify_phase-fallback :
      (c : ExnClass) (hint : Phase) (o : Option String)
      → is_trace_error c ≡ false
      → ((classify_phase c hint o).causal_code ≡ o)
        × ((classify_phase c hint o).code
            ≡ or_text o (fallback_code c (classify_phase c hint o).kind))
  unfolding classify_phase
  classify_phase-fallback c hint o h = ground (arith, classify_late-fallback c hint o h)

  extract_of_provider :
      (t : CharTables) (e : Exn)
      → is_provider_error e.class ≡ true
      → extract_causal_code t e ≡ some e.code
  unfolding extract_causal_code
  extract_of_provider t e p = rw p refl

  -- The envelope of every exception in every phase has the identifiers of the run and the causal code that
  -- is extracted from the exception. Its code is that of a `ProviderError`; of any other exception it is the
  -- causal code, or the fallback code of its kind if there is none or an empty one.
  pub classify_exception-IsLinked :
      (t : CharTables) (e : Exn) (hint : Phase)
      → IsLinked e.class (extract_causal_code t e) (classify_exception t e hint)
  unfolding classify_exception
  classify_exception-IsLinked t e hint = elim (Bool-cases (is_provider_error e.class)) [
    | inl p ↦
        let causal = extract_of_provider t e p in
        rw (p, classify_exception) ((refl, refl), sym causal, (refl, sym causal))
    | inr n ↦ elim (Bool-cases (is_trace_error e.class)) [
      | inl b ↦
          rw (n, classify_exception) (rw (b, classify_exception) ((refl, refl), refl, rw b refl))
      | inr m ↦
          rw (n, classify_exception)
            (rw (m, classify_exception)
              (
                classify_phase-HasIds e.class hint (extract_causal_code t e),
                (classify_phase-fallback e.class hint (extract_causal_code t e) m).0,
                (classify_phase-fallback e.class hint (extract_causal_code t e) m).1,
              ))
    ]
  ]

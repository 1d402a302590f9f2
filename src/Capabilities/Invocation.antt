-- ===== src/Capabilities/Invocation.antt =====
-- The invocation surface of io_iii/core/engine.py: one bounded call of one capability. The JSON
-- encoder and `str` are parameters; the encoder may raise.
use text.Mathlib.Text.{starts_with}
use io_iii_runtime.Prelude.{ℕ, String, Bool, true, Option, none, some, ltb, if◌then◌else◌}
use io_iii_runtime.Python.Text.{split_colon}
use io_iii_runtime.Python.Text.Slice.{str_length}
use io_iii_runtime.Python.Value.{ℤ, Value, Fields, nat, opt_str}
use io_iii_runtime.Python.Error.{Exn, value_err, Result, ok, err, ◌>>=◌, ◌>>◌, raise_if}
use io_iii_runtime.Python.Clock.{Clock, elapsed_ms}
use io_iii_runtime.Capabilities.{
  CapabilityBounds, CapabilityResult, CapabilityContext, CapabilityRegistry, Capability, Outcome,
  CapabilitySpec, value, below_one, get,
}

abbrev prefix_of : String → Option (String × String) → String
prefix_of msg none = msg
prefix_of msg (some p) = p.0

-- `_capability_error_code_from_exc`
unfoldable pub error_code_from_exc : Exn → String
error_code_from_exc e =
    if starts_with e.message "CAPABILITY_"
    then prefix_of e.message (split_colon e.message)
    else "CAPABILITY_EXCEPTION"

-- `n > bound`
abbrev pub over : ℕ → ℤ → Bool
over n (ℤ.pos m) = ltb m n
over n (ℤ.negsuc m) = true

-- `json.dumps(v, ensure_ascii=False)` and `str(v)`
pub record Encoder : Type 0 where
  pub dumps : Value → Result String
  pub show : Value → String

abbrev length_or : Encoder → Value → Result String → ℕ
length_or encoder v (ok s) = str_length s
length_or encoder v (err e) = str_length (encoder.show v)

-- `_safe_json_len`
unfoldable pub safe_json_len : Encoder → Value → ℕ
safe_json_len encoder v = length_or encoder v (encoder.dumps v)

normalize : Value → Result Fields
normalize Value.null = ok Fields.end
normalize (Value.obj d) = ok d
normalize _ =
    err (value_err "CAPABILITY_INVALID_PAYLOAD: payload must be a JSON object (mapping), got ")

serializable : Result String → Result (Unit {0})
serializable (ok _) = ok tt
serializable (err _) =
    err (value_err "CAPABILITY_INVALID_PAYLOAD: payload is not JSON-serializable (")

-- `_validate_capability_payload`. The keys of the model's objects are texts.
unfoldable pub validate_payload : Encoder → Value → Result Fields
unfolding normalize serializable
validate_payload encoder payload = do
  d ← normalize payload
  serializable (encoder.dumps (Value.obj d))
  ok d

module _ (encoder : Encoder) where
  -- The call's record, once the output is found to be small enough.
  unfoldable pub checked_output : CapabilitySpec → CapabilityResult → ℕ → Result Fields
  unfolding safe_json_len
  checked_output spec r duration_ms = do
    raise_if (over (safe_json_len encoder (Value.obj r.output)) spec.bounds.max_output_chars)
        (value_err "CAPABILITY_OUTPUT_TOO_LARGE: ")
    ok (
        Fields.field "capability_id" (Value.str spec.capability_id) (
          Fields.field "version" (Value.str spec.version) (
            Fields.field "category" (Value.str (value spec.category)) (
              Fields.field "ok" (Value.bool r.ok_flag) (
                Fields.field "error_code" (opt_str r.error_code) (
                  Fields.field "duration_ms" (nat duration_ms)
                    (Fields.field "output" (Value.obj r.output) Fields.end)))))))

  -- The checks in front of the call.
  unfoldable pub check_input : CapabilityBounds → Fields → Result (Unit {0})
  unfolding safe_json_len
  check_input b payload = do
    raise_if (below_one b.max_calls) (value_err "CAPABILITY_BOUNDS_INVALID: max_calls must be >= 1")
    raise_if (over (safe_json_len encoder (Value.obj payload)) b.max_input_chars)
        (value_err "CAPABILITY_INPUT_TOO_LARGE: ")

  unfoldable pub admitted :
      {W : Type 0} → CapabilityRegistry W → String → Fields → Result (Capability W)
  unfolding get check_input
  admitted registry capability_id payload = do
    cap ← get registry capability_id
    check_input cap.spec.bounds payload
    ok cap

module _ {W : Type 0} (clock : Clock W) (encoder : Encoder) where
  unfoldable pub await : CapabilitySpec → ℕ → Outcome → W → Result Fields × W
  unfolding checked_output elapsed_ms
  await spec t0 (Outcome.raised e) w = (err e, w)
  await spec t0 Outcome.timed_out w =
      (err (value_err "CAPABILITY_TIMEOUT: exceeded timeout_ms="), w)
  await spec t0 (Outcome.returned r) w =
      let (t1, w') = clock.perf_counter_ns w in
      (checked_output encoder spec r (elapsed_ms t0 t1), w')

  -- The call itself, between two reads of the clock.
  unfoldable pub call : Capability W → CapabilityContext → Fields → W → Result Fields × W
  unfolding await
  call cap ctx payload w =
      let (t0, w₁) = clock.perf_counter_ns w in
      let (outcome, w₂) = cap.invoke ctx payload w₁ in await cap.spec t0 outcome w₂

  -- `_invoke_capability_once`
  unfoldable pub invoke_capability_once :
      CapabilityRegistry W → String → Fields → CapabilityContext → W → Result Fields × W
  unfolding admitted call
  invoke_capability_once registry capability_id payload ctx w =
      elim (admitted encoder registry capability_id payload) [
        | ok cap ↦ call cap ctx payload w
        | err e ↦ (err e, w)
      ]

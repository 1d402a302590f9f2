-- ===== src/Capabilities/Bounds.antt =====
-- What a call through the invocation surface guarantees.
use io_iii_runtime.Prelude.{ℕ, ◌≡◌, refl, String, false, arith, inl, inr}
use io_iii_runtime.Python.Value as PyValue
use io_iii_runtime.Python.Value.{Value, Fields, opt_str}
use io_iii_runtime.Python.Error.{ok}
use io_iii_runtime.Python.Clock.{Clock}
use io_iii_runtime.Capabilities.{
  Capability, CapabilityContext, CapabilityRegistry, CapabilityResult, Outcome, get,
}
use io_iii_runtime.Capabilities.Invocation.{
  Encoder, over, safe_json_len, checked_output, await, call, check_input, admitted,
  invoke_capability_once,
}
use io_iii_runtime.Runner.Induction.{Result-cases}

module _ {W : Type 0} (clock : Clock W) (encoder : Encoder) where
  -- The record `m` tells of a call of `cap` in the world `w` that returned `r`, within the bounds.
  abbrev pub IsCall : Capability W → Fields → CapabilityContext → W → Fields → Type 0
  IsCall cap payload ctx w m =
      (r : CapabilityResult) × ((cap.invoke ctx payload w).0 ≡ Outcome.returned r)
      × (over (safe_json_len encoder (Value.obj payload)) cap.spec.bounds.max_input_chars ≡ false)
      × (over (safe_json_len encoder (Value.obj r.output)) cap.spec.bounds.max_output_chars ≡ false)
      × (PyValue.get "output" m ≡ Value.obj r.output)
      × (PyValue.get "ok" m ≡ Value.bool r.ok_flag)

  admitted-ok :
      (registry : CapabilityRegistry W) (id : String) (payload : Fields) (cap : Capability W)
      → admitted encoder registry id payload ≡ ok cap
      → (get registry id ≡ ok cap)
        × (over (safe_json_len encoder (Value.obj payload)) cap.spec.bounds.max_input_chars ≡ false)
  unfolding admitted check_input
  admitted-ok registry id payload cap h = ground arith

  await-ok :
      (cap : Capability W) (t0 : ℕ) (o : Outcome) (w : W) (m : Fields)
      → (await clock encoder cap.spec t0 o w).0 ≡ ok m
      → (r : CapabilityResult) × (o ≡ Outcome.returned r)
        × (over (safe_json_len encoder (Value.obj r.output)) cap.spec.bounds.max_output_chars
            ≡ false)
        × (PyValue.get "output" m ≡ Value.obj r.output)
        × (PyValue.get "ok" m ≡ Value.bool r.ok_flag)
  unfolding await checked_output
  await-ok c t0 (Outcome.returned r) w m h = (r, refl, ground arith, ground arith, ground arith)
  await-ok c t0 (Outcome.raised e) w m h = absurd (ground arith)
  await-ok c t0 Outcome.timed_out w m h = absurd (ground arith)

  -- If the one call of a capability returns a record, the registry has that capability, it was called
  -- and returned, input and output are within its declared bounds, and the record reports its output.
  pub invoke_capability_once-IsCall :
      (registry : CapabilityRegistry W) (id : String) (payload : Fields) (ctx : CapabilityContext)
      (w : W) (m : Fields)
      → (invoke_capability_once clock encoder registry id payload ctx w).0 ≡ ok m
      → (c : Capability W) × (get registry id ≡ ok c)
        × IsCall c payload ctx (clock.perf_counter_ns w).1 m
  unfolding invoke_capability_once call
  invoke_capability_once-IsCall registry id payload ctx w m h =
      elim (Result-cases (admitted encoder registry id payload)) [
        | inl (c, k) ↦
            let (found, small) = admitted-ok registry id payload c k in
            let (r, returned, fits, out, flag) =
              await-ok c (clock.perf_counter_ns w).0
                (c.invoke ctx payload (clock.perf_counter_ns w).1).0
                (c.invoke ctx payload (clock.perf_counter_ns w).1).1 m (ground arith) in
            (c, found, (r, returned, small, fits, out, flag))
        | inr (e, k) ↦ absurd (ground arith)
      ]

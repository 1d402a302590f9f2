-- ===== src/Mode/Periods.antt =====
-- How often a session pauses under a step threshold.
use io_iii_runtime.Prelude.{
  ℕ, ◌*◌, ◌≤◌, ◌⊎◌, zero, suc, ◌+◌, ◌/◌, ◌%◌, ◌<◌, ◌≡◌, String, Bool, true, false, Option, none,
  some, [], arith, ◌==◌, if◌then◌else◌, ◌∙◌, inl, inr,
}
use native.Mathlib.Numerals.{add-one}
use native.Mathlib.Nat.{
  le-div_iff_mul-le, div-lt_iff_lt-mul, suc-mod, mod_self, mod-eq_of_lt, mod-lt, div-add-mod',
}
use io_iii_runtime.Python.Error.{Result, ok}
use io_iii_runtime.Mode.{SessionMode, PauseState, StewardGate, check, class_fires}

abbrev is_pause : Result (Option PauseState) → Bool
is_pause (ok (some p)) = true
is_pause _ = false

div_unique : (k n q : ℕ) → q * suc n ≤ k → k < q * suc n + suc n → k / suc n ≡ q
div_unique k n q low high = omega (
  arith,
  (le-div_iff_mul-le {k = suc n} {x = q} {y = k} (omega arith)).1 low,
  (div-lt_iff_lt-mul {k = suc n} {x = k} {y = q + 1} (omega arith)).1 (omega arith),
)

remainder_cases : (k n : ℕ) → (suc (k % suc n) < suc n) ⊎ (suc (k % suc n) ≡ suc n)
remainder_cases k n = omega (arith, mod-lt k {m = suc n} (omega arith))

-- One more step makes one more whole period exactly when it completes one.
div_step : (k n : ℕ) → suc k / suc n ≡ (if (k + 1) % suc n == 0 then k / suc n + 1 else k / suc n)
div_step k n = elim (remainder_cases k n) [
  | inl short ↦
      let m : suc k % suc n ≡ suc (k % suc n) = suc-mod k (suc n) ∙ mod-eq_of_lt short in
      let q : suc k / suc n ≡ k / suc n =
        div_unique (suc k) n (k / suc n) (omega (arith, div-add-mod' k (suc n)))
          (omega (arith, div-add-mod' k (suc n))) in
      rw add-one (ground (arith, m, q))
  | inr full ↦
      let m : suc k % suc n ≡ 0 = suc-mod k (suc n) ∙ (rw full (mod_self (suc n))) in
      let q : suc k / suc n ≡ k / suc n + 1 =
        div_unique (suc k) n (k / suc n + 1) (omega (arith, div-add-mod' k (suc n)))
          (omega (arith, div-add-mod' k (suc n))) in
      rw add-one (ground (arith, m, q))
]

module _ (g : StewardGate) (total : ℕ) (run : String) where
  -- The pauses at the boundaries of the first `k` steps.
  unfoldable pub pauses : ℕ → ℕ
  pauses zero = 0
  pauses (suc k) =
      let before = pauses k in if is_pause (check g k total run 0 []) then before + 1 else before

  is_pause-check :
      (k n : ℕ)
      → g.session_mode ≡ SessionMode.steward
      → g.thresholds.step_count ≡ some (suc n)
      → g.thresholds.token_budget ≡ none
      → is_pause (check g k total run 0 []) ≡ ((k + 1) % suc n == 0)
  unfolding check class_fires
  is_pause-check k n m s t = ground arith

  -- In steward mode with `step_count` n + 1 and no token budget, no tokens and no invoked classes,
  -- the first `k` steps pause k / (n + 1) times.
  pub pauses-eq-div :
      (k n : ℕ)
      → g.session_mode ≡ SessionMode.steward
      → g.thresholds.step_count ≡ some (suc n)
      → g.thresholds.token_budget ≡ none
      → pauses k ≡ k / suc n
  unfolding pauses
  pauses-eq-div zero n m s t = omega (arith, div_unique 0 n 0 (omega arith) (omega arith))
  pauses-eq-div (suc k) n m s t =
      rw (is_pause-check k n m s t, pauses-eq-div k n m s t, div_step k n)

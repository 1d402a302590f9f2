-- ===== src/Mode/Gate.antt =====
-- When the gate pauses, and what it reports.
use mathlib.Core.List.{Memᴰ}
use io_iii_runtime.Prelude.{
  ℕ, zero, suc, ◌+◌, ◌%◌, ◌<◌, ◌≡◌, ◌≢◌, refl, String, true, false, Option, none, some, List, [],
  ◌∷◌, arith, ◌⊎◌, inl, inr, ◌↔◌, eq_iff, Bool-cases, str_eq,
}
use io_iii_runtime.Python.Text.{elem}
use io_iii_runtime.Python.Error.{Exn, Result, ok, err}
use io_iii_runtime.Mode.{
  SessionMode, StewardThresholds, ThresholdKey, PauseState, StewardGate, class_fires, step_fires,
  check, token_fires,
}

-- No threshold of zero steps: what `load_steward_thresholds` ensures.
pub record IsValid (th : StewardThresholds) : Type 0 where
  pub positive_steps : th.step_count ≢ some 0

abbrev pub StepFires : StewardThresholds → ℕ → Type 0
StepFires th i = (n : ℕ) × (th.step_count ≡ some n) × ((i + 1) % n ≡ 0)

abbrev pub TokenFires : StewardThresholds → ℕ → Type 0
TokenFires th tokens = (n : ℕ) × (th.token_budget ≡ some n) × (n < tokens)

abbrev pub ClassFires : StewardThresholds → List String → Type 0
ClassFires th invoked = (c : String) × Memᴰ c invoked × Memᴰ c th.capability_classes

elem-Memᴰ : (x : String) (ys : List String) → elem x ys ≡ true → Memᴰ x ys
elem-Memᴰ x [] h = cc
elem-Memᴰ x (y ∷ ys) h = elim (Bool-cases (str_eq x y)) [
  | inl e ↦ Memᴰ.head ((eq_iff x y).0 e)
  | inr n ↦ Memᴰ.tail (elem-Memᴰ x ys (rw n at h))
]

Memᴰ-elem : {x : String} {ys : List String} → Memᴰ x ys → elem x ys ≡ true
Memᴰ-elem {x = a} (Memᴰ.head {x = y} e) = rw ((eq_iff a y).1 e)
Memᴰ-elem {x = a} (Memᴰ.tail {x = y} m) = ground (arith, Memᴰ-elem m)

class_fires_sound :
    (classes invoked : List String)
    → class_fires classes invoked ≡ true
    → (c : String) × Memᴰ c invoked × Memᴰ c classes
unfolding class_fires
class_fires_sound classes [] h = cc
class_fires_sound classes (c ∷ cs) h = elim (Bool-cases (elem c classes)) [
  | inl e ↦ (c, Memᴰ.head refl, elem-Memᴰ c classes e)
  | inr n ↦
      let later = class_fires_sound classes cs (rw n at h) in (later.0, Memᴰ.tail later.1, later.2)
]

class_fires_complete :
    {c : String} (classes : List String) {invoked : List String}
    → Memᴰ c invoked
    → Memᴰ c classes
    → class_fires classes invoked ≡ true
unfolding class_fires
class_fires_complete {c = a} classes (Memᴰ.head {x = y} e) m = rw (← e, Memᴰ-elem m)
class_fires_complete classes (Memᴰ.tail {x = y} k) m =
    ground (arith, class_fires_complete classes k m)

step_fires_sound :
    (o : Option ℕ) (i : ℕ) → step_fires o i ≡ ok true → (n : ℕ) × (o ≡ some n) × ((i + 1) % n ≡ 0)
unfolding step_fires
step_fires_sound none i h = cc
step_fires_sound (some zero) i h = cc
step_fires_sound (some (suc n)) i h = (suc n, refl, ground arith)

step_fires_complete :
    (o : Option ℕ) (i n : ℕ) → o ≡ some n → (i + 1) % n ≡ 0 → step_fires o i ≡ ok true
unfolding step_fires
step_fires_complete none i n p q = cc
step_fires_complete (some zero) i n p q = ground arith
step_fires_complete (some (suc m)) i n p q = ground arith

token_fires_sound :
    (o : Option ℕ) (k : ℕ) → token_fires o k ≡ true → (n : ℕ) × (o ≡ some n) × (n < k)
token_fires_sound none k h = cc
token_fires_sound (some n) k h = (n, refl, ground arith)

Result-some {ℓ} :
    {A : Type ℓ} (r : Result (Option A))
    → r ≢ ok none
    → ((e : Exn) → r ≢ err e)
    → (a : A) × (r ≡ ok (some a))
Result-some (ok none) h k = absurd (h refl)
Result-some (ok (some a)) h k = (a, refl)
Result-some (err e) h k = absurd (k e refl)

abbrev pub Fires : StewardThresholds → ℕ → ℕ → List String → Type 0
Fires th i tokens invoked = StepFires th i ⊎ TokenFires th tokens ⊎ ClassFires th invoked

module _ (g : StewardGate) (i total : ℕ) (run : String) (tokens : ℕ) (invoked : List String) where
  abbrev pub gate_result : Result (Option PauseState)
  gate_result = check g i total run tokens invoked

  abbrev AnyTest : Type 0
  AnyTest =
      (step_fires g.thresholds.step_count i ≡ ok true)
      ⊎ (token_fires g.thresholds.token_budget tokens ≡ true)
      ⊎ (class_fires g.thresholds.capability_classes invoked ≡ true)

  AnyTest_of_pause :
      (p : PauseState)
      → gate_result ≡ ok (some p)
      → (g.session_mode ≡ SessionMode.steward) × AnyTest
  unfolding check
  AnyTest_of_pause p h = ground arith

  AnyTest-Fires : AnyTest → Fires g.thresholds i tokens invoked
  AnyTest-Fires (inl h) = inl (step_fires_sound g.thresholds.step_count i h)
  AnyTest-Fires (inr (inl h)) = inr (inl (token_fires_sound g.thresholds.token_budget tokens h))
  AnyTest-Fires (inr (inr h)) =
      inr (inr (class_fires_sound g.thresholds.capability_classes invoked h))

  Fires-AnyTest : Fires g.thresholds i tokens invoked → AnyTest
  Fires-AnyTest (inl (n, p, q)) = inl (step_fires_complete g.thresholds.step_count i n p q)
  Fires-AnyTest (inr (inl (n, p, q))) = inr (inl (ground arith))
  Fires-AnyTest (inr (inr (c, p, q))) =
      inr (inr (class_fires_complete g.thresholds.capability_classes p q))

  pause_of_AnyTest : g.session_mode ≡ SessionMode.steward → AnyTest → gate_result ≢ ok none
  unfolding check
  pause_of_AnyTest m t h = ground arith

  pub check_total : IsValid g.thresholds → (e : Exn) → gate_result ≢ err e
  unfolding check
  check_total v e h = ground arith

  -- With valid thresholds the gate pauses exactly when the session is in steward mode and a
  -- declared threshold fires: the number of completed steps is a multiple of `step_count`, the
  -- tokens exceed `token_budget`, or an invoked class is a declared one.
  pub pause_iff :
      IsValid g.thresholds
      → ((p : PauseState) × (gate_result ≡ ok (some p)))
        ↔ ((g.session_mode ≡ SessionMode.steward) × Fires g.thresholds i tokens invoked)
  pause_iff v = (
    λ (p, h). let t = AnyTest_of_pause p h in (t.0, AnyTest-Fires t.1),
    λ (m, f). Result-some gate_result (pause_of_AnyTest m (Fires-AnyTest f)) (check_total v),
  )

  -- A pause carries the step, the total, the run and the mode that it was checked with, and the
  -- key of the first threshold that fires in the order step count, token budget, classes.
  pub pause_content :
      (p : PauseState)
      → gate_result ≡ ok (some p)
      → (p.step_index ≡ i)
        × (p.steps_total ≡ total)
        × (p.run_id ≡ run)
        × (p.session_mode ≡ SessionMode.steward)
        × ((p.threshold_key ≡ ThresholdKey.step_count)
            ↔ (step_fires g.thresholds.step_count i ≡ ok true))
        × ((p.threshold_key ≡ ThresholdKey.token_budget) ↔ (
            (step_fires g.thresholds.step_count i ≡ ok false)
            × (token_fires g.thresholds.token_budget tokens ≡ true)))
  unfolding check
  pause_content p h = ground arith

-- Without a step count, and asked with no tokens and no classes, the gate never pauses.
pub check_quiet :
    (g : StewardGate) (i total : ℕ) (run : String)
    → g.thresholds.step_count ≡ none
    → check g i total run 0 [] ≡ ok none
unfolding check class_fires
check_quiet g i total run h = ground arith

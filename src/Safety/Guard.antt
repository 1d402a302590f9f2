-- ===== src/Safety/Guard.antt =====
-- What the guard accepts.
use io_iii_runtime.Prelude.{
  ℕ, zero, suc, ◌+◌, ◌≤◌, String, ◌≡◌, refl, Bool, true, false, ◌||◌, List, [], ◌∷◌, arith, ap, ◌∙◌,
}
use io_iii_runtime.Python.Text.{elem}
use io_iii_runtime.Python.Value.{Value, Items, Fields}
use io_iii_runtime.Python.Error.{Result, ok, err, ◌>>=◌, raise_if}
use io_iii_runtime.Safety.{
  size, size_items, size_fields, push_fields, push_items, expand, guard_loop,
  assert_no_forbidden_keys, forbidden_err,
}

or_false : (b : Bool) → b || false ≡ b
or_false true = refl
or_false false = refl

module _ (forbidden : List String) where
  -- A forbidden key at some depth.
  unfoldable mutual
    pub has_forbidden : Value → Bool
    has_forbidden (Value.arr xs) = items_have_forbidden xs
    has_forbidden (Value.obj d) = fields_have_forbidden d
    has_forbidden Value.null = false
    has_forbidden (Value.bool b) = false
    has_forbidden (Value.int z) = false
    has_forbidden (Value.float m k) = false
    has_forbidden (Value.str s) = false

    pub items_have_forbidden : Items → Bool
    items_have_forbidden Items.nil = false
    items_have_forbidden (Items.cons x xs) = has_forbidden x || items_have_forbidden xs

    pub fields_have_forbidden : Fields → Bool
    fields_have_forbidden Fields.end = false
    fields_have_forbidden (Fields.field k v d) =
        elem k forbidden || (has_forbidden v || fields_have_forbidden d)

  any_forbidden : List Value → Bool
  any_forbidden [] = false
  any_forbidden (v ∷ vs) = has_forbidden v || any_forbidden vs

  total : List Value → ℕ
  total [] = 0
  total (v ∷ vs) = size v + total vs

  -- A round keeps the answer and takes one from the size, or it raises with a forbidden key.
  abbrev Steps : Result (List Value) → Bool → ℕ → Type 0
  Steps (ok stack) answer n = (any_forbidden stack ≡ answer) × (total stack ≡ n)
  Steps (err e) answer n = (e ≡ forbidden_err) × (answer ≡ true)

  push_items-Steps :
      (xs : Items) (stack : List Value)
      → Steps
          (ok (push_items xs stack))
          (items_have_forbidden xs || any_forbidden stack)
          (size_items xs + total stack)
  unfolding push_items items_have_forbidden any_forbidden size_items total
  push_items-Steps Items.nil stack = (refl, omega arith)
  push_items-Steps (Items.cons x xs) stack = ground (arith, push_items-Steps xs (x ∷ stack))

  push_fields-Steps :
      (d : Fields) (stack : List Value)
      → Steps
          (push_fields forbidden d stack)
          (fields_have_forbidden d || any_forbidden stack)
          (size_fields d + total stack)
  unfolding push_fields fields_have_forbidden any_forbidden size_fields total
  push_fields-Steps Fields.end stack = (refl, omega arith)
  push_fields-Steps (Fields.field k v d) stack = ground (arith, push_fields-Steps d (v ∷ stack))

  expand-Steps :
      (v : Value) (stack : List Value) (n : ℕ)
      → total (v ∷ stack) ≡ suc n
      → Steps (expand forbidden v stack) (any_forbidden (v ∷ stack)) n
  unfolding expand has_forbidden any_forbidden size total
  expand-Steps (Value.obj d) stack n h = ground (arith, push_fields-Steps d stack)
  expand-Steps (Value.arr xs) stack n h = ground (arith, push_items-Steps xs stack)
  expand-Steps Value.null stack n h = (refl, omega arith)
  expand-Steps (Value.bool b) stack n h = (refl, omega arith)
  expand-Steps (Value.int z) stack n h = (refl, omega arith)
  expand-Steps (Value.float m k) stack n h = (refl, omega arith)
  expand-Steps (Value.str s) stack n h = (refl, omega arith)

  -- The loop gives the answer for the whole stack.
  abbrev Answers : ℕ → List Value → Type 0
  Answers fuel stack =
      guard_loop forbidden fuel stack ≡ raise_if (any_forbidden stack) forbidden_err

  after_round :
      (r : Result (List Value)) (answer : Bool) (n fuel : ℕ)
      → Steps r answer n
      → n ≤ fuel
      → ((stack : List Value) → total stack ≤ fuel → Answers fuel stack)
      → (r >>= λ stack. guard_loop forbidden fuel stack) ≡ raise_if answer forbidden_err
  after_round (ok stack) answer n fuel (same, size_left) enough ih =
      ih stack (omega arith) ∙ ap (λ b. raise_if b forbidden_err) same
  after_round (err e) answer n fuel (which, raised) enough ih = rw (which, raised)

  size_pos : (v : Value) → (n : ℕ) × (size v ≡ suc n)
  unfolding size
  size_pos (Value.obj d) = (_, refl)
  size_pos (Value.arr xs) = (_, refl)
  size_pos Value.null = (_, refl)
  size_pos (Value.bool b) = (_, refl)
  size_pos (Value.int z) = (_, refl)
  size_pos (Value.float m k) = (_, refl)
  size_pos (Value.str s) = (_, refl)

  guard_loop_lem : (fuel : ℕ) (stack : List Value) → total stack ≤ fuel → Answers fuel stack
  unfolding guard_loop any_forbidden total
  guard_loop_lem fuel [] enough = refl
  guard_loop_lem zero (v ∷ stack) enough = absurd (omega (arith, (size_pos v).1))
  guard_loop_lem (suc fuel) (v ∷ stack) enough =
      after_round (expand forbidden v stack) (any_forbidden (v ∷ stack))
        ((size_pos v).0 + total stack) fuel (expand-Steps v stack _ (omega (arith, (size_pos v).1)))
        (omega (arith, (size_pos v).1)) (guard_loop_lem fuel)

-- The guard raises its one error exactly when a forbidden key occurs at some depth of the value, and
-- its loop never runs out of fuel.
pub assert_no_forbidden_keys_lem :
    (forbidden : List String) (v : Value)
    → assert_no_forbidden_keys forbidden v ≡ raise_if (has_forbidden forbidden v) forbidden_err
unfolding assert_no_forbidden_keys any_forbidden total
assert_no_forbidden_keys_lem forbidden v =
    guard_loop_lem forbidden (size v) (v ∷ []) (omega arith)
    ∙ ap (λ b. raise_if b forbidden_err) (or_false (has_forbidden forbidden v))

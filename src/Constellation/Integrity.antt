-- ===== src/Constellation/Integrity.antt =====
-- What a constellation that passes the check has.
use io_iii_runtime.Prelude.{
  ◌≤◌, ◌≡◌, ◌≢◌, refl, sym, subst, String, true, false, Option, none, some, arith, str_eq, eq_refl,
  inl, inr, Bool-cases,
}
use io_iii_runtime.Python.Text.{is_empty}
use io_iii_runtime.Python.Value.{ℤ, Value, Fields, find, get, truthy}
use io_iii_runtime.Python.Error.{Result, ok, err, ◌>>=◌, ◌>>◌, raise_if}
use io_iii_runtime.Constellation.Models.{IsModelOf, extract_model-IsModelOf}
use io_iii_runtime.Runbook.{runbook_max_steps}
use io_iii_runtime.Constellation.{
  drift, is_skipped, extract_model, stripped, primary_of, table_of, distinct, check_collapse, bound,
  check_bindings, limited, declared, short, check_chains, check_modes, check_constellation,
}

-- A mapping with a primary model.
abbrev pub IsBound : Value → Type 0
IsBound v = (p : String) × (primary_of v ≡ ok p) × (is_empty p ≡ false)

-- Two roles have different models, if both are there.
abbrev pub AreDistinct : Option Value → Option Value → Type 0
AreDistinct (some e) (some c) =
    (p : String) × (q : String) × (m : String) × (n : String) × (primary_of e ≡ ok p)
    × (primary_of c ≡ ok q)
    × IsModelOf p m
    × IsModelOf q n
    × (m ≢ n)
AreDistinct e c = Unit

-- Each role of the table.
abbrev pub AllRoles : (Value → Type 0) → Fields → Type 0
AllRoles P Fields.end = Unit
AllRoles P (Fields.field role v rest) = P v × AllRoles P rest

both : (a b : Result (Unit {0})) → (do a; b) ≡ ok tt → (a ≡ ok tt) × (b ≡ ok tt)
both (ok tt) b h = (refl, h)
both (err e) b h = absurd (ground arith)

not_empty :
    (r : Result String)
    → (r >>= λ p. raise_if (is_empty p) drift) ≡ ok tt
    → (p : String) × (r ≡ ok p) × (is_empty p ≡ false)
not_empty (ok p) h = (p, refl, ground arith)
not_empty (err e) h = absurd (ground arith)

bound-IsBound : (v : Value) → bound v ≡ ok tt → IsBound v
unfolding bound
bound-IsBound (Value.obj d) h = not_empty (primary_of (Value.obj d)) h
bound-IsBound v h = absurd (ground arith)

check_bindings-IsBound : (modes : Fields) → check_bindings modes ≡ ok tt → AllRoles IsBound modes
unfolding check_bindings
check_bindings-IsBound Fields.end h = tt
check_bindings-IsBound (Fields.field r v rest) h =
    let (here, there) = both (bound v) (check_bindings rest) h in
    (bound-IsBound v here, check_bindings-IsBound rest there)

AllRoles-find :
    (P : Value → Type 0) (modes : Fields) (role : String) (v : Value)
    → AllRoles P modes
    → find role modes ≡ some v
    → P v
AllRoles-find P Fields.end role v h k = absurd (ground arith)
AllRoles-find P (Fields.field r w rest) role v h k = elim (Bool-cases (str_eq r role)) [
  | inl b ↦ let e : w ≡ v = ground arith in subst P e h.0
  | inr n ↦ AllRoles-find P rest role v h.1 (ground arith)
]

-- A role with a primary model is not an empty mapping.
truthy_of_IsBound : (v : Value) → IsBound v → truthy v ≡ true
unfolding primary_of stripped
truthy_of_IsBound (Value.obj Fields.end) (p, h, n) =
    let blank : ok "" ≡ ok p = h in
    let e : "" ≡ p = ground arith in
    subst (λ b. b ≡ true) (subst (λ s. is_empty s ≡ false) (sym e) n) refl
truthy_of_IsBound (Value.obj (Fields.field k w d)) b = refl
truthy_of_IsBound v (p, h, n) = absurd (ground arith)

distinct-AreDistinct :
    (e c : Value) → IsBound e → IsBound c → distinct e c ≡ ok tt → AreDistinct (some e) (some c)
unfolding distinct
distinct-AreDistinct e c (p, hp, np) (q, hq, nq) h = (
  p,
  q,
  extract_model p,
  extract_model q,
  hp,
  hq,
  extract_model-IsModelOf p,
  extract_model-IsModelOf q,
  λ same. ground (arith, eq_refl (extract_model q)),
)

check_collapse-AreDistinct :
    (modes : Fields) (e c : Option Value)
    → find "executor" modes ≡ e
    → find "challenger" modes ≡ c
    → AllRoles IsBound modes
    → check_collapse modes ≡ ok tt
    → AreDistinct e c
unfolding check_collapse
check_collapse-AreDistinct modes none c he hc bounds h = tt
check_collapse-AreDistinct modes (some e) none he hc bounds h = tt
check_collapse-AreDistinct modes (some e) (some c) he hc bounds h =
    let be = AllRoles-find IsBound modes "executor" e bounds he in
    let bc = AllRoles-find IsBound modes "challenger" c bounds hc in
    let te = truthy_of_IsBound e be in
    let tc = truthy_of_IsBound c bc in distinct-AreDistinct e c be bc (ground arith)

module _ (to_int : Value → Result ℤ) where
  -- The number of steps that `int` reads, if it reads one.
  abbrev pub IsAtMost : Result ℤ → Type 0
  IsAtMost (ok (ℤ.pos n)) = n ≤ runbook_max_steps
  IsAtMost (ok (ℤ.negsuc n)) = Unit
  IsAtMost (err e) = is_skipped e.class ≡ true

  abbrev pub IsDeclared : Value → Type 0
  IsDeclared Value.null = Unit
  IsDeclared v = IsAtMost (to_int v)

  -- A role that declares at most `runbook_max_steps` steps.
  abbrev pub IsShort : Value → Type 0
  IsShort (Value.obj d) = IsDeclared (get "max_steps" d)
  IsShort v = Unit

  limited-IsAtMost : (r : Result ℤ) → limited r ≡ ok tt → IsAtMost r
  unfolding limited
  limited-IsAtMost (ok (ℤ.pos n)) h = ground arith
  limited-IsAtMost (ok (ℤ.negsuc n)) h = tt
  limited-IsAtMost (err e) h = ground arith

  declared-IsDeclared : (v : Value) → declared to_int v ≡ ok tt → IsDeclared v
  unfolding declared
  declared-IsDeclared Value.null h = tt
  declared-IsDeclared v h = limited-IsAtMost (to_int v) h

  short-IsShort : (v : Value) → short to_int v ≡ ok tt → IsShort v
  unfolding short
  short-IsShort (Value.obj d) h = declared-IsDeclared (get "max_steps" d) h
  short-IsShort v h = tt

  check_chains-IsShort :
      (modes : Fields) → check_chains to_int modes ≡ ok tt → AllRoles IsShort modes
  unfolding check_chains
  check_chains-IsShort Fields.end h = tt
  check_chains-IsShort (Fields.field r v rest) h =
      let (here, there) = both (short to_int v) (check_chains to_int rest) h in
      (short-IsShort v here, check_chains-IsShort rest there)

  abbrev pub IsIntact : Fields → Type 0
  IsIntact modes =
      AllRoles IsBound modes
      × AllRoles IsShort modes
      × AreDistinct (find "executor" modes) (find "challenger" modes)

  check_modes-IsIntact : (modes : Fields) → check_modes to_int modes ≡ ok tt → IsIntact modes
  unfolding check_modes
  check_modes-IsIntact Fields.end h = (tt, tt, tt)
  check_modes-IsIntact (Fields.field r v rest) h =
      let modes = Fields.field r v rest in
      let (collapse, others) =
        both (check_collapse modes) (do check_bindings modes; check_chains to_int modes) h in
      let (bindings, chains) = both (check_bindings modes) (check_chains to_int modes) others in
      let bounds = check_bindings-IsBound modes bindings in
      (
        bounds,
        check_chains-IsShort modes chains,
        check_collapse-AreDistinct modes (find "executor" modes) (find "challenger" modes) refl refl
            bounds collapse,
      )

  -- A configuration that passes the check has a primary target for each role, a challenger with another model
  -- than the executor, where the model of a target is what stands behind its first colon or the whole target
  -- without a colon, and no role whose declared steps exceed the ceiling of a runbook.
  pub check_constellation-IsIntact :
      (d table modes : Fields)
      → table_of (get "routing_table" d) ≡ ok table
      → table_of (get "modes" table) ≡ ok modes
      → check_constellation to_int (Value.obj d) ≡ ok tt
      → IsIntact modes
  unfolding check_constellation
  check_constellation-IsIntact d table modes ht hm h = check_modes-IsIntact modes (ground arith)

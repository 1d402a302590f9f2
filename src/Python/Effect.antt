-- ===== src/Python/Effect.antt =====
-- Computations that change a state and return a value or raise; what they changed stays changed
-- after a raise.
use io_iii_runtime.Prelude.{◌≡◌, refl, Bool, true, false, if◌then◌else◌}
use io_iii_runtime.Python.Error.{Exn, Result, ok, err}

abbrev pub Effect {ℓ} : Type 0 → Type ℓ → Type ℓ
Effect S A = S → Result A × S

-- Go on from an outcome: with the value, or not at all after a raise.
abbrev pub proceed {ℓ κ} :
    {S : Type 0} {A : Type ℓ} {B : Type κ} → Result A × S → (A → Effect S B) → Result B × S
proceed (ok a, s) next = next a s
proceed (err e, s) next = (err e, s)

infixl 5 ◌>>=◌
unfoldable pub ◌>>=◌ {ℓ κ} :
    {S : Type 0} {A : Type ℓ} {B : Type κ} → Effect S A → (A → Effect S B) → Effect S B
first >>= next = λ s. proceed (first s) next

infixl 5 ◌>>◌
abbrev pub ◌>>◌ {κ} : {S : Type 0} {B : Type κ} → Effect S (Unit {0}) → Effect S B → Effect S B
first >> next = first >>= λ _. next

module _ {ℓ} {S : Type 0} {A : Type ℓ} where
  unfoldable pub pure : A → Effect S A
  pure a s = (ok a, s)

  -- A computation that leaves the state alone.
  unfoldable pub lift : Result A → Effect S A
  lift r s = (r, s)

  unfoldable pub gets : (S → A) → Effect S A
  gets f s = (ok (f s), s)

-- The outcome satisfies `Q` if it is a value and `E` if it is a raise.
abbrev pub Ends {ℓ κ} :
    {S : Type 0} {A : Type ℓ} → (A → S → Type κ) → (Exn → S → Type κ) → Result A × S → Type κ
Ends Q E (ok a, s) = Q a s
Ends Q E (err e, s) = E e s

-- From a state with `P`, the computation ends with `Q` or with `E`.
pub record Triple {ℓ κ} {S : Type 0} {A : Type ℓ} (P : S → Type κ) (m : Effect S A)
    (Q : A → S → Type κ) (E : Exn → S → Type κ) : Type (ℓ ⊔ κ) where
  pub at : (s : S) → P s → Ends Q E (m s)

Ends-proceed {ℓ κ μ} :
    {S : Type 0} {A : Type ℓ} {B : Type κ} (P : A → S → Type μ) (Q : B → S → Type μ)
    (E : Exn → S → Type μ) (r : Result A × S) (next : A → Effect S B)
    → Ends P E r
    → ((a : A) (s : S) → P a s → Ends Q E (next a s))
    → Ends Q E (proceed r next)
Ends-proceed P Q E (ok a, s) next h k = k a s h
Ends-proceed P Q E (err e, s) next h k = h

pub Ends-map {ℓ κ} :
    {S : Type 0} {A : Type ℓ} (P Q : A → S → Type κ) (E F : Exn → S → Type κ) (r : Result A × S)
    → ((a : A) (s : S) → P a s → Q a s)
    → ((e : Exn) (s : S) → E e s → F e s)
    → Ends P E r
    → Ends Q F r
Ends-map P Q E F (ok a, s) f g h = f a s h
Ends-map P Q E F (err e, s) f g h = g e s h

module _ {κ} {S A B : Type 0} {P : S → Type κ} {Q : B → S → Type κ} {E : Exn → S → Type κ} where
  pub Triple-bind :
      (R : A → S → Type κ) (m : Effect S A) (f : A → Effect S B)
      → Triple P m R E
      → ((a : A) → Triple (R a) (f a) Q E)
      → Triple P (m >>= f) Q E
  unfolding ◌>>=◌
  Triple-bind R m f hm hf = record {
    at = λ s h. Ends-proceed R Q E (m s) f (hm.at s h) (λ a s' k. (hf a).at s' k);
  }

module _ {κ} {S B : Type 0} {P : S → Type κ} {Q : B → S → Type κ} {E : Exn → S → Type κ} where
  pub Triple-pure : (b : B) → ((s : S) → P s → Q b s) → Triple P (pure b) Q E
  unfolding pure
  Triple-pure b h = record { at = h }

  pub Triple-if :
      (c : Bool) (m n : Effect S B)
      → (c ≡ true → Triple P m Q E)
      → (c ≡ false → Triple P n Q E)
      → Triple P (if c then m else n) Q E
  Triple-if true m n f g = f refl
  Triple-if false m n f g = g refl

-- From other conditions.
pub Triple-map {κ} :
    {S A : Type 0} {P P' : S → Type κ} {Q Q' : A → S → Type κ} {E E' : Exn → S → Type κ}
    (m : Effect S A)
    → ((s : S) → P' s → P s)
    → ((a : A) (s : S) → Q a s → Q' a s)
    → ((e : Exn) (s : S) → E e s → E' e s)
    → Triple P m Q E
    → Triple P' m Q' E'
Triple-map {P} {P'} {Q} {Q'} {E} {E'} m before f g h = record {
  at = λ s p. Ends-map Q Q' E E' (m s) f g (h.at s (before s p));
}

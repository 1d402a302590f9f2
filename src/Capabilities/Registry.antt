-- ===== src/Capabilities/Registry.antt =====
-- What the registry holds, and what a lookup finds in it.
use io_iii_runtime.Prelude.{
  ◌≡◌, refl, sym, ap, String, false, none, some, List, [], ◌∷◌, ◌++◌, arith, if◌then◌else◌, str_eq,
  All, All-append, inl, inr, eq_iff, subst,
}
use io_iii_runtime.Runner.Induction.{Result-cases}
use io_iii_runtime.Python.Text.{strip, is_empty}
use io_iii_runtime.Python.Error.{ok}
use io_iii_runtime.Capabilities.{
  Capability, CapabilityRegistry, lookup, check_bounds, register, register_all, get, below_one,
}

module _ {W : Type 0} where
  abbrev pub IsEntry : String × Capability W → Type 0
  IsEntry (id, cap) =
      (id ≡ strip cap.spec.capability_id)
      × (is_empty id ≡ false)
      × (below_one cap.spec.bounds.max_calls ≡ false)
      × (below_one cap.spec.bounds.timeout_ms ≡ false)
      × (below_one cap.spec.bounds.max_input_chars ≡ false)
      × (below_one cap.spec.bounds.max_output_chars ≡ false)

  lookup-append :
      (k j : String) (cap : Capability W) (d : CapabilityRegistry W)
      → lookup k d ≡ none
      → lookup j (d ++ (k, cap) ∷ []) ≡ (if str_eq k j then some cap else lookup j d)
  unfolding lookup
  lookup-append k j cap [] h = refl
  lookup-append k j cap ((i, c) ∷ d) h =
      ground (arith, lookup-append k j cap d, eq_iff i j, eq_iff k j, eq_iff i k)

  register-ok :
      (cap : Capability W) (d d' : CapabilityRegistry W)
      → register cap d ≡ ok d'
      → (d' ≡ d ++ (strip cap.spec.capability_id, cap) ∷ [])
        × (lookup (strip cap.spec.capability_id) d ≡ none)
        × IsEntry (strip cap.spec.capability_id, cap)
  unfolding register check_bounds
  register-ok cap d d' h = ground arith

  -- What registering makes of a lookup: the new capability under its stripped identifier, and every other
  -- identifier as before.
  register-get :
      (cap : Capability W) (d d' : CapabilityRegistry W) (id : String)
      → register cap d ≡ ok d'
      → get d' id ≡ (if str_eq (strip cap.spec.capability_id) (strip id) then ok cap else get d id)
  unfolding get
  register-get cap d d' id h =
      let (grown, fresh, _) = register-ok cap d d' h in
      ground (
        arith,
        ap (lookup (strip id)) grown,
        lookup-append (strip cap.spec.capability_id) (strip id) cap d fresh,
      )

  register-All :
      (cap : Capability W) (d d' : CapabilityRegistry W)
      → register cap d ≡ ok d'
      → All IsEntry d
      → All IsEntry d'
  register-All cap d d' h entries =
      let (grown, _, entry) = register-ok cap d d' h in
      subst (All IsEntry) (sym grown) (All-append IsEntry d (_ ∷ []) entries (entry, tt))

  -- Every entry of a registry that the constructor returns is filed under its own stripped, non-empty
  -- identifier, and all its bounds are at least one.
  pub register_all-IsEntry :
      (caps : List (Capability W)) (d d' : CapabilityRegistry W)
      → register_all caps d ≡ ok d'
      → All IsEntry d
      → All IsEntry d'
  unfolding register_all
  register_all-IsEntry [] d d' h entries = subst (All IsEntry) (ground arith) entries
  register_all-IsEntry (cap ∷ caps) d d' h entries = elim (Result-cases (register cap d)) [
    | inl (d₁, k) ↦ register_all-IsEntry caps d₁ d' (ground arith) (register-All cap d d₁ k entries)
    | inr (e, k) ↦ absurd (ground arith)
  ]

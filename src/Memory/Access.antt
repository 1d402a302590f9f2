-- ===== src/Memory/Access.antt =====
-- Which records a route may read.
use io_iii_runtime.Prelude.{String, ◌≡◌, refl, true, arith, ◌⊎◌, inl, inr, ◌↔◌, eq_iff}
use io_iii_runtime.Python.Text.{elem}
use io_iii_runtime.Memory.{RetrievalPolicy, can_access}

-- The tiers of a policy, for an allowed route.
abbrev pub TierAllows : RetrievalPolicy → String → String → Type 0
TierAllows p route sensitivity =
    (sensitivity ≡ "standard")
    ⊎ (sensitivity ≡ "elevated") × (elem route p.sensitivity_elevated ≡ true)
    ⊎ (sensitivity ≡ "restricted") × (elem route p.sensitivity_restricted ≡ true)

tier_allows :
    (p : RetrievalPolicy) (route sensitivity : String)
    → elem route p.route_allowlist ≡ true
    → TierAllows p route sensitivity
    → can_access p route sensitivity ≡ true
unfolding can_access
tier_allows p route sensitivity a (inl e) = rw (e, a) refl
tier_allows p route sensitivity a (inr (inl (e, m))) = rw (e, a, m) refl
tier_allows p route sensitivity a (inr (inr (e, m))) = rw (e, a, m) refl

-- A route may read a record exactly if it is on the allowlist, and the record's tier is `standard`,
-- or `elevated` or `restricted` with the route on that tier's list. No other tier is ever readable.
can_access_iff :
    (p : RetrievalPolicy) (route sensitivity : String)
    → (can_access p route sensitivity ≡ true)
      ↔ ((elem route p.route_allowlist ≡ true) × TierAllows p route sensitivity)
unfolding can_access
can_access_iff p route sensitivity = (
  λ h. ground (
    arith,
    eq_iff sensitivity "standard",
    eq_iff sensitivity "elevated",
    eq_iff sensitivity "restricted",
  ),
  λ (a, t). tier_allows p route sensitivity a t,
)

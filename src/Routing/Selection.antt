-- ===== src/Routing/Selection.antt =====
-- Which target a resolved route selects.
use io_iii_runtime.Prelude.{
  String, ◌≡◌, refl, Bool, true, false, none, some, List, arith, inl, inr, subst, sym, ap, ◌∙◌,
  Option, Option-cases,
}
use io_iii_runtime.Python.Value.{Value, Fields, find, or_null, as_obj}
use io_iii_runtime.Python.Error.{Exn, Result, ok, err, ◌>>=◌, ◌>>◌, raise_if, require}
use io_iii_runtime.Runner.Induction.{Result-cases}
use io_iii_runtime.Routing.Usable.{IsRead, usable-IsRead}
use io_iii_runtime.Routing.{
  RouteSelection, usable, select, select_from, resolve_route, require_mapping, mapping_at,
}

require-inv :
    {A B : Type 0} (o : Option A) (e : Exn) (next : A → Result B) (b : B)
    → (require o e >>= next) ≡ ok b
    → (a : A) × (o ≡ some a) × (next a ≡ ok b)
require-inv none e next b h = absurd (ground arith)
require-inv (some a) e next b h = (a, refl, h)

raise_if-inv :
    {B : Type 0} (c : Bool) (e : Exn) (next : Result B) (b : B)
    → (raise_if c e >> next) ≡ ok b
    → next ≡ ok b
raise_if-inv true e next b h = absurd (ground arith)
raise_if-inv false e next b h = h

as_obj-inv : (v : Value) (d : Fields) → as_obj v ≡ some d → v ≡ Value.obj d
as_obj-inv (Value.obj c) d h = ground arith
as_obj-inv _ d h = absurd (ground arith)

-- A mapping under a key that has an entry is not the default one.
mapping_at-inv :
    (k j : String) (table d : Fields) (v : Value)
    → as_obj (mapping_at k table) ≡ some d
    → find j d ≡ some v
    → find k table ≡ some (Value.obj d)
unfolding mapping_at
mapping_at-inv k j table d v h found = elim (Option-cases (find k table)) [
  | inl e ↦
      let empty : Fields.end ≡ d = ground arith in
      let nothing : find j Fields.end ≡ some v = subst (λ c. find j c ≡ some v) (sym empty) found in
      absurd (ground arith)
  | inr (w, e) ↦ let same : as_obj w ≡ some d = ground arith in e ∙ ap some (as_obj-inv w d same)
]

module _ (config : Fields) (supported : List String) where
  -- The fallback policy: the primary target if that is usable, else the secondary if that is, else
  -- no target and the null provider.
  pub data Selects (primary secondary : String) : RouteSelection → Type 0 where
    primary_usable :
        (r : RouteSelection)
        → IsRead config supported primary true r.selected_provider
        → r.selected_target ≡ some primary
        → r.fallback_used ≡ false
        → Selects primary secondary r
    secondary_usable :
        (r : RouteSelection) (refused : String)
        → IsRead config supported primary false refused
        → IsRead config supported secondary true r.selected_provider
        → r.selected_target ≡ some secondary
        → r.fallback_used ≡ true
        → Selects primary secondary r
    none_usable :
        (r : RouteSelection) (refused refused' : String)
        → IsRead config supported primary false refused
        → IsRead config supported secondary false refused'
        → r.selected_target ≡ none
        → r.selected_provider ≡ "null"
        → r.fallback_used ≡ true
        → Selects primary secondary r

  -- The targets are usable or not in this way; they are those of the route.
  abbrev pub Chosen : String → String → RouteSelection → Type 0
  Chosen primary secondary r =
      (r.primary_target ≡ some primary)
      × (r.secondary_target ≡ some secondary)
      × Selects primary secondary r

  -- The table has an entry for the mode, with these two targets.
  abbrev pub Declares : Value → String → String → String → Type 0
  Declares routing mode primary secondary =
      (table : Fields) × (modes : Fields) × (entry : Fields) × (routing ≡ Value.obj table)
      × (find "modes" table ≡ some (Value.obj modes))
      × (find mode modes ≡ some (Value.obj entry))
      × (find "primary" entry ≡ some (Value.str primary))
      × (find "secondary" entry ≡ some (Value.str secondary))

  abbrev pub IsRouted : Value → String → RouteSelection → Type 0
  IsRouted routing mode r =
      (primary : String) × (secondary : String) × Declares routing mode primary secondary
      × (r.mode ≡ mode)
      × Chosen primary secondary r

  abbrev ChosenIn : String → String → Result RouteSelection → Type 0
  ChosenIn primary secondary (ok r) = Chosen primary secondary r
  ChosenIn primary secondary (err e) = Unit

  select-Chosen :
      (mode : String) (boundaries : Fields) (primary secondary : String)
      → ChosenIn primary secondary (select config supported mode boundaries primary secondary)
  unfolding select
  select-Chosen mode boundaries primary secondary =
      elim (Result-cases (usable config supported primary)) [
        | inr (e, h) ↦ rw (h, select) tt
        | inl ((true, p), h) ↦
            rw (h, select)
              (
                refl,
                refl,
                Selects.primary_usable _ (usable-IsRead config supported primary true p h) refl
                    refl,
              )
        | inl ((false, p), h) ↦ elim (Result-cases (usable config supported secondary)) [
          | inr (e, k) ↦ rw (h, select) (rw (k, select) tt)
          | inl ((true, q), k) ↦
              rw (h, select)
                (rw (k, select)
                  (
                    refl,
                    refl,
                    Selects.secondary_usable _ p (usable-IsRead config supported primary false p h)
                        (usable-IsRead config supported secondary true q k) refl refl,
                  ))
          | inl ((false, q), k) ↦
              rw (h, select)
                (rw (k, select)
                  (
                    refl,
                    refl,
                    Selects.none_usable _ p q (usable-IsRead config supported primary false p h)
                        (usable-IsRead config supported secondary false q k) refl refl refl,
                  ))
        ]
      ]

  select-mode :
      (mode : String) (boundaries : Fields) (primary secondary : String) (r : RouteSelection)
      → select config supported mode boundaries primary secondary ≡ ok r
      → r.mode ≡ mode
  unfolding select
  select-mode mode boundaries primary secondary r h = ground arith

  -- What comes of the two values that the entry has for its targets.
  select_from-IsRouted :
      (routing : Value) (mode : String) (boundaries table modes entry : Fields)
      (primary secondary : Option Value) (r : RouteSelection)
      → routing ≡ Value.obj table
      → find "modes" table ≡ some (Value.obj modes)
      → find mode modes ≡ some (Value.obj entry)
      → find "primary" entry ≡ primary
      → find "secondary" entry ≡ secondary
      → select_from config supported mode boundaries (or_null primary) (or_null secondary) ≡ ok r
      → IsRouted routing mode r
  unfolding select_from
  select_from-IsRouted routing mode boundaries table modes entry (some (Value.str p))
        (some (Value.str s)) r a b c d e h =
      (
        p,
        s,
        (table, modes, entry, a, b, c, d, e),
        select-mode mode boundaries p s r h,
        subst (ChosenIn p s) h (select-Chosen mode boundaries p s),
      )
  select_from-IsRouted routing mode boundaries table modes entry _ _ r a b c d e h =
      absurd (ground arith)

  -- A route that resolves has the two targets that the table declares for the mode. It selects the primary
  -- target if that is usable, otherwise the secondary target if that is usable, and otherwise no target with
  -- the null provider; it is marked as a fallback exactly in the last two cases. A target is usable if the
  -- provider that its namespace names is supported and, unless the provider configuration is empty, enabled.
  pub resolve_route-IsRouted :
      (routing : Value) (mode : String) (r : RouteSelection)
      → resolve_route config supported routing mode ≡ ok r
      → IsRouted routing mode r
  unfolding resolve_route require_mapping
  resolve_route-IsRouted routing mode r h =
      let (table, is_table, h₁) = require-inv (as_obj routing) _ _ r h in
      let (rules, _, h₂) = require-inv (as_obj (mapping_at "rules" table)) _ _ r h₁ in
      let h₃ = raise_if-inv _ _ _ r h₂ in
      let (boundaries, _, h₄) = require-inv (as_obj (mapping_at "boundaries" rules)) _ _ r h₃ in
      let (modes, is_modes, h₅) = require-inv (as_obj (mapping_at "modes" table)) _ _ r h₄ in
      let (found, is_found, h₆) = require-inv (find mode modes) _ _ r h₅ in
      let (entry, is_entry, h₇) = require-inv (as_obj found) _ _ r h₆ in
      select_from-IsRouted routing mode boundaries table modes entry (find "primary" entry)
        (find "secondary" entry) r (as_obj-inv routing table is_table)
        (mapping_at-inv "modes" mode table modes found is_modes is_found)
        (is_found ∙ ap some (as_obj-inv found entry is_entry)) refl refl h₇

-- ===== src/Memory/Packs.antt =====
-- What a pack expands to.
use io_iii_runtime.Prelude.{
  String, ◌≡◌, refl, some, List, [], ◌∷◌, ◌++◌, arith, inl, inr, subst, ap, Option-cases, ◌↔◌,
}
use io_iii_runtime.Python.Error.{Result, ok, err}
use io_iii_runtime.Runner.Induction.{Result-cases}
use io_iii_runtime.Memory.{MemoryPack, PackTable, included_keys, resolve_keys}

-- The keys of packs without includes, in order.
pub data Included (packs : PackTable) : List String → List String → Type 0 where
  no_includes : Included packs [] []
  include :
      (id : String) (ids keys : List String) (pack : MemoryPack)
      → packs id ≡ some pack
      → pack.include_packs ≡ []
      → Included packs ids keys
      → Included packs (id ∷ ids) (pack.keys ++ keys)

abbrev keys_or : List String → Result (List String) → List String
keys_or keys (ok ks) = ks
keys_or keys (err e) = keys

included_keys-Included :
    (packs : PackTable) (ids keys : List String)
    → included_keys packs ids ≡ ok keys
    → Included packs ids keys
unfolding included_keys
included_keys-Included packs [] keys h =
    subst (Included packs []) (ap (keys_or keys) h) Included.no_includes
included_keys-Included packs (id ∷ ids) keys h = elim (Option-cases (packs id)) [
  | inl e ↦ absurd (ground (arith, e, h))
  | inr (pack, e) ↦ elim (Result-cases (included_keys packs ids)) [
    | inr (x, k) ↦ absurd (ground (arith, e, k, h))
    | inl (rest, k) ↦
        let nested : pack.include_packs ≡ [] = ground (arith, e, k, h) in
        let all : pack.keys ++ rest ≡ keys = ground (arith, e, k, h) in
        subst (Included packs (id ∷ ids)) all
          (Included.include id ids rest pack e nested (included_keys-Included packs ids rest k))
  ]
]

Included-included_keys :
    (packs : PackTable) (ids keys : List String)
    → Included packs ids keys
    → included_keys packs ids ≡ ok keys
unfolding included_keys
Included-included_keys packs ids keys Included.no_includes = refl
Included-included_keys packs ids keys (Included.include id ids' keys' pack e n i) =
    rw (e, n, Included-included_keys packs ids' keys' i) refl

-- A pack resolves to some keys exactly if it is declared, every pack that it includes is declared
-- and includes none itself, and the keys are those of the included packs in order and then its own. The
-- scopes of the packs play no part in it: the keys of an included pack of another scope are among them.
pub resolve_keys_iff :
    (packs : PackTable) (id : String) (keys : List String)
    → (resolve_keys packs id ≡ ok keys) ↔ (
        (pack : MemoryPack) × (packs id ≡ some pack)
        × (inner : List String) × Included packs pack.include_packs inner
        × (keys ≡ inner ++ pack.keys))
unfolding resolve_keys
resolve_keys_iff packs id keys = (
  λ h. grind (arith, included_keys-Included),
  λ (pack, e, inner, i, k). rw (e, Included-included_keys packs pack.include_packs inner i, k) refl,
)

-- ===== src/Routing/Usable.antt =====
-- What a target is read as, and when its provider may be used.
use Prim.Native.Char.{Char, code}
use Prim.Native.String.{◌∷◌, ◌++◌}
use io_iii_runtime.Prelude.{
  ◌≡◌, subst, String, Bool, true, false, Option, none, some, List, arith, if◌then◌else◌, ◌⊎◌, ◌↔◌,
  str_eq,
}
use io_iii_runtime.Python.Text.{elem, strip, is_empty, split_colon}
use io_iii_runtime.Python.Text.Colon.{HasColon, Parts, split_colon-Parts}
use io_iii_runtime.Python.Value.{Value, Fields, truthy}
use io_iii_runtime.Python.Error.{ok, bind-inv}
use io_iii_runtime.Routing.{
  supported_or_null, is_available, is_provider_enabled, namespace_to_provider, parts, parse_target,
  usable,
}

-- The target is a namespace and a model around its first colon, neither of them blank; the namespace
-- `local` is that of the provider `ollama`, every other one is the provider's name.
abbrev pub IsTarget : String → String → Type 0
IsTarget target provider =
    (namespace : String) × (c : Char) × (model : String) × ¬ HasColon namespace
    × (code c ≡ b':')
    × (target ≡ namespace ++ c ∷ model)
    × (is_empty (strip namespace) ≡ false)
    × (is_empty (strip model) ≡ false)
    × (provider ≡ (if str_eq (strip namespace) "local" then "ollama" else strip namespace))

module _ (config : Fields) (supported : List String) where
  -- The provider is supported and, unless the configuration is empty, enabled.
  abbrev pub IsEnabled : String → Type 0
  IsEnabled provider =
      (elem provider (supported_or_null supported) ≡ true)
      × ((truthy (Value.obj config) ≡ false) ⊎ (is_provider_enabled config provider ≡ true))

  -- The target has that provider, and `b` tells whether it may be used.
  abbrev pub IsRead : String → Bool → String → Type 0
  IsRead target b provider = IsTarget target provider × ((b ≡ true) ↔ IsEnabled provider)

  is_available-IsEnabled :
      (provider : String) → (is_available config supported provider ≡ true) ↔ IsEnabled provider
  unfolding is_available
  is_available-IsEnabled provider = (λ h. ground arith, λ h. ground arith)

  parts-IsTarget :
      (target : String) (o : Option (String × String)) (p : String × String)
      → Parts target o
      → parts o ≡ ok p
      → IsTarget target (namespace_to_provider p.0)
  unfolding parts
  parts-IsTarget target none p split h = absurd (ground arith)
  parts-IsTarget target (some (namespace, model)) p (c, free, colon, split) h =
      (namespace, c, model, free, colon, split, ground arith, ground arith, ground arith)

  pub usable-IsRead :
      (target : String) (b : Bool) (provider : String)
      → usable config supported target ≡ ok (b, provider)
      → IsRead target b provider
  unfolding usable parse_target
  usable-IsRead target b provider h =
      let (p, parsed, h₁) = bind-inv (parse_target target) _ (b, provider) h in
      let name : namespace_to_provider p.0 ≡ provider = ground arith in
      let test : is_available config supported provider ≡ b = ground arith in
      (
        subst (IsTarget target) name
            (parts-IsTarget target (split_colon target) p (split_colon-Parts target) parsed),
        subst (λ x. (x ≡ true) ↔ IsEnabled provider) test (is_available-IsEnabled provider),
      )

-- ===== src/Constellation/Models.antt =====
-- The model of a target, apart from how the check finds it.
use Prim.Native.Char.{Char, code}
use Prim.Native.String.{◌∷◌, ◌++◌}
use io_iii_runtime.Prelude.{◌≡◌, refl, String, Option, none, some, ◌⊎◌, inl, inr}
use io_iii_runtime.Python.Text.{split_colon}
use io_iii_runtime.Python.Text.Colon.{HasColon, Parts, split_colon-Parts}
use io_iii_runtime.Constellation.{extract_model, after_colon}

-- `m` is what stands behind the first colon of the target, or the whole target without a colon.
abbrev pub IsModelOf : String → String → Type 0
IsModelOf target m =
    ((namespace : String) × (c : Char) × ¬ HasColon namespace
      × (code c ≡ b':')
      × (target ≡ namespace ++ c ∷ m))
    ⊎ ¬ HasColon target × (target ≡ m)

after_colon-IsModelOf :
    (target : String) (o : Option (String × String))
    → Parts target o
    → IsModelOf target (after_colon target o)
after_colon-IsModelOf target none free = inr (free, refl)
after_colon-IsModelOf target (some (namespace, m)) (c, free, colon, split) =
    inl (namespace, c, free, colon, split)

pub extract_model-IsModelOf : (target : String) → IsModelOf target (extract_model target)
unfolding extract_model
extract_model-IsModelOf target =
    after_colon-IsModelOf target (split_colon target) (split_colon-Parts target)

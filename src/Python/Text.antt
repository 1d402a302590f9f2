-- ===== src/Python/Text.antt =====
-- Methods of `str`. A `String` is a list of characters by its own `[]` and `∷`.
pub mod Strip
pub mod Slice
pub mod Join
pub mod Colon
use Prim.Native.Char.{Char, code}
use Prim.Native.String.{[], ◌∷◌}
use io_iii_runtime.Prelude.{
  ℕ, String, ◌≡◌, refl, Bool, true, false, not, ◌&&◌, ◌||◌, Option, none, some, List, arith, leb,
  ◌==◌, if◌then◌else◌, str_eq,
}
use io_iii_runtime.Prelude

-- The characters that `str.strip` removes.
is_space : Char → Bool
is_space ch =
    let c = code ch in
    (leb 9 c && leb c 13)
    || (leb 28 c && leb c 32)
    || c == 133
    || c == 160
    || c == 5760
    || (leb 8192 c && leb c 8202)
    || c == 8232
    || c == 8233
    || c == 8239
    || c == 8287
    || c == 12288

abbrev pub is_empty : String → Bool
is_empty [] = true
is_empty (_ ∷ _) = false

lstrip : String → String
lstrip [] = []
lstrip (c ∷ s) = let rest = lstrip s in if is_space c then rest else c ∷ s

rstrip : String → String
rstrip [] = []
rstrip (c ∷ s) = let rest = rstrip s in if is_space c && is_empty rest then [] else c ∷ rest

unfoldable pub strip : String → String
unfolding lstrip rstrip is_space
strip s = rstrip (lstrip s)

-- `not s.strip()`
unfoldable pub is_blank : String → Bool
unfolding strip
is_blank s = is_empty (strip s)

abbrev pub cons_head : Char → Option (String × String) → Option (String × String)
cons_head c none = none
cons_head c (some (head, rest)) = some (c ∷ head, rest)

-- `s.split(":", 1)`, when there is a colon.
unfoldable pub split_colon : String → Option (String × String)
split_colon [] = none
split_colon (c ∷ s) =
    let rest = cons_head c (split_colon s) in if code c == b':' then some ([], s) else rest

-- Membership of a text in a list of texts.
abbrev pub elem : String → List String → Bool
elem x List.[] = false
elem x (List.◌∷◌ y ys) = str_eq x y || elem x ys

-- ===== src/Python/Text/Colon.antt =====
-- The two parts of a text at its first colon.
use Prim.Native.Char.{Char, code}
use Prim.Native.String.{[], ◌∷◌, ◌++◌}
use text.Mathlib.TextLemmas.{nil-append, cons-append}
use io_iii_runtime.Prelude.{
  ◌≡◌, ◌≢◌, ap, sym, ◌∙◌, String, Option, none, some, arith, ◌==◌, ◌⊎◌, inl, inr, Bool-cases,
}
use io_iii_runtime.Python.Text.{split_colon, cons_head}

abbrev pub HasColon : String → Type 0
HasColon [] = ⊥
HasColon (c ∷ s) = (code c ≡ b':') ⊎ HasColon s

-- What `split_colon` finds.
abbrev pub Parts : String → Option (String × String) → Type 0
Parts s none = ¬ HasColon s
Parts s (some (head, rest)) =
    (c : Char) × ¬ HasColon head × (code c ≡ b':') × (s ≡ head ++ c ∷ rest)

no_colon : (c : Char) (s : String) → code c ≢ b':' → ¬ HasColon s → ¬ HasColon (c ∷ s)
no_colon c s other free = λ h. elim h [ inl e ↦ other e | inr f ↦ free f ]

cons_head-Parts :
    (c : Char) (s : String) (o : Option (String × String))
    → code c ≢ b':'
    → Parts s o
    → Parts (c ∷ s) (cons_head c o)
cons_head-Parts c s none other free = no_colon c s other free
cons_head-Parts c s (some (head, rest)) other (d, free, colon, split) = (
  d,
  no_colon c head other free,
  colon,
  ap (λ t. c ∷ t) split ∙ sym (cons-append c head (d ∷ rest)),
)

pub split_colon-Parts : (s : String) → Parts s (split_colon s)
unfolding split_colon
split_colon-Parts [] = λ h. h
split_colon-Parts (c ∷ s) = elim (Bool-cases (code c == b':')) [
  | inl h ↦ rw h (c, (λ x. x), ground arith, sym (nil-append (c ∷ s)))
  | inr h ↦ rw h (cons_head-Parts c s (split_colon s) (ground arith) (split_colon-Parts s))
]

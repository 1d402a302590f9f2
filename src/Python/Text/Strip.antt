-- ===== src/Python/Text/Strip.antt =====
-- `str.strip` twice is `str.strip` once.
use Prim.Native.String.{[], ◌∷◌}
use io_iii_runtime.Prelude.{String, ◌≡◌, refl, ap, ◌∙◌, Bool, true, not, arith}
use io_iii_runtime.Python.Text.{is_space, is_empty, lstrip, rstrip, strip, is_blank}

-- The text does not begin with white space.
starts_clean : String → Bool
starts_clean [] = true
starts_clean (c ∷ s) = not (is_space c)

starts_clean-lstrip : (s : String) → starts_clean (lstrip s) ≡ true
unfolding starts_clean lstrip
starts_clean-lstrip [] = refl
starts_clean-lstrip (c ∷ s) = ground (arith, starts_clean-lstrip s)

starts_clean-rstrip : (s : String) → starts_clean s ≡ true → starts_clean (rstrip s) ≡ true
unfolding starts_clean rstrip
starts_clean-rstrip [] h = refl
starts_clean-rstrip (c ∷ s) h = ground arith

lstrip_of_clean : (s : String) → starts_clean s ≡ true → lstrip s ≡ s
unfolding starts_clean lstrip
lstrip_of_clean [] h = refl
lstrip_of_clean (c ∷ s) h = ground arith

rstrip_idem : (s : String) → rstrip (rstrip s) ≡ rstrip s
unfolding rstrip
rstrip_idem [] = refl
rstrip_idem (c ∷ s) = ground (arith, rstrip_idem s)

pub strip_idem : (s : String) → strip (strip s) ≡ strip s
unfolding strip
strip_idem s =
    ap rstrip
      (lstrip_of_clean (rstrip (lstrip s)) (starts_clean-rstrip (lstrip s) (starts_clean-lstrip s)))
    ∙ rstrip_idem (lstrip s)

pub is_blank-strip : (s : String) → is_blank (strip s) ≡ is_blank s
unfolding is_blank
is_blank-strip s = ap is_empty (strip_idem s)

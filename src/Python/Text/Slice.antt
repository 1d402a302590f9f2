-- ===== src/Python/Text/Slice.antt =====
-- Slices, searches and decimal numerals of texts; positions and lengths count characters.
use Prim.Native.Char.{code}
use Prim.Native.String.{[], ◌∷◌, ◌++◌}
use io_iii_runtime.Prelude.{
  ℕ, zero, suc, ◌+◌, ◌/◌, ◌%◌, ◌≤◌, ◌<◌, ◌≡◌, refl, String, Bool, true, false, ◌&&◌, Option, none,
  some, arith, ltb, leb, ◌==◌, if◌then◌else◌, ap,
}

-- `len(s)`
abbrev pub str_length : String → ℕ
str_length [] = 0
str_length (c ∷ s) = suc (str_length s)

-- `s[:n]`
abbrev pub str_take : ℕ → String → String
str_take zero s = []
str_take (suc n) [] = []
str_take (suc n) (c ∷ s) = c ∷ str_take n s

abbrev or_here : Option ℕ → Bool → ℕ → Option ℕ
or_here (some j) b i = some j
or_here none true i = some i
or_here none false i = none

-- `s.rfind(chr(c), start)` for a text whose first character is at position `i`.
unfoldable pub rfind : ℕ → ℕ → ℕ → String → Option ℕ
rfind c start i [] = none
rfind c start i (d ∷ s) = or_here (rfind c start (suc i) s) (code d == c && leb start i) i

pub rfind-lt : (c start i j : ℕ) (s : String) → rfind c start i s ≡ some j → j < i + str_length s
unfolding rfind
rfind-lt c start i j [] h = cc
rfind-lt c start i j (d ∷ s) h = ground (arith, rfind-lt c start (suc i) j s)

pub str_take_all : (n : ℕ) (s : String) → str_length s ≤ n → str_take n s ≡ s
str_take_all zero [] h = refl
str_take_all zero (c ∷ s) h = absurd (omega (arith, h))
str_take_all (suc n) [] h = refl
str_take_all (suc n) (c ∷ s) h = ap (λ t. c ∷ t) (str_take_all n s (omega (arith, h)))

pub str_length-str_take : (n : ℕ) (s : String) → n ≤ str_length s → str_length (str_take n s) ≡ n
str_length-str_take zero s h = refl
str_length-str_take (suc n) [] h = absurd (omega (arith, h))
str_length-str_take (suc n) (c ∷ s) h = ap suc (str_length-str_take n s (omega (arith, h)))

pub str_take-str_take : (m n : ℕ) (s : String) → m ≤ n → str_take m (str_take n s) ≡ str_take m s
str_take-str_take zero n s h = refl
str_take-str_take (suc m) zero s h = absurd (omega (arith, h))
str_take-str_take (suc m) (suc n) [] h = refl
str_take-str_take (suc m) (suc n) (c ∷ s) h =
    ap (λ t. c ∷ t) (str_take-str_take m n s (omega (arith, h)))

-- `s[n:]`
abbrev pub str_drop : ℕ → String → String
str_drop zero s = s
str_drop (suc n) [] = []
str_drop (suc n) (c ∷ s) = str_drop n s

abbrev digit : ℕ → String
digit n = str_take 1 (str_drop n "0123456789")

-- Each round drops a digit, so a number has fewer digits than its value and one.
digits : ℕ → ℕ → String
digits zero n = ""
digits (suc fuel) n =
    let rest = digits fuel (n / 10) in if ltb n 10 then digit n else rest ++ digit (n % 10)

-- `str(n)`
unfoldable pub decimal : ℕ → String
unfolding digits
decimal n = digits (suc n) n

twelve : decimal 120 ≡ "120"
unfolding decimal
twelve = refl

-- ===== src/Python/Text/Join.antt =====
-- Texts from parts: f-strings, `str.join`, and the text of a Boolean.
use Prim.Native.String.{◌++◌}
use io_iii_runtime.Prelude.{String, Bool, true, false, List, [], ◌∷◌}

-- `sep.join(parts)`
abbrev pub join : String → List String → String
join sep [] = ""
join sep (s ∷ []) = s
join sep (s ∷ t ∷ rest) = s ++ (sep ++ join sep (t ∷ rest))

-- The parts of an f-string, one after another.
abbrev pub concat : List String → String
concat [] = ""
concat (s ∷ rest) = s ++ concat rest

-- `str(b)`
abbrev pub bool_text : Bool → String
bool_text true = "True"
bool_text false = "False"

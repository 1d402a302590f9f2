-- ===== src/Memory/Provenance.antt =====
-- `_validate_provenance` of io_iii/memory/store.py, with the regular expression read out.
use Prim.Native.Char.{Char, code}
use Prim.Native.String.{[], ◌∷◌}
use text.Mathlib.Text.{starts_with}
use io_iii_runtime.Prelude.{String, Bool, true, false, ◌&&◌, ◌||◌, leb, ◌==◌, str_eq}
use io_iii_runtime.Python.Text.Slice.{str_drop}

-- `[a-zA-Z0-9._-]`
is_slug_char : Char → Bool
is_slug_char ch =
    let c = code ch in
    (leb b'a' c && leb c b'z')
    || (leb b'A' c && leb c b'Z')
    || (leb b'0' c && leb c b'9')
    || c == b'.'
    || c == b'_'
    || c == b'-'

-- `[a-zA-Z0-9._-]*$`: `$` also stands before a last line break.
slug_rest : String → Bool
slug_rest [] = true
slug_rest (c ∷ s) = (is_slug_char c && slug_rest s) || (code c == 10 && str_eq s "")

-- `[a-zA-Z0-9._-]+$`
slug : String → Bool
slug [] = false
slug (c ∷ s) = is_slug_char c && slug_rest s

unfoldable pub is_provenance : String → Bool
unfolding slug slug_rest is_slug_char
is_provenance s =
    str_eq s "human" || str_eq s "mixed" || (starts_with s "llm:" && slug (str_drop 4 s))

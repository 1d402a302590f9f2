-- ===== src/Context/Prompt.antt =====
-- The sections of the system prompt.
use io_iii_runtime.Prelude.{String, not, Option, none, some, List, [], ◌∷◌, ◌++◌, if◌then◌else◌}
use io_iii_runtime.Python.Text.{strip, is_blank, is_empty}
use io_iii_runtime.Python.Text.Join.{join, concat, bool_text}
use io_iii_runtime.Python.Value.{Value, Items, Fields, get, truthy}
use io_iii_runtime.Python.Error.{ExnClass, Exn, exn, type_err, Result, ok, err, ◌>>=◌}
use io_iii_runtime.SessionState.{SessionState, RouteInfo}
use io_iii_runtime.Memory.{MemoryRecord}
use io_iii_runtime.Runbook.{is_nil}
use io_iii_runtime.Context.Metadata.{identifier, restrict, safe_keys}

-- `characters s` are the texts that iterating over `s` gives.
pub record Library : Type 0 where
  pub show : Value → String
  pub capitalize : String → String
  pub canonical_json : Value → String
  pub sha256 : String → String
  pub characters : String → List String

-- What `load_identity` and `load_user_profile` return.
pub record Persona : Type 0 where
  pub identity : Fields
  pub user_profile : Fields

attribute_err : Exn
attribute_err = exn ExnClass.other "AttributeError"

stripped : Value → Result String
unfolding attribute_err
stripped (Value.str s) = ok (strip s)
stripped v = err attribute_err

-- `(d.get(k) or default).strip()`
unfoldable pub text_or : String → String → Fields → Result String
unfolding stripped
text_or default k d = if truthy (get k d) then stripped (get k d) else ok (strip default)

-- `[text]` if there is some text.
abbrev when : String → String → List String
when s line = if is_empty s then [] else line ∷ []

header : String → String → String → String
header name description style = concat (
    "You are IO-III. "
    ∷ join " " (
        concat ("Your name is " ∷ name ∷ "." ∷ []) ∷ when description description
        ++ when style (concat ("Communication style: " ∷ style ∷ [])))
    ∷ "\n"
    ∷ "When asked your name, respond with your name only.\n"
    ∷ "Operate under governance-first constraints.\n"
    ∷ "Follow deterministic, bounded execution.\n"
    ∷ "Output must be a single unified final response.\n"
    ∷ [])

identity_header : Fields → Result String
unfolding text_or header
identity_header d = do
  name ← text_or "IO-III" "name" d
  description ← text_or "" "description" d
  style ← text_or "" "style" d
  ok (header name description style)

-- `[e.strip() for e in items if str(e).strip()]`: the text of a value that is no text is not blank.
strip_items : Items → Result (List String)
unfolding attribute_err
strip_items Items.nil = ok []
strip_items (Items.cons (Value.str s) xs) =
    strip_items xs >>= λ rest. ok (if is_blank s then rest else strip s ∷ rest)
strip_items (Items.cons v xs) = err attribute_err

text_items : List String → Items
text_items [] = Items.nil
text_items (s ∷ ss) = Items.cons (Value.str s) (text_items ss)

key_items : Fields → Items
key_items Fields.end = Items.nil
key_items (Fields.field k v d) = Items.cons (Value.str k) (key_items d)

module _ (lib : Library) where
  -- `user.get("expertise") or []`, iterated over.
  iterated : Value → Result Items
  unfolding text_items key_items
  iterated (Value.arr xs) = ok xs
  iterated (Value.obj d) = ok (key_items d)
  iterated (Value.str s) = ok (text_items (lib.characters s))
  iterated _ = err (type_err "object is not iterable")

  expertise : Value → Result (List String)
  unfolding iterated strip_items
  expertise v = if truthy v then iterated v >>= strip_items else ok []

  preference_lines : Fields → List String
  preference_lines Fields.end = []
  preference_lines (Fields.field k v d) =
      let rest = preference_lines d in
      if truthy v then concat (lib.capitalize k ∷ ": " ∷ lib.show v ∷ []) ∷ rest else rest

  -- A truthy value that is no dictionary has no `items`.
  preferences : Value → Result (List String)
  unfolding preference_lines attribute_err
  preferences (Value.obj d) = ok (preference_lines d)
  preferences v = if truthy v then err attribute_err else ok []

  abbrev user_lines : String → String → List String → List String → String → List String
  user_lines name role skills prefs notes =
      when name (concat ("Name: " ∷ name ∷ []))
      ++ when role (concat ("Role: " ∷ role ∷ []))
      ++ (if not (is_nil skills) then concat ("Expertise: " ∷ join ", " skills ∷ []) ∷ [] else [])
      ++ prefs
      ++ when notes (concat ("Notes: " ∷ notes ∷ []))

  user_section : List String → List String
  user_section [] = []
  user_section (l ∷ ls) =
      strip (concat ("=== User Profile ===\n" ∷ join "\n" (l ∷ ls) ∷ "\n" ∷ [])) ∷ []

  profile_section : Fields → Result (List String)
  unfolding text_or expertise preferences user_section
  profile_section d = do
    name ← text_or "" "name" d
    role ← text_or "" "role" d
    skills ← expertise (get "expertise" d)
    notes ← text_or "" "notes" d
    prefs ← preferences (get "preferences" d)
    ok (user_section (user_lines name role skills prefs notes))

  abbrev boundaries_of : Option RouteInfo → Fields
  boundaries_of none = Fields.end
  boundaries_of (some r) = r.boundaries

  -- `_format_boundaries_section`
  unfoldable pub format_boundaries_section : SessionState → Fields → String
  unfolding restrict
  format_boundaries_section state route_metadata = concat (
      "=== Runtime Boundaries ===\n"
      ∷ "provider: "
      ∷ state.provider
      ∷ "\n"
      ∷ "route_id: "
      ∷ state.route_id
      ∷ "\n"
      ∷ "route_metadata: "
      ∷ lib.canonical_json (Value.obj (restrict safe_keys route_metadata))
      ∷ "\n"
      ∷ "boundaries: "
      ∷ lib.canonical_json (Value.obj (boundaries_of state.route))
      ∷ "\n"
      ∷ [])

  abbrev envelope_section : SessionState → String
  envelope_section state = concat (
      "=== Execution Envelope ===\n"
      ∷ "mode: "
      ∷ state.mode
      ∷ "\n"
      ∷ "audit_enabled: "
      ∷ bool_text state.audit.audit_enabled
      ∷ "\n"
      ∷ "max_audit_passes: 1\n"
      ∷ "max_revision_passes: 1\n"
      ∷ [])

  memory_lines : List MemoryRecord → List String
  memory_lines [] = []
  memory_lines (r ∷ rs) = concat ("[" ∷ identifier r ∷ "]" ∷ []) ∷ r.value ∷ "" ∷ memory_lines rs

  -- `_format_memory_section`
  unfoldable pub format_memory_section : List MemoryRecord → String
  unfolding memory_lines
  format_memory_section rs = join "\n" ("=== Memory ===" ∷ memory_lines rs)

  memory_section : List MemoryRecord → List String
  unfolding format_memory_section
  memory_section [] = []
  memory_section (r ∷ rs) = strip (format_memory_section (r ∷ rs)) ∷ []

  -- `_RUNTIME_ATTRIBUTION`
  abbrev pub runtime_attribution : String
  runtime_attribution = concat (
      "=== Runtime ===\n" ∷ "I0³ io-iii-runtime · https://github.com/CevenJKnowles/io-iii-runtime"
      ∷ " · © Ceven Jupiter Knowles\n" ∷ [])

  -- `_build_system_prompt`
  unfoldable pub build_system_prompt :
      Persona → SessionState → String → Fields → List MemoryRecord → Result String
  unfolding identity_header profile_section format_boundaries_section memory_section
  build_system_prompt persona state contract route_metadata injected = do
    head ← identity_header persona.identity
    profile ← profile_section persona.user_profile
    ok (
        concat (
          strip (
            join "\n" (
              strip head
                ∷ strip (concat ("=== Persona Contract ===\n" ∷ strip contract ∷ "\n" ∷ []))
                ∷ profile
              ++ strip (format_boundaries_section state route_metadata)
                ∷ strip (envelope_section state)
                ∷ memory_section injected))
          ∷ "\n"
          ∷ strip runtime_attribution
          ∷ "\n"
          ∷ []))

-- ===== src/Memory/Store.antt =====
-- io_iii/memory/store.py: records as files. Files hold what the parser reads;
-- `fault` is the error of the operating system, if it refuses a write.
use io_iii_runtime.Prelude.{
  ℕ, suc, String, Bool, true, not, ◌&&◌, Option, none, some, List, [], ◌∷◌, if◌then◌else◌, is_some,
}
use io_iii_runtime.Python.Text.{elem, is_empty}
use io_iii_runtime.Python.Value.{ℤ, Value, Fields, get, has, nat, as_int}
use io_iii_runtime.Python.Error.{Exn, value_err, type_err, Result, ok, err, ◌>>=◌, ◌>>◌, raise_if}
use io_iii_runtime.Python.Storage as Files
use io_iii_runtime.Python.Storage.{Stored, Storage, decode_err}
use io_iii_runtime.Memory.{MemoryRecord}
use io_iii_runtime.Memory.Provenance.{is_provenance}

abbrev pub valid_sensitivity : List String
valid_sensitivity = "standard" ∷ "elevated" ∷ "restricted" ∷ []

-- A text that is not empty.
filled : Value → String → Result String
filled (Value.str s) message = if is_empty s then err (value_err message) else ok s
filled _ message = err (value_err message)

text : Value → String → Result String
text (Value.str s) message = ok s
text _ message = err (value_err message)

positive : Option ℤ → String → Result ℕ
positive (some (ℤ.pos (suc n))) message = ok (suc n)
positive _ message = err (value_err message)

-- A value that is no text is no dictionary key, or no argument of a regular expression.
provenance_of : Value → Result String
provenance_of (Value.str s) =
    if is_provenance s then ok s else err (value_err "MemoryRecord.provenance must be ")
provenance_of _ = err (type_err "expected string or bytes-like object")

sensitivity_of : Value → Result String
sensitivity_of (Value.str s) =
    if elem s valid_sensitivity
    then ok s
    else err (value_err "MemoryRecord.sensitivity must be one of ")
sensitivity_of (Value.arr _) = err (type_err "unhashable type: 'list'")
sensitivity_of (Value.obj _) = err (type_err "unhashable type: 'dict'")
sensitivity_of _ = err (value_err "MemoryRecord.sensitivity must be one of ")

-- `MemoryRecord(…)`, with the checks of `__post_init__` in their order.
unfoldable pub make_record :
    Value → Value → Value → Value → Value → Value → Value → Value → Result MemoryRecord
unfolding filled text positive provenance_of sensitivity_of is_provenance
make_record key scope value version provenance created_at updated_at sensitivity = do
  k ← filled key "MemoryRecord.key must be a non-empty string"
  s ← filled scope "MemoryRecord.scope must be a non-empty string"
  v ← text value "MemoryRecord.value must be a string"
  n ← positive (as_int version) "MemoryRecord.version must be an integer >= 1"
  p ← provenance_of provenance
  t ← sensitivity_of sensitivity
  c ← filled created_at "MemoryRecord.created_at must be a non-empty string"
  u ← filled updated_at "MemoryRecord.updated_at must be a non-empty string"
  ok (record {
    key = k;
    scope = s;
    value = v;
    version = n;
    provenance = p;
    created_at = c;
    updated_at = u;
    sensitivity = t;
  })

abbrev field_names : List String
field_names =
    "key" ∷ "scope" ∷ "value" ∷ "version" ∷ "provenance" ∷ "created_at" ∷ "updated_at"
    ∷ "sensitivity" ∷ []

all_present : List String → Fields → Bool
all_present [] d = true
all_present (k ∷ ks) d = has k d && all_present ks d

all_known : Fields → Bool
all_known Fields.end = true
all_known (Fields.field k v d) = elem k field_names && all_known d

-- `MemoryRecord(**data)`
unfoldable pub deserialise : Value → Result MemoryRecord
unfolding make_record all_present all_known
deserialise (Value.obj d) = do
  raise_if (not (all_known d)) (type_err "__init__() got an unexpected keyword argument ")
  raise_if (not (all_present field_names d)) (type_err "__init__() missing ")
  make_record (get "key" d) (get "scope" d) (get "value" d) (get "version" d) (get "provenance" d)
      (get "created_at" d) (get "updated_at" d) (get "sensitivity" d)
deserialise _ = err (type_err "argument after ** must be a mapping")

-- `dataclasses.asdict(record)`
unfoldable pub record_data : MemoryRecord → Value
record_data r = Value.obj (
    Fields.field "key" (Value.str r.key) (
      Fields.field "scope" (Value.str r.scope) (
        Fields.field "value" (Value.str r.value) (
          Fields.field "version" (nat r.version) (
            Fields.field "provenance" (Value.str r.provenance) (
              Fields.field "created_at" (Value.str r.created_at) (
                Fields.field "updated_at" (Value.str r.updated_at)
                  (Fields.field "sensitivity" (Value.str r.sensitivity) Fields.end))))))))

abbrev pub parse_err : Exn
parse_err = value_err "Expecting value"

unfoldable pub found : Result MemoryRecord → Result (Option MemoryRecord)
found (ok r) = ok (some r)
found (err e) = err e

unfoldable pub read : Option Stored → Result (Option MemoryRecord)
unfolding found deserialise
read none = ok none
read (some Stored.unreadable) = err parse_err
read (some Stored.undecodable) = err decode_err
read (some (Stored.parsed v)) = found (deserialise v)

unfoldable pub add_found : Option MemoryRecord → List MemoryRecord → List MemoryRecord
add_found none rs = rs
add_found (some r) rs = r ∷ rs

-- `location scope key` is the file at which `_record_path` arrives: `root / scope / f"{key}.json"` as the
-- path library and the file system read it, so separators and `..` in a name may lead to the file of
-- another record.
module _ (location : String → String → String) where
  -- `MemoryStore.get`
  unfoldable pub get_record : String → String → Storage → Result (Option MemoryRecord)
  unfolding read
  get_record scope key files = read (files (location scope key))

  -- `MemoryStore.put`
  unfoldable pub put_record : Option Exn → MemoryRecord → Storage → Result (Unit {0}) × Storage
  unfolding record_data
  put_record (some e) r files = (err e, files)
  put_record none r files = (ok tt, Files.put (location r.scope r.key) (record_data r) files)

  -- `MemoryStore.exists`
  unfoldable pub exists : String → String → Storage → Bool
  exists scope key files = is_some (files (location scope key))

  -- `MemoryStore.list_by_keys`
  unfoldable pub list_by_keys : String → List String → Storage → Result (List MemoryRecord)
  unfolding get_record add_found
  list_by_keys scope [] files = ok []
  list_by_keys scope (k ∷ ks) files = do
    r ← get_record scope k files
    rest ← list_by_keys scope ks files
    ok (add_found r rest)

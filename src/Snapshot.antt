-- ===== src/Snapshot.antt =====
-- io_iii/core/snapshot.py: the portable snapshot of a session, its export and its import. The time of
-- the export is an argument; `fault` is the error of the operating system, if it refuses the write.
pub mod RoundTrip
mod Tests
use io_iii_runtime.Prelude.{
  String, Bool, true, false, not, ◌||◌, Option, none, some, List, [], ◌∷◌, if◌then◌else◌,
}
use io_iii_runtime.Python.Text.{is_blank}
use io_iii_runtime.Python.Text.Join.{concat}
use io_iii_runtime.Python.Value.{Value, Items, Fields, get, has, is_str}
use io_iii_runtime.Python.Error.{Exn, value_err, Result, ok, err, ◌>>=◌, ◌>>◌, raise_if}
use io_iii_runtime.Python.Storage.{Stored, Storage, put}
use io_iii_runtime.SessionState.{SessionState}

pub record SessionSnapshot : Type 0 where
  pub schema_version : String
  pub run_id : String
  pub workflow_position : String
  pub active_memory_pack_ids : Items
  pub governance_mode : String
  pub exported_at : String

abbrev pub schema_invalid : Exn
schema_invalid = value_err "SNAPSHOT_SCHEMA_INVALID: "

any_missing : List String → Fields → Bool
any_missing [] d = false
any_missing (k ∷ ks) d = not (has k d) || any_missing ks d

-- `REQUIRED_SNAPSHOT_FIELDS`
abbrev required_snapshot_fields : List String
required_snapshot_fields =
    "schema_version" ∷ "run_id" ∷ "workflow_position" ∷ "active_memory_pack_ids" ∷ "governance_mode"
    ∷ "exported_at" ∷ []

-- A text with something in it.
filled : Value → Result String
filled (Value.str s) = if is_blank s then err schema_invalid else ok s
filled v = err schema_invalid

items : Value → Result Items
items (Value.arr xs) = ok xs
items v = err schema_invalid

-- `_validate_snapshot_dict`, and the record of the fields that it has checked.
unfoldable pub validated : Fields → Result SessionSnapshot
unfolding any_missing filled items
validated d = do
  raise_if (any_missing required_snapshot_fields d) schema_invalid
  raise_if (not (is_str "v1" (get "schema_version" d))) schema_invalid
  packs ← items (get "active_memory_pack_ids" d)
  run ← filled (get "run_id" d)
  position ← filled (get "workflow_position" d)
  mode ← filled (get "governance_mode" d)
  time ← filled (get "exported_at" d)
  ok (record {
    schema_version = "v1";
    run_id = run;
    workflow_position = position;
    active_memory_pack_ids = packs;
    governance_mode = mode;
    exported_at = time;
  })

unfoldable pub read : Option Stored → Result SessionSnapshot
unfolding validated
read none = err schema_invalid
read (some Stored.unreadable) = err schema_invalid
read (some Stored.undecodable) = err schema_invalid
read (some (Stored.parsed (Value.obj d))) = validated d
read (some (Stored.parsed v)) = err schema_invalid

unfoldable pub import_snapshot : String → Storage → Result SessionSnapshot
unfolding read
import_snapshot path files = read (files path)

-- `_resolve_output_path`
unfoldable pub resolve_output_path : Option String → Option String → String → Result String
resolve_output_path (some path) root run_id = ok path
resolve_output_path none (some root) run_id =
    ok (concat (root ∷ "/" ∷ run_id ∷ ".snapshot.json" ∷ []))
resolve_output_path none none run_id = err schema_invalid

unfoldable pub snapshot_data : SessionSnapshot → Value
snapshot_data s = Value.obj (
    Fields.field "schema_version" (Value.str s.schema_version) (
      Fields.field "run_id" (Value.str s.run_id) (
        Fields.field "workflow_position" (Value.str s.workflow_position) (
          Fields.field "active_memory_pack_ids" (Value.arr s.active_memory_pack_ids) (
            Fields.field "governance_mode" (Value.str s.governance_mode)
              (Fields.field "exported_at" (Value.str s.exported_at) Fields.end))))))

-- The control-plane fields of the session.
unfoldable pub snapshot_of : SessionState → Items → String → SessionSnapshot
snapshot_of state packs now = record {
  schema_version = "v1";
  run_id = state.request_id;
  workflow_position = state.route_id;
  active_memory_pack_ids = packs;
  governance_mode = state.mode;
  exported_at = now;
}

-- `_write_snapshot`
unfoldable pub write_snapshot :
    Option Exn → SessionSnapshot → String → Storage → Result SessionSnapshot × Storage
unfolding snapshot_data
write_snapshot (some e) s path files = (err e, files)
write_snapshot none s path files = (ok s, put path (snapshot_data s) files)

unfoldable pub at_path :
    Option Exn → SessionSnapshot → Result String → Storage → Result SessionSnapshot × Storage
unfolding write_snapshot
at_path fault s (ok path) files = write_snapshot fault s path files
at_path fault s (err e) files = (err e, files)

unfoldable pub export_snapshot :
    SessionState
    → Items
    → Option String
    → Option String
    → String
    → Option Exn
    → Storage
    → Result SessionSnapshot × Storage
unfolding snapshot_of resolve_output_path at_path
export_snapshot state packs output root now fault files =
    at_path fault (snapshot_of state packs now) (resolve_output_path output root state.request_id)
      files

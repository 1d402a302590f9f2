-- ===== src/Snapshot/Tests.antt =====
-- An export of the sample session.
use io_iii_runtime.Prelude.{◌≡◌, refl, none, some}
use io_iii_runtime.Python.Text.{is_blank}
use io_iii_runtime.Python.Value.{Value, Items}
use io_iii_runtime.Python.Error.{ok, err}
use io_iii_runtime.Python.Storage.{Storage}
use io_iii_runtime.Samples.{session}
use io_iii_runtime.Snapshot.{
  import_snapshot, export_snapshot, snapshot_of, resolve_output_path, schema_invalid,
}
use io_iii_runtime.Snapshot.RoundTrip.{import_snapshot-export_snapshot}

abbrev no_files : Storage
no_files path = none

abbrev packs : Items
packs = Items.cons (Value.str "resume") Items.nil

abbrev exported : Storage
exported = (export_snapshot session packs none (some "root") "2026-02-01" none no_files).1

import_snapshot-export_snapshot_example :
    import_snapshot "root/r1.snapshot.json" exported ≡ ok (snapshot_of session packs "2026-02-01")
unfolding export_snapshot resolve_output_path is_blank
import_snapshot-export_snapshot_example =
    import_snapshot-export_snapshot session packs "2026-02-01" (refl, refl, refl, refl) none
      (some "root") "root/r1.snapshot.json" none (snapshot_of session packs "2026-02-01") no_files
      exported refl refl

no_path : resolve_output_path none none "r1" ≡ err schema_invalid
unfolding resolve_output_path
no_path = refl

-- ===== src/Snapshot/RoundTrip.antt =====
-- An exported snapshot is imported as it was.
use io_iii_runtime.Prelude.{
  ◌≡◌, refl, sym, ap, ◌∙◌, String, false, Option, none, some, arith, eq_refl,
}
use io_iii_runtime.Python.Text.{is_blank}
use io_iii_runtime.Python.Value.{Value, Items}
use io_iii_runtime.Python.Error.{Exn, Result, ok, err}
use io_iii_runtime.Python.Storage.{Stored, Storage, put}
use io_iii_runtime.SessionState.{SessionState}
use io_iii_runtime.Snapshot.{
  SessionSnapshot, import_snapshot, read, validated, snapshot_data, snapshot_of, export_snapshot,
  resolve_output_path, write_snapshot, at_path,
}

-- The texts of a session that a snapshot takes, and the time, are not blank.
abbrev pub IsFilled : SessionState → String → Type 0
IsFilled state now =
    (is_blank state.request_id ≡ false)
    × (is_blank state.route_id ≡ false)
    × (is_blank state.mode ≡ false)
    × (is_blank now ≡ false)

read-snapshot_data :
    (state : SessionState) (packs : Items) (now : String)
    → IsFilled state now
    → read (some (Stored.parsed (snapshot_data (snapshot_of state packs now))))
      ≡ ok (snapshot_of state packs now)
unfolding read snapshot_data validated snapshot_of
read-snapshot_data state packs now (run, position, mode, time) = rw (run, position, mode, time) refl

put-here :
    (path : String) (v : Value) (files : Storage) → put path v files path ≡ some (Stored.parsed v)
put-here path v files = rw (eq_refl path) refl

module _ (state : SessionState) (packs : Items) (now : String)
    (filled_in : IsFilled state now) where
  at_path-import :
      (target : Result String) (path : String) (s : SessionSnapshot) (fault : Option Exn)
      (files files' : Storage)
      → target ≡ ok path
      → at_path fault (snapshot_of state packs now) target files ≡ (ok s, files')
      → import_snapshot path files' ≡ ok s
  unfolding at_path write_snapshot import_snapshot
  at_path-import (err e) path s fault files files' h k = absurd (ground arith)
  at_path-import (ok p) path s (some e) files files' h k = absurd (ground arith)
  at_path-import (ok p) path s none files files' h k =
      let same_path : p ≡ path = ground arith in
      let same : s ≡ snapshot_of state packs now = ground arith in
      let stored : files' ≡ put path (snapshot_data (snapshot_of state packs now)) files =
        sym (ap (λ q. q.1) k)
        ∙ ap (λ q. put q (snapshot_data (snapshot_of state packs now)) files) same_path in
      ap read (
        ap (λ f. f path) stored ∙ put-here path (snapshot_data (snapshot_of state packs now)) files)
      ∙ read-snapshot_data state packs now filled_in
      ∙ ap ok (sym same)

  -- A snapshot that was exported from a session without blank texts is imported as it was from the path that
  -- the export chose.
  pub import_snapshot-export_snapshot :
      (output root : Option String) (path : String) (fault : Option Exn) (s : SessionSnapshot)
      (files files' : Storage)
      → resolve_output_path output root state.request_id ≡ ok path
      → export_snapshot state packs output root now fault files ≡ (ok s, files')
      → import_snapshot path files' ≡ ok s
  unfolding export_snapshot
  import_snapshot-export_snapshot output root path fault s files files' h k =
      at_path-import (resolve_output_path output root state.request_id) path s fault files files' h
        k

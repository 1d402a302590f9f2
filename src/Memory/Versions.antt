-- ===== src/Memory/Versions.antt =====
-- What a write leaves in the store.
use io_iii_runtime.Prelude.{
  ℕ, suc, ◌≡◌, ◌≢◌, refl, sym, ap, ◌∙◌, subst, String, Bool, true, false, Option, none, some, [],
  ◌∷◌, arith, eq_refl, eq_iff,
}
use io_iii_runtime.Python.Text.{elem, is_empty}
use io_iii_runtime.Python.Text.Join.{concat}
use io_iii_runtime.Python.Value.{Value, nat}
use io_iii_runtime.Python.Error.{Exn, Result, ok, err}
use io_iii_runtime.Python.Storage.{Storage}
use io_iii_runtime.Memory.{MemoryRecord}
use io_iii_runtime.Memory.Provenance.{is_provenance}
use io_iii_runtime.Memory.Store.{
  valid_sensitivity, make_record, deserialise, record_data, get_record, put_record, found, read,
}
use io_iii_runtime.Memory.Write.{
  Writing, memory_write, next_record, next_version, first_time, store_next, continue, prepare,
}

-- What the constructor of a record checks.
abbrev IsRecord : MemoryRecord → Type 0
IsRecord r =
    (is_empty r.key ≡ false)
    × (is_empty r.scope ≡ false)
    × ((n : ℕ) × (r.version ≡ suc n))
    × (is_provenance r.provenance ≡ true)
    × (elem r.sensitivity valid_sensitivity ≡ true)
    × (is_empty r.created_at ≡ false)
    × (is_empty r.updated_at ≡ false)

deserialise-record_data : (r : MemoryRecord) → IsRecord r → deserialise (record_data r) ≡ ok r
unfolding deserialise record_data make_record
deserialise-record_data r (key, scope, (n, version), provenance, sensitivity, created, updated) =
    rw (key, scope, version, provenance, sensitivity, created, updated) refl

module _ (k s v p c u t : String) (n : ℕ) where
  abbrev made : MemoryRecord
  made = record {
    key = k;
    scope = s;
    value = v;
    version = suc n;
    provenance = p;
    created_at = c;
    updated_at = u;
    sensitivity = t;
  }

  made-IsRecord :
      (r : MemoryRecord)
      → make_record
          (Value.str k)
          (Value.str s)
          (Value.str v)
          (nat (suc n))
          (Value.str p)
          (Value.str c)
          (Value.str u)
          (Value.str t)
        ≡ ok r
      → (r ≡ made) × IsRecord made
  unfolding make_record
  made-IsRecord r h = (
    ground arith,
    (ground arith, ground arith, (n, refl), ground arith, ground arith, ground arith, ground arith),
  )

-- The record that the write puts: its own value, provenance and tier, the next version, and the time of
-- creation of the record that was there.
abbrev pub written : Writing → Option MemoryRecord → String → MemoryRecord
written w existing now = record {
  key = w.key;
  scope = w.scope;
  value = w.value;
  version = next_version existing;
  provenance = w.provenance;
  created_at = first_time existing now;
  updated_at = now;
  sensitivity = w.sensitivity;
}

next_record-written :
    (w : Writing) (existing : Option MemoryRecord) (now : String) (r : MemoryRecord)
    → next_record w existing now ≡ ok r
    → (r ≡ written w existing now)
      × (deserialise (record_data (written w existing now)) ≡ ok (written w existing now))
unfolding next_record
next_record-written w none now r h =
    let (same, fits) =
      made-IsRecord w.key w.scope w.value w.provenance now now w.sensitivity 0 r h in
    (same, deserialise-record_data (written w none now) fits)
next_record-written w (some old) now r h =
    let (same, fits) =
      made-IsRecord w.key w.scope w.value w.provenance old.created_at now w.sensitivity old.version
        r h in
    (same, deserialise-record_data (written w (some old) now) fits)

-- What a write that returned `id` has done.
abbrev pub IsWritten :
    (String → String → String) → Writing → String → Storage → String → Storage → Type 0
IsWritten location w now files id files' =
    (existing : Option MemoryRecord) × (get_record location w.scope w.key files ≡ ok existing)
    × (get_record location w.scope w.key files' ≡ ok (some (written w existing now)))
    × (id ≡ concat (w.scope ∷ "/" ∷ w.key ∷ []))
    × ((scope key : String)
        → location scope key ≢ location w.scope w.key
        → get_record location scope key files' ≡ get_record location scope key files)

module _ (location : String → String → String) (w : Writing) (now : String) (files : Storage) where
  prepare-ok :
      (answer : Result Bool) (existing : Option MemoryRecord)
      → prepare location w answer files ≡ ok existing
      → get_record location w.scope w.key files ≡ ok existing
  unfolding prepare
  prepare-ok answer existing h = ground arith

  get_record-put :
      (r : MemoryRecord)
      → deserialise (record_data r) ≡ ok r
      → get_record location r.scope r.key (put_record location none r files).1 ≡ ok (some r)
  unfolding get_record put_record read found
  get_record-put r h = rw (eq_refl (location r.scope r.key), h) refl

  put_record-others :
      (r : MemoryRecord) (scope key : String)
      → location scope key ≢ location r.scope r.key
      → get_record location scope key (put_record location none r files).1
        ≡ get_record location scope key files
  unfolding put_record get_record
  put_record-others r scope key other =
      ap read {x = (put_record location none r files).1 (location scope key)}
        {y = files (location scope key)}
        (ground (arith, eq_iff (location r.scope r.key) (location scope key)))

  stored-IsWritten :
      (existing : Option MemoryRecord) (r : Result MemoryRecord) (fault : Option Exn) (id : String)
      (files' : Storage)
      → get_record location w.scope w.key files ≡ ok existing
      → next_record w existing now ≡ r
      → store_next location w fault r files ≡ (ok id, files')
      → IsWritten location w now files id files'
  unfolding store_next put_record
  stored-IsWritten existing (err e) fault id files' old made h = absurd (ground arith)
  stored-IsWritten existing (ok r) (some e) id files' old made h = absurd (ground arith)
  stored-IsWritten existing (ok r) none id files' old made h =
      let (same, readable) = next_record-written w existing now r made in
      let stored : files' ≡ (put_record location none (written w existing now) files).1 =
        sym (ap (λ p. p.1) h) ∙ ap (λ x. (put_record location none x files).1) same in
      (
        existing,
        old,
        subst (λ fs. get_record location w.scope w.key fs ≡ ok (some (written w existing now)))
            (sym stored) (get_record-put (written w existing now) readable),
        ground arith,
        λ scope key other.
            ap (get_record location scope key) stored
            ∙ put_record-others (written w existing now) scope key other,
      )

  continued-IsWritten :
      (p : Result (Option MemoryRecord)) (answer : Result Bool) (fault : Option Exn) (id : String)
      (files' : Storage)
      → prepare location w answer files ≡ p
      → continue location w now fault p files ≡ (ok id, files')
      → IsWritten location w now files id files'
  unfolding continue
  continued-IsWritten (err e) answer fault id files' h k = absurd (ground arith)
  continued-IsWritten (ok existing) answer fault id files' h k =
      stored-IsWritten existing (next_record w existing now) fault id files'
        (prepare-ok answer existing h) refl k

  -- A write that returns has put a record with the given value that reads back, at version 1 or one more
  -- than the record that was in its file, whose time of creation it keeps. Whatever the files of the names
  -- are, every name that does not lead to the written file reads as before.
  pub memory_write-IsWritten :
      (answer : Result Bool) (fault : Option Exn) (id : String) (files' : Storage)
      → memory_write location w answer now fault files ≡ (ok id, files')
      → IsWritten location w now files id files'
  unfolding memory_write
  memory_write-IsWritten answer fault id files' h =
      continued-IsWritten (prepare location w answer files) answer fault id files' refl h

  continue-keeps :
      (p : Result (Option MemoryRecord)) (fault : Option Exn) (e : Exn) (files' : Storage)
      → continue location w now fault p files ≡ (err e, files')
      → files' ≡ files
  unfolding continue store_next put_record
  continue-keeps p fault e files' h = ground arith

  -- A write that raises, by a bad argument, a denied confirmation, a corrupt record or a fault of the disk,
  -- leaves every record as it was.
  pub memory_write-keeps :
      (answer : Result Bool) (fault : Option Exn) (e : Exn) (files' : Storage)
      → memory_write location w answer now fault files ≡ (err e, files')
      → files' ≡ files
  unfolding memory_write
  memory_write-keeps answer fault e files' h =
      continue-keeps (prepare location w answer files) fault e files' h

-- ===== src/Memory/Write.antt =====
-- io_iii/memory/write.py: one confirmed, versioned write.
use io_iii_runtime.Prelude.{
  ℕ, suc, String, Bool, true, false, not, ◌||◌, Option, none, some, [], ◌∷◌,
}
use io_iii_runtime.Python.Text.{elem, is_empty}
use io_iii_runtime.Python.Text.Join.{concat}
use io_iii_runtime.Python.Value.{Value, nat}
use io_iii_runtime.Python.Error.{Exn, value_err, Result, ok, err, ◌>>◌, raise_if}
use io_iii_runtime.Python.Storage.{Storage}
use io_iii_runtime.Memory.{MemoryRecord}
use io_iii_runtime.Memory.Store.{valid_sensitivity, make_record, get_record, put_record}

-- The arguments that are texts.
pub record Writing : Type 0 where
  pub scope : String
  pub key : String
  pub value : String
  pub provenance : String
  pub sensitivity : String

abbrev pub write_failed : Exn
write_failed = value_err "MEMORY_WRITE_FAILED: "

-- `ok` with what the confirmation returned, or what it raised.
confirmed : Result Bool → Result (Unit {0})
confirmed (ok true) = ok tt
confirmed (ok false) = err write_failed
confirmed (err e) = err e

abbrev pub next_version : Option MemoryRecord → ℕ
next_version none = 1
next_version (some r) = suc r.version

abbrev pub first_time : Option MemoryRecord → String → String
first_time none now = now
first_time (some r) now = r.created_at

-- `MemoryRecord(…)`
unfoldable pub next_record : Writing → Option MemoryRecord → String → Result MemoryRecord
unfolding make_record
next_record w existing now =
    make_record (Value.str w.key) (Value.str w.scope) (Value.str w.value)
      (nat (next_version existing)) (Value.str w.provenance) (Value.str (first_time existing now))
      (Value.str now) (Value.str w.sensitivity)

-- An error of the `try` block becomes a failed write.
abbrev pub identified : Writing → Result (Unit {0}) × Storage → Result String × Storage
identified w (ok _, files) = (ok (concat (w.scope ∷ "/" ∷ w.key ∷ [])), files)
identified w (err e, files) = (err write_failed, files)

module _ (location : String → String → String) where
  -- The checks, the confirmation and the record that is there.
  unfoldable pub prepare : Writing → Result Bool → Storage → Result (Option MemoryRecord)
  unfolding confirmed get_record
  prepare w answer files = do
    raise_if (is_empty w.scope || is_empty w.key) write_failed
    raise_if (not (elem w.sensitivity valid_sensitivity)) write_failed
    confirmed answer
    get_record location w.scope w.key files

  unfoldable pub store_next :
      Writing → Option Exn → Result MemoryRecord → Storage → Result String × Storage
  unfolding put_record
  store_next w fault (ok r) files = identified w (put_record location fault r files)
  store_next w fault (err e) files = (err write_failed, files)

  unfoldable pub continue :
      Writing
      → String
      → Option Exn
      → Result (Option MemoryRecord)
      → Storage
      → Result String × Storage
  unfolding next_record store_next
  continue w now fault (ok existing) files = store_next w fault (next_record w existing now) files
  continue w now fault (err e) files = (err e, files)

  -- `memory_write`, with the answer of the confirmation and the time of the write.
  unfoldable pub memory_write :
      Writing → Result Bool → String → Option Exn → Storage → Result String × Storage
  unfolding prepare continue
  memory_write w answer now fault files = continue w now fault (prepare w answer files) files

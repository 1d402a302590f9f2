-- ===== src/FileStore.antt =====
-- io_iii/core/file_store.py: the texts of the uploaded files, by session and reference. The
-- reference that `uuid` makes is an argument of `store`.
mod Tests
use io_iii_runtime.Prelude.{
  ◌≡◌, ◌≢◌, refl, String, Bool, true, false, Option, none, some, arith, inl, inr, ◌⊎◌, Bool-cases,
  if◌then◌else◌, ◌&&◌, str_eq, eq_refl, eq_iff,
}
use io_iii_runtime.Python.Error.{ExnClass, Exn, exn, Result, ok, err}

-- The files of one session: name and content by reference.
abbrev pub FileTable : Type 0
FileTable = String → Option (String × String)

abbrev pub FileStore : Type 0
FileStore = String → Option FileTable

-- `_store.get(session_id, {}).get(file_ref)`
abbrev pub file_at : Option FileTable → String → Option (String × String)
file_at none ref = none
file_at (some table) ref = table ref

abbrev with_file : String → String × String → Option FileTable → FileTable
with_file ref f table r = if str_eq ref r then some f else file_at table r

unfoldable pub store : String → String → String → String → FileStore → FileStore
store session content filename ref files s =
    if str_eq session s then some (with_file ref (filename, content) (files session)) else files s

pub file_ref_not_found : Exn
file_ref_not_found = exn ExnClass.other "FileRefNotFound"

found : Option (String × String) → Result (String × String)
found none = err file_ref_not_found
found (some f) = ok f

unfoldable pub resolve : String → String → FileStore → Result (String × String)
unfolding found
resolve session ref files = found (file_at (files session) ref)

unfoldable pub delete : String → FileStore → FileStore
delete session files s = if str_eq session s then none else files s

-- After `store` the new reference resolves in its session to the stored name and content, and every
-- other reference, and every reference of another session, resolves as before.
pub resolve-store :
    (session content filename ref s r : String) (files : FileStore)
    → resolve s r (store session content filename ref files)
      ≡ (if str_eq session s && str_eq ref r then ok (filename, content) else resolve s r files)
unfolding resolve store
resolve-store session content filename ref s r files = elim (Bool-cases (str_eq session s)) [
  | inr e ↦ simp e
  | inl e ↦ elim (Bool-cases (str_eq ref r)) [
    | inl k ↦ simp (e, k)
    | inr k ↦ rw ((eq_iff session s).0 e) (simp (eq_refl, k))
  ]
]

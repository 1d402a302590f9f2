-- ===== src/FileStore/Tests.antt =====
-- Files of one session.
use io_iii_runtime.Prelude.{none}
use io_iii_runtime.FileStore.{FileStore, store}

abbrev no_files : FileStore
no_files session = none

abbrev notes : FileStore
notes = store "s1" "Notes." "notes.txt" "f1" no_files

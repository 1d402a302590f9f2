-- ===== src/Python/Storage.antt =====
-- Files by name, as a parser reads them. A write puts the whole file: the writers put the data in a
-- sibling first and rename it.
use io_iii_runtime.Prelude.{String, Option, some, if◌then◌else◌, str_eq}
use io_iii_runtime.Python.Value.{Value}
use io_iii_runtime.Python.Error.{Exn, value_err}

-- A file that cannot be read or parsed, one whose bytes are no UTF-8, or the value that a file holds.
pub data Stored : Type 0 where
  unreadable undecodable : Stored
  parsed : Value → Stored

-- `UnicodeDecodeError`, a subclass of `ValueError`
abbrev pub decode_err : Exn
decode_err = value_err "'utf-8' codec can't decode "

abbrev pub Storage : Type 0
Storage = String → Option Stored

abbrev pub put : String → Value → Storage → Storage
put id v files j = if str_eq id j then some (parsed v) else files j

-- ===== src/Memory/Tests.antt =====
-- A policy and two packs.
use io_iii_runtime.Prelude.{
  ◌≡◌, refl, String, true, false, none, some, List, [], ◌∷◌, ◌++◌, ◌↔◌, if◌then◌else◌, str_eq,
}
use io_iii_runtime.Python.Error.{ok, err}
use io_iii_runtime.Python.Storage.{Stored, Storage}
use io_iii_runtime.Memory.Store.{get_record, record_data, parse_err}
use io_iii_runtime.Memory.Write.{Writing, memory_write, write_failed}
use io_iii_runtime.Memory.Versions.{IsWritten, written, memory_write-IsWritten, memory_write-keeps}
use io_iii_runtime.Python.Text.Join.{concat}
use io_iii_runtime.Memory.Continuity.{Loaded, load_session_memory}
use io_iii_runtime.Memory.Continuity.Listing.{IsLoaded, load_session_memory-IsLoaded}
use io_iii_runtime.Memory.{
  MemoryRecord, RetrievalPolicy, can_access, MemoryPack, PackTable, resolve_keys,
}
use io_iii_runtime.Memory.Packs.{Included, resolve_keys_iff}

abbrev policy : RetrievalPolicy
policy = record {
  route_allowlist = "executor" ∷ "explorer" ∷ [];
  capability_allowlist = [];
  sensitivity_elevated = "executor" ∷ [];
  sensitivity_restricted = [];
}

abbrev pack : String → List String → List String → MemoryPack
pack id keys includes = record {
  id = id;
  version = "1.0";
  description = "";
  scope = "io_iii";
  keys = keys;
  include_packs = includes;
}

abbrev packs : PackTable
packs id =
    if str_eq id "base"
    then some (pack "base" ("goal" ∷ []) [])
    else if str_eq id "resume"
    then some (pack "resume" ("state" ∷ []) ("base" ∷ []))
    else none

resolve_keys_iff_example : (resolve_keys packs "resume" ≡ ok ("goal" ∷ "state" ∷ [])) ↔ (
    (p : MemoryPack) × (packs "resume" ≡ some p)
    × (inner : List String) × Included packs p.include_packs inner
    × (◌≡◌ {A = List String} ("goal" ∷ "state" ∷ []) (inner ++ p.keys)))
resolve_keys_iff_example = resolve_keys_iff packs "resume" ("goal" ∷ "state" ∷ [])

abbrev stored_goal : MemoryRecord
stored_goal = record {
  key = "goal";
  scope = "io_iii";
  value = "old";
  version = 3;
  provenance = "llm:m-1";
  created_at = "2026-01-01";
  updated_at = "2026-01-02";
  sensitivity = "standard";
}

-- A store with a goal and a corrupt state.
abbrev files : Storage
files path =
    if str_eq path "io_iii/goal.json"
    then some (Stored.parsed (record_data stored_goal))
    else if str_eq path "io_iii/bad.json"
    then some Stored.unreadable
    else none

-- Names without separators, on a plain file system.
abbrev beside : String → String → String
beside scope key = concat (scope ∷ "/" ∷ key ∷ ".json" ∷ [])

abbrev writing : Writing
writing = record {
  scope = "io_iii";
  key = "goal";
  value = "new";
  provenance = "human";
  sensitivity = "standard";
}

abbrev after : Storage
after = (memory_write beside writing (ok true) "2026-02-01" none files).1

next_goal :
    get_record beside "io_iii" "goal" after
    ≡ ok (some (written writing (some stored_goal) "2026-02-01"))
unfolding memory_write get_record record_data
next_goal = refl

memory_write-IsWritten_example : IsWritten beside writing "2026-02-01" files "io_iii/goal" after
unfolding memory_write record_data
memory_write-IsWritten_example =
    memory_write-IsWritten beside writing "2026-02-01" files (ok true) none "io_iii/goal" after refl

abbrev denied : Storage
denied = (memory_write beside writing (ok false) "2026-02-01" none files).1

memory_write-keeps_example : denied ≡ files
unfolding memory_write
memory_write-keeps_example =
    memory_write-keeps beside writing "2026-02-01" files (ok false) none write_failed denied refl

-- A corrupt record raises the parser's error where a failed write is documented.
corrupt_record :
    (memory_write beside (record writing { key = "bad" }) (ok true) "2026-02-01" none files).0
    ≡ err parse_err
unfolding memory_write
corrupt_record = refl

-- What the pack `resume` loads.
abbrev resumed : Loaded
resumed = (
  stored_goal ∷ [],
  some (record {
    pack_id = "resume";
    scope = "io_iii";
    keys_declared = 2;
    keys_loaded = 1;
    keys_missing = 1;
    policy_route = "executor";
  }),
)

load_session_memory-IsLoaded_example :
    IsLoaded beside policy "executor" files packs "resume" resumed
unfolding load_session_memory record_data can_access
load_session_memory-IsLoaded_example =
    load_session_memory-IsLoaded beside policy "executor" files packs "resume" resumed refl

-- Two names of one file: the write under the second one goes on from the record of the first.
abbrev aliased : String → String → String
aliased scope key = if str_eq key "../io_iii/goal" then "io_iii/goal.json" else beside scope key

next_aliased :
    get_record aliased "io_iii" "goal"
      (memory_write aliased
        (record writing { scope = "t"; key = "../io_iii/goal" })
        (ok true)
        "2026-02-01"
        none
        files).1
    ≡ ok (
        some (
          written
            (record writing { scope = "t"; key = "../io_iii/goal" })
            (some stored_goal)
            "2026-02-01"))
unfolding memory_write get_record record_data
next_aliased = refl

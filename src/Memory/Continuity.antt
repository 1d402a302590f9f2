-- ===== src/Memory/Continuity.antt =====
-- io_iii/memory/session_continuity.py: the memory that a continued session loads from its pack.
pub mod Listing
use io_iii_runtime.Prelude.{
  ℕ, ◌+◌, ◌-◌, ◌≤◌, ◌≡◌, refl, subst, suc, String, true, Option, none, some, List, [], ◌∷◌, length,
  All, arith,
}
use io_iii_runtime.Python.Error.{Result, ok, err, ◌>>=◌}
use io_iii_runtime.Python.Storage.{Storage}
use io_iii_runtime.Memory.{
  MemoryRecord, MemoryPack, PackTable, RetrievalPolicy, can_access, filter_records, resolve_keys,
}
use io_iii_runtime.Memory.Store.{add_found, get_record, list_by_keys}

pub record SessionMemoryContext : Type 0 where
  pub pack_id : String
  pub scope : String
  pub keys_declared : ℕ
  pub keys_loaded : ℕ
  pub keys_missing : ℕ
  pub policy_route : String

abbrev pub Loaded : Type 0
Loaded = List MemoryRecord × Option SessionMemoryContext

loaded : String → RetrievalPolicy → String → MemoryPack → List String → List MemoryRecord → Loaded
loaded id policy route pack keys records = (
  filter_records policy route records,
  some (record {
    pack_id = id;
    scope = pack.scope;
    keys_declared = length keys;
    keys_loaded = length (filter_records policy route records);
    keys_missing = length keys - length records;
    policy_route = route;
  }),
)

module _ (location : String → String → String) where
  load_pack :
      PackTable → RetrievalPolicy → String → String → Storage → Option MemoryPack → Result Loaded
  unfolding resolve_keys list_by_keys filter_records loaded
  load_pack packs policy route id files none = ok ([], none)
  load_pack packs policy route id files (some pack) = do
    keys ← resolve_keys packs id
    records ← list_by_keys location pack.scope keys files
    ok (loaded id policy route pack keys records)

  unfoldable pub load_session_memory :
      PackTable → RetrievalPolicy → String → String → Storage → Result Loaded
  unfolding load_pack
  load_session_memory packs policy route id files = load_pack packs policy route id files (packs id)

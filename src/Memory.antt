-- ===== src/Memory.antt =====
-- io_iii/memory: who may read a memory record, and the packs of record keys. The sets of a policy
-- are lists; the packs are a dictionary by identifier.
pub mod Access
pub mod Packs
pub mod Provenance
pub mod Store
pub mod Write
pub mod Versions
pub mod Continuity
mod Tests
use io_iii_runtime.Prelude.{
  ℕ, String, Bool, true, false, not, Option, none, some, List, [], ◌∷◌, ◌++◌, if◌then◌else◌, str_eq,
}
use io_iii_runtime.Python.Text.{elem}
use io_iii_runtime.Python.Error.{value_err, Result, ok, err, ◌>>=◌, ◌>>◌, raise_if, require}
use io_iii_runtime.Runbook.{is_nil}

pub record MemoryRecord : Type 0 where
  pub key : String
  pub scope : String
  pub value : String
  pub version : ℕ
  pub provenance : String
  pub created_at : String
  pub updated_at : String
  pub sensitivity : String

pub record RetrievalPolicy : Type 0 where
  pub route_allowlist : List String
  pub capability_allowlist : List String
  pub sensitivity_elevated : List String
  pub sensitivity_restricted : List String

-- `NULL_POLICY`
abbrev pub null_policy : RetrievalPolicy
null_policy = record {
  route_allowlist = [];
  capability_allowlist = [];
  sensitivity_elevated = [];
  sensitivity_restricted = [];
}

abbrev pub is_route_allowed : RetrievalPolicy → String → Bool
is_route_allowed p route = elem route p.route_allowlist

abbrev pub is_capability_allowed : RetrievalPolicy → String → Bool
is_capability_allowed p capability_id = elem capability_id p.capability_allowlist

unfoldable pub can_access : RetrievalPolicy → String → String → Bool
can_access p route sensitivity =
    if elem route p.route_allowlist
    then if str_eq sensitivity "standard"
      then true
      else if str_eq sensitivity "elevated"
      then elem route p.sensitivity_elevated
      else if str_eq sensitivity "restricted"
      then elem route p.sensitivity_restricted
      else false
    else false

unfoldable pub filter_records : RetrievalPolicy → String → List MemoryRecord → List MemoryRecord
filter_records p route [] = []
filter_records p route (r ∷ rs) =
    let rest = filter_records p route rs in
    if can_access p route r.sensitivity then r ∷ rest else rest

pub record MemoryPack : Type 0 where
  pub id : String
  pub version : String
  pub description : String
  pub scope : String
  pub keys : List String
  pub include_packs : List String

abbrev pub PackTable : Type 0
PackTable = String → Option MemoryPack

-- `_packs[pack.id] = pack` for each entry of the file.
unfoldable pub load_packs : List MemoryPack → PackTable → PackTable
load_packs [] packs = packs
load_packs (p ∷ ps) packs = load_packs ps (λ id. if str_eq p.id id then some p else packs id)

-- The loop over `include_packs`.
included_keys : PackTable → List String → Result (List String)
included_keys packs [] = ok []
included_keys packs (id ∷ ids) = do
  included ← require (packs id) (value_err "Pack '")
  raise_if (not (is_nil included.include_packs)) (value_err "Pack '")
  rest ← included_keys packs ids
  ok (included.keys ++ rest)

unfoldable pub resolve_keys : PackTable → String → Result (List String)
unfolding included_keys
resolve_keys packs id = do
  pack ← require (packs id) (value_err "Pack '")
  keys ← included_keys packs pack.include_packs
  ok (keys ++ pack.keys)

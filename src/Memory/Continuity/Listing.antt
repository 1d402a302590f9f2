-- ===== src/Memory/Continuity/Listing.antt =====
-- What a continued session loads, key by key.
use io_iii_runtime.Prelude.{
  ℕ, ◌+◌, ◌-◌, ◌≡◌, refl, sym, ap, ◌∙◌, subst, suc, String, true, false, Option, none, some, List,
  [], ◌∷◌, length, arith, ◌⊎◌, inl, inr, Bool-cases,
}
use io_iii_runtime.Python.Error.{Result, ok, err, bind-inv}
use io_iii_runtime.Python.Storage.{Storage}
use io_iii_runtime.Memory.{
  MemoryRecord, MemoryPack, PackTable, RetrievalPolicy, can_access, filter_records, resolve_keys,
}
use io_iii_runtime.Memory.Store.{add_found, get_record, list_by_keys}
use io_iii_runtime.Memory.Continuity.{Loaded, loaded, load_pack, load_session_memory}

ok_or {ℓ} : {A : Type ℓ} → A → Result A → A
ok_or d (ok a) = a
ok_or d (err e) = d

ok_inj {ℓ} : {A : Type ℓ} {a b : A} → ok a ≡ ok b → a ≡ b
unfolding ok_or
ok_inj {a} h = ap (ok_or a) h

module _ (location : String → String → String) (policy : RetrievalPolicy) (route : String)
    (files : Storage) where
  -- `Loads scope keys rs m`: `rs` are the records of the keys that the route may read, in the order of the
  -- keys, and `m` keys have no record.
  pub data Loads (scope : String) : List String → List MemoryRecord → ℕ → Type 0 where
    no_keys : Loads scope [] [] 0
    missing :
        (k : String) (ks : List String) (rs : List MemoryRecord) (m : ℕ)
        → get_record location scope k files ≡ ok none
        → Loads scope ks rs m
        → Loads scope (k ∷ ks) rs (suc m)
    refused :
        (k : String) (ks : List String) (r : MemoryRecord) (rs : List MemoryRecord) (m : ℕ)
        → get_record location scope k files ≡ ok (some r)
        → can_access policy route r.sensitivity ≡ false
        → Loads scope ks rs m
        → Loads scope (k ∷ ks) rs m
    readable :
        (k : String) (ks : List String) (r : MemoryRecord) (rs : List MemoryRecord) (m : ℕ)
        → get_record location scope k files ≡ ok (some r)
        → can_access policy route r.sensitivity ≡ true
        → Loads scope ks rs m
        → Loads scope (k ∷ ks) (r ∷ rs) m

  -- The listed records, filtered, with the count of the keys that have none.
  abbrev Listed : String → List String → List MemoryRecord → Type 0
  Listed scope ks rs =
      (m : ℕ) × (m + length rs ≡ length ks) × Loads scope ks (filter_records policy route rs) m

  -- One more key in front, whose record the store has or not.
  add_found-Listed :
      (scope k : String) (ks : List String) (o : Option MemoryRecord) (rs : List MemoryRecord)
      → get_record location scope k files ≡ ok o
      → Listed scope ks rs
      → Listed scope (k ∷ ks) (add_found o rs)
  unfolding add_found filter_records
  add_found-Listed scope k ks none rs h (m, count, l) =
      (suc m, omega (arith, count), Loads.missing k ks _ m h l)
  add_found-Listed scope k ks (some r) rs h (m, count, l) =
      elim (Bool-cases (can_access policy route r.sensitivity)) [
        | inl b ↦ (m, omega (arith, count), rw b (Loads.readable k ks r _ m h b l))
        | inr n ↦ (m, omega (arith, count), rw n (Loads.refused k ks r _ m h n l))
      ]

  list_by_keys-Listed :
      (scope : String) (ks : List String) (rs : List MemoryRecord)
      → list_by_keys location scope ks files ≡ ok rs
      → Listed scope ks rs
  unfolding list_by_keys filter_records
  list_by_keys-Listed scope [] rs h =
      subst (Listed scope []) (ok_inj h) (0, omega arith, Loads.no_keys)
  list_by_keys-Listed scope (k ∷ ks) rs h =
      let (o, found, h₁) = bind-inv (get_record location scope k files) _ rs h in
      let (later, listed, h₂) = bind-inv (list_by_keys location scope ks files) _ rs h₁ in
      subst (Listed scope (k ∷ ks)) (ok_inj h₂)
        (add_found-Listed scope k ks o later found (list_by_keys-Listed scope ks later listed))

  -- What is loaded: nothing without the pack, else the readable records of the keys of the pack with the
  -- context that counts them.
  abbrev pub IsLoaded : PackTable → String → Loaded → Type 0
  IsLoaded packs id l =
      (packs id ≡ none) × (l ≡ ([], none))
      ⊎ ((pack : MemoryPack) × (keys : List String) × (rs : List MemoryRecord) × (m : ℕ) × (packs id
            ≡ some pack)
          × (resolve_keys packs id ≡ ok keys)
          × Loads pack.scope keys rs m
          × (l ≡ (
            rs,
            some (record {
              pack_id = id;
              scope = pack.scope;
              keys_declared = length keys;
              keys_loaded = length rs;
              keys_missing = m;
              policy_route = route;
            }),
          )))

  context_counts :
      (packs : PackTable) (id : String) (pack : MemoryPack) (keys : List String)
      (rs : List MemoryRecord) (m : ℕ)
      → m + length rs ≡ length keys
      → loaded id policy route pack keys rs ≡ (
        filter_records policy route rs,
        some (record {
          pack_id = id;
          scope = pack.scope;
          keys_declared = length keys;
          keys_loaded = length (filter_records policy route rs);
          keys_missing = m;
          policy_route = route;
        }),
      )
  unfolding loaded
  context_counts packs id pack keys rs m count =
      let missing_keys : length keys - length rs ≡ m = omega (arith, count) in rw missing_keys refl

  load_pack-IsLoaded :
      (packs : PackTable) (id : String) (o : Option MemoryPack) (l : Loaded)
      → packs id ≡ o
      → load_pack location packs policy route id files o ≡ ok l
      → IsLoaded packs id l
  unfolding load_pack loaded
  load_pack-IsLoaded packs id none l e h = inl (e, sym (ok_inj h))
  load_pack-IsLoaded packs id (some pack) l e h =
      let (keys, resolved, h₁) = bind-inv (resolve_keys packs id) _ l h in
      let (rs, listed, h₂) = bind-inv (list_by_keys location pack.scope keys files) _ l h₁ in
      let (m, count, loads) = list_by_keys-Listed pack.scope keys rs listed in
      inr (
        pack,
        keys,
        filter_records policy route rs,
        m,
        e,
        resolved,
        loads,
        sym (ok_inj h₂) ∙ context_counts packs id pack keys rs m count,
      )

  -- A continuation that returns has loaded nothing and no context if the pack is not declared. Otherwise it
  -- has loaded the records under the resolved keys of the pack in its scope, in order, without the keys that
  -- have no record and without the records that the route may not read; the context has the identifiers of
  -- the pack, its scope and the route, and counts the keys, the loaded records and the keys without a record.
  pub load_session_memory-IsLoaded :
      (packs : PackTable) (id : String) (l : Loaded)
      → load_session_memory location packs policy route id files ≡ ok l
      → IsLoaded packs id l
  unfolding load_session_memory
  load_session_memory-IsLoaded packs id l h = load_pack-IsLoaded packs id (packs id) l refl h

-- ===== src/Context/Budget.antt =====
-- The memory that fits, and what the record of an assembly can depend on.
use io_iii_runtime.Prelude.{
  ℕ, ◌+◌, ◌≤◌, ◌<◌, ◌≡◌, refl, ap, String, Bool, true, false, List, [], ◌∷◌, ◌++◌, map, arith, ltb,
  if◌then◌else◌, length, ltb→lt, subst,
}
use io_iii_runtime.Python.Text.Slice.{str_length}
use io_iii_runtime.Python.Value.{ℤ, Fields}
use io_iii_runtime.SessionState.{SessionState}
use io_iii_runtime.Memory.{MemoryRecord}
use io_iii_runtime.Context.{assembled, build_messages}
use io_iii_runtime.Context.Prompt.{Library}
use io_iii_runtime.Context.Metadata.{
  select_bounded_memory, identifier, identifiers, total_chars, count_items, build_assembly_metadata,
}

-- Nothing is left, or the next record would exceed the budget.
abbrev pub Exceeds : List MemoryRecord → ℕ → ℕ → Type 0
Exceeds [] total budget = Unit
Exceeds (r ∷ rs) total budget = budget < total + str_length r.value

abbrev pub IsFullPrefix : ℕ → ℕ → List MemoryRecord → List MemoryRecord → Type 0
IsFullPrefix budget total selected rs =
    (rest : List MemoryRecord) × (selected ++ rest ≡ rs)
    × (total + total_chars selected ≤ budget)
    × Exceeds rest (total + total_chars selected) budget

one_more-IsFullPrefix :
    (fits : Bool) (budget total : ℕ) (r : MemoryRecord) (selected rs : List MemoryRecord)
    → ltb budget (total + str_length r.value) ≡ fits
    → total ≤ budget
    → (total + str_length r.value ≤ budget
        → IsFullPrefix budget (total + str_length r.value) selected rs)
    → IsFullPrefix budget total (if fits then [] else r ∷ selected) (r ∷ rs)
unfolding total_chars
one_more-IsFullPrefix true budget total r selected rs over h ih =
    (r ∷ rs, refl, omega arith, ground (arith, ltb→lt budget (total + str_length r.value) over))
one_more-IsFullPrefix false budget total r selected rs within h ih =
    let (rest, split, bound, full) = ih (ground arith) in
    (
      rest,
      ap (λ l. r ∷ l) split,
      omega arith,
      subst (λ n. Exceeds rest n budget) (omega arith) full,
    )

select_from-IsFullPrefix :
    (budget total : ℕ) (rs : List MemoryRecord)
    → total ≤ budget
    → IsFullPrefix budget total (select_bounded_memory (ℤ.pos budget) total rs) rs
unfolding select_bounded_memory total_chars
select_from-IsFullPrefix budget total [] h = ([], refl, omega arith, tt)
select_from-IsFullPrefix budget total (r ∷ rs) h =
    one_more-IsFullPrefix (ltb budget (total + str_length r.value)) budget total r
      (select_bounded_memory (ℤ.pos budget) (total + str_length r.value) rs) rs refl h
      (select_from-IsFullPrefix budget (total + str_length r.value) rs)

-- Nothing fits in a negative budget.
abbrev pub IsLargestPrefix : ℤ → List MemoryRecord → List MemoryRecord → Type 0
IsLargestPrefix (ℤ.pos budget) selected rs = IsFullPrefix budget 0 selected rs
IsLargestPrefix (ℤ.negsuc n) selected rs = selected ≡ []

-- The injected memory is a prefix of the records, its values fit in the budget, and if a record is left
-- out, then the first one of these would have exceeded the budget; with a negative budget it is empty. So
-- a budget of 0 keeps the records with empty values that stand in front.
pub select_bounded_memory-IsLargestPrefix :
    (budget : ℤ) (rs : List MemoryRecord)
    → IsLargestPrefix budget (select_bounded_memory budget 0 rs) rs
unfolding select_bounded_memory
select_bounded_memory-IsLargestPrefix (ℤ.pos budget) rs =
    select_from-IsFullPrefix budget 0 rs (omega arith)
select_bounded_memory-IsLargestPrefix (ℤ.negsuc n) [] = refl
select_bounded_memory-IsLargestPrefix (ℤ.negsuc n) (r ∷ rs) = refl

-- What the record of an assembly may tell of a memory record.
abbrev pub outline : MemoryRecord → String × ℕ
outline r = (identifier r, str_length r.value)

identifiers_of_outline :
    (rs ss : List MemoryRecord)
    → map outline rs ≡ map outline ss
    → (identifiers rs ≡ identifiers ss)
      × (total_chars rs ≡ total_chars ss)
      × (length rs ≡ length ss)
unfolding identifiers total_chars
identifiers_of_outline [] [] h = (refl, refl, refl)
identifiers_of_outline [] (s ∷ ss) h = absurd (ground arith)
identifiers_of_outline (r ∷ rs) [] h = absurd (ground arith)
identifiers_of_outline (r ∷ rs) (s ∷ ss) h = grind (arith, identifiers_of_outline rs ss)

-- Assemblies of prompts of the same lengths, with memory records of the same identifiers and the same
-- lengths of values, have the same metadata: it tells nothing else of the content.
pub assembled-metadata :
    (lib : Library) (state : SessionState) (route_metadata : Fields) (p p' q q' : String)
    (rs ss : List MemoryRecord)
    → map outline rs ≡ map outline ss
    → str_length p ≡ str_length p'
    → str_length q ≡ str_length q'
    → (assembled lib state q route_metadata rs p).assembly_metadata
      ≡ (assembled lib state q' route_metadata ss p').assembly_metadata
unfolding assembled build_assembly_metadata build_messages count_items
assembled-metadata lib state route_metadata p p' q q' rs ss h hp hq =
    let (same_ids, same_total, same_count) = identifiers_of_outline rs ss h in
    rw (same_ids, same_total, same_count, hp, hq)

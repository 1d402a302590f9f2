-- ===== src/Context/Tests.antt =====
-- Two memory records, prompts with them, and the theorems at them.
use io_iii_runtime.Prelude.{◌≡◌, refl, String, List, [], ◌∷◌}
use io_iii_runtime.Python.Text.{strip}
use io_iii_runtime.Python.Value.{ℤ, Fields}
use io_iii_runtime.Python.Error.{ok, err, value_err, ◌>>=◌}
use io_iii_runtime.Memory.{MemoryRecord}
use io_iii_runtime.Samples.{session}
use io_iii_runtime.Persona.{executor_persona_contract}
use io_iii_runtime.Context.{assemble_context, assembled, check_context_limit}
use io_iii_runtime.Context.Prompt.{Library, Persona}
use io_iii_runtime.Context.Metadata.{select_bounded_memory}
use io_iii_runtime.Context.Budget.{
  IsLargestPrefix, select_bounded_memory-IsLargestPrefix, assembled-metadata,
}

abbrev note : String → String → MemoryRecord
note key value = record {
  key = key;
  scope = "project";
  value = value;
  version = 1;
  provenance = "human";
  created_at = "";
  updated_at = "";
  sensitivity = "standard";
}

abbrev notes : List MemoryRecord
notes = note "a" "xyz" ∷ note "b" "four" ∷ note "c" "" ∷ []

abbrev lib : Library
lib = record {
  show = λ v. "";
  capitalize = λ s. s;
  canonical_json = λ v. "{}";
  sha256 = λ s. "hash";
  characters = λ s. [];
}

abbrev persona : Persona
persona = record { identity = Fields.end; user_profile = Fields.end }

-- The third record would fit, but it stands behind one that does not.
first_only : select_bounded_memory (ℤ.pos 6) 0 notes ≡ note "a" "xyz" ∷ []
unfolding select_bounded_memory
first_only = refl

-- A budget of 0 keeps a record without text.
empty_kept : select_bounded_memory (ℤ.pos 0) 0 (note "c" "" ∷ []) ≡ note "c" "" ∷ []
unfolding select_bounded_memory
empty_kept = refl

select_bounded_memory-IsLargestPrefix_example :
    IsLargestPrefix (ℤ.pos 6) (select_bounded_memory (ℤ.pos 6) 0 notes) notes
select_bounded_memory-IsLargestPrefix_example =
    select_bounded_memory-IsLargestPrefix (ℤ.pos 6) notes

assembled-metadata_example :
    (assembled lib session "Hi" Fields.end notes "p").assembly_metadata
    ≡ (assembled lib session "Ho" Fields.end
        (note "a" "uvw" ∷ note "b" "five" ∷ note "c" "" ∷ [])
        "q").assembly_metadata
assembled-metadata_example =
    assembled-metadata lib session Fields.end "p" "q" "Hi" "Ho" notes
      (note "a" "uvw" ∷ note "b" "five" ∷ note "c" "" ∷ []) refl refl refl

context_hash :
    (assemble_context lib persona session "Hi" executor_persona_contract Fields.end notes (ℤ.pos 6)
      >>= λ c. ok c.prompt_hash)
    ≡ ok "hash"
unfolding assemble_context strip
context_hash = refl

long_prompt_refused :
    check_context_limit "four" 3 ≡ err (value_err "CONTEXT_LIMIT_EXCEEDED: estimated_chars=")
unfolding check_context_limit
long_prompt_refused = refl

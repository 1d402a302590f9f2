-- ===== src/Checkpoint/Files/Validation.antt =====
-- Which written checkpoints `_load_and_validate_checkpoint` accepts.
use io_iii_runtime.Prelude.{
  ℕ, ◌<◌, ◌≡◌, ◌≢◌, String, true, false, none, some, arith, eq_refl, ◌⊎◌, inl, inr, Bool-cases,
}
use io_iii_runtime.Python.Value.{ℤ, Value, Fields, get, py_eq}
use io_iii_runtime.Python.Error.{ok, err, ◌>>◌}
use io_iii_runtime.Python.Value.{nat, opt_nat}
use io_iii_runtime.Checkpoint.Files.{
  Checkpoint, checkpoint_data, validate_checkpoint, check_progress, check_failure, integrity,
  failure_fields,
}

-- The fields of a checkpoint after validation.
abbrev pub fields_of : Checkpoint → String → Fields
fields_of c now = elim (checkpoint_data c now) [ Value.obj d ↦ d | _ ↦ Fields.end ]

-- The progress of a checkpoint of `total` steps: no last index when no step was completed, and an
-- index below `total` otherwise.
abbrev pub Progresses : Checkpoint → ℕ → Type 0
Progresses c total =
    (c.steps_completed ≡ 0) × (c.last_completed_step_index ≡ none)
    ⊎ (c.steps_completed ≢ 0) × (i : ℕ) × (c.last_completed_step_index ≡ some i) × (i < total)

-- A failed checkpoint says where and why.
abbrev pub Explains : Checkpoint → Type 0
Explains c =
    (c.failed ≡ false)
    ⊎ (c.failure_kind ≢ none) × (c.failure_code ≢ none) × (c.failed_step_index ≢ none)

pub record IsConsistent (c : Checkpoint) (total : ℕ) (snapshot : Fields) (id : String)
    : Type 0 where
  pub counted : c.total_steps ≡ nat total
  pub held : c.snapshot ≡ Value.obj snapshot
  pub named : c.runbook_id ≡ Value.str id
  pub bound : get "runbook_id" snapshot ≡ Value.str id
  pub progress : Progresses c total

check_progress_ok :
    (c : Checkpoint) (total : ℕ)
    → Progresses c total
    → check_progress (ℤ.pos c.steps_completed) (ℤ.pos total) (opt_nat c.last_completed_step_index)
      ≡ ok tt
unfolding check_progress
check_progress_ok c total (inl (p, q)) = rw (p, q)
check_progress_ok c total (inr (p, i, q, h)) = ground arith

pub check_failure_ok :
    (c : Checkpoint) (now : String) → Explains c → check_failure (fields_of c now) ≡ ok tt
unfolding check_failure checkpoint_data failure_fields
check_failure_ok c now h = elim (Bool-cases c.failed) [
  | inl f ↦ simp f (ground (arith, f))
  | inr n ↦ simp n
]

pub check_failure_bad :
    (c : Checkpoint) (now : String)
    → c.failed ≡ true
    → c.failure_kind ≡ none
    → check_failure (fields_of c now) ≡ err integrity
unfolding check_failure checkpoint_data failure_fields
check_failure_bad c now h k = rw (h, k)

-- Up to the failure fields, validation accepts what was written for a consistent checkpoint.
pub validate_written :
    (c : Checkpoint) (total : ℕ) (snapshot : Fields) (id now : String)
    → IsConsistent c total snapshot id
    → validate_checkpoint c.run_id (checkpoint_data c now)
      ≡ (do check_failure (fields_of c now); ok (fields_of c now))
unfolding validate_checkpoint py_eq checkpoint_data
validate_written c total snapshot id now h =
    simp (eq_refl, h.counted, h.held, h.named, h.bound, check_progress_ok c total h.progress)

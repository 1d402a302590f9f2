-- ===== src/Dialogue/Tests.antt =====
-- A session of two turns in steward mode.
use io_iii_runtime.Prelude.{ℕ, ◌≡◌, refl, String, none, some, [], ◌∷◌, ◌⊎◌, if◌then◌else◌, str_eq}
use io_iii_runtime.Python.Error.{Exn, ok, err}
use io_iii_runtime.Mode.{SessionMode, StewardGate, check, class_fires}
use io_iii_runtime.Python.Clock.{elapsed_ms}
use io_iii_runtime.FileStore.{FileStore}
use io_iii_runtime.Runner.Tests.{snapshot, empty_result, only_executor}
use io_iii_runtime.Python.Storage.{Storage}
use io_iii_runtime.Dialogue.{
  DialogueSession, DialogueTurnResult, TurnInput, new_session, turn_record, run_turn, execute_turn,
  after_run, finish_turn,
}
use io_iii_runtime.Dialogue.Attach.{attach}
use io_iii_runtime.Dialogue.Turns.{
  Turn, IsValid, StatusFits, extended, run_turn-Turn, converse, converse-new_session-IsValid,
  run_turn-StatusFits,
}
use io_iii_runtime.Dialogue.Pauses.{run_turn-quiet}
use io_iii_runtime.Python.Storage.{Stored, decode_err}
use io_iii_runtime.Dialogue.Persistence.{SessionDisk, save_session, load_session}
use io_iii_runtime.Dialogue.Persistence.RoundTrip.{as_loaded, load_session-save_session}

abbrev now : ℕ → String × ℕ
now w = ("2025-01-01T00:00:00Z", w)

abbrev budgeted : StewardGate
budgeted = record {
  session_mode = SessionMode.steward;
  thresholds = record { step_count = none; token_budget = some 10; capability_classes = [] };
}

abbrev no_files : FileStore
no_files session = none

abbrev question : TurnInput
question = record {
  user_prompt = "Hello";
  persona_mode = "executor";
  memory_keys = 0;
  file_ref = none;
  limit = 16000;
  files = no_files;
}

abbrev session : DialogueSession
session = new_session SessionMode.steward 2 "s1" "t0" "t0"

run_turn-Turn_example :
    Turn budgeted session
      (run_turn only_executor now budgeted question session 0).0
      (run_turn only_executor now budgeted question session 0).1
run_turn-Turn_example = run_turn-Turn only_executor now budgeted question session 0

converse-new_session-IsValid_example :
    IsValid
      (converse only_executor now budgeted
        (question ∷ question ∷ question ∷ [])
        (new_session SessionMode.work 2 "s1" "t0" "t0")
        0).0
converse-new_session-IsValid_example =
    converse-new_session-IsValid only_executor now budgeted (question ∷ question ∷ question ∷ [])
      SessionMode.work 2 "s1" "t0" "t0" 0

abbrev first_turn : DialogueTurnResult
first_turn = record {
  session = extended (turn_record session question snapshot 11) "2025-01-01T00:00:00Z" none session;
  turn_record = turn_record session question snapshot 11;
  state = snapshot;
  result = empty_result;
  pause_state = none;
}

runs_first : (run_turn only_executor now budgeted question session 0).0 ≡ ok first_turn
unfolding run_turn new_session execute_turn after_run finish_turn attach check class_fires
    elapsed_ms
runs_first = refl

run_turn-StatusFits_example :
    (first_turn.session ≡ (run_turn only_executor now budgeted question session 0).1)
    × StatusFits (run_turn only_executor now budgeted question session 0).1 first_turn.pause_state
run_turn-StatusFits_example =
    run_turn-StatusFits only_executor now budgeted question session 0 first_turn runs_first

run_turn-quiet_example : first_turn.pause_state ≡ none
run_turn-quiet_example =
    run_turn-quiet only_executor now budgeted question session 0 first_turn refl runs_first

abbrev disk : SessionDisk ℕ
disk = record { make_root = λ w. (none, w); replace_file = λ w. (none, w) }

abbrev no_sessions : Storage
no_sessions id = none

-- A session file that is no UTF-8 raises the decoder's error.
undecodable_session : load_session "s1" (λ id. some Stored.undecodable) ≡ err decode_err
unfolding load_session
undecodable_session = refl

load_session-save_session_example :
    ((save_session disk session no_sessions 0).0 ≡ ok tt)
      × (load_session "s1" (save_session disk session no_sessions 0).1 ≡ (
          if str_eq session.session_id "s1"
          then ok (as_loaded session)
          else load_session "s1" no_sessions))
    ⊎ (e : Exn) × ((save_session disk session no_sessions 0).0 ≡ err e)
      × ((save_session disk session no_sessions 0).1 ≡ no_sessions)
load_session-save_session_example = load_session-save_session disk session no_sessions 0 "s1"

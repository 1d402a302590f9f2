-- ===== src/Dialogue.antt =====
-- io_iii/core/dialogue_session.py: the turns of a dialogue session. A session is mutable, so an
-- operation gives back its state also where it raises; the ceiling is a number, as
-- `_load_max_turns` makes it. The memory context that `run_turn` passes through is left out.
pub mod Attach
pub mod Turns
pub mod Pauses
pub mod Persistence
mod Tests
use Prim.Native.String.{◌++◌ as append_text}
use io_iii_runtime.Prelude.{
  ℕ, zero, suc, ◌+◌, ◌-◌, String, Bool, true, false, Option, none, some, List, [], ◌∷◌, ◌++◌, leb,
  if◌then◌else◌,
}
use io_iii_runtime.Python.Text.Slice.{decimal}
use io_iii_runtime.Python.Value.{ℤ, Value, Fields, find, as_int}
use io_iii_runtime.Python.Error.{Exn, Result, ok, err, value_err}
use io_iii_runtime.Python.Clock.{Clock, elapsed_ms}
use io_iii_runtime.SessionState.{SessionState}
use io_iii_runtime.Engine.{ExecutionResult}
use io_iii_runtime.Mode.{SessionMode, mode_value, PauseState, StewardGate, check}
use io_iii_runtime.TaskSpec.{TaskSpec}
use io_iii_runtime.FileStore.{FileStore}
use io_iii_runtime.Runner.{Env}
use io_iii_runtime.Dialogue.Attach.{attach}

-- `VALID_SESSION_STATUSES`
pub data SessionStatus : Type 0 where
  active paused closed at_limit : SessionStatus

abbrev pub status_value : SessionStatus → String
status_value SessionStatus.active = "active"
status_value SessionStatus.paused = "paused"
status_value SessionStatus.closed = "closed"
status_value SessionStatus.at_limit = "at_limit"

pub record TurnRecord : Type 0 where
  pub turn_index : ℕ
  pub run_id : String
  pub status : String
  pub persona_mode : String
  pub latency_ms : Option ℕ
  pub error_code : Option String
  pub memory_keys_loaded : ℕ

pub record DialogueSession : Type 0 where
  pub session_id : String
  pub session_mode : SessionMode
  pub turn_count : ℕ
  pub max_turns : ℕ
  pub status : SessionStatus
  pub turns : List TurnRecord
  pub created_at : String
  pub updated_at : String

abbrev pub is_at_limit : DialogueSession → Bool
is_at_limit s = leb s.max_turns s.turn_count

abbrev pub is_active : SessionStatus → Bool
is_active SessionStatus.active = true
is_active _ = false

pub record DialogueTurnResult : Type 0 where
  pub session : DialogueSession
  pub turn_record : TurnRecord
  pub state : SessionState
  pub result : ExecutionResult
  pub pause_state : Option PauseState

abbrev pub session_max_turns : ℕ
session_max_turns = 50

positive : Option ℤ → Result ℕ
positive (some (ℤ.pos (suc n))) = ok (suc n)
positive _ = err (value_err "SESSION_MAX_TURNS_INVALID")

ceiling : Option Value → Result ℕ
unfolding positive
ceiling none = ok session_max_turns
ceiling (some Value.null) = ok session_max_turns
ceiling (some v) = positive (as_int v)

-- `_load_max_turns`
unfoldable pub load_max_turns : Fields → Result ℕ
unfolding ceiling
load_max_turns config = ceiling (find "session_max_turns" config)

-- `new_session` with a ceiling; the identifier and the times are those that it reads.
unfoldable pub new_session : SessionMode → ℕ → String → String → String → DialogueSession
new_session mode max_turns id created updated = record {
  session_id = id;
  session_mode = mode;
  turn_count = 0;
  max_turns = max_turns;
  status = SessionStatus.active;
  turns = [];
  created_at = created;
  updated_at = updated;
}

-- The arguments of one turn beside the session and the gate: `memory_keys` is the length of
-- `session_memory`, and `limit` and `files` are what the attachment is read with.
pub record TurnInput : Type 0 where
  pub user_prompt : String
  pub persona_mode : String
  pub memory_keys : ℕ
  pub file_ref : Option String
  pub limit : ℕ
  pub files : FileStore

pub turn_task : DialogueSession → String → String → TaskSpec
turn_task s mode prompt = record {
  task_spec_id = Value.str (append_text s.session_id (append_text ":turn:" (decimal s.turn_count)));
  mode = mode;
  prompt = prompt;
  capabilities = [];
  metadata =
      Fields.field "session_id" (Value.str s.session_id)
        (Fields.field "turn_index" (Value.int (ℤ.pos s.turn_count)) Fields.end);
}

-- The record of the turn that a run with this outcome makes.
abbrev pub turn_record : DialogueSession → TurnInput → SessionState → ℕ → TurnRecord
turn_record s input state ms = record {
  turn_index = s.turn_count;
  run_id = state.request_id;
  status = state.status;
  persona_mode = input.persona_mode;
  latency_ms = some ms;
  error_code = state.error_code;
  memory_keys_loaded = input.memory_keys;
}

-- `session.turns.append(…)`, `session.turn_count += 1`, `session.updated_at = …`
abbrev pub append_turn : TurnRecord → String → DialogueSession → DialogueSession
append_turn t now s = record s {
  turns = s.turns ++ t ∷ [];
  turn_count = s.turn_count + 1;
  updated_at = now;
}

-- The status after a turn; the ceiling takes precedence over a pause.
abbrev pub pause_session : Option PauseState → DialogueSession → DialogueSession
pause_session none s = s
pause_session (some _) s = record s { status = SessionStatus.paused }

abbrev pub limit_session : DialogueSession → DialogueSession
limit_session s = record s { status = if is_at_limit s then SessionStatus.at_limit else s.status }

-- From the append on.
unfoldable pub finish_turn :
    StewardGate
    → TurnRecord
    → String
    → SessionState
    → ExecutionResult
    → DialogueSession
    → Result DialogueTurnResult × DialogueSession
finish_turn gate t now state result s =
    let appended = append_turn t now s in
    elim (check gate t.turn_index s.max_turns state.request_id 0 []) [
      | err e ↦ (err e, appended)
      | ok pause ↦
          let after = limit_session (pause_session pause appended) in
          (
            ok (record {
              session = after;
              turn_record = t;
              state = state;
              result = result;
              pause_state = pause;
            }),
            after,
          )
    ]

module _ {W : Type 0} (env : Env W) (utc_now : W → String × W) (gate : StewardGate)
    (input : TurnInput) where
  -- After the orchestrator's call, of a turn that started at `start`.
  unfoldable pub after_run :
      ℕ
      → Result (SessionState × ExecutionResult)
      → DialogueSession
      → W
      → Result DialogueTurnResult × DialogueSession × W
  after_run start (err e) s w = (err e, s, w)
  after_run start (ok (state, result)) s w =
      let (now_ns, w₁) = env.clock.monotonic_ns w in
      let (now, w₂) = utc_now w₁ in
      let (r, s') =
        finish_turn gate (turn_record s input state (elapsed_ms start now_ns)) now state result s in
      (r, s', w₂)

  unfoldable pub execute_turn :
      DialogueSession → W → Result DialogueTurnResult × DialogueSession × W
  unfolding after_run turn_task
  execute_turn s w =
      let (start, w₁) = env.clock.monotonic_ns w in
      elim (attach input.limit input.files s.session_id input.file_ref input.user_prompt) [
        | err e ↦ (err e, s, w₁)
        | ok prompt ↦
            let (r, w₂) = env.orchestrate (turn_task s input.persona_mode prompt) w₁ in
            after_run start r s w₂
      ]

  unfoldable pub run_turn : DialogueSession → W → Result DialogueTurnResult × DialogueSession × W
  unfolding execute_turn
  run_turn s w =
      if is_active s.status
      then if is_at_limit s
        then (err (value_err "SESSION_AT_LIMIT"), record s { status = SessionStatus.at_limit }, w)
        else execute_turn s w
      else (err (value_err "SESSION_NOT_ACTIVE"), s, w)

-- `session_status_summary`
unfoldable pub session_status_summary : DialogueSession → Value
session_status_summary s = Value.obj (
    Fields.field "session_id" (Value.str s.session_id) (
      Fields.field "session_mode" (Value.str (mode_value s.session_mode)) (
        Fields.field "status" (Value.str (status_value s.status)) (
          Fields.field "turn_count" (Value.int (ℤ.pos s.turn_count)) (
            Fields.field "max_turns" (Value.int (ℤ.pos s.max_turns)) (
              Fields.field "turns_remaining" (Value.int (ℤ.pos (s.max_turns - s.turn_count))) (
                Fields.field "created_at" (Value.str s.created_at)
                  (Fields.field "updated_at" (Value.str s.updated_at) Fields.end))))))))

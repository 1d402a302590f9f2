-- ===== src/Dialogue/Persistence.antt =====
-- The session files of io_iii/core/dialogue_session.py. A loaded session keeps the values that
-- `_deserialise_session` does not check as it read them. The storage maps a session identifier to
-- the content of its file.
pub mod RoundTrip
use io_iii_runtime.Prelude.{
  ℕ, zero, suc, String, ◌≡◌, refl, Bool, true, false, not, ◌&&◌, ◌||◌, Option, none, some, List, [],
  ◌∷◌, map, arith, if◌then◌else◌, str_eq, eq_refl,
}
use io_iii_runtime.Python.Value.{ℤ, Value, Items, Fields, find, get, has, is_str}
use io_iii_runtime.Python.Error.{
  ExnClass, Exn, exn, value_err, type_err, Result, ok, err, ◌>>=◌, ◌>>◌, raise_if,
}
use io_iii_runtime.Mode.{SessionMode, mode_value}
use io_iii_runtime.Python.Storage.{
  Stored, unreadable, undecodable, parsed, decode_err, Storage, put,
}
use io_iii_runtime.Python.Value.{nat, opt_nat, opt_str}
use io_iii_runtime.Dialogue.{SessionStatus, status_value, TurnRecord, DialogueSession}

turn_data : TurnRecord → Value
turn_data t = Value.obj (
    Fields.field "turn_index" (nat t.turn_index) (
      Fields.field "run_id" (Value.str t.run_id) (
        Fields.field "status" (Value.str t.status) (
          Fields.field "persona_mode" (Value.str t.persona_mode) (
            Fields.field "latency_ms" (opt_nat t.latency_ms) (
              Fields.field "error_code" (opt_str t.error_code)
                (Fields.field "memory_keys_loaded" (nat t.memory_keys_loaded) Fields.end)))))))

turn_items : List TurnRecord → Items
unfolding turn_data
turn_items [] = Items.nil
turn_items (t ∷ ts) = Items.cons (turn_data t) (turn_items ts)

-- The dictionary that `save_session` writes.
unfoldable pub session_data : DialogueSession → Value
unfolding turn_items
session_data s = Value.obj (
    Fields.field "schema_version" (Value.str "v1") (
      Fields.field "session_id" (Value.str s.session_id) (
        Fields.field "session_mode" (Value.str (mode_value s.session_mode)) (
          Fields.field "turn_count" (nat s.turn_count) (
            Fields.field "max_turns" (nat s.max_turns) (
              Fields.field "status" (Value.str (status_value s.status)) (
                Fields.field "created_at" (Value.str s.created_at) (
                  Fields.field "updated_at" (Value.str s.updated_at)
                    (Fields.field "turns" (Value.arr (turn_items s.turns)) Fields.end)))))))))

pub record LoadedTurn : Type 0 where
  pub turn_index : Value
  pub run_id : Value
  pub status : Value
  pub persona_mode : Value
  pub latency_ms : Value
  pub error_code : Value
  pub memory_keys_loaded : Value

pub record LoadedSession : Type 0 where
  pub session_id : Value
  pub session_mode : SessionMode
  pub turn_count : Value
  pub max_turns : Value
  pub status : SessionStatus
  pub turns : List LoadedTurn
  pub created_at : Value
  pub updated_at : Value

pub schema_invalid : Exn
schema_invalid = value_err "SESSION_SCHEMA_INVALID"

-- `t.get(k, v)`
get_or : String → Value → Fields → Value
get_or k v d = elim (find k d) [ none ↦ v | some w ↦ w ]

turn_of : ℕ → Fields → LoadedTurn
unfolding get_or
turn_of i t = record {
  turn_index = get_or "turn_index" (nat i) t;
  run_id = get_or "run_id" (Value.str "") t;
  status = get_or "status" (Value.str "ok") t;
  persona_mode = get_or "persona_mode" (Value.str "executor") t;
  latency_ms = get "latency_ms" t;
  error_code = get "error_code" t;
  memory_keys_loaded = get_or "memory_keys_loaded" (nat 0) t;
}

turns_of : ℕ → Items → Result (List LoadedTurn)
unfolding turn_of
turns_of i Items.nil = ok []
turns_of i (Items.cons (Value.obj t) ts) = do rest ← turns_of (suc i) ts; ok (turn_of i t ∷ rest)
turns_of i (Items.cons _ ts) = err schema_invalid

-- `SessionMode(v)`
mode_of : Value → Result SessionMode
mode_of v =
    if is_str "work" v
    then ok SessionMode.work
    else if is_str "steward" v
    then ok SessionMode.steward
    else err schema_invalid

status_named : String → Result SessionStatus
status_named t =
    if str_eq t "active"
    then ok SessionStatus.active
    else if str_eq t "paused"
    then ok SessionStatus.paused
    else if str_eq t "closed"
    then ok SessionStatus.closed
    else if str_eq t "at_limit"
    then ok SessionStatus.at_limit
    else err schema_invalid

-- A list or a dictionary cannot be looked up in a set.
status_of : Value → Result SessionStatus
unfolding status_named
status_of (Value.str t) = status_named t
status_of (Value.arr _) = err (type_err "unhashable type")
status_of (Value.obj _) = err (type_err "unhashable type")
status_of _ = err schema_invalid

as_turns : Value → Result (List LoadedTurn)
unfolding turns_of
as_turns (Value.arr ts) = turns_of 0 ts
as_turns _ = err schema_invalid

has_all : List String → Fields → Bool
has_all [] d = true
has_all (k ∷ ks) d = has k d && has_all ks d

abbrev required : List String
required =
    "schema_version" ∷ "session_id" ∷ "session_mode" ∷ "turn_count" ∷ "max_turns" ∷ "status"
    ∷ "created_at" ∷ "updated_at" ∷ "turns" ∷ []

-- `_deserialise_session`
unfoldable pub deserialise : Value → Result LoadedSession
unfolding has_all mode_of status_of as_turns
deserialise (Value.obj d) = do
  raise_if (not (has_all required d)) schema_invalid
  raise_if (not (is_str "v1" (get "schema_version" d))) schema_invalid
  mode ← mode_of (get "session_mode" d)
  status ← status_of (get "status" d)
  turns ← as_turns (get "turns" d)
  ok (record {
    session_id = get "session_id" d;
    session_mode = mode;
    turn_count = get "turn_count" d;
    max_turns = get "max_turns" d;
    status = status;
    turns = turns;
    created_at = get "created_at" d;
    updated_at = get "updated_at" d;
  })
deserialise _ = err schema_invalid

-- What the file system does with the directory and with the two steps of the write.
pub record SessionDisk (W : Type 0) : Type 0 where
  pub make_root : W → Option Exn × W
  pub replace_file : W → Option Exn × W

-- `except OSError as e`
persist_failed : Exn → Exn
persist_failed e = elim e.class [ ExnClass.os_error ↦ value_err "SESSION_PERSIST_FAILED" | _ ↦ e ]

unfoldable pub save_session :
    {W : Type 0} → SessionDisk W → DialogueSession → Storage → W → Result (Unit {0}) × Storage × W
unfolding persist_failed
save_session disk s files w =
    let (no_root, w₁) = disk.make_root w in
    elim no_root [
      | some e ↦ (err e, files, w₁)
      | none ↦
          let (refused, w₂) = disk.replace_file w₁ in
          elim refused [
            | some e ↦ (err (persist_failed e), files, w₂)
            | none ↦ (ok tt, put s.session_id (session_data s) files, w₂)
          ]
    ]

from_stored : Option Stored → Result LoadedSession
from_stored none = err (value_err "SESSION_NOT_FOUND")
from_stored (some unreadable) = err schema_invalid
from_stored (some undecodable) = err decode_err
from_stored (some (parsed v)) = deserialise v

unfoldable pub load_session : String → Storage → Result LoadedSession
unfolding from_stored
load_session id files = from_stored (files id)

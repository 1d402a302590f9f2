-- ===== src/Dialogue/Persistence/RoundTrip.antt =====
-- Saving a session and loading it again.
use io_iii_runtime.Prelude.{
  ℕ, suc, String, ◌≡◌, refl, List, [], ◌∷◌, map, str_eq, if◌then◌else◌, inl, inr, Option-cases,
  Bool-cases, ◌⊎◌,
}
use io_iii_runtime.Python.Value.{Value}
use io_iii_runtime.Python.Error.{Exn, ok, err}
use io_iii_runtime.Mode.{SessionMode, mode_value}
use io_iii_runtime.Python.Storage.{Storage, put}
use io_iii_runtime.Python.Value.{nat, opt_nat, opt_str}
use io_iii_runtime.Dialogue.{SessionStatus, status_value, TurnRecord, DialogueSession}
use io_iii_runtime.Dialogue.Persistence.{
  LoadedTurn, LoadedSession, turn_items, turns_of, mode_of, status_of, session_data, deserialise,
  persist_failed, SessionDisk, save_session, load_session,
}

-- The session as `_deserialise_session` holds it.
abbrev pub as_loaded_turn : TurnRecord → LoadedTurn
as_loaded_turn t = record {
  turn_index = nat t.turn_index;
  run_id = Value.str t.run_id;
  status = Value.str t.status;
  persona_mode = Value.str t.persona_mode;
  latency_ms = opt_nat t.latency_ms;
  error_code = opt_str t.error_code;
  memory_keys_loaded = nat t.memory_keys_loaded;
}

abbrev pub as_loaded : DialogueSession → LoadedSession
as_loaded s = record {
  session_id = Value.str s.session_id;
  session_mode = s.session_mode;
  turn_count = nat s.turn_count;
  max_turns = nat s.max_turns;
  status = s.status;
  turns = map as_loaded_turn s.turns;
  created_at = Value.str s.created_at;
  updated_at = Value.str s.updated_at;
}

turns_of-turn_items :
    (i : ℕ) (ts : List TurnRecord) → turns_of i (turn_items ts) ≡ ok (map as_loaded_turn ts)
unfolding turns_of turn_items
turns_of-turn_items i [] = refl
turns_of-turn_items i (t ∷ ts) = rw (turns_of-turn_items (suc i) ts) refl

mode_of-mode_value : (m : SessionMode) → mode_of (Value.str (mode_value m)) ≡ ok m
unfolding mode_of
mode_of-mode_value SessionMode.work = refl
mode_of-mode_value SessionMode.steward = refl

status_of-status_value : (x : SessionStatus) → status_of (Value.str (status_value x)) ≡ ok x
unfolding status_of
status_of-status_value SessionStatus.active = refl
status_of-status_value SessionStatus.paused = refl
status_of-status_value SessionStatus.closed = refl
status_of-status_value SessionStatus.at_limit = refl

deserialise-session_data : (s : DialogueSession) → deserialise (session_data s) ≡ ok (as_loaded s)
unfolding deserialise session_data
deserialise-session_data s =
    rw
      (
        mode_of-mode_value s.session_mode,
        status_of-status_value s.status,
        turns_of-turn_items 0 s.turns,
      )
      refl

load_session-put :
    (s : DialogueSession) (files : Storage) (id : String)
    → load_session id (put s.session_id (session_data s) files)
      ≡ (if str_eq s.session_id id then ok (as_loaded s) else load_session id files)
unfolding load_session
load_session-put s files id = elim (Bool-cases (str_eq s.session_id id)) [
  | inl e ↦ rw e (deserialise-session_data s)
  | inr e ↦ rw e refl
]

module _ {W : Type 0} (disk : SessionDisk W) (s : DialogueSession) (files : Storage) (w : W) where
  -- A save that returns leaves the saved session to be loaded as it was, with its turns in order,
  -- and every other session as before. A save that raises changes no file.
  pub load_session-save_session :
      (id : String)
      → ((save_session disk s files w).0 ≡ ok tt)
          × (load_session id (save_session disk s files w).1
              ≡ (if str_eq s.session_id id then ok (as_loaded s) else load_session id files))
        ⊎ (e : Exn) × ((save_session disk s files w).0 ≡ err e)
          × ((save_session disk s files w).1 ≡ files)
  unfolding save_session
  load_session-save_session id = elim (Option-cases (disk.make_root w).0) [
    | inr (e, h) ↦ inr (e, rw (h, save_session) refl, rw (h, save_session) refl)
    | inl h ↦ elim (Option-cases (disk.replace_file (disk.make_root w).1).0) [
      | inr (e, k) ↦ inr (
        persist_failed e,
        rw (h, save_session) (rw (k, save_session) refl),
        rw (h, save_session) (rw (k, save_session) refl),
      )
      | inl k ↦ inl (
        rw (h, save_session) (rw (k, save_session) refl),
        rw (h, save_session) (rw (k, save_session) (load_session-put s files id)),
      )
    ]
  ]

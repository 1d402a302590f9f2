-- ===== src/Dialogue/Turns.antt =====
-- The turns of a session as a relation, and the sessions that it reaches.
use io_iii_runtime.Prelude.{
  ℕ, suc, ◌+◌, ◌≤◌, ◌<◌, ◌≡◌, ◌≢◌, refl, String, true, false, Option, none, some, List, [], ◌∷◌,
  ◌++◌, arith, length, length-append, ◌⊎◌, inl, inr, Bool-cases, ◌↔◌, subst, ap, leb→le,
}
use io_iii_runtime.Python.Error.{Exn, Result, ok, err, value_err}
use io_iii_runtime.Mode.{SessionMode, PauseState, StewardGate, check}
use io_iii_runtime.SessionState.{SessionState}
use io_iii_runtime.Engine.{ExecutionResult}
use io_iii_runtime.Runner.{Env}
use io_iii_runtime.Runner.Induction.{Result-cases}
use io_iii_runtime.Dialogue.Attach.{attach}
use io_iii_runtime.Dialogue.{
  SessionStatus, TurnRecord, DialogueSession, is_at_limit, is_active, DialogueTurnResult,
  new_session, TurnInput, turn_record, append_turn, pause_session, limit_session, finish_turn,
  after_run, execute_turn, run_turn,
}

-- The turns of a list have the indices from `i` on.
abbrev pub Numbered : ℕ → List TurnRecord → Type 0
Numbered i [] = Unit
Numbered i (t ∷ ts) = (t.turn_index ≡ i) × Numbered (suc i) ts

pub record IsValid (s : DialogueSession) : Type 0 where
  pub counted : s.turn_count ≡ length s.turns
  pub bounded : s.turn_count ≤ s.max_turns
  pub numbered : Numbered 0 s.turns
  pub limited : (s.status ≢ SessionStatus.at_limit) ⊎ (s.turn_count ≡ s.max_turns)

-- The session after a turn that was executed: the record is appended, and the status follows from
-- the ceiling and the gate's answer.
abbrev pub extended : TurnRecord → String → Option PauseState → DialogueSession → DialogueSession
extended t now pause s = limit_session (pause_session pause (append_turn t now s))

-- What a turn can do with a session.
pub data Turn (gate : StewardGate) (s : DialogueSession)
    : Result DialogueTurnResult → DialogueSession → Type 0 where
  not_active : is_active s.status ≡ false → Turn gate s (err (value_err "SESSION_NOT_ACTIVE")) s
  refused :
      s.max_turns ≤ s.turn_count
      → Turn gate s
          (err (value_err "SESSION_AT_LIMIT"))
          (record s { status = SessionStatus.at_limit })
  raised : (e : Exn) → s.turn_count < s.max_turns → Turn gate s (err e) s
  unchecked :
      (e : Exn) (t : TurnRecord) (now run : String)
      → s.turn_count < s.max_turns
      → is_active s.status ≡ true
      → t.turn_index ≡ s.turn_count
      → check gate s.turn_count s.max_turns run 0 [] ≡ err e
      → Turn gate s (err e) (append_turn t now s)
  executed :
      (t : TurnRecord) (now : String) (pause : Option PauseState) (state : SessionState)
      (result : ExecutionResult)
      → s.turn_count < s.max_turns
      → is_active s.status ≡ true
      → t.turn_index ≡ s.turn_count
      → t.run_id ≡ state.request_id
      → check gate s.turn_count s.max_turns state.request_id 0 [] ≡ ok pause
      → Turn gate s
          (ok (record {
            session = extended t now pause s;
            turn_record = t;
            state = state;
            result = result;
            pause_state = pause;
          }))
          (extended t now pause s)

module _ {W : Type 0} (env : Env W) (utc_now : W → String × W) (gate : StewardGate)
    (input : TurnInput) where
  abbrev IsTurn : DialogueSession → Result DialogueTurnResult × DialogueSession × W → Type 0
  IsTurn s out = Turn gate s out.0 out.1

  finish_turn-Turn :
      (s : DialogueSession) (state : SessionState) (result : ExecutionResult) (ms : ℕ)
      (now : String)
      → s.turn_count < s.max_turns
      → is_active s.status ≡ true
      → Turn gate s
          (finish_turn gate (turn_record s input state ms) now state result s).0
          (finish_turn gate (turn_record s input state ms) now state result s).1
  unfolding finish_turn
  finish_turn-Turn s state result ms now h a =
      elim (Result-cases (check gate s.turn_count s.max_turns state.request_id 0 [])) [
        | inl (pause, e) ↦
            rw (e, finish_turn)
              (Turn.executed (turn_record s input state ms) now pause state result h a refl refl e)
        | inr (x, e) ↦
            rw (e, finish_turn)
              (Turn.unchecked x (turn_record s input state ms) now state.request_id h a refl e)
      ]

  after_run-Turn :
      (start : ℕ) (r : Result (SessionState × ExecutionResult)) (s : DialogueSession) (w : W)
      → s.turn_count < s.max_turns
      → is_active s.status ≡ true
      → IsTurn s (after_run env utc_now gate input start r s w)
  unfolding after_run
  after_run-Turn start (err e) s w h a = Turn.raised e h
  after_run-Turn start (ok (state, result)) s w h a = finish_turn-Turn s state result _ _ h a

  execute_turn-Turn :
      (s : DialogueSession) (w : W)
      → s.turn_count < s.max_turns
      → is_active s.status ≡ true
      → IsTurn s (execute_turn env utc_now gate input s w)
  unfolding execute_turn
  execute_turn-Turn s w h a =
      elim (Result-cases
        (attach input.limit input.files s.session_id input.file_ref input.user_prompt)) [
          | inl (prompt, e) ↦ rw (e, execute_turn) (after_run-Turn _ _ s _ h a)
          | inr (x, e) ↦ rw (e, execute_turn) (Turn.raised x h)
        ]

  -- A call of `run_turn` on any session does one of these: it refuses a session that is not active
  -- and leaves it alone; it refuses one at its ceiling and marks it; it raises before the record is
  -- appended and leaves the session alone; the gate raises after the append; or one record with the
  -- session's next index and the identifier of the run is appended, and the status follows from the
  -- ceiling and the gate's answer.
  pub run_turn-Turn :
      (s : DialogueSession) (w : W)
      → Turn gate s (run_turn env utc_now gate input s w).0 (run_turn env utc_now gate input s w).1
  unfolding run_turn
  run_turn-Turn s w = elim (Bool-cases (is_active s.status)) [
    | inr n ↦ rw (n, run_turn) (Turn.not_active n)
    | inl a ↦ elim (Bool-cases (is_at_limit s)) [
      | inl l ↦ rw (a, l, run_turn) (Turn.refused (leb→le s.max_turns s.turn_count l))
      | inr l ↦ rw (a, l, run_turn) (execute_turn-Turn s w (ground (arith, l)) a)
    ]
  ]

Numbered-append :
    (i : ℕ) (ts : List TurnRecord) (t : TurnRecord)
    → Numbered i ts
    → t.turn_index ≡ i + length ts
    → Numbered i (ts ++ t ∷ [])
Numbered-append i [] t h e = (omega (arith, e), tt)
Numbered-append i (u ∷ ts) t h e = (h.0, Numbered-append (suc i) ts t h.1 (omega (arith, e)))

append_turn-IsValid :
    (s : DialogueSession) (t : TurnRecord) (now : String)
    → IsValid s
    → s.turn_count < s.max_turns
    → is_active s.status ≡ true
    → t.turn_index ≡ s.turn_count
    → IsValid (append_turn t now s)
append_turn-IsValid s t now v h a e = record {
  counted = omega (arith, v.counted, length-append s.turns (t ∷ []));
  bounded = omega (arith, h);
  numbered = Numbered-append 0 s.turns t v.numbered (omega (arith, e, v.counted));
  limited = inl (λ l. ground (arith, a, l));
}

pause_session-IsValid :
    (pause : Option PauseState) (s : DialogueSession) → IsValid s → IsValid (pause_session pause s)
pause_session-IsValid none s v = v
pause_session-IsValid (some p) s v = record {
  counted = v.counted;
  bounded = v.bounded;
  numbered = v.numbered;
  limited = inl (λ l. cc);
}

limit_session-IsValid : (s : DialogueSession) → IsValid s → IsValid (limit_session s)
limit_session-IsValid s v = record {
  counted = v.counted;
  bounded = v.bounded;
  numbered = v.numbered;
  limited = ground (arith, v.limited, v.bounded);
}

extended-IsValid :
    (s : DialogueSession) (t : TurnRecord) (now : String) (pause : Option PauseState)
    → IsValid (append_turn t now s)
    → IsValid (extended t now pause s)
extended-IsValid s t now pause v =
    limit_session-IsValid (pause_session pause (append_turn t now s))
      (pause_session-IsValid pause (append_turn t now s) v)

Turn-IsValid :
    (gate : StewardGate) (s s' : DialogueSession) (r : Result DialogueTurnResult)
    → Turn gate s r s'
    → IsValid s
    → IsValid s'
Turn-IsValid gate s s' r (Turn.not_active n) v = v
Turn-IsValid gate s s' r (Turn.refused h) v = record {
  counted = v.counted;
  bounded = v.bounded;
  numbered = v.numbered;
  limited = inr (omega (arith, h, v.bounded));
}
Turn-IsValid gate s s' r (Turn.raised e h) v = v
Turn-IsValid gate s s' r (Turn.unchecked e t now run h a i c) v =
    append_turn-IsValid s t now v h a i
Turn-IsValid gate s s' r (Turn.executed t now pause state result h a i k c) v =
    extended-IsValid s t now pause (append_turn-IsValid s t now v h a i)

-- What the status says after a turn that returned.
abbrev pub StatusFits : DialogueSession → Option PauseState → Type 0
StatusFits s pause =
    ((s.status ≡ SessionStatus.at_limit) ↔ (s.turn_count ≡ s.max_turns))
    × ((s.status ≡ SessionStatus.paused) ↔ ((s.turn_count ≢ s.max_turns) × (pause ≢ none)))

extended-StatusFits :
    (t : TurnRecord) (now : String) (pause : Option PauseState) (s : DialogueSession)
    → s.turn_count < s.max_turns
    → is_active s.status ≡ true
    → StatusFits (extended t now pause s) pause
extended-StatusFits t now none s h a = ground arith
extended-StatusFits t now (some p) s h a = ground arith

Turn-StatusFits :
    (gate : StewardGate) (s s' : DialogueSession) (r : Result DialogueTurnResult)
    (x : DialogueTurnResult)
    → Turn gate s r s'
    → r ≡ ok x
    → (x.session ≡ s') × StatusFits s' x.pause_state
Turn-StatusFits gate s s' r x (Turn.not_active n) e = cc
Turn-StatusFits gate s s' r x (Turn.refused h) e = cc
Turn-StatusFits gate s s' r x (Turn.raised z h) e = cc
Turn-StatusFits gate s s' r x (Turn.unchecked z t now run h a i c) e = cc
Turn-StatusFits gate s s' r x (Turn.executed t now pause state result h a i k c) e =
    let y : DialogueTurnResult = record {
      session = extended t now pause s;
      turn_record = t;
      state = state;
      result = result;
      pause_state = pause;
    } in
    let same : y ≡ x = ap (λ (q : Result DialogueTurnResult). elim q [ ok z ↦ z | err _ ↦ x ]) e in
    subst (λ (z : DialogueTurnResult). (z.session ≡ s') × StatusFits s' z.pause_state) same
      (refl, extended-StatusFits t now pause s h a)

module _ {W : Type 0} (env : Env W) (utc_now : W → String × W) (gate : StewardGate) where
  -- The session after turns with these inputs, whatever becomes of each.
  unfoldable pub converse : List TurnInput → DialogueSession → W → DialogueSession × W
  converse [] s w = (s, w)
  converse (input ∷ inputs) s w =
      converse inputs (run_turn env utc_now gate input s w).1
        (run_turn env utc_now gate input s w).2

  converse-IsValid :
      (inputs : List TurnInput) (s : DialogueSession) (w : W)
      → IsValid s
      → IsValid (converse inputs s w).0
  unfolding converse
  converse-IsValid [] s w v = v
  converse-IsValid (input ∷ inputs) s w v =
      converse-IsValid inputs _ _
        (Turn-IsValid gate s _ _ (run_turn-Turn env utc_now gate input s w) v)

  -- Whatever turns are asked for in a new session, it never has more than its ceiling of turns, its
  -- count is the number of its records, the records are numbered from 0 in order, and it is
  -- `at_limit` only with the ceiling reached.
  pub converse-new_session-IsValid :
      (inputs : List TurnInput) (mode : SessionMode) (max_turns : ℕ) (id created updated : String)
      (w : W)
      → IsValid (converse inputs (new_session mode max_turns id created updated) w).0
  unfolding new_session
  converse-new_session-IsValid inputs mode max_turns id created updated w =
      converse-IsValid inputs _ w
        (record { counted = refl; bounded = omega arith; numbered = tt; limited = inl (λ l. cc) })

  -- A turn that returns gives back the session that it left; that session is `at_limit` exactly with
  -- its ceiling reached, and `paused` exactly if the gate paused it below the ceiling.
  pub run_turn-StatusFits :
      (input : TurnInput) (s : DialogueSession) (w : W) (x : DialogueTurnResult)
      → (run_turn env utc_now gate input s w).0 ≡ ok x
      → (x.session ≡ (run_turn env utc_now gate input s w).1)
        × StatusFits (run_turn env utc_now gate input s w).1 x.pause_state
  run_turn-StatusFits input s w x e =
      Turn-StatusFits gate s _ _ x (run_turn-Turn env utc_now gate input s w) e

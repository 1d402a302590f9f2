-- ===== src/Dialogue/Pauses.antt =====
-- Which thresholds can pause a dialogue session.
use io_iii_runtime.Prelude.{◌≡◌, refl, sym, String, Option, none, ap, ◌∙◌}
use io_iii_runtime.Python.Error.{Result, ok, err}
use io_iii_runtime.Mode.{PauseState, StewardGate}
use io_iii_runtime.Mode.Gate.{check_quiet}
use io_iii_runtime.Runner.{Env}
use io_iii_runtime.Dialogue.{DialogueSession, DialogueTurnResult, TurnInput, run_turn}
use io_iii_runtime.Dialogue.Turns.{Turn, run_turn-Turn}

abbrev pause_in : Option PauseState → Result DialogueTurnResult → Option PauseState
pause_in p (ok x) = x.pause_state
pause_in p (err e) = p

abbrev checked : Option PauseState → Result (Option PauseState) → Option PauseState
checked p (ok q) = q
checked p (err e) = p

Turn-quiet :
    (gate : StewardGate) (s s' : DialogueSession) (r : Result DialogueTurnResult)
    → Turn gate s r s'
    → gate.thresholds.step_count ≡ none
    → pause_in none r ≡ none
Turn-quiet gate s s' r (Turn.not_active n) h = refl
Turn-quiet gate s s' r (Turn.refused _) h = refl
Turn-quiet gate s s' r (Turn.raised e _) h = refl
Turn-quiet gate s s' r (Turn.unchecked e t now run _ _ _ _) h = refl
Turn-quiet gate s s' r (Turn.executed t now pause state result _ _ _ _ c) h =
    ap (checked none) (sym c ∙ check_quiet gate s.turn_count s.max_turns state.request_id h)

-- A gate without a step count never pauses a turn, whatever its token budget and its classes: the
-- call of the gate passes neither tokens nor classes.
pub run_turn-quiet :
    {W : Type 0} (env : Env W) (utc_now : W → String × W) (gate : StewardGate) (input : TurnInput)
    (s : DialogueSession) (w : W) (x : DialogueTurnResult)
    → gate.thresholds.step_count ≡ none
    → (run_turn env utc_now gate input s w).0 ≡ ok x
    → x.pause_state ≡ none
run_turn-quiet env utc_now gate input s w x h e =
    ap (pause_in none) (sym e) ∙ Turn-quiet gate s _ _ (run_turn-Turn env utc_now gate input s w) h

-- ===== src/Engine/Plan.antt =====
-- The documented sequence of the lifecycle events of a run, and its beginnings.
use io_iii_runtime.Prelude.{
  ◌≡◌, refl, sym, Bool, true, false, List, [], ◌∷◌, ◌++◌, append_assoc, if◌then◌else◌, arith,
}
use io_iii_runtime.Python.Value.{Value, is_str}
use io_iii_runtime.Observability.{EngineEventKind}

abbrev pub Kinds : Type 0
Kinds = List EngineEventKind

-- The events up to the resolved route.
abbrev pub routed_kinds : Kinds
routed_kinds = EngineEventKind.run_started ∷ EngineEventKind.route_resolved ∷ []

-- The events up to the answer of the provider.
abbrev pub answered_kinds : Kinds
answered_kinds =
    EngineEventKind.run_started ∷ EngineEventKind.route_resolved
    ∷ EngineEventKind.provider_execution_complete ∷ []

-- The events of an audit with the given verdict, if there is an audit.
abbrev pub pass_kinds : Bool → Value → Kinds
pass_kinds false v = []
pass_kinds true v =
    EngineEventKind.challenger_audit_complete
    ∷ (if is_str "needs_work" v then EngineEventKind.revision_complete ∷ [] else [])

-- The events of a run whose audit left it at `ks`.
abbrev pub closed : Kinds → Kinds
closed ks = (ks ++ EngineEventKind.output_emitted ∷ []) ++ EngineEventKind.run_complete ∷ []

-- The whole sequence, with or without an audit, for a verdict.
abbrev pub planned : Bool → Value → Kinds
planned audited v = closed (answered_kinds ++ pass_kinds audited v)

-- A proper beginning of the whole sequence for some verdict.
pub record IsStart (audited : Bool) (ks : Kinds) : Type 0 where
  pub verdict : Value
  pub next : EngineEventKind
  pub later : Kinds
  pub reached : ks ++ next ∷ later ≡ planned audited verdict

pub none-IsStart : (b : Bool) → IsStart b []
none-IsStart b = record { verdict = Value.null; next = _; later = _; reached = refl }

pub started-IsStart : (b : Bool) → IsStart b (EngineEventKind.run_started ∷ [])
started-IsStart b = record { verdict = Value.null; next = _; later = _; reached = refl }

pub routed-IsStart : (b : Bool) → IsStart b routed_kinds
routed-IsStart b = record { verdict = Value.null; next = _; later = _; reached = refl }

pub answered-IsStart : (b : Bool) → IsStart b answered_kinds
answered-IsStart false = record { verdict = Value.null; next = _; later = _; reached = refl }
answered-IsStart true = record { verdict = Value.null; next = _; later = _; reached = refl }

-- The end of the audit with the verdict `v`, and the output behind it.
pub passes-IsStart : (b : Bool) (v : Value) → IsStart b (answered_kinds ++ pass_kinds b v)
passes-IsStart b v = record {
  verdict = v;
  next = EngineEventKind.output_emitted;
  later = EngineEventKind.run_complete ∷ [];
  reached = sym (
      append_assoc (answered_kinds ++ pass_kinds b v) (EngineEventKind.output_emitted ∷ [])
        (EngineEventKind.run_complete ∷ []));
}

pub output-IsStart :
    (b : Bool) (v : Value)
    → IsStart b ((answered_kinds ++ pass_kinds b v) ++ EngineEventKind.output_emitted ∷ [])
output-IsStart b v = record { verdict = v; next = _; later = []; reached = refl }

pub audited-IsStart :
    (b : Bool)
    → b ≡ true
    → IsStart b (answered_kinds ++ EngineEventKind.challenger_audit_complete ∷ [])
audited-IsStart true h = passes-IsStart true Value.null
audited-IsStart false h = absurd (ground arith)

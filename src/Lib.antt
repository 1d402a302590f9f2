-- ===== src/Lib.antt =====
-- io-iii-runtime: the deterministic core of the runtime, modelled from its Python source.
--
-- A task (core/task_spec.py) names a mode and a prompt. A runbook (core/runbook.py) is a list of at
-- most 20 tasks, each with an optional condition in the conditional form. The runner
-- (core/runbook_runner.py) calls the orchestrator once per task, keeps an outcome and lifecycle
-- events, and stops at the first exception. Replay and resume (core/replay_resume.py) run a runbook
-- or its rest through the runner, and keep a checkpoint that a later resume loads. A dialogue
-- session (core/dialogue_session.py) runs one task per turn through the same orchestrator, puts an
-- uploaded file (core/file_store.py) before the prompt, and asks the steward gate
-- (core/session_mode.py) after each turn whether to pause. A run keeps a trace
-- (core/execution_trace.py) and a control-plane snapshot (core/session_state.py), and its
-- exceptions are classified into failure envelopes (core/failure_model.py). The orchestrator
-- (core/orchestrator.py) routes the mode of a task to a provider (routing.py), builds the snapshot
-- and calls the engine once. The engine (core/engine.py) may call one capability
-- (core/capabilities.py), assembles the prompt (core/context_assembly.py, core/preflight.py,
-- persona_contract.py), asks the provider, may let a challenger audit the answer and the provider
-- revise it, and logs its lifecycle events (core/engine_observability.py), which a guard keeps free
-- of content (core/content_safety.py). The memory (memory/) keeps versioned records in files; each
-- write is confirmed, and a policy decides which records a route may read and a continued session
-- loads. A session can be exported as a snapshot (core/snapshot.py). The models that the routing table
-- binds to the roles are checked when the configuration is loaded (core/constellation.py). All paths are those under
-- io_iii/.
--
-- The files, with the parts of io_iii/ that they model:
--   Python           the values of json and yaml, texts, exceptions, clocks
--   Failure          core/failure_model.py: Types, CausalCode, Classify
--   Trace            core/execution_trace.py: the record and its recorder, as functions on the trace
--   Mode             core/session_mode.py: thresholds, StewardGate.check, transition_mode
--   SessionState     core/session_state.py: the snapshot and validate_session_state
--   TaskSpec         core/task_spec.py: create, to_dict, from_dict
--   Runbook          core/runbook.py: create, to_dict, from_dict; Runbook.Conditional the conditions,
--                    evaluate_when of core/runbook_runner.py, and in Runbook.Conditional.Dict the
--                    dictionaries
--   Safety           core/content_safety.py: the loop of assert_no_forbidden_keys
--   Observability    core/engine_observability.py: the events and the bounded log; check_emit is the
--                    part of emit in front of the append
--   Capabilities     core/capabilities.py: the registry; Capabilities.Invocation the call of
--                    core/engine.py, _invoke_capability_once, with its helpers
--   Persona          persona_contract.py: the contracts, identity and profile over their defaults
--   Config           config.py: the record of the loaded configuration
--   Constellation    core/constellation.py: check_constellation, with its three checks by name
--   Context          core/context_assembly.py: Context.Prompt _build_system_prompt, Context.Metadata
--                    the memory budget and the metadata; check_context_limit of core/preflight.py
--   Engine           core/engine.py: Engine.Environment what a run is given, Engine.Challenger
--                    _run_challenger, Engine.Actions the state and its actions, Engine.Passes the
--                    capability, audit and revision, Engine.Paths the null path and the local path,
--                    Engine.Results the returned values (with core/telemetry.py), Engine.Limits the
--                    prompt limit, Engine.Run the try block (body) and its handler (recover);
--                    Engine.Plan is the documented sequence of the events
--   Orchestrator     core/orchestrator.py: run, in two parts, prepare and execute
--   Samples          values that several files of tests share
--   Runner           core/runbook_runner.py: run and run_with_context; timed_call is the call of the
--                    orchestrator with its two clock reads
--   Checkpoint       core/replay_resume.py: Checkpoint.Files the records with
--                    _load_and_validate_checkpoint; _write_checkpoint is checkpoint_data with
--                    write_checkpoint, _execute is execute with execute_slice
--   FileStore        core/file_store.py: store, resolve, delete
--   Routing          routing.py: resolve_route; select is its part from the first call of usable on
--   Memory           memory/policy.py and memory/packs.py: can_access, filter_records, resolve_keys;
--                    Memory.Store memory/store.py, with Memory.Provenance; Memory.Write memory_write
--                    of memory/write.py; Memory.Continuity memory/session_continuity.py; the file
--                    that a scope and a key lead to is a parameter
--   Snapshot         core/snapshot.py: export_snapshot and import_snapshot
--   Dialogue         core/dialogue_session.py: run_turn with its stages attach, after_run and
--                    finish_turn; Dialogue.Attach the attachment; Dialogue.Persistence save_session,
--                    load_session and _deserialise_session
--
-- A computation that can raise gives a Result: a value or the exception with its class, its stable
-- code, and the envelope that the engine attaches. The state of the world outside the model is a
-- type W that every clock read, identifier, orchestrator call and disk write passes on, so an order
-- of effects is an order of calls. Storage holds files as the parser reads them; a write puts the
-- whole file or, if it raises, leaves the old one, as the writers rename a sibling file. Integers of
-- the program are unbounded, as Python's are; where the code only has counts, the model has natural
-- numbers. Loops go over lists, with two exceptions that take fuel: the digits of a numeral have as
-- many rounds as the number is large, and one; the loop of the content guard has as many rounds as
-- the value has parts, and its theorem shows that this is enough. In the engine a computation takes
-- the state and gives a Result with the new state (Python.Effect), so what was emitted or recorded
-- before an exception stays.
--
-- Parameters: the clocks, uuid, the disk, the reading of paths in the memory store, the providers and the code of a capability, the JSON
-- module, int, sha256, the parsed configuration files, and the Unicode tables of str.isalnum and
-- str.upper; for the runner, the checkpoints and the sessions also the orchestrator, with the
-- configuration, dependencies and audit flag that it is called with.
--
-- Not modelled: the portability checks, the HTTP server, the command line, the clients of the
-- providers and the loading of configuration, which are input and output around these operations;
-- the listings of registries and directories. The type tests that a typed caller cannot fail are
-- left out.
pub mod Prelude
pub mod Python
pub mod Failure
pub mod Trace
pub mod Mode
pub mod SessionState
pub mod TaskSpec
pub mod Runbook
pub mod Engine
pub mod Runner
pub mod Checkpoint
pub mod FileStore
pub mod Dialogue
pub mod Routing
pub mod Memory
pub mod Safety
pub mod Observability
pub mod Config
pub mod Constellation
pub mod Capabilities
pub mod Samples
pub mod Persona
pub mod Context
pub mod Orchestrator
pub mod Snapshot

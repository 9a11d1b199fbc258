-- ===== src/Lib.antt =====
-- Verification of bot-ea, Python packages that trade gold through MetaTrader 5 and tell people of it.
-- An expert advisor appends events to a spool file. The event bridge reads them into SQLite tables
-- and sends them to chats. An orchestrator's entry gate lets one EA session enter trades. The signal
-- engine follows a setup through its states, checks an order before it is sent, and manages the open
-- position; the bot halts a session at its limits. A polling runtime of the bot takes, in each cycle, at
-- most one order from a decision engine through the session's limits, the risk engine and the broker's
-- checks. The orchestrator also starts, watches and restarts the worker processes.
--
-- The parts, with the files of the repository that they model:
--   Bridge    src/gold_event_bridge/{events,store,bridge}.py. Json and Envelope: the parser
--             `from_json_line`, `validate` and `canonical_json`. Store: the tables as lists in a record
--             `Database`, and `ingest_spool` as a pass over the lines that `readline` returns, whose
--             exception rolls back. Rotation: `compact_ingested_spool` and `recover_rotated_spools`.
--             Delivery: `recipients` and `deliver_pending`, with the sender as an argument. The other
--             modules are proofs: Contract on the parser; Lines, Ingest, Adjust, Resume, Compact and
--             Recovery on the ingestion; Recipients, Once and Settled on the delivery.
--   Gate      src/gold_orchestrator/entry_gate.py. Reading: the four files of the root directory as
--             a record, and what is read of them; Files: `status` and `set_enabled` on them.
--             Authority, Switch and Binding are proofs.
--   Setup     src/goldm_signal/strategy/state_machine.py. Machine: the states, their transitions and
--             the two methods, each with the exception it raised and the machine as it was left.
--             Order and History: proofs.
--   Execution src/gold_engine_core/execution.py, and of contracts.py the records that it reads.
--             Signal, Contract and Reasons: the records and the checks of their constructors. Order:
--             `validate_execution`, with its tests in the order of the code. Payload: `from_payload`
--             and `to_payload` of a policy. Exact, Conditions, Allowed, Geometry and Roundtrip are proofs.
--   Position  src/goldm_signal/position_management.py. Policy: the records; Plan:
--             `plan_position_management`. Cases, Actions, Total and Profit are proofs; Profit names
--             the order laws of the numbers that it needs.
--   Session   src/bot_ea/stop_policy.py. Stop: `evaluate_stop_policy`; Halt: proofs.
--   Risk      src/bot_ea/{risk_engine,models,execution_guard,symbol_policy,decision_tree}.py. Models:
--             the records. Tables, Allocation, Suitability, Cash and Size: RiskEngine, its early
--             returns as rows of tests with their results. Guard: the checks before an order is
--             sent. Symbols: what a name says of its class. Accepted, Results, Budget,
--             Loss, Mode and Gates are proofs; Budget and Loss name the laws of the numbers that they need.
--   Runtime   src/gold_engine_core/{reference_runtime,causal_replay}.py, and what they read of
--             contracts.py. State: the records, an envelope's lane being that of its kind; Fast, Bars
--             and Slow: the lanes of ReferenceProfileRuntime, with `validate_after`; Replay: the data
--             set and `run`; Path: `resolve_signal_path`. Catchup, Reach, NoFuture, Once,
--             Outbox, Queue and Resolved are proofs, on what Steps, TickSteps, BarSteps, Buckets,
--             Frames, Lookahead and Causal show of single steps; Queue holds the abstract queue that
--             the lanes refine.
--   Polling   src/bot_ea/polling_runtime.py. Models: the records, and the rows of the store; Report:
--             an order's attempt, from its first row to the end of the cycle; Cycle: `run_cycle` up to
--             there, over Session and Risk. A call that may raise returns a `Called`, and the world
--             that it leaves is passed on. Verdict, Halting, Cleared and Exposure are proofs.
--   Supervisor src/gold_orchestrator/runtime.py, the worker processes. Program: statements that raise,
--             with the state that they leave, and what a program leads to; Models: the records, the
--             operating system and Telegram as a `System`; Worker: `start_worker`, `stop_worker`,
--             `set_desired` and `supervise_once`. Recorded, Process, Steps, History, Backoff and
--             Unwanted are proofs; Recorded names what of the processes they rely on.
--   Base      what they share: lists and texts over the native numbers, Python's integers, decimal
--             texts, `split` and `strip`, rows of checks, calls that may raise, and `Number`, the
--             operations of floats.
--   Examples  the models and the theorems on concrete inputs.
--
-- Bounds and parameters. The loops run over lists and need no fuel, but for two: `decimal`
-- (Base/Decimal) has one more than its number, and `value_from-decimal` shows that this is enough; the
-- catch-up loop of `on_tick` recurs on the number of bars that its limit still allows, which is the
-- code's own counter. `Python` (Bridge/Json) stands for the UTF-8 decoder, the JSON reader and printer
-- and the conversions of float and digit texts; `Library` (Base/Library) for decimal literals,
-- `math.floor`, `round`, `format` and changes of case; `DecimalText` (Execution/Payload) for the texts
-- of decimals; `Number` (Base/Number) for the arithmetic of floats and decimals, of which only the
-- named operations are used. Texts of digits are taken to be shorter than the limit of 4300 digits at
-- which Python's `int` raises. The times of the runtime are microseconds from the start of the year 1,
-- all in one zone, and no time is so late that a datetime overflows. The strategy engine, the guard of
-- ticks and the sink of the slow lane, the sender of a message, the clock, and what happens to the
-- file system between two steps are arguments of the functions. So are the snapshot provider, the
-- decision engine and the execution runtime of the polling runtime, whose dicts are records with
-- optional fields; its tickets are compared as they are, without `str`. One reading of
-- `poll` stands for those that follow each other without a call in between.
--
-- Not modelled: the texts of messages and of `format_message`, `build_setup_id`, the clock columns of
-- the tables, `load_execution_policy`, the timeframe W1, which no lane takes, the hash of a replay's
-- events, exceptions of the runtime store and its identifiers, times and payloads, the log handles of
-- the workers, the threads of `run_isolated_profile_steps`, and the packages' other parts: the MetaTrader
-- adapter, the strategy rules, storage, portfolio worker, the orchestrator's Telegram commands and research tools.
pub mod Base
pub mod Setup
pub mod Bridge
pub mod Gate
pub mod Examples
pub mod Execution
pub mod Position
pub mod Session
pub mod Risk
pub mod Runtime
pub mod Polling
pub mod Supervisor

-- ===== src/Lib.antt =====
-- Storm Pulse: a model of the agent's core, with the theorems that make it correct.
--
-- The agent runs beside a host's services. It takes signed commands from a control plane over a
-- websocket, runs them from a whitelist, and sends back results, logs and events.
--
-- Parts and files (paths from the repository's root):
--   * Protocol: stormpulse/protocol. Messages, Reasons and Results are the data of payloads.py and
--     reasons.py; Codec is the decoder of codec.py over a syntax of annotations (Ann); Envelope is the
--     parser of envelope.py. Json is what json.loads gives.
--   * Auth: stormpulse/auth.py. verify_envelope, sign_envelope and NonceStore.check_and_store by their
--     names; a NonceStore is the rows of the table. Passed is its checks in order, Signed the
--     signature, Verify what one call establishes, Replay sequences of calls;
--     Secret is load_hmac_secret over the bytes of the file.
--   * Commands: Schema is stormpulse/config/param_schema.py, Spec is stormpulse/config/commands.py,
--     Params and Registry are stormpulse/commands/registry.py, function by function; execute_command
--     is in Registry.Execution.
--   * Events: Buffer is the class EventBuffer of stormpulse/events.py, one function for each method from
--     state to state; Ledger is any sequence of calls beside a record of where each event went.
--     Admit is the registries of declared events, admit and emit; Walk is record_call and the summary;
--     Spool is stormpulse/agent/event_spool.py from the lines of a segment to the tick.
--   * Signoff: stormpulse/signoff/__init__.py, an operation being its list of file steps, so that a crash
--     is a prefix of it; Admission is stormpulse/agent/signoff_guard.py and admission.py.
--   * Jobs: stormpulse/commands/jobs.py. Outcome is JobOutcome and the result made of it; Attempts is the
--     loop of _run and its _RetryWindow; Manager is JobManager, one function for each method, and Steps
--     what its tasks, the dispatcher and shutdown_all do between two awaits, in any order.
--   * Dispatch: stormpulse/agent/dispatch.py, refresh.py, session.py and acks.py. A handler gives the
--     effects that it has in order. Single is handle_command_request with its three paths, Sequence is
--     handle_command_sequence, Acks the acknowledgements, Route the table HANDLERS and dispatch_message.
--   * Logs: Pending is stormpulse/agent/log_batches.py, Receipt is stormpulse/logging/receipt.py, Positions
--     is the table of stormpulse/logging/positions.py.
--   * Base: tests, lists, dicts, integers and texts that the parts share.
-- Dispatch composes them: a frame is parsed by Protocol, checked by Auth, which decodes the payload with
-- Codec, and its command is admitted by Signoff.Admission, then looked up, validated and run by Commands
-- or handed to Jobs.
--
-- Numbers: lengths, counts and times are natural numbers, a time is its microseconds, and Python's
-- unbounded int is ℤ. Floats are kept by their spelling. Loops are structural recursion,
-- but for _run, which is on fuel: one round more than the window has seconds is enough.
--
-- Waits: handle_log_batch_ack awaits its shipper, and what the other tasks do meanwhile is a parameter;
-- so are the files that an emitter renames in while a segment is settled. Exceptions that the code does
-- not catch (of json.loads, subprocess.run and a collector) are outcomes of their own.
--
-- Parameters: HMAC-SHA256, json.loads and json.dumps, datetime.fromisoformat, re.fullmatch,
-- str.format_map, subprocess.run and the answers of grants are arguments of what uses them. Clock
-- readings are arguments, one for each call of the clock.
--
-- Not modelled: input and output (websocket, TLS, files, SQLite's locking), logging, the integrations,
-- the command line, enrolment and the wizard. A lock that is held for a whole method makes the method
-- one step. Messages of exceptions are kept by their reason.
pub mod Base
pub mod Json
pub mod Events
pub mod Protocol
pub mod Auth
pub mod Commands
pub mod Signoff
pub mod Logs
pub mod Jobs
pub mod Dispatch

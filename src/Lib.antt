-- ===== src/Lib.antt =====
-- TokenSaver stands between Codex and its model provider on a loopback address. It shortens the
-- request by replacing old, long tool results, on which the model has already acted, by receipts;
-- it forwards everything else as it came, and it counts what it has saved.
--
-- The parts and their files:
-- * Aging (src/modules/aging) decides which results of a history are replaced. Aging/Model has
--   the history and the policy (model.rs, policy.rs), Aging/Receipt the receipt and its previews
--   (receipt.rs), Aging/Engine the pass of `age_tool_results` (engine.rs): its tables
--   `acted_after_map`, `protected_tool_result_indexes` and `call_name_map`, and its loop, where
--   `age_item`, `age_sized` and `replace_if_smaller` are the loop's body from its start, from the
--   test of the frontier and from the receipt on. Aging/Engine/Spec describes the same decision
--   by the items behind a result alone.
-- * Transport (src/modules/transport) reads a request body, runs the pass and sends the body on.
--   Transport/Compression has the codec chains (compression.rs), Transport/Request
--   `prepare_responses_body` with its child modules for the items and the diagnostics
--   (request.rs), Transport/Usage the observer of the response (response_usage.rs),
--   Transport/Admission the guard's counter and the drain flag (server.rs): the changes of the
--   counter are interleaved, and what a request reads of the flag is part of its action, since
--   the orderings of the source let it read an old value (the controller's own drain is run with
--   nothing between its store and its load); Transport/Capability the secret in the
--   path of the local URL (capability.rs), Transport/Headers the headers that are passed on
--   (headers.rs), and Transport/Handler the way of a request through `handle_request`
--   (server.rs): `accept` has the guards on the request, `admit` those on the shared cells,
--   `forward` the rest up to the request upstream, with the HTTP statuses of the early returns as
--   numbers. `prepare_root`, `evaluate_root`, `apply_aging` and `send_rewritten` are the rest of
--   `prepare_responses_body` from each of its early returns on.
-- * Telemetry (src/modules/telemetry) keeps the numbers: Telemetry/Model the event (model.rs),
--   Telemetry/Summary the sums (aggregate.rs), Telemetry/Store the durable store (store.rs).
-- * Application/Measurement (src/application/measurement.rs) turns the result of a request into
--   the event that telemetry records.
-- * Runtime/Preferences (src/modules/runtime/preferences.rs, src/application/settings.rs) has the
--   operator's preferences and their file, Runtime/Status the status that is shown (state.rs).
-- * Codex (src/modules/codex_integration/config.rs) points Codex at the local URL and back.
--   Codex/Toml is the interface of documents, Codex/Config has the functions on texts,
--   Codex/Transaction those on the two files, the configuration and the snapshot of what it was.
-- * Application/Connection (src/application/codex_connection.rs) binds the server and then points
--   Codex at it. Application/Desktop (src/application/desktop_runtime.rs) is the controller that
--   connects, disconnects and changes the settings; Application/Desktop/Session lists what may
--   happen to it, Application/Desktop/View has what it shows, Application/Desktop/Opening its
--   `open`. Application/Control (src/application/control.rs) has the commands of the control
--   socket and their answers, without local addresses.
-- * Security (src/shared/security.rs) takes local addresses out of what is shown. Its loop has
--   fuel, one more than the characters of the text, which is enough since each round shortens the
--   text.
-- * Prelude has the shared lists, numbers and texts; Tests has runs on concrete input.
--
-- Operations on `&mut self` are functions from the old state to the new one; an early return or a
-- `?` is a branch. A loop is structural recursion on the list it walks, but for the redaction's.
-- A text is the list of its Unicode scalar values, and `len`, `utf16_units` measure it as Rust
-- does. The counters of telemetry saturate at 2^64 - 1, as in the source. The counters of one
-- pass and of one request's diagnostics are sums with `+=` over items in memory, which cannot
-- reach 2^64, and are plain natural numbers. The observer's limits are 8 MiB for a body and 1 MiB
-- for a line, the limit of a decoded body is 256 MiB, and the store keeps 120 days, all as in the
-- source.
--
-- The two files of Codex are a `Machine`: the disk, the answers of the file system to the
-- accesses to come, and every disk that a write has left, which is where the program may stop.
-- Connecting, disconnecting and the settings of the controller hold one lock, so they are steps
-- that come one after another, and what its tasks and the requests do comes between them; a look
-- at the connection's health and the first test of a shutdown do not hold it, and are taken to be
-- steps too. An early return out of an operation of the controller is `proceed`.
--
-- Parameters stand for code that is linked: `sha256_hex` for the hash, `Json` with `JsonLaws` for
-- serde_json, `Toml` with `TomlLaws` for toml_edit, `Codecs` for the compression crates, and the
-- two functions of each store's JSON codec. What the file system and the binding of a port
-- answer, and random bytes, are arguments. A write that fails is taken to leave the file.
--
-- Not modelled: `parse_receipt`; the relay of a response; the search for the path of the Codex
-- configuration; the start of the controller's tasks and the control socket itself; maintenance,
-- recovery and the reports; the creation of the data directory; the texts of the errors below
-- the controller's own, which are kept as the errors and are an argument (`Texts`) where the control
-- socket shows them. The channel of observations is left out: an observation is recorded as
-- a step of its own.
pub mod Prelude
pub mod Aging
pub mod Telemetry
pub mod Transport
pub mod Runtime
pub mod Codex
pub mod Security
pub mod Application
pub mod Tests

-- ===== src/Lib.antt =====
-- Herdres: a Telegram connector for Tendwire, modelled from its Python sources.
--
-- Telegram updates reach the gateway (herdres_gateway.py), which gives each a private request
-- identity (herdres_connector/ingress_identity.py) and stores it in a durable spool of lanes
-- (herdres_connector/ingress_lanes.py). Dispatchers lease the heads of the lanes and run a command
-- for each; the life of that command is a request record (herdres_connector/ingress_requests.py).
--
-- The files and what they model:
-- - Prelude: the shared names, Boolean tests, and loops over lists.
-- - Identity: `validate_request_id` and the encoding in `derive_telegram_request_id`. The MAC is an
--   argument: any 32 bytes. Texts are lists of code points.
-- - Lanes: `IngressLaneSpool`. Rows is the schema, Key is `lane_key`, Spool is `enqueue` and the
--   cursors, Claim is `claim`, Leases the other statements and the migrations, Calls one alphabet of
--   all the methods. Each SQLite transaction is one function on the tables; BEGIN IMMEDIATE makes
--   the transactions of all processes and threads a sequence, which is a list of calls.
--   Quiet says which calls of others leave a lease alone, and Tenure that they do.
-- - Safe: `sanitize_text`, with its regular expression for bot tokens written out as a scan. The
--   character classes of Python are the interface Unicode; Ascii fills it for tests.
-- - Requests: the record of a request, `_valid_record`, and the transitions of one record. Types
--   is the vocabulary, Child the envelope, Record the validator, Lifecycle and Evidence the
--   transitions, which return their answer or error together with the record that they leave. The
--   other files are proofs: Parts takes the validator apart, Opened, Finished, Outcomes, Legacy
--   and Receipts go through the transitions, Witnessed, Replays and Linked look at evidence and at
--   a receipt that breaks its record. Store is the dictionary of all records, Shell, Preflight,
--   Returned, Cached, Framed and Pruned its proofs. The dictionaries of Python are typed records,
--   so the checks of types are left out, and the JSON of a command is read and rewritten by the
--   interface CommandCodec. Records of older versions are not modelled. Refresh is
--   `stale_target_refresh_json`. History is the relation of one transition under the conditions on
--   which it keeps a record valid, not all of which the callers see to, and Kept what no such
--   transition changes.
-- - Chunks: `split_text_spans` and `split_text_chunks` of herdres_connector/rendering.py. Boundary is
--   `_preferred_span_end`, Spans the loop, whose fuel is the length of the text, because each span
--   has a character at least.
-- - Tables: the Markdown tables of herdres_connector/rendering.py. Lines is `str.splitlines` and
--   `str.strip`, Cells the shape of rows, Blocks `_markdown_table_blocks`, Spans
--   `split_table_aware_spans` and `table_continuation_header`. The regular expression of a separator
--   is a scan of the pieces between the bars.
-- - Json: JSON values with whole numbers, `public_prune` of herdres_connector/safe.py, and the
--   comparison of a value with its pruned copy. `str.lower` is the interface Casing.
-- - Client: `command_json` of herdres_connector/tendwire_client.py. Commands is the exact requests,
--   Results and Answers the tests of an answer, Process the child, whose run is an argument. A test
--   may raise `TypeError`, which is one of the verdicts.
-- - Gateway: herdres_gateway.py. Words and Envelope are `_validated_child_response`, which reads the
--   JSON of a child, Command is `run_herdres_command`, whose child process is an argument, Dispatch
--   the checkpoint of `handle_message` and `_dispatch`, which settles a row of the spool. What other
--   threads and processes do to the spool meanwhile is an arbitrary list of calls. Poll is the loop
--   of `_poll_once_lanes`; the preview of an update is an argument, and so is whether a callback
--   raises. A callback query or another kind of update than a message is not modelled: the
--   checkpoint that its handler asks for is an argument of the dispatch.
-- - Outbox: `drain_outbox` of herdres_connector/telegram_delivery.py. What Telegram and Tendwire
--   answer to a notice stands in the notice, and the calls that a drain makes are recorded: each
--   call of `send_message` with its answer, the reports to Tendwire, and whether the topic is
--   declared dead. Notices have been polled, and the thread of the general topic does not change in
--   a drain.
--
-- Times are whole milliseconds, so 0.1 s is 100 and 300 s is 300000; rounding of floats is not
-- modelled. Update numbers are natural numbers, as Telegram's are. Rows are kept in the order of
-- `seq`, which is the order of insertion. All recursion is structural, on
-- the length of the text for the splitters.
--
-- Not modelled: SQLite itself, files and permissions, threads inside a transaction, the JSON of
-- payloads (their texts are arguments), and the components that the manifest lists as such.
pub mod Chunks
pub mod Client
pub mod Gateway
pub mod Identity
pub mod Json
pub mod Lanes
pub mod Outbox
pub mod Prelude
pub mod Requests
pub mod Safe
pub mod Tables

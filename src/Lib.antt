-- ===== src/Lib.antt =====
-- hiWaveTel, an SMS gateway: a modem, driven through ModemManager's `mmcli`, and a Django database.
--
-- A received message is read from the modem and stored (apps/sms/services.py: persist_inbound_sms); a
-- message to send is created and sent on it (dispatch_outbound_mmcli); both schedule a job in a durable
-- outbox (apps/sms/webhook_outbox.py), and a worker posts the job's payload to the registered URLs
-- (apps/sms/webhook_delivery.py). A message that could not be stored goes to a dead-letter queue.
--
-- The parts, and the files that model them:
-- - Runtime: exceptions (Exn), actions that pass a state on past an exception (Exec), the retry loop for
--   SQLite's busy errors (Retry), and what an action keeps (Respects).
-- - Models: the rows of apps/sms/models.py; a table is the list of its rows. World: the state that all
--   operations share, and the environment. Prelude and Scan: texts, lists, regular expressions.
-- - Mmcli: apps/sms/mmcli_client.py, class MMCLIClient; Mmcli.Snapshot: its dictionaries.
-- - ModemReady: apps/sms/modem_ready.py, and resolve_modem_mmcli_index.
-- - Inbound: the polling of a snapshot in apps/sms/services.py; Inbound.Persist: persist_inbound_sms;
--   Inbound.Signal: the post_save signal of apps/sms/apps.py, with InboundFilters for
--   apps/sms/inbound_filters.py; Inbound.Stale: refresh_stale_inbound_sms_rows.
-- - Outbound: dispatch_outbound_mmcli. Rotation: rotate_modem_sms_storage. Metrics: apps/sms/metrics.py.
-- - Outbox: apps/sms/webhook_outbox.py, and the loop of apps/sms/management/commands/run_webhook_worker.py.
-- - Delivery: apps/sms/webhook_delivery.py. Dlq: apps/sms/dead_letter_queue.py, whose process_batch is in
--   Inbound.Recovery.
-- - PersistQueue: apps/sms/queue_processor.py, from a signalled path to a stored row. InboundQueue:
--   apps/sms/inbound_processor.py. OutboundQueue: apps/sms/outbound_processor.py, whose threads are the
--   steps of OutboundQueue.Pool and whose worker is OutboundQueue.Worker; Pool.Life is the abstract
--   machine of one message. queue.PriorityQueue is the list of its jobs in the order of rank and number.
-- - Watch: the signal handler and the snapshot of apps/sms/dbus_watch.py; Watch.Recovery: a round of its
--   recovery loop.
-- - ModemEnv, ModemIdentity and ModemRegistry: apps/sms/modem_env.py, modem_identity.py (its phone numbers
--   are in Phone) and modem_registry.py, whose reports are in ModemDetail.
-- - Readiness: apps/sms/modem_readiness.py; Readiness.Availability: the report on one modem.
-- - Views: the HTTP interface. Views.Send: apps/sms/views.py with the validator of numbers; Views.Webhooks:
--   apps/sms/views_webhooks.py; Views.Modems: apps/sms/views_modems.py and the availability of
--   apps/sms/views_system.py. A request is parsed data, with the serializers of apps/sms/serializers.py;
--   their checks of a webhook's fields are parameters.
-- - Checks: examples at concrete inputs.
--
-- A definition has the name of the function that it models, without a leading underscore. An operation
-- is a function from the state to a result, a value or an exception, and the next state. What is outside
-- of the program is the record Env: the answer of the n-th process of mmcli, of the n-th POST, and the
-- error of the n-th database statement, for every n; the requests that urllib cannot build, and the
-- characters that str.isdigit accepts; and the settings and environment variables. A
-- statement raises and changes nothing, or takes effect as a whole; a transaction.atomic of several
-- statements is World.atomic, which takes the rows back when it raises. What is left for the commit of a
-- transaction runs after it. Times are natural numbers of microseconds. The queues of the process are a
-- part of the state, or a state of their own that their operations pass on.
--
-- Loops with a bound in the source recurse on it. The loops without one run on fuel: the polling of a
-- snapshot on the number of its tries and of its sleeps within the waiting time, the wait for a modem on
-- one round for each second, the deletion of rows on the number of rows beyond the limit, one at least in
-- a round.
--
-- Not modelled: threads, locks and processes that interleave, except on the queue of messages to send,
-- since one operation runs at a time elsewhere; the start and the stop of threads; the connection to
-- D-Bus and its event loop; the routes, the parsing and the printing of the HTTP interface, its health
-- probe and the restart of the container; the commands around the operations; the file lock of mmcli;
-- log lines; the upper and lower case of texts beyond ASCII.
mod Prelude
pub mod Runtime
pub mod Models
pub mod World
pub mod Scan
pub mod Phone
pub mod ModemEnv
pub mod Mmcli
pub mod ModemIdentity
pub mod Dlq
pub mod InboundFilters
pub mod Inbound
pub mod Metrics
pub mod PersistQueue
pub mod Watch
pub mod Rotation
pub mod ModemReady
pub mod ModemRegistry
pub mod Readiness
pub mod ModemDetail
pub mod Outbound
pub mod Delivery
pub mod Outbox
pub mod OutboundQueue
pub mod InboundQueue
pub mod Views
pub mod Checks

-- ===== src/Checks.antt =====
-- Sample data for the tests and examples: an environment without faults and an empty store.
mod Outbox
mod Delivery
mod Gateway
mod Queues
mod Registry
mod Views
use hi_wave_tel.Prelude.{
  ℕ, Text, codes, true, false, Option, none, some, List, [], ◌∷◌, Bool, if◌then◌else◌, starts_with,
  is_digit,
}
use hi_wave_tel.Runtime.Exn.{pos}
use hi_wave_tel.Models.{WebhookDeliveryJob, InboundWebhook, InboundSms, Kind, Status}
use hi_wave_tel.World.{Settings, Env, World, completed, response}

abbrev pub settings : Settings
settings = record {
  sqlite_retries = 3;
  sqlite_backoff = 20_000;
  job_max_attempts = 2;
  job_stale = 300_000_000;
  webhook_retry_max = 2;
  webhook_retry_base = 1_000_000;
  mmcli_path = codes "mmcli";
  mmcli_timeout = codes "45";
  mmcli_retries = 3;
  mmcli_backoff = 500_000;
  empty_text_retries = 8;
  empty_text_backoff = 1_500_000;
  receiving_max_wait = 60_000_000;
  inbound_whitelist = [];
  dlq_enabled = true;
  dlq_max_size = 2;
  dlq_retry_interval = 60_000_000;
  dlq_max_retries = 10;
  queue_enabled = true;
  outbound_workers = 1;
  outbound_max_size = 2;
  outbound_async_enabled = true;
  mmcli_index = 0;
  persist_queue_max = 2;
  snapshot_tries = 3;
  snapshot_backoff = 1_250_000;
  recovery_interval = 300_000_000;
  health_timeout = codes "15";
}

abbrev pub env : Env
env = record {
  settings = settings;
  environ = (codes "MODEM_0_DEVICE_PIN_CODE", codes "1234") ∷ [];
  json_loads = λ s. none;
  mmcli = λ n argv. completed (pos 0) [] [];
  mmcli_time = λ n. 1000;
  db_error = λ n. none;
  request_error = λ url payload.
      if starts_with (codes "http") url then none else some (codes "unknown url type");
  isdigit = is_digit;
  post = λ n url payload. response 200;
  jitter = λ n. 0;
}

abbrev pub job : WebhookDeliveryJob
job = record {
  pk = 0;
  kind = Kind.inbound;
  inbound_sms = some 7;
  outbound_sms = none;
  status = Status.pending;
  attempts = 0;
  last_error = [];
  created_at = 5;
  updated_at = 5;
  delivered_at = none;
}

abbrev pub later_job : WebhookDeliveryJob
later_job = record job { pk = 1; inbound_sms = some 8; created_at = 6 }

abbrev pub webhook : InboundWebhook
webhook = record {
  pk = 0;
  modem_index = 0;
  name = codes "n";
  url = codes "https://example.org/hook";
  enabled = true;
  created_at = 0;
}

abbrev pub inbound_row : InboundSms
inbound_row = record {
  pk = 7;
  mm_path = codes "/org/freedesktop/ModemManager1/SMS/7";
  modem_index = 0;
  from_number = codes "+351913000387";
  text = codes "hello";
  mm_state = codes "received";
  smsc = [];
  modem_timestamp_raw = [];
  created_at = 4;
}

abbrev pub world : World
world = record {
  clock = 10;
  mmcli_calls = 0;
  db_calls = 0;
  post_calls = 0;
  inbound = inbound_row ∷ [];
  outbound = [];
  jobs = job ∷ later_job ∷ [];
  webhooks = webhook ∷ [];
  devices = [];
  dlq = [];
  persist_queue = [];
  next_pk = 2;
  counted = [];
  last_reset = 0;
  argvs = [];
  posts = [];
}

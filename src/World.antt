-- ===== src/World.antt =====
-- The state that the program's operations share, and what they take from outside: mmcli, the HTTP
-- server, the database's errors, the clock and the configuration.
pub mod Calm
pub mod Frames
use hi_wave_tel.Prelude.{ℕ, suc, ◌+◌, ◌*◌, ◌^◌, Text, codes, Bool, Option, none, some, List, ◌∷◌}
use hi_wave_tel.Runtime.Exn.{ℤ, Exn, operational, raised}
use hi_wave_tel.Runtime.Exec.{Exec, Result, ok, err, modify}
use hi_wave_tel.Models.{
  InboundSms, OutboundSms, ModemDevice, InboundWebhook, WebhookDeliveryJob, DlqRow,
}

-- subprocess.run: a finished process, a timeout, or an exception such as a missing executable.
pub data Run : Type 0 where
  completed : ℤ → Text → Text → Run
  timeout_expired : Run
  not_run : Text → Run

-- The JSON object that is posted to a webhook; `received_at` is the instant that is printed.
pub record Payload : Type 0 where
  pub id : ℕ
  pub sender : Text
  pub body : Text
  pub modem_index : ℕ
  pub received_at : ℕ
  pub mm_state : Text

-- What urlopen gives: a response with its status, or an exception with its `str`.
pub data Reply : Type 0 where
  response : ℕ → Reply
  http_error : ℕ → Reply
  failure : Text → Reply

-- A JSON value: a scalar by its `str`, an array by its `json.dumps`.
mutual
  pub data Json : Type 0 where
    null : Json
    scalar : Text → Json
    array : Text → Json
    object : Members → Json

  pub data Members : Type 0 where
    end : Members
    member : Text → Json → Members → Members

-- Settings and environment variables, as the program reads them. Times are in microseconds.
pub record Settings : Type 0 where
  pub sqlite_retries : ℕ
  pub sqlite_backoff : ℕ
  pub job_max_attempts : ℕ
  pub job_stale : ℕ
  pub webhook_retry_max : ℕ
  pub webhook_retry_base : ℕ
  pub mmcli_path : Text
  -- the time-out in seconds, as it is printed
  pub mmcli_timeout : Text
  pub mmcli_retries : ℕ
  pub mmcli_backoff : ℕ
  pub empty_text_retries : ℕ
  pub empty_text_backoff : ℕ
  pub receiving_max_wait : ℕ
  pub inbound_whitelist : List Text
  pub dlq_enabled : Bool
  pub dlq_max_size : ℕ
  pub dlq_retry_interval : ℕ
  pub dlq_max_retries : ℕ
  -- HIWAVETEL_QUEUE_ENABLED
  pub queue_enabled : Bool
  -- a number of workers of 0 or less is 0
  pub outbound_workers : ℕ
  pub outbound_max_size : ℕ
  pub outbound_async_enabled : Bool
  pub mmcli_index : ℕ
  -- a bound of 0 or less is no bound, and is 0
  pub persist_queue_max : ℕ
  pub snapshot_tries : ℕ
  pub snapshot_backoff : ℕ
  -- MODEM_SNAPSHOT_RECOVERY_INTERVAL_SEC; 0 or less is 0
  pub recovery_interval : ℕ
  -- HIWAVE_MMCLI_HEALTH_TIMEOUT, in seconds, as it is printed
  pub health_timeout : Text

-- The n-th call of each service has the n-th answer.
pub record Env : Type 0 where
  pub settings : Settings
  pub open settings use *
  -- os.environ, in its order, where it is read at run time
  pub environ : List (Text × Text)
  -- json.loads; `none` is a ValueError
  pub json_loads : Text → Option Json
  -- the outcome of the n-th process, and its run time
  pub mmcli : ℕ → List Text → Run
  pub mmcli_time : ℕ → ℕ
  -- the message of the OperationalError that the n-th database statement raises, if it does
  pub db_error : ℕ → Option Text
  -- the message of the ValueError that json.dumps(…).encode or urllib.request.Request raises, if one does:
  -- a text that UTF-8 does not have, a URL without a scheme
  pub request_error : Text → Payload → Option Text
  -- str.isdigit of one character
  pub isdigit : ℕ → Bool
  -- the answer to the n-th POST
  pub post : ℕ → Text → Payload → Reply
  -- random.random() * 0.02 s after a busy attempt
  pub jitter : ℕ → ℕ

-- metrics.SmsMetricsCollector.counters
pub data Metric : Type 0 where
  dbus_signals_received enqueue_success enqueue_failed_queue_full persist_success persist_failed
        dlq_enqueued dlq_recovered mmcli_show_retries empty_text_persisted multipart_detected
        periodic_recovery_runs inbound_whitelist_rejected :
      Metric

pub record World : Type 0 where
  pub clock : ℕ
  pub mmcli_calls : ℕ
  pub db_calls : ℕ
  pub post_calls : ℕ
  pub inbound : List InboundSms
  pub outbound : List OutboundSms
  pub jobs : List WebhookDeliveryJob
  pub webhooks : List InboundWebhook
  pub devices : List ModemDevice
  pub dlq : List DlqRow
  -- the persist queue of queue_processor.py, oldest first: paths with the index of their modem
  pub persist_queue : List (Text × ℕ)
  -- the next primary key, for every table
  pub next_pk : ℕ
  pub counted : List Metric
  -- the last reset of the counters
  pub last_reset : ℕ
  -- what was sent to the outside, newest first
  pub argvs : List (List Text)
  pub posts : List (Text × Payload)

abbrev pub Act : Type 0 → Type 0
Act A = Exec World A

-- time.sleep
unfoldable pub sleep : ℕ → World → World
sleep d w = record w { clock = w.clock + d }

-- metrics.increment, by one. The collector has a counter for each `Metric`.
unfoldable pub increment : Metric → Act (Unit {0})
increment m = modify (λ w. record w { counted = m ∷ w.counted })

-- The queue of failed paths is another database file, and keeps its rows.
abbrev pub rolled_back : World → World → World
rolled_back w v = record v {
  inbound = w.inbound;
  outbound = w.outbound;
  jobs = w.jobs;
  webhooks = w.webhooks;
  devices = w.devices;
  next_pk = w.next_pk;
}

module _ (env : Env) where
  -- close_old_connections(); time.sleep(backoff_sec * (2**attempt) + random.random() * 0.02)
  unfoldable pub sqlite_nap : ℕ → World → World
  unfolding sleep
  sqlite_nap attempt w = sleep (env.sqlite_backoff * 2 ^ attempt + env.jitter w.db_calls) w

  -- One statement or transaction on the Django database: it raises and changes nothing, or runs.
  unfoldable pub statement : {A : Type 0} → (World → Result A × World) → Act A
  statement run w =
      let w' : World = record w { db_calls = suc w.db_calls } in
      elim (env.db_error w.db_calls) [ none ↦ run w' | some m ↦ (err (operational m), w') ]

  -- COMMIT, and the tables of the Django database as they were where the block or its COMMIT raised
  abbrev pub commit : {A : Type 0} → World → Result A × World → Result A × World
  commit w (err x, v) = (err x, rolled_back w v)
  commit w (ok a, v) = elim (env.db_error v.db_calls) [
    | none ↦ (ok a, record v { db_calls = suc v.db_calls })
    | some m ↦ (err (operational m), rolled_back w (record v { db_calls = suc v.db_calls }))
  ]

  -- with transaction.atomic()
  unfoldable pub atomic : {A : Type 0} → Act A → Act A
  atomic m w = commit w (m w)

  -- A query that only reads.
  unfoldable pub query : {A : Type 0} → (World → A) → Act A
  query f = statement (λ w. (ok (f w), w))

-- save(update_fields=…) of a row that is gone raises DatabaseError.
abbrev pub no_rows_affected : Exn
no_rows_affected = raised (codes "Save with update_fields did not affect any rows.")

-- Model.objects.get of a key that is not there.
abbrev pub or_raise {ℓ} : {A : Type ℓ} → Exn → Option A → World → Result A × World
or_raise x none w = (err x, w)
or_raise x (some a) w = (ok a, w)

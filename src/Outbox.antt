-- ===== src/Outbox.antt =====
-- apps/sms/webhook_outbox.py and the worker round of management/commands/run_webhook_worker.py: the
-- durable queue of webhook jobs. Each statement on the job table is one `statement` of the
-- environment; the rows are those that this process sees between its statements.
pub mod Order
pub mod Process
pub mod Claim
pub mod Final
pub mod Turn
pub mod History
use hi_wave_tel.Prelude.{
  ℕ, zero, suc, ◌+◌, ◌-◌, Text, codes, Bool, true, false, ◌&&◌, ◌||◌, Option, none, some, List, [],
  ◌∷◌, ◌++◌, if◌then◌else◌, leb, ltb, ◌==◌, find, filter, length, is_some, or_else, take, is_empty,
}
use hi_wave_tel.Runtime.Exn.{Exn, value_error, does_not_exist, message, is_busy}
use hi_wave_tel.Runtime.Exec.{
  Exec, Result, ok, err, pure, raise, gets, modify, try_else, ◌>>=◌, ◌>>◌,
}
use hi_wave_tel.Runtime.Retry.{with_sqlite_retry}
use hi_wave_tel.Models.{
  WebhookDeliveryJob, Kind, Status, Keyed, job_keyed, inbound_keyed, outbound_keyed, row,
  update_row, update_where,
}
use hi_wave_tel.World.{Env, World, Act, statement, query, sqlite_nap, no_rows_affected, or_raise}
use hi_wave_tel.Delivery.{deliver_inbound_webhooks, deliver_outbound_webhooks}
use Order.{oldest_pending, is_pending, is_processing, is_finished}

abbrev pub Job : Type 0
Job = WebhookDeliveryJob

-- The columns that a save writes: from the object in memory to the row.
abbrev pub Columns : Type 0
Columns = Job → Job → Job

-- update_fields=['status', 'last_error', 'updated_at']
abbrev pub status_columns : Columns
status_columns job r = record r {
  status = job.status;
  last_error = job.last_error;
  updated_at = job.updated_at;
}

abbrev pub delivered_columns : Columns
delivered_columns job r = record r {
  status = job.status;
  last_error = job.last_error;
  updated_at = job.updated_at;
  delivered_at = job.delivered_at;
}

abbrev pub attempts_columns : Columns
attempts_columns job r = record r { attempts = job.attempts; updated_at = job.updated_at }

-- Is the job the one of this SMS?
abbrev pub refers : Option ℕ → ℕ → Bool
refers none pk = false
refers (some n) pk = n == pk

-- queryset.update does not set `updated_at`
abbrev pub reset_row : Job → Job
reset_row r = record r { status = Status.pending; last_error = codes "Reset stale processing job" }

abbrev pub is_stale : ℕ → Job → Bool
is_stale cutoff r = is_processing r.status && ltb r.updated_at cutoff

module _ (env : Env) where
  -- job.save(update_fields=…), with `updated_at` set to the time of the save
  unfoldable pub save_job : Columns → Job → Act Job
  save_job columns job = statement env λ w.
      let saved : Job = record job { updated_at = w.clock } in
      if is_some (row job.pk w.jobs)
      then (ok saved, record w { jobs = update_row job.pk (columns saved) w.jobs })
      else (err no_rows_affected, w)

  -- the INSERT of get_or_create
  unfoldable pub create_job : Kind → Option ℕ → Option ℕ → Act Job
  create_job kind inbound outbound = statement env λ w.
      let job : Job = record {
        pk = w.next_pk;
        kind = kind;
        inbound_sms = inbound;
        outbound_sms = outbound;
        status = Status.pending;
        attempts = 0;
        last_error = [];
        created_at = w.clock;
        updated_at = w.clock;
        delivered_at = none;
      } in
      (ok job, record w { jobs = w.jobs ++ job ∷ []; next_pk = suc w.next_pk })

  -- `if not created and job.status != DELIVERED`
  unfoldable pub requeue : Job → Act Job
  requeue job =
      if is_finished job.status
      then pure job
      else save_job status_columns (record job { status = Status.pending; last_error = [] })

  unfoldable pub get_or_create_and_requeue : Option Job → Act Job → Act Job
  get_or_create_and_requeue none create = create
  get_or_create_and_requeue (some job) create = requeue job

  unfoldable pub schedule_inbound_once : ℕ → Act Job
  schedule_inbound_once inbound = do
    found ← query env (λ w. find (λ (j : Job). refers j.inbound_sms inbound) w.jobs)
    get_or_create_and_requeue found (create_job Kind.inbound (some inbound) none)

  unfoldable pub schedule_outbound_once : ℕ → Act Job
  schedule_outbound_once outbound = do
    found ← query env (λ w. find (λ (j : Job). refers j.outbound_sms outbound) w.jobs)
    get_or_create_and_requeue found (create_job Kind.outbound none (some outbound))

  unfoldable pub schedule_inbound_webhook : ℕ → Act Job
  schedule_inbound_webhook inbound =
      with_sqlite_retry env.sqlite_retries (sqlite_nap env) (schedule_inbound_once inbound)

  unfoldable pub schedule_outbound_webhook : ℕ → Act Job
  schedule_outbound_webhook outbound =
      with_sqlite_retry env.sqlite_retries (sqlite_nap env) (schedule_outbound_once outbound)

  unfoldable pub reset_once : ℕ → Act ℕ
  reset_once cutoff = statement env λ w. (
    ok (length (filter (is_stale cutoff) w.jobs)),
    record w { jobs = update_where (is_stale cutoff) reset_row w.jobs },
  )

  -- the cut-off is taken before the first attempt
  unfoldable pub reset_stale_processing_jobs : Option ℕ → Act ℕ
  reset_stale_processing_jobs max_age w =
      let cutoff = w.clock - or_else max_age env.job_stale in
      with_sqlite_retry env.sqlite_retries (sqlite_nap env) (reset_once cutoff) w

  -- the transaction: select_for_update().first(), then save(update_fields=['status', 'updated_at'])
  unfoldable pub claim_next_job_once : Act (Option Job)
  claim_next_job_once = statement env λ w. elim (oldest_pending w.jobs) [
    | none ↦ (ok none, w)
    | some job ↦
        let claimed : Job = record job { status = Status.processing; updated_at = w.clock } in
        let columns : Job → Job =
          λ r. record r { status = Status.processing; updated_at = w.clock } in
        (ok (some claimed), record w { jobs = update_row job.pk columns w.jobs })
  ]

  unfoldable pub claim_next_job : Act (Option Job)
  claim_next_job = with_sqlite_retry env.sqlite_retries (sqlite_nap env) claim_next_job_once

  unfoldable pub pending_job_count : Act ℕ
  pending_job_count = query env (λ w. length (filter (λ (j : Job). is_pending j.status) w.jobs))

-- ===== src/Outbox/Process.antt =====
-- webhook_outbox.process_webhook_job, and the body of the worker's loop. The job in memory is part
-- of the state of the first step, whose retries change it again.
pub mod Outcome
pub mod Branches
pub mod Overcount
use hi_wave_tel.Prelude.{
  ℕ, suc, ◌+◌, Text, codes, Bool, true, false, Option, none, some, List, [], if◌then◌else◌, leb,
  take,
}
use hi_wave_tel.Runtime.Exn.{Exn, value_error, does_not_exist, message}
use hi_wave_tel.Runtime.Exec.{Exec, Result, ok, err, pure, raise, modify, try_else, ◌>>=◌, ◌>>◌}
use hi_wave_tel.Runtime.Retry.{with_sqlite_retry}
use hi_wave_tel.Models.{Kind, Status, inbound_keyed, outbound_keyed, row, InboundSms, OutboundSms}
use hi_wave_tel.World.{Env, World, Act, query, sqlite_nap, sleep, statement, or_raise}
use hi_wave_tel.Delivery.{deliver_inbound_webhooks, deliver_outbound_webhooks}
use hi_wave_tel.Outbox.{
  Job, save_job, attempts_columns, status_columns, delivered_columns, claim_next_job,
}

-- What stays in memory of the job when its save raises.
abbrev pub remember : Job → Result Job × World → Result (Unit {0}) × (Job × World)
remember bumped (ok saved, w) = (ok tt, (saved, w))
remember bumped (err x, w) = (err x, (bumped, w))

abbrev pub one_failed : Text
one_failed = codes "One or more webhook URLs failed"

abbrev pub then_with :
    {A : Type 0} → (Job → Act A) → Result (Unit {0}) × (Job × World) → Result A × World
then_with f (ok t, (job, w)) = f job w
then_with f (err x, (job, w)) = (err x, w)

module _ (env : Env) where
  -- job.attempts += 1; job.save(update_fields=['attempts', 'updated_at'])
  unfoldable pub bump_attempts_once : Exec (Job × World) (Unit {0})
  bump_attempts_once (job, w) =
      let bumped : Job = record job { attempts = job.attempts + 1 } in
      remember bumped (save_job env attempts_columns bumped w)

  abbrev pub job_nap : ℕ → Job × World → Job × World
  job_nap attempt (job, w) = (job, sqlite_nap env attempt w)

  unfoldable pub bump_attempts : Exec (Job × World) (Unit {0})
  bump_attempts = with_sqlite_retry env.sqlite_retries job_nap bump_attempts_once

  -- job.inbound_sms, a query
  unfoldable pub load_inbound : ℕ → Act InboundSms
  load_inbound pk = statement env (λ w. or_raise does_not_exist (row pk w.inbound) w)

  unfoldable pub load_outbound : ℕ → Act OutboundSms
  load_outbound pk = statement env (λ w. or_raise does_not_exist (row pk w.outbound) w)

  unfoldable pub deliver_inbound_job : Option ℕ → Act Bool
  deliver_inbound_job none = raise (value_error (codes "Inbound webhook job missing inbound_sms"))
  deliver_inbound_job (some pk) = load_inbound pk >>= deliver_inbound_webhooks env

  unfoldable pub deliver_outbound_job : Option ℕ → Act Bool
  deliver_outbound_job none =
      raise (value_error (codes "Outbound webhook job missing outbound_sms"))
  deliver_outbound_job (some pk) = load_outbound pk >>= deliver_outbound_webhooks env

  unfoldable pub deliver_by_kind : Kind → Job → Act Bool
  deliver_by_kind Kind.inbound job = deliver_inbound_job job.inbound_sms
  deliver_by_kind Kind.outbound job = deliver_outbound_job job.outbound_sms
  deliver_by_kind Kind.unknown_kind job = raise (value_error (codes "Unknown webhook job kind"))

  -- the `try` of process_webhook_job: whether all URLs were reached, and the new `last_error`
  unfoldable pub attempt_delivery : Job → Act (Bool × Text)
  attempt_delivery job =
      try_else (deliver_by_kind job.kind job) (λ x. pure (false, take 2000 (message x)))
        (λ reached. pure (reached, (if reached then job.last_error else one_failed)))

  -- _finalize
  unfoldable pub finalized : Bool → ℕ → Job → Job
  finalized true now job = record job {
    status = Status.delivered;
    delivered_at = some now;
    last_error = [];
  }
  finalized false now job = record job {
    status = if leb env.job_max_attempts job.attempts then Status.failed else Status.pending;
  }

  unfoldable pub finalize_once : Bool → Job → Act Job
  finalize_once reached job w =
      save_job env (if reached then delivered_columns else status_columns)
        (finalized reached w.clock job) w

  unfoldable pub finalize : Bool × Text → Job → Act Bool
  finalize (reached, error) job =
      with_sqlite_retry env.sqlite_retries (sqlite_nap env)
        (finalize_once reached (record job { last_error = error }))
      >> pure reached

  unfoldable pub deliver_and_finalize : Job → Act Bool
  deliver_and_finalize job = do outcome ← attempt_delivery job; finalize outcome job

  unfoldable pub process_webhook_job : Job → Act Bool
  process_webhook_job job w = then_with deliver_and_finalize (bump_attempts (job, w))

  -- one turn of `while not stop.is_set()` of run_webhook_worker: every exception is logged
  unfoldable pub process_claimed : (poll : ℕ) → Option Job → Act (Unit {0})
  unfolding sleep
  process_claimed poll none = modify (sleep poll)
  process_claimed poll (some job) =
      try_else (process_webhook_job job) (λ x. pure tt) (λ done. pure tt)

  unfoldable pub worker_turn : (poll : ℕ) → Act (Unit {0})
  unfolding sleep
  worker_turn poll =
      try_else (claim_next_job env) (λ x. modify (sleep poll)) (λ found. process_claimed poll found)

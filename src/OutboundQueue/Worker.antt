-- ===== src/OutboundQueue/Worker.antt =====
-- apps/sms/outbound_processor.py: what a worker does with a job, and enqueue_outbound_job.
use hi_wave_tel.Prelude.{
  ℕ, suc, ◌≡◌, refl, ap, ◌∙◌, inl, inr, Text, codes, Bool, true, false, Option, none, some,
  if◌then◌else◌, ◌==◌, text_eq, text_eq_refl, subst, sym, arith,
}
use hi_wave_tel.Runtime.Exn.{ℤ, pos, negsuc, does_not_exist, value_error}
use hi_wave_tel.Runtime.Exec.{
  Result, ok, err, pure, raise, try_else, handle_with, continue_with, ◌>>=◌, ◌>>◌,
}
use hi_wave_tel.Runtime.Retry.{with_sqlite_retry}
use hi_wave_tel.Models.{OutboundSms, SmsState, outbound_keyed, row}
use hi_wave_tel.Models.Tables.{row-key}
use hi_wave_tel.World.{Env, World, Act, Members, sqlite_nap, statement, or_raise}
use hi_wave_tel.World.Calm.{IsCalm, retry-statement, counted_call}
use hi_wave_tel.Scan.{decimal}
use hi_wave_tel.Scan.Ints.{int_of_text, int_of_text-decimal}
use hi_wave_tel.ModemReady.{ReadySettings}
use hi_wave_tel.Outbound.{dispatch_outbound_mmcli}
use hi_wave_tel.Outbound.Outcome.{DispatchOutcome, RowState, is_over, dispatch-Outcome}
use hi_wave_tel.OutboundQueue.{OutboundJob, Shared, new_queue, enqueue, take_job, release_in_flight}

-- What a job adds to the metrics.
pub data Counted : Type 0 where
  counts_processed counts_failed counts_nothing : Counted

abbrev pub is_created : SmsState → Bool
is_created SmsState.created = true
is_created _ = false

-- No key is negative.
abbrev row_at : ℤ → World → Option OutboundSms
row_at (pos pk) w = row pk w.outbound
row_at (negsuc n) w = none

abbrev or_value_error : Text → Option ℤ → Act ℤ
or_value_error s none = raise (value_error s)
or_value_error s (some n) = pure n

module _ (env : Env) where
  -- int(s)
  unfoldable pub parse_int : Text → Act ℤ
  unfolding int_of_text
  parse_int s = or_value_error s (int_of_text s)

  -- _fetch_with_sqlite_retry(lambda: OutboundSms.objects.get(pk=pk))
  unfoldable pub fetch_with_sqlite_retry : ℤ → Act OutboundSms
  unfolding row
  fetch_with_sqlite_retry pk =
      with_sqlite_retry env.sqlite_retries (sqlite_nap env)
        (statement env (λ w. or_raise does_not_exist (row_at pk w) w))

  module _ (ready : ReadySettings) where
    abbrev dispatch_created : OutboundSms → Act Counted
    dispatch_created outbound =
        if is_created outbound.state
        then (dispatch_outbound_mmcli env ready false outbound >> pure counts_processed)
        else pure counts_nothing

    unfoldable pub process_outbound_pk : ℤ → Act Counted
    process_outbound_pk pk = fetch_with_sqlite_retry pk >>= dispatch_created

    -- the exceptions of a job are logged and counted
    unfoldable pub process_job : OutboundJob → Act Counted
    unfolding text_eq
    process_job job =
        if text_eq job.job_type (codes "outbound")
        then try_else (parse_int job.reference >>= process_outbound_pk) (λ exc. pure counts_failed)
            pure
        else pure counts_failed

    abbrev pub count_job : Counted → Shared → Shared
    count_job counts_processed q = record q { processed_count = suc q.processed_count }
    count_job counts_failed q = record q { failed_count = suc q.failed_count }
    count_job counts_nothing q = q

    abbrev worked_on : OutboundJob → Shared → Result Counted × World → Shared × World
    worked_on job q (ok c, w) = (release_in_flight job.job_type job.reference (count_job c q), w)
    worked_on job q (err x, w) = (release_in_flight job.job_type job.reference q, w)

    abbrev round_of : Option OutboundJob × Shared → World → Shared × World
    round_of (none, q) w = (q, w)
    round_of (some job, q) w = worked_on job q (process_job job w)

    -- one round of the worker's loop, uninterrupted
    unfoldable pub worker_round : Shared → World → Shared × World
    unfolding take_job release_in_flight
    worker_round q w = round_of (take_job q) w

    -- get_outbound_processor: the queue is made when it is first asked for
    unfoldable pub get_outbound_processor : Option Shared → Option Shared
    unfolding new_queue
    get_outbound_processor (some q) = some q
    get_outbound_processor none =
        if env.queue_enabled
        then if env.outbound_workers == 0 then none else some (new_queue env.outbound_max_size)
        else none

    -- without a processor
    unfoldable pub dispatch_at_once : Text → Act (Bool × Option Shared)
    dispatch_at_once reference = do
      pk ← parse_int reference
      outbound ← statement env (λ w. or_raise does_not_exist (row_at pk w) w)
      sent ← dispatch_outbound_mmcli env ready false outbound
      pure (true, none)

    -- with the processor that get_outbound_processor gave
    unfoldable pub enqueue_or_dispatch :
        Option Shared → Text → Text → Text → Members → Act (Bool × Option Shared)
    unfolding enqueue text_eq
    enqueue_or_dispatch (some q) job_type reference priority payload =
        let (added, q') = enqueue job_type reference priority payload q in pure (added, some q')
    enqueue_or_dispatch none job_type reference priority payload =
        if text_eq job_type (codes "outbound")
        then dispatch_at_once reference
        else pure (false, none)

    unfoldable pub enqueue_outbound_job :
        Option Shared → Text → Text → Text → Members → Act (Bool × Option Shared)
    unfolding get_outbound_processor
    enqueue_outbound_job processor = enqueue_or_dispatch (get_outbound_processor processor)

  module _ (calm : IsCalm env) (ready : ReadySettings) where
    -- How a job ends for the message of its key, which was `r` before.
    abbrev pub JobOutcome : ℕ → OutboundSms → World → Result Counted × World → Type 0
    JobOutcome pk r w (ok counts_processed, w') =
        (is_created r.state ≡ true) × ((s : SmsState) × (is_over s ≡ true) × RowState pk s w')
    JobOutcome pk r w (ok counts_failed, w') = is_created r.state ≡ true
    JobOutcome pk r w (ok counts_nothing, w') = (is_created r.state ≡ false) × (w' ≡ counted_call w)
    JobOutcome pk r w (err x, w') = ⊥

    dispatched :
        (pk : ℕ) (r : OutboundSms) (w : World) (out : Result OutboundSms × World)
        → is_created r.state ≡ true
        → DispatchOutcome pk out
        → JobOutcome pk r w (
            handle_with
              (λ exc. pure counts_failed)
              pure
              (continue_with (λ x. pure counts_processed) out))
    unfolding pure
    dispatched pk r w (ok o, v) c (inl (o', e, over, there)) = (c, (o'.state, over, there))
    dispatched pk r w (ok o, v) c (inr (x, e, no_mmcli)) = absurd (ground arith)
    dispatched pk r w (err x, v) c d = c

    -- While the database raises no error, a job for a stored message never raises. A message that is
    -- newly created ends sent or failed and is counted as processed, or the job is counted as failed;
    -- a message that is in any other state is left alone, with all of the rest, and not counted.
    pub process_job-Outcome :
        (pk : ℕ) (job : OutboundJob) (r : OutboundSms) (w : World)
        → job.job_type ≡ codes "outbound"
        → job.reference ≡ decimal pk
        → row pk w.outbound ≡ some r
        → JobOutcome pk r w (process_job ready job w)
    unfolding process_job parse_int process_outbound_pk fetch_with_sqlite_retry try_else ◌>>=◌ ◌>>◌
        pure
    process_job-Outcome pk job r w t e h =
        let key : int_of_text job.reference ≡ some (pos pk) =
          ap int_of_text e ∙ int_of_text-decimal pk in
        let typed : text_eq job.job_type (codes "outbound") ≡ true =
          rw t (text_eq_refl (codes "outbound")) in
        let fetched =
          retry-statement env calm (λ v. or_raise does_not_exist (row_at (pos pk) v) v) w
            (rw h refl) in
        rw (typed, key)
          (rw (process_outbound_pk, fetch_with_sqlite_retry, fetched, h)
            (dispatched_or_left (is_created r.state) refl))
      where
        dispatched_or_left :
            (b : Bool)
            → is_created r.state ≡ b
            → JobOutcome pk r w (
                handle_with
                  (λ exc. pure counts_failed)
                  pure
                  ((if b
                      then (dispatch_outbound_mmcli env ready false r >> pure counts_processed)
                      else pure counts_nothing)
                    (counted_call w)))
        dispatched_or_left false c = (c, refl)
        dispatched_or_left true c =
            let there : row r.pk w.outbound ≡ some r =
              subst (λ n. row n w.outbound ≡ some r) (sym (row-key pk w.outbound r h)) h in
            dispatched pk r w (dispatch_outbound_mmcli env ready false r (counted_call w)) c (
              subst
                (λ n.
                  DispatchOutcome n (dispatch_outbound_mmcli env ready false r (counted_call w)))
                (row-key pk w.outbound r h)
                (dispatch-Outcome env calm ready false r (counted_call w) (r, there)))

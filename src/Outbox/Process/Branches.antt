-- ===== src/Outbox/Process/Branches.antt =====
-- The branches of process_webhook_job: delivered, to be tried again, failed for good.
use hi_wave_tel.Prelude.{
  ℕ, ◌+◌, ◌≡◌, ◌≢◌, refl, ◌∙◌, Text, Bool, true, false, some, [], if◌then◌else◌, leb, arith,
  is_some,
}
use hi_wave_tel.Runtime.Exec.{Result, ok, err, continue_with, ◌>>=◌}
use hi_wave_tel.Models.{Status, job_keyed, row}
use hi_wave_tel.Models.Tables.{row-update_row_self, row-update_row_at, row-update_row_ne}
use hi_wave_tel.World.{Env, World}
use hi_wave_tel.World.Calm.{IsCalm}
use hi_wave_tel.Outbox.{Job, attempts_columns}
use hi_wave_tel.Outbox.Process.{
  attempt_delivery, finalized, finalize, deliver_and_finalize, process_webhook_job,
}
use hi_wave_tel.Outbox.Process.Outcome.{
  bumped, bumped_world, bump-calm, finalize-calm, final_columns, finalized-pk,
  attempt_delivery-SameTables, attempt_delivery-returns,
}

-- The next status of a job whose delivery failed.
abbrev pub after_failure : ℕ → ℕ → Status
after_failure max_attempts attempts =
    if leb max_attempts attempts then Status.failed else Status.pending

module _ (env : Env) (calm : IsCalm env) where
  columns-key : (reached : Bool) (j a : Job) → (final_columns reached j a).pk ≡ a.pk
  columns-key true j a = refl
  columns-key false j a = refl

  -- What the row of the job holds after `finalize`.
  abbrev pub Finalized : Bool → Text → ℕ → Job → Type 0
  Finalized reached error attempts s =
      (s.attempts ≡ attempts)
      × (reached ≡ true
          → (s.status ≡ Status.delivered) × (s.last_error ≡ []) × (is_some s.delivered_at ≡ true))
      × (reached ≡ false
          → (s.status ≡ after_failure env.job_max_attempts attempts) × (s.last_error ≡ error))

  final-Finalized :
      (reached : Bool) (error : Text) (now : ℕ) (job r : Job)
      → r.attempts ≡ job.attempts
      → Finalized reached error job.attempts (
          final_columns reached
            (record (finalized env reached now (record job { last_error = error })) {
              updated_at = now;
            })
            r)
  unfolding finalized
  final-Finalized true error now job r h =
      (h, (λ e. (refl, refl, refl)), (λ e. absurd (ground arith)))
  final-Finalized false error now job r h = (h, (λ e. absurd (ground arith)), (λ e. (refl, refl)))

  -- What one processing ends with, from what the delivery gave.
  abbrev pub Outcome : Job → World → Result Bool × World → Type 0
  Outcome job w out =
      (reached : Bool) × (error : Text) × (s : Job) × ((attempt_delivery env (bumped job w)
          (bumped_world job w)).0
        ≡ ok (reached, error))
      × (out.0 ≡ ok reached)
      × (row job.pk out.1.jobs ≡ some s)
      × Finalized reached error (job.attempts + 1) s
      × ((n : ℕ) → n ≢ job.pk → row n out.1.jobs ≡ row n w.jobs)

  after_delivery :
      (job r : Job) (w : World) (out : Result (Bool × Text) × World) (reached : Bool) (error : Text)
      → row job.pk w.jobs ≡ some r
      → attempt_delivery env (bumped job w) (bumped_world job w) ≡ out
      → out.0 ≡ ok (reached, error)
      → out.1.jobs ≡ (bumped_world job w).jobs
      → Outcome job w (continue_with (λ o. finalize env o (bumped job w)) out)
  after_delivery job r w (err x, v) reached error h runs e same = absurd (ground arith)
  after_delivery job r w (ok (b, t), v) reached error h runs e same =
      let mid : Job = attempts_columns (bumped job w) r in
      let stored : row job.pk v.jobs ≡ some mid =
        rw same
          (row-update_row_self (attempts_columns (bumped job w)) job.pk w.jobs r (λ a. refl) h) in
      let named : Job = record (bumped job w) { last_error = t } in
      let last : Job = finalized env b v.clock named in
      let write : Job → Job = final_columns b (record last { updated_at = v.clock }) in
      let pk_kept : last.pk ≡ job.pk = finalized-pk env b v.clock named in
      rw (finalize-calm env calm b t (bumped job w) v mid stored) (
        b,
        t,
        write mid,
        rw runs refl,
        refl,
        row-update_row_at write last.pk job.pk v.jobs mid pk_kept (columns-key b _) stored,
        final-Finalized b t v.clock (bumped job w) mid refl,
        λ n ne.
            row-update_row_ne write last.pk n v.jobs (columns-key b _) (λ q. ne (q ∙ pk_kept))
            ∙ rw same (
                row-update_row_ne (attempts_columns (bumped job w)) job.pk n w.jobs (λ a. refl) ne),
      )

  -- Processing a job of the table always returns, even where the delivery raises. It counts one
  -- attempt. If all URLs were reached the job is delivered, with the time and no error. Otherwise it
  -- keeps the error, and is pending again until it has been tried `job_max_attempts` times, when it
  -- has failed. No other job changes.
  pub process-Outcome :
      (job r : Job) (w : World)
      → row job.pk w.jobs ≡ some r
      → Outcome job w (process_webhook_job env job w)
  unfolding process_webhook_job deliver_and_finalize ◌>>=◌
  process-Outcome job r w h =
      let ((reached, error), returns) =
        attempt_delivery-returns env (bumped job w) (bumped_world job w) in
      let frame = (attempt_delivery-SameTables env (bumped job w)).at (bumped_world job w) in
      rw (bump-calm env calm job w r h)
        (after_delivery job r w _ reached error h refl returns frame.jobs)

-- ===== src/Outbox/Process/Outcome.antt =====
-- What one processing of a job leaves behind, on each of its branches, while the database raises no
-- error: whatever the delivery does, an exception included, the job's row gets its next status.
use hi_wave_tel.Prelude.{
  ℕ, suc, ◌+◌, ◌≡◌, refl, ◌∙◌, inl, Text, Bool, true, false, Option, none, some, if◌then◌else◌,
  take,
}
use hi_wave_tel.Runtime.Exn.{message}
use hi_wave_tel.Runtime.Exec.{Result, ok, err, pure, try_else, handle_with, ◌>>=◌, ◌>>◌}
use hi_wave_tel.Runtime.Respects.{
  Respects, Respects-handle, Respects-bind, Respects-raise, Respects-pure,
}
use hi_wave_tel.Runtime.Retry.{with_sqlite_retry, with_sqlite_retry-recovers, start}
use hi_wave_tel.Models.{Kind, job_keyed, row, update_row}
use hi_wave_tel.World.{Env, World, sqlite_nap}
use hi_wave_tel.World.Calm.{IsCalm, counted_call, statement-calm}
use hi_wave_tel.World.Frames.{
  SameTables, SameTables-IsPreorder, statement-Respects, counted-SameTables, or_raise-world,
}
use hi_wave_tel.Delivery.Frame.{deliver_inbound-SameTables, deliver_outbound-SameTables}
use hi_wave_tel.Outbox.{Job, Columns, save_job, attempts_columns, status_columns, delivered_columns}
use hi_wave_tel.Outbox.Process.{
  bump_attempts_once, bump_attempts, load_inbound, load_outbound, deliver_inbound_job,
  deliver_outbound_job, deliver_by_kind, attempt_delivery, finalized, finalize_once, finalize,
  job_nap, one_failed,
}

-- The table after a save.
abbrev pub saved_world : Columns → Job → World → World
saved_world columns job w = record w {
  db_calls = suc w.db_calls;
  jobs = update_row job.pk (columns (record job { updated_at = w.clock })) w.jobs;
}

-- the job in memory after `attempts += 1` and its save
abbrev pub bumped : Job → World → Job
bumped job w = record job { attempts = job.attempts + 1; updated_at = w.clock }

abbrev pub bumped_world : Job → World → World
bumped_world job w = saved_world attempts_columns (record job { attempts = job.attempts + 1 }) w

abbrev pub final_columns : Bool → Columns
final_columns reached = if reached then delivered_columns else status_columns

module _ (env : Env) where
  load_inbound-SameTables : (pk : ℕ) → Respects SameTables (load_inbound env pk)
  unfolding load_inbound
  load_inbound-SameTables pk =
      statement-Respects SameTables env _ counted-SameTables
        (λ w. rw (or_raise-world _ (row pk w.inbound) (counted_call w)) (counted-SameTables w))

  load_outbound-SameTables : (pk : ℕ) → Respects SameTables (load_outbound env pk)
  unfolding load_outbound
  load_outbound-SameTables pk =
      statement-Respects SameTables env _ counted-SameTables
        (λ w. rw (or_raise-world _ (row pk w.outbound) (counted_call w)) (counted-SameTables w))

  deliver_by_kind-SameTables :
      (kind : Kind) (job : Job) → Respects SameTables (deliver_by_kind env kind job)
  unfolding deliver_by_kind
  deliver_by_kind-SameTables Kind.inbound job = by_ref job.inbound_sms
    where
      by_ref : (o : Option ℕ) → Respects SameTables (deliver_inbound_job env o)
      by_ref none = unfold deliver_inbound_job in Respects-raise SameTables-IsPreorder _
      by_ref (some pk) =
          unfold deliver_inbound_job in
          Respects-bind SameTables-IsPreorder _ _ (load_inbound-SameTables pk)
            (λ sms. deliver_inbound-SameTables env sms)
  deliver_by_kind-SameTables Kind.outbound job = by_ref job.outbound_sms
    where
      by_ref : (o : Option ℕ) → Respects SameTables (deliver_outbound_job env o)
      by_ref none = unfold deliver_outbound_job in Respects-raise SameTables-IsPreorder _
      by_ref (some pk) =
          unfold deliver_outbound_job in
          Respects-bind SameTables-IsPreorder _ _ (load_outbound-SameTables pk)
            (λ sms. deliver_outbound-SameTables env sms)
  deliver_by_kind-SameTables Kind.unknown_kind job = Respects-raise SameTables-IsPreorder _

  pub attempt_delivery-SameTables : (job : Job) → Respects SameTables (attempt_delivery env job)
  unfolding attempt_delivery
  attempt_delivery-SameTables job =
      Respects-handle SameTables-IsPreorder _ _ _ (deliver_by_kind-SameTables job.kind job)
        (λ x. Respects-pure SameTables-IsPreorder _) (λ b. Respects-pure SameTables-IsPreorder _)

  -- The delivery step always returns: exceptions are turned into a failed attempt.
  pub attempt_delivery-returns :
      (job : Job) (w : World) → (o : Bool × Text) × ((attempt_delivery env job w).0 ≡ ok o)
  unfolding attempt_delivery try_else pure
  attempt_delivery-returns job w = by_outcome (deliver_by_kind env job.kind job w)
    where
      by_outcome :
          (r : Result Bool × World)
          → (o : Bool × Text) × ((handle_with
                (λ x. pure (false, take 2000 (message x)))
                (λ reached. pure (reached, (if reached then job.last_error else one_failed)))
                r).0
              ≡ ok o)
      by_outcome (ok b, v) = (_, refl)
      by_outcome (err x, v) = (_, refl)

module _ (env : Env) where
  abbrev pub final_world : Bool → Job → World → World
  final_world reached job w =
      saved_world (final_columns reached) (finalized env reached w.clock job) w

  pub finalized-pk :
      (reached : Bool) (now : ℕ) (job : Job) → (finalized env reached now job).pk ≡ job.pk
  unfolding finalized
  finalized-pk true now job = refl
  finalized-pk false now job = refl

module _ (env : Env) (calm : IsCalm env) where
  pub save-calm :
      (columns : Columns) (job : Job) (w : World) (r : Job)
      → row job.pk w.jobs ≡ some r
      → save_job env columns job w
        ≡ (ok (record job { updated_at = w.clock }), saved_world columns job w)
  unfolding save_job
  save-calm columns job w r h = statement-calm env calm _ w ∙ rw h refl

  pub bump-calm :
      (job : Job) (w : World) (r : Job)
      → row job.pk w.jobs ≡ some r
      → bump_attempts env (job, w) ≡ (ok tt, (bumped job w, bumped_world job w))
  unfolding bump_attempts
  bump-calm job w r h =
      with_sqlite_retry-recovers env.sqlite_retries (job_nap env) (bump_attempts_once env) start
        calm.some_tries (inl (rw once refl))
      ∙ once
    where
      once : bump_attempts_once env (job, w) ≡ (ok tt, (bumped job w, bumped_world job w))
      once =
          unfold bump_attempts_once in
          rw (save-calm attempts_columns (record job { attempts = job.attempts + 1 }) w r h) refl

  pub finalize-calm :
      (reached : Bool) (error : Text) (job : Job) (w : World) (r : Job)
      → row job.pk w.jobs ≡ some r
      → finalize env (reached, error) job w
        ≡ (ok reached, final_world env reached (record job { last_error = error }) w)
  unfolding finalize ◌>>◌ ◌>>=◌ pure
  finalize-calm reached error job w r h = rw (retried) refl
    where
      named : Job
      named = record job { last_error = error }

      once : finalize_once env reached named w ≡ (
        ok (record (finalized env reached w.clock named) { updated_at = w.clock }),
        final_world env reached named w,
      )
      once =
          unfold finalize_once in
          save-calm (final_columns reached) (finalized env reached w.clock named) w r
            (rw (finalized-pk env reached w.clock named) h)

      retried :
          with_sqlite_retry env.sqlite_retries (sqlite_nap env) (finalize_once env reached named) w
          ≡ (
            ok (record (finalized env reached w.clock named) { updated_at = w.clock }),
            final_world env reached named w,
          )
      retried =
          with_sqlite_retry-recovers env.sqlite_retries (sqlite_nap env)
            (finalize_once env reached named) start calm.some_tries (inl (rw once refl))
          ∙ once

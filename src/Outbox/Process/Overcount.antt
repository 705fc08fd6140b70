-- ===== src/Outbox/Process/Overcount.antt =====
-- The retries of the first step of process_webhook_job. `job.attempts += 1` stands inside the
-- function that is retried, so each busy attempt counts the job in memory up once more.
use hi_wave_tel.Prelude.{
  ℕ, zero, suc, ◌+◌, ◌<◌, ◌≡◌, refl, ◌∙◌, subst, inl, Text, true, none, some, arith,
}
use hi_wave_tel.Runtime.Exn.{operational, is_busy}
use hi_wave_tel.Runtime.Exec.{Result, ok, err}
use hi_wave_tel.Runtime.Retry.{BusyRun, start, again, with_sqlite_retry-recovers}
use hi_wave_tel.Models.{job_keyed, row, update_row}
use hi_wave_tel.Models.Tables.{row-update_row_self}
use hi_wave_tel.World.{Env, World, sqlite_nap, sleep}
use hi_wave_tel.World.Calm.{counted_call, statement-free, statement-raises}
use hi_wave_tel.Outbox.{Job, save_job, attempts_columns}
use hi_wave_tel.Outbox.Process.{bump_attempts_once, bump_attempts, job_nap}

-- The n-th statement meets a locked database.
abbrev pub IsLocked : Env → ℕ → Type 0
IsLocked env n = (m : Text) × (env.db_error n ≡ some m) × (is_busy (operational m) ≡ true)

-- The count was stored, and went up by `n`, in memory and in the job's row.
abbrev pub Counted : Job → ℕ → Result (Unit {0}) × (Job × World) → Type 0
Counted job n out =
    (j : Job) × (w' : World) × (s : Job) × (out ≡ (ok tt, (j, w')))
    × (j.attempts ≡ job.attempts + n)
    × (row job.pk w'.jobs ≡ some s)
    × (s.attempts ≡ job.attempts + n)

module _ (env : Env) where
  abbrev up : ℕ → Job → Job
  up k job = record job { attempts = job.attempts + k }

  abbrev Run : ℕ → ℕ → Job × World → Job × World → Type 0
  Run = BusyRun env.sqlite_retries (job_nap env) (bump_attempts_once env)

  bump_locked :
      (job : Job) (w : World) (m : Text)
      → env.db_error w.db_calls ≡ some m
      → bump_attempts_once env (job, w) ≡ (err (operational m), (up 1 job, counted_call w))
  unfolding bump_attempts_once save_job
  bump_locked job w m h = rw (statement-raises env _ w m h) refl

  nap-jobs : (a : ℕ) (w : World) → (sqlite_nap env a w).jobs ≡ w.jobs
  unfolding sqlite_nap sleep
  nap-jobs a w = refl

  nap-db_calls : (a : ℕ) (w : World) → (sqlite_nap env a w).db_calls ≡ w.db_calls
  unfolding sqlite_nap sleep
  nap-db_calls a w = refl

  locked_run :
      (k a : ℕ) (job : Job) (w : World)
      → ((i : ℕ) → i < k → IsLocked env (w.db_calls + i))
      → (v : World) × Run a k (job, w) (up k job, v)
        × (v.jobs ≡ w.jobs)
        × (v.db_calls ≡ w.db_calls + k)
  locked_run zero a job w h =
      let same : up 0 job ≡ job = ground arith in (w, rw same start, refl, omega arith)
  locked_run (suc k) a job w h =
      let (m, e, busy) = h 0 (omega arith) in
      let here : env.db_error w.db_calls ≡ some m = ground arith in
      let w1 : World = sqlite_nap env a (counted_call w) in
      let calls : w1.db_calls ≡ suc w.db_calls = nap-db_calls a (counted_call w) in
      let later : (i : ℕ) → i < k → IsLocked env (w1.db_calls + i) =
        (λ i lt. subst (IsLocked env) (omega arith) (h (suc i) (omega arith))) in
      let (v, run, same, n) = locked_run k (suc a) (up 1 job) w1 later in
      let total : up k (up 1 job) ≡ up (suc k) job = ground arith in
      (
        v,
        again (operational m) (bump_locked job w m (ground arith)) busy (rw total at run),
        same ∙ nap-jobs a (counted_call w),
        omega arith,
      )

  bump_free :
      (job r : Job) (w : World)
      → env.db_error w.db_calls ≡ none
      → row job.pk w.jobs ≡ some r
      → (w' : World) × (bump_attempts_once env (job, w)
          ≡ (ok tt, (record job { attempts = job.attempts + 1; updated_at = w.clock }, w')))
        × (row job.pk w'.jobs
            ≡ some (record r { attempts = job.attempts + 1; updated_at = w.clock }))
  unfolding bump_attempts_once save_job
  bump_free job r w e h = (
    record w {
      db_calls = suc w.db_calls;
      jobs =
          update_row job.pk
            (attempts_columns (record job { attempts = job.attempts + 1; updated_at = w.clock }))
            w.jobs;
    },
    rw (statement-free env _ w e) (rw h refl),
    row-update_row_self
        (attempts_columns (record job { attempts = job.attempts + 1; updated_at = w.clock })) job.pk
        w.jobs r (λ a. refl) h,
  )

  -- If the database is locked for the first `k` attempts to store the count, and not for the next,
  -- one processing of the job counts `k + 1` attempts, in its row and in memory.
  pub bump-overcounts :
      (k : ℕ) (job r : Job) (w : World)
      → k < env.sqlite_retries
      → ((i : ℕ) → i < k → IsLocked env (w.db_calls + i))
      → env.db_error (w.db_calls + k) ≡ none
      → row job.pk w.jobs ≡ some r
      → Counted job (k + 1) (bump_attempts env (job, w))
  unfolding bump_attempts
  bump-overcounts k job r w lt locked free h =
      let (v, run, same, n) = locked_run k 0 job w locked in
      let (w', done, stored) = bump_free (up k job) r v (rw n free) (rw same h) in
      (
        _,
        w',
        _,
        with_sqlite_retry-recovers env.sqlite_retries (job_nap env) (bump_attempts_once env) run lt
              (inl (rw done refl))
            ∙ done,
        omega arith,
        stored,
        omega arith,
      )

-- ===== src/Outbox/Turn.antt =====
-- A whole turn of a webhook worker, claim and processing, under any database errors.
use hi_wave_tel.Prelude.{
  ℕ, suc, ◌≡◌, refl, sym, inl, inr, Bool, true, false, Option, none, some, Option-cases, Text,
  subst,
}
use hi_wave_tel.Runtime.Exec.{
  Result, ok, err, pure, modify, try_else, handle_with, continue_with, ◌>>=◌, ◌>>◌,
}
use hi_wave_tel.Runtime.Retry.{with_sqlite_retry-ensures}
use hi_wave_tel.Models.{Status, job_keyed, row, update_row}
use hi_wave_tel.Models.Tables.{IsTable, row_of_mem, row-update_row_self, update_row-IsTable}
use hi_wave_tel.World.{Env, World, sqlite_nap, sleep}
use hi_wave_tel.World.Calm.{counted_call, statement-free, statement-raises}
use hi_wave_tel.World.Frames.{SameTables, nap-SameTables, sleep-SameTables}
use hi_wave_tel.Outbox.{Job, save_job, claim_next_job_once, claim_next_job}
use hi_wave_tel.Outbox.Order.{is_finished, oldest_pending}
use hi_wave_tel.Outbox.Claim.{IsOldest, oldest_pending-IsOldest}
use hi_wave_tel.Outbox.Final.{
  KeepsDelivered, KeepsDelivered-IsPreorder, SameTables-KeepsDelivered, update_row-DeliveredStays,
  claim-Respects,
}
use hi_wave_tel.Outbox.Process.{
  then_with, bump_attempts_once, bump_attempts, attempt_delivery, finalized, finalize_once,
  finalize, deliver_and_finalize, process_webhook_job, process_claimed, worker_turn, job_nap,
}
use hi_wave_tel.Outbox.Process.Outcome.{attempt_delivery-SameTables, final_columns, finalized-pk}

-- The job of that key is stored, and is not delivered.
abbrev IsOpenAt : ℕ → World → Type 0
IsOpenAt pk w = (a : Job) × (row pk w.jobs ≡ some a) × (is_finished a.status ≡ false)

-- The run from `u` to `w` has kept the delivered jobs, and the job is still open.
abbrev Inside : World → ℕ → World → Type 0
Inside u pk w = KeepsDelivered u w × IsOpenAt pk w

Inside-same : (u : World) (pk : ℕ) (w w' : World) → SameTables w w' → Inside u pk w → Inside u pk w'
Inside-same u pk w w' s (k, (a, h, e)) =
    (KeepsDelivered-IsPreorder.trans u w w' k (SameTables-KeepsDelivered s), (a, rw s.jobs h, e))

counted-Inside : (u : World) (pk : ℕ) (w : World) → Inside u pk w → Inside u pk (counted_call w)
counted-Inside u pk w (k, (a, h, e)) = (record { at = k.at }, (a, h, e))

-- A write to the open job's row.
write_open :
    (u w : World) (pk : ℕ) (f : Job → Job)
    → ((x : Job) → (f x).pk ≡ x.pk)
    → Inside u pk w
    → KeepsDelivered u (record w { db_calls = suc w.db_calls; jobs = update_row pk f w.jobs })
write_open u w pk f keep (k, (a, h, e)) = record {
  at = λ t.
      let (t', stays) = k.at t in
      (
        update_row-IsTable f pk w.next_pk w.jobs keep t',
        λ n r h' d. update_row-DeliveredStays f pk w.jobs a keep h e n r (stays n r h' d) d,
      );
}

module _ (env : Env) where
  -- claim: whatever is claimed is open
  abbrev Claimed : Result (Option Job) × World → Type 0
  Claimed (ok none, w) = Unit
  Claimed (ok (some job), w) = IsOpenAt job.pk w
  Claimed (err x, w) = IsTable w.next_pk w.jobs

  claim_once-Claimed : (w : World) → IsTable w.next_pk w.jobs → Claimed (claim_next_job_once env w)
  unfolding claim_next_job_once
  claim_once-Claimed w t = elim (Option-cases (env.db_error w.db_calls)) [
    | inl free ↦
        rw (statement-free env _ w free)
          (by_oldest (oldest_pending w.jobs) (oldest_pending-IsOldest w.jobs))
    | inr (m, locked) ↦ rw (statement-raises env _ w m locked) t
  ]
    where
      by_oldest :
          (o : Option Job)
          → IsOldest w.jobs o
          → Claimed (elim o as (λ _. Result (Option Job) × World) [
            | none ↦ (ok none, counted_call w)
            | some job ↦ (
              ok (some (record job { status = Status.processing; updated_at = w.clock })),
              record w {
                db_calls = suc w.db_calls;
                jobs =
                    update_row job.pk
                      (λ (r : Job). record r { status = Status.processing; updated_at = w.clock })
                      w.jobs;
              },
            )
          ])
      by_oldest none h = tt
      by_oldest (some m) (mem, p, before) = (
        _,
        row-update_row_self _ m.pk w.jobs m (λ x. refl) (row_of_mem w.next_pk w.jobs m t mem),
        refl,
      )

  claim-Claimed : (w : World) → IsTable w.next_pk w.jobs → Claimed (claim_next_job env w)
  unfolding claim_next_job
  claim-Claimed w t =
      with_sqlite_retry-ensures _ _ _ (λ v. IsTable v.next_pk v.jobs) Claimed claim_once-Claimed
        (λ x v h. h) (λ x v h. h)
        (λ k v h. let s = nap-SameTables env k v in rw (s.jobs, s.next_pk) h) w t

  -- bump: the job stays open
  abbrev Bumping : World → ℕ → Job × World → Type 0
  Bumping u pk (job, w) = (job.pk ≡ pk) × Inside u pk w

  abbrev Bumped : World → ℕ → Result (Unit {0}) × (Job × World) → Type 0
  Bumped u pk (r, s) = Bumping u pk s

  bump_once-Bumped :
      (u : World) (job : Job) (w : World)
      → Inside u job.pk w
      → Bumped u job.pk (bump_attempts_once env (job, w))
  unfolding bump_attempts_once save_job
  bump_once-Bumped u job w (k, (a, h, e)) = elim (Option-cases (env.db_error w.db_calls)) [
    | inl free ↦ rw (statement-free env _ w free) (
        rw h (
          refl,
          (
            write_open u w job.pk _ (λ x. refl) (k, (a, h, e)),
            (_, row-update_row_self _ job.pk w.jobs a (λ x. refl) h, e),
          ),
        ))
    | inr (m, locked) ↦
        rw (statement-raises env _ w m locked) (refl, counted-Inside u job.pk w (k, (a, h, e)))
  ]

  bump-Bumped :
      (u : World) (job : Job) (w : World)
      → Inside u job.pk w
      → Bumped u job.pk (bump_attempts env (job, w))
  unfolding bump_attempts
  bump-Bumped u job w h =
      with_sqlite_retry-ensures _ _ _ (Bumping u job.pk) (Bumped u job.pk) call (λ x s p. p)
        (λ x s p. p) nap (job, w) (refl, h)
    where
      call : (s : Job × World) → Bumping u job.pk s → Bumped u job.pk (bump_attempts_once env s)
      call (j, v) (same, inside) =
          subst (λ pk. Inside u pk v → Bumped u pk (bump_attempts_once env (j, v))) same
            (bump_once-Bumped u j v) inside

      nap : (k : ℕ) (s : Job × World) → Bumping u job.pk s → Bumping u job.pk (job_nap env k s)
      nap k (j, v) (same, inside) =
          (same, Inside-same u job.pk v (sqlite_nap env k v) (nap-SameTables env k v) inside)

  -- finalize: the one write to the open job
  abbrev Finalizing : World → ℕ → Result Job × World → Type 0
  Finalizing u pk (ok a, w) = KeepsDelivered u w
  Finalizing u pk (err x, w) = Inside u pk w

  columns-key : (reached : Bool) (j a : Job) → (final_columns reached j a).pk ≡ a.pk
  columns-key true j a = refl
  columns-key false j a = refl

  finalize_once-Finalizing :
      (u : World) (reached : Bool) (job : Job) (w : World)
      → Inside u job.pk w
      → Finalizing u job.pk (finalize_once env reached job w)
  unfolding finalize_once save_job
  finalize_once-Finalizing u reached job w (k, (a, h, e)) =
      let last : Job = finalized env reached w.clock job in
      let pk_kept : last.pk ≡ job.pk = finalized-pk env reached w.clock job in
      elim (Option-cases (env.db_error w.db_calls)) [
        | inl free ↦ rw (statement-free env _ w free) (
            let found : row last.pk w.jobs ≡ some a = rw pk_kept h in
            rw found (
              write_open u w last.pk _ (columns-key reached _)
                (subst (λ pk. Inside u pk w) (sym pk_kept) (k, (a, h, e)))))
        | inr (m, locked) ↦
            rw (statement-raises env _ w m locked) (counted-Inside u job.pk w (k, (a, h, e)))
      ]

  finalize-keeps :
      (u : World) (outcome : Bool × Text) (job : Job) (w : World)
      → Inside u job.pk w
      → KeepsDelivered u (finalize env outcome job w).1
  unfolding finalize ◌>>◌ ◌>>=◌ pure
  finalize-keeps u (reached, error) job w h = after _ (
      with_sqlite_retry-ensures _ _ _ (Inside u job.pk) (Finalizing u job.pk)
        (finalize_once-Finalizing u reached (record job { last_error = error })) (λ x v g. g)
        (λ x v g. g)
        (λ k v g. Inside-same u job.pk v (sqlite_nap env k v) (nap-SameTables env k v) g) w h)
    where
      after :
          (r : Result Job × World)
          → Finalizing u job.pk r
          → KeepsDelivered u (continue_with (λ _ v. (ok reached, v)) r).1
      after (ok a, v) g = g
      after (err x, v) (g, o) = g

  process-keeps :
      (u : World) (job : Job) (w : World)
      → Inside u job.pk w
      → KeepsDelivered u (process_webhook_job env job w).1
  unfolding process_webhook_job deliver_and_finalize ◌>>=◌
  process-keeps u job w h = after _ (bump-Bumped u job w h)
    where
      finish :
          (j : Job) (r : Result (Bool × Text) × World)
          → Inside u j.pk r.1
          → KeepsDelivered u (continue_with (λ o. finalize env o j) r).1
      finish j (ok o, v) g = finalize-keeps u o j v g
      finish j (err x, v) (g, o) = g

      after :
          (r : Result (Unit {0}) × (Job × World))
          → Bumped u job.pk r
          → KeepsDelivered u (then_with (deliver_and_finalize env) r).1
      after (ok t, (j, v)) (same, g) = finish j (attempt_delivery env j v) (
          Inside-same u j.pk v _ ((attempt_delivery-SameTables env j).at v)
            (subst (λ pk. Inside u pk v) (sym same) g))
      after (err x, (j, v)) (same, (g, o)) = g

  sleep-keeps : (d : ℕ) (w : World) → KeepsDelivered w (sleep d w)
  sleep-keeps d w = SameTables-KeepsDelivered (sleep-SameTables d w)

  -- Whatever errors the database raises and whatever the delivery does, a turn of a worker keeps the
  -- keys of the job table distinct and leaves every job that was delivered before as it was.
  pub turn-keeps : (poll : ℕ) (w : World) → KeepsDelivered w (worker_turn env poll w).1
  unfolding worker_turn process_claimed try_else modify pure
  turn-keeps poll w = record {
    at = λ t. (after (claim_next_job env w) (claim-Claimed w t) ((claim-Respects env).at w)).at t;
  }
    where
      logged :
          (r : Result Bool × World)
          → KeepsDelivered w r.1
          → KeepsDelivered w (handle_with (λ x v. (ok tt, v)) (λ done v. (ok tt, v)) r).1
      logged (ok b, v) g = g
      logged (err x, v) g = g

      after :
          (r : Result (Option Job) × World)
          → Claimed r
          → KeepsDelivered w r.1
          → KeepsDelivered w
              (handle_with (λ x. modify (sleep poll)) (λ found. process_claimed env poll found) r).1
      after (ok none, v) c k = KeepsDelivered-IsPreorder.trans w v _ k (sleep-keeps poll v)
      after (ok (some job), v) c k = logged _ (process-keeps w job v (k, c))
      after (err x, v) c k = KeepsDelivered-IsPreorder.trans w v _ k (sleep-keeps poll v)

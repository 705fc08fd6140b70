-- ===== src/Outbox/Final.antt =====
-- A delivered job stays delivered, and keys stay distinct, whatever errors the database raises: under
-- scheduling, the reset of stale jobs, claims, and whole turns of a worker.
use hi_wave_tel.Prelude.{
  ℕ, suc, ◌≡◌, refl, inl, inr, Bool, false, Option, none, some, List, arith, find, Bool-cases,
  Option-cases,
}
use hi_wave_tel.Runtime.Exec.{Result, ok, pure, ◌>>=◌}
use hi_wave_tel.Runtime.Respects.{IsPreorder, Respects, with_sqlite_retry-Respects}
use hi_wave_tel.Models.{Kind, Status, job_keyed, row, update_row, update_where}
use hi_wave_tel.Models.Tables.{
  IsTable, KeepsKey, row-update_row, row-update_where, row-append, update_row-IsTable,
  update_where-IsTable, append-IsTable, row_of_mem, find-mem,
}
use hi_wave_tel.World.{Env, World, Act, query, sqlite_nap}
use hi_wave_tel.World.Calm.{counted_call, statement-free, statement-raises}
use hi_wave_tel.World.Frames.{SameTables, nap-SameTables, statement-Respects}
use hi_wave_tel.Outbox.{
  Job, status_columns, save_job, create_job, requeue, get_or_create_and_requeue,
  schedule_inbound_once, schedule_outbound_once, schedule_inbound_webhook,
  schedule_outbound_webhook, is_stale, reset_row, reset_once, reset_stale_processing_jobs,
  claim_next_job_once, claim_next_job,
}
use hi_wave_tel.Outbox.Order.{is_finished, oldest_pending}
use hi_wave_tel.Outbox.Claim.{IsOldest, oldest_pending-IsOldest}

-- The rows of delivered jobs are the same after as before.
abbrev pub DeliveredStays : List Job → List Job → Type 0
DeliveredStays js ks =
    (n : ℕ) (r : Job) → row n js ≡ some r → r.status ≡ Status.delivered → row n ks ≡ some r

pub record KeepsDelivered (w w' : World) : Type 0 where
  pub at : IsTable w.next_pk w.jobs → IsTable w'.next_pk w'.jobs × DeliveredStays w.jobs w'.jobs

pub KeepsDelivered-IsPreorder : IsPreorder KeepsDelivered
KeepsDelivered-IsPreorder = record {
  refl = λ w. record { at = λ t. (t, λ n r h d. h) };
  trans = λ u v w a b. record {
    at = λ t.
        let (t', stays) = a.at t in
        let (t'', stays') = b.at t' in (t'', λ n r h d. stays' n r (stays n r h d) d);
  };
}

pub SameTables-KeepsDelivered : {w w' : World} → SameTables w w' → KeepsDelivered w w'
SameTables-KeepsDelivered s = record {
  at = λ t. (rw (s.jobs, s.next_pk) t, λ n r h d. rw s.jobs h);
}

counted-KeepsDelivered : (w : World) → KeepsDelivered w (counted_call w)
counted-KeepsDelivered w = record { at = λ t. (t, λ n r h d. h) }

nap-KeepsDelivered : (env : Env) (k : ℕ) (w : World) → KeepsDelivered w (sqlite_nap env k w)
nap-KeepsDelivered env k w = SameTables-KeepsDelivered (nap-SameTables env k w)

-- A write to the row of a job that is not delivered.
pub update_row-DeliveredStays :
    (f : Job → Job) (m : ℕ) (js : List Job) (a : Job)
    → KeepsKey f
    → row m js ≡ some a
    → is_finished a.status ≡ false
    → DeliveredStays js (update_row m f js)
update_row-DeliveredStays f m js a keep h unfinished n r e d =
    ground (arith, row-update_row f m n js keep)

update_where-DeliveredStays :
    (p : Job → Bool) (f : Job → Job) (js : List Job)
    → KeepsKey f
    → ((r : Job) → r.status ≡ Status.delivered → p r ≡ false)
    → DeliveredStays js (update_where p f js)
update_where-DeliveredStays p f js keep h n r e d =
    ground (arith, row-update_where p f n js keep, h r d)

module _ (env : Env) where
  save-KeepsDelivered :
      (job a : Job) (w : World)
      → row job.pk w.jobs ≡ some a
      → is_finished a.status ≡ false
      → KeepsDelivered w (save_job env status_columns job w).1
  unfolding save_job
  save-KeepsDelivered job a w h unfinished = elim (Option-cases (env.db_error w.db_calls)) [
    | inl free ↦ rw (statement-free env _ w free) (
        rw h (record {
          at = λ t. (
            update_row-IsTable _ job.pk w.next_pk w.jobs (λ x. refl) t,
            update_row-DeliveredStays _ job.pk w.jobs a (λ x. refl) h unfinished,
          );
        }))
    | inr (m, locked) ↦ rw (statement-raises env _ w m locked) (counted-KeepsDelivered w)
  ]

  create-KeepsDelivered :
      (kind : Kind) (i o : Option ℕ) → Respects KeepsDelivered (create_job env kind i o)
  unfolding create_job
  create-KeepsDelivered kind i o =
      statement-Respects KeepsDelivered env _ counted-KeepsDelivered (λ w. record {
        at = λ t. (append-IsTable w.next_pk w.jobs _ refl t, λ n r h d. row-append n w.jobs _ r h);
      })

  requeue-KeepsDelivered :
      (job : Job) (w : World)
      → row job.pk w.jobs ≡ some job
      → KeepsDelivered w (requeue env job w).1
  unfolding requeue
  requeue-KeepsDelivered job w h = elim (Bool-cases (is_finished job.status)) [
    | inl done ↦ rw done (unfold pure in KeepsDelivered-IsPreorder.refl w)
    | inr unfinished ↦ rw unfinished (save-KeepsDelivered _ job w h unfinished)
  ]

  requeue_found :
      (p : Job → Bool) (create : Act Job) (w : World)
      → Respects KeepsDelivered create
      → KeepsDelivered w
          ((query env (λ v. find p v.jobs) >>= λ found. get_or_create_and_requeue env found create)
            w).1
  unfolding ◌>>=◌ query
  requeue_found p create w made = elim (Option-cases (env.db_error w.db_calls)) [
    | inl free ↦ rw (statement-free env _ w free) (by_row (find p w.jobs) refl)
    | inr (m, locked) ↦ rw (statement-raises env _ w m locked) (counted-KeepsDelivered w)
  ]
    where
      by_row :
          (o : Option Job)
          → find p w.jobs ≡ o
          → KeepsDelivered w (get_or_create_and_requeue env o create (counted_call w)).1
      by_row none e =
          unfold get_or_create_and_requeue in
          KeepsDelivered-IsPreorder.trans w (counted_call w) _ (counted-KeepsDelivered w)
            (made.at (counted_call w))
      by_row (some job) e =
          unfold get_or_create_and_requeue in
          record {
            at = λ t.
                (requeue-KeepsDelivered job (counted_call w)
                    (row_of_mem w.next_pk w.jobs job t (find-mem p w.jobs job e))).at
                  t;
          }

  schedule_inbound_once-Respects : (pk : ℕ) → Respects KeepsDelivered (schedule_inbound_once env pk)
  unfolding schedule_inbound_once
  schedule_inbound_once-Respects pk = record {
    at = λ w. requeue_found _ _ w (create-KeepsDelivered _ _ _);
  }

  schedule_outbound_once-Respects :
      (pk : ℕ) → Respects KeepsDelivered (schedule_outbound_once env pk)
  unfolding schedule_outbound_once
  schedule_outbound_once-Respects pk = record {
    at = λ w. requeue_found _ _ w (create-KeepsDelivered _ _ _);
  }

  pub schedule_inbound-Respects :
      (pk : ℕ) → Respects KeepsDelivered (schedule_inbound_webhook env pk)
  unfolding schedule_inbound_webhook
  schedule_inbound-Respects pk =
      with_sqlite_retry-Respects KeepsDelivered-IsPreorder _ _ _ (schedule_inbound_once-Respects pk)
        (nap-KeepsDelivered env)

  pub schedule_outbound-Respects :
      (pk : ℕ) → Respects KeepsDelivered (schedule_outbound_webhook env pk)
  unfolding schedule_outbound_webhook
  schedule_outbound-Respects pk =
      with_sqlite_retry-Respects KeepsDelivered-IsPreorder _ _ _
        (schedule_outbound_once-Respects pk) (nap-KeepsDelivered env)

  stale-not_delivered :
      (cutoff : ℕ) (r : Job) → r.status ≡ Status.delivered → is_stale cutoff r ≡ false
  stale-not_delivered cutoff r d = ground arith

  reset_once-Respects : (cutoff : ℕ) → Respects KeepsDelivered (reset_once env cutoff)
  unfolding reset_once
  reset_once-Respects cutoff = statement-Respects KeepsDelivered env _ counted-KeepsDelivered (λ w.
      record {
        at = λ t. (
          update_where-IsTable (is_stale cutoff) reset_row w.next_pk w.jobs (λ x. refl) t,
          update_where-DeliveredStays (is_stale cutoff) reset_row w.jobs (λ x. refl)
              (stale-not_delivered cutoff),
        );
      })

  pub reset-Respects :
      (age : Option ℕ) → Respects KeepsDelivered (reset_stale_processing_jobs env age)
  unfolding reset_stale_processing_jobs
  reset-Respects age = record {
    at = λ w.
        (with_sqlite_retry-Respects KeepsDelivered-IsPreorder _ _ _ (reset_once-Respects _)
            (nap-KeepsDelivered env)).at
          w;
  }

  claim_once-Respects : Respects KeepsDelivered (claim_next_job_once env)
  unfolding claim_next_job_once
  claim_once-Respects =
      statement-Respects KeepsDelivered env _ counted-KeepsDelivered
        (λ w. by_oldest w (oldest_pending w.jobs) (oldest_pending-IsOldest w.jobs))
    where
      by_oldest :
          (w : World) (o : Option Job)
          → IsOldest w.jobs o
          → KeepsDelivered w
              (elim o as (λ _. Result (Option Job) × World) [
                | none ↦ (ok none, counted_call w)
                | some job ↦ (
                  ok (some (record job { status = Status.processing; updated_at = w.clock })),
                  record w {
                    db_calls = suc w.db_calls;
                    jobs =
                        update_row job.pk
                          (λ (r : Job). record r {
                            status = Status.processing;
                            updated_at = w.clock;
                          })
                          w.jobs;
                  },
                )
              ]).1
      by_oldest w none h = counted-KeepsDelivered w
      by_oldest w (some m) (mem, p, before) = record {
        at = λ t. (
          update_row-IsTable _ m.pk w.next_pk w.jobs (λ x. refl) t,
          update_row-DeliveredStays _ m.pk w.jobs m (λ x. refl)
              (row_of_mem w.next_pk w.jobs m t mem) (ground arith),
        );
      }

  pub claim-Respects : Respects KeepsDelivered (claim_next_job env)
  unfolding claim_next_job
  claim-Respects =
      with_sqlite_retry-Respects KeepsDelivered-IsPreorder _ _ _ claim_once-Respects
        (nap-KeepsDelivered env)

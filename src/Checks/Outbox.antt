-- ===== src/Checks/Outbox.antt =====
-- Examples of the laws of the webhook queue.
use hi_wave_tel.Prelude.{
  ℕ, ◌≡◌, ◌≢◌, refl, none, some, List, [], ◌∷◌, arith, codes, zero, suc, Option, Text, lower,
  contains, ◌<◌, ◌+◌,
}
use hi_wave_tel.Runtime.Exec.{ok}
use hi_wave_tel.Models.{Status, job_keyed, row, update_row, WebhookDeliveryJob}
use hi_wave_tel.Models.Tables.{IsTable}
use hi_wave_tel.World.{Env, statement}
use hi_wave_tel.World.Calm.{IsCalm}
use hi_wave_tel.Outbox.{claim_next_job, claim_next_job_once}
use hi_wave_tel.Runtime.Retry.{with_sqlite_retry}
use hi_wave_tel.Runtime.Exn.{is_busy, looks_sqlite_concurrency_error, message}
use hi_wave_tel.Outbox.Order.{oldest_pending, precedes}
use hi_wave_tel.Outbox.Claim.{ClaimOutcome, claim-oldest, claim-claim_distinct}
use hi_wave_tel.Outbox.Process.{process_webhook_job, bump_attempts}
use hi_wave_tel.Outbox.Process.Branches.{Outcome, process-Outcome}
use hi_wave_tel.Outbox.Process.Overcount.{Counted, bump-overcounts, IsLocked}
use hi_wave_tel.Outbox.Final.{DeliveredStays}
use hi_wave_tel.Outbox.History.{
  Operation, schedules_inbound, schedules_outbound, resets_stale, takes_turn, perform_all,
  history-keeps_delivered,
}
use hi_wave_tel.Checks.{env, job, later_job, world}

env-IsCalm : IsCalm env
env-IsCalm = record { no_error = λ n. refl; some_tries = omega arith }

world-IsTable : IsTable world.next_pk world.jobs
unfolding row
world-IsTable = (omega arith, refl, (omega arith, refl, tt))

claim-oldest_example : ClaimOutcome env env-IsCalm world (claim_next_job env world)
claim-oldest_example = claim-oldest env env-IsCalm world world-IsTable

abbrev first_claimed : WebhookDeliveryJob
first_claimed = record job { status = Status.processing; updated_at = 10 }

abbrev second_claimed : WebhookDeliveryJob
second_claimed = record later_job { status = Status.processing; updated_at = 10 }

first_claim : (claim_next_job env world).0 ≡ ok (some first_claimed)
unfolding claim_next_job claim_next_job_once with_sqlite_retry statement oldest_pending precedes
first_claim = refl

second_claim : (claim_next_job env (claim_next_job env world).1).0 ≡ ok (some second_claimed)
unfolding claim_next_job claim_next_job_once with_sqlite_retry statement oldest_pending precedes
    update_row
second_claim = refl

claim-claim_distinct_example : first_claimed.pk ≢ second_claimed.pk
claim-claim_distinct_example =
    claim-claim_distinct env env-IsCalm world first_claimed second_claimed world-IsTable first_claim
      second_claim

job_stored : row 0 world.jobs ≡ some job
unfolding row
job_stored = refl

process-Outcome_example : Outcome env env-IsCalm job world (process_webhook_job env job world)
process-Outcome_example = process-Outcome env env-IsCalm job job world job_stored

-- Two jobs arrive, a worker takes two turns, and stale jobs are reset.
abbrev history : List Operation
history =
    schedules_inbound 9
    ∷ schedules_outbound 3
    ∷ takes_turn 500_000
    ∷ takes_turn 500_000
    ∷ resets_stale none
    ∷ []

history-keeps_delivered_example :
    IsTable (perform_all env history world).next_pk (perform_all env history world).jobs
    × DeliveredStays world.jobs (perform_all env history world).jobs
history-keeps_delivered_example = history-keeps_delivered env history world world-IsTable

-- The first two statements meet a locked database.
abbrev locked_message : ℕ → Option Text
locked_message zero = some (codes "database is locked")
locked_message (suc zero) = some (codes "database is locked")
locked_message (suc (suc n)) = none

abbrev locked_env : Env
locked_env = record env { db_error = locked_message }

locked_env-IsLocked : (i : ℕ) → i < 2 → IsLocked locked_env (0 + i)
unfolding is_busy looks_sqlite_concurrency_error message lower contains
locked_env-IsLocked zero h = (codes "database is locked", refl, refl)
locked_env-IsLocked (suc zero) h = (codes "database is locked", refl, refl)
locked_env-IsLocked (suc (suc i)) h = absurd (omega arith)

bump-overcounts_example : Counted job (2 + 1) (bump_attempts locked_env (job, world))
bump-overcounts_example =
    bump-overcounts locked_env 2 job job world (omega arith) locked_env-IsLocked refl job_stored

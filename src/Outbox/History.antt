-- ===== src/Outbox/History.antt =====
-- Histories of the outbox: what schedulers and workers do to the job table, one after the other.
use hi_wave_tel.Prelude.{ℕ, Option, List, [], ◌∷◌}
use hi_wave_tel.Models.{job_keyed}
use hi_wave_tel.Models.Tables.{IsTable}
use hi_wave_tel.World.{Env, World}
use hi_wave_tel.Outbox.{
  schedule_inbound_webhook, schedule_outbound_webhook, reset_stale_processing_jobs,
}
use hi_wave_tel.Outbox.Final.{
  DeliveredStays, KeepsDelivered, KeepsDelivered-IsPreorder, schedule_inbound-Respects,
  schedule_outbound-Respects, reset-Respects,
}
use hi_wave_tel.Outbox.Turn.{turn-keeps}
use hi_wave_tel.Outbox.Process.{worker_turn}

pub data Operation : Type 0 where
  schedules_inbound schedules_outbound : ℕ → Operation
  resets_stale : Option ℕ → Operation
  takes_turn : (poll : ℕ) → Operation

unfoldable pub perform : Env → Operation → World → World
perform env (schedules_inbound pk) w = (schedule_inbound_webhook env pk w).1
perform env (schedules_outbound pk) w = (schedule_outbound_webhook env pk w).1
perform env (resets_stale age) w = (reset_stale_processing_jobs env age w).1
perform env (takes_turn poll) w = (worker_turn env poll w).1

unfoldable pub perform_all : Env → List Operation → World → World
perform_all env [] w = w
perform_all env (o ∷ os) w = perform_all env os (perform env o w)

perform-KeepsDelivered :
    (env : Env) (o : Operation) (w : World) → KeepsDelivered w (perform env o w)
unfolding perform
perform-KeepsDelivered env (schedules_inbound pk) w = (schedule_inbound-Respects env pk).at w
perform-KeepsDelivered env (schedules_outbound pk) w = (schedule_outbound-Respects env pk).at w
perform-KeepsDelivered env (resets_stale age) w = (reset-Respects env age).at w
perform-KeepsDelivered env (takes_turn poll) w = turn-keeps env poll w

all-KeepsDelivered :
    (env : Env) (os : List Operation) (w : World) → KeepsDelivered w (perform_all env os w)
unfolding perform_all
all-KeepsDelivered env [] w = KeepsDelivered-IsPreorder.refl w
all-KeepsDelivered env (o ∷ os) w =
    KeepsDelivered-IsPreorder.trans w (perform env o w) _ (perform-KeepsDelivered env o w)
      (all-KeepsDelivered env os (perform env o w))

-- Over any history of scheduling, resets of stale jobs and turns of a worker, under any errors of the
-- database, the keys of the job table stay distinct and below the next one to be given, and a job
-- that is delivered keeps its row as it is.
pub history-keeps_delivered :
    (env : Env) (os : List Operation) (w : World)
    → IsTable w.next_pk w.jobs
    → IsTable (perform_all env os w).next_pk (perform_all env os w).jobs
      × DeliveredStays w.jobs (perform_all env os w).jobs
history-keeps_delivered env os w t = (all-KeepsDelivered env os w).at t

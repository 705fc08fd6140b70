-- ===== src/Inbound/Recovery.antt =====
-- apps/sms/dead_letter_queue.py: process_batch, which tries the rows that are due once more, and the
-- figures that it gives.
pub mod Retried
use hi_wave_tel.Prelude.{ℕ, suc, List, [], ◌∷◌}
use hi_wave_tel.Runtime.Exn.{message}
use hi_wave_tel.Runtime.Exec.{pure, try_else, ◌>>=◌, ◌>>◌}
use hi_wave_tel.Models.{DlqRow}
use hi_wave_tel.World.{Env, Act, increment, dlq_recovered}
use hi_wave_tel.Dlq.{dequeue_batch, mark_recovered, mark_retry_failed}
use hi_wave_tel.Inbound.Persist.{persist_inbound_sms}

pub record BatchStats : Type 0 where
  pub processed : ℕ
  pub recovered : ℕ
  pub failed : ℕ

module _ (env : Env) where
  -- the body of the loop; what the `try` counts is kept only if nothing in it raises
  unfoldable pub retry_row : DlqRow → BatchStats → Act BatchStats
  retry_row r stats =
      let tried : BatchStats = record stats { processed = suc stats.processed } in
      try_else
        (persist_inbound_sms env r.sms_path r.modem_index
          >> mark_recovered env r.id
          >> increment dlq_recovered
          >> pure (record tried { recovered = suc stats.recovered }))
        (λ exc.
          mark_retry_failed env r.id (message exc)
          >> pure (record tried { failed = suc stats.failed }))
        pure

  unfoldable pub retry_rows : List DlqRow → BatchStats → Act BatchStats
  retry_rows [] stats = pure stats
  retry_rows (r ∷ rs) stats = do counts ← retry_row r stats; retry_rows rs counts

  unfoldable pub process_batch : ℕ → Act BatchStats
  process_batch limit = do
    rows ← dequeue_batch env limit
    retry_rows rows (record { processed = 0; recovered = 0; failed = 0 })

-- ===== src/Metrics.antt =====
-- apps/sms/metrics.py: SmsMetricsCollector. The counters are the list of the increments since the last
-- reset.
use hi_wave_tel.Prelude.{ℕ, suc, List, [], ◌∷◌, if◌then◌else◌, ◌==◌}
use hi_wave_tel.Runtime.Exec.{pure, gets, modify, ◌>>=◌}
use hi_wave_tel.World.{
  Env, Act, Metric, dbus_signals_received, enqueue_success, enqueue_failed_queue_full,
  persist_success, persist_failed, dlq_enqueued, dlq_recovered, mmcli_show_retries,
  empty_text_persisted, multipart_detected, periodic_recovery_runs, inbound_whitelist_rejected,
}
use hi_wave_tel.Dlq.{dlq_pending_count}

-- the place of a counter in the dictionary
abbrev place : Metric → ℕ
place dbus_signals_received = 0
place enqueue_success = 1
place enqueue_failed_queue_full = 2
place persist_success = 3
place persist_failed = 4
place dlq_enqueued = 5
place dlq_recovered = 6
place mmcli_show_retries = 7
place empty_text_persisted = 8
place multipart_detected = 9
place periodic_recovery_runs = 10
place inbound_whitelist_rejected = 11

-- self.counters[metric]
unfoldable pub counter : Metric → List Metric → ℕ
counter m [] = 0
counter m (k ∷ ks) = let n = counter m ks in if place k == place m then suc n else n

pub record Stats : Type 0 where
  pub counters : Metric → ℕ
  pub last_reset : ℕ
  pub dlq_pending : ℕ

unfoldable pub get_stats : Env → Act Stats
unfolding counter
get_stats env = do
  counted ← gets (λ w. w.counted)
  last_reset ← gets (λ w. w.last_reset)
  pending ← if env.dlq_enabled then dlq_pending_count env else pure 0
  pure
      (record { counters = λ m. counter m counted; last_reset = last_reset; dlq_pending = pending })

unfoldable pub reset_hourly_counters : Act (Unit {0})
reset_hourly_counters = modify (λ w. record w { counted = []; last_reset = w.clock })

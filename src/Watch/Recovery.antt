-- ===== src/Watch/Recovery.antt =====
-- apps/sms/dbus_watch.py: _periodic_recovery_loop, one round of it, and apps/sms/modem_ready.py:
-- ensure_modem_ready_for_sms.
use hi_wave_tel.Prelude.{ℕ, Bool, true, some, if◌then◌else◌, ◌==◌, []}
use hi_wave_tel.Runtime.Exec.{pure, modify, try_else, ◌>>=◌, ◌>>◌}
use hi_wave_tel.World.{Env, Act, sleep, increment, periodic_recovery_runs}
use hi_wave_tel.ModemReady.{ReadySettings, get_modem_state, is_ready_state}
use hi_wave_tel.ModemReady.Recover.{wait_modem_ready_for_sms}
use hi_wave_tel.Readiness.{refresh_readiness_safe}
use hi_wave_tel.Inbound.Stale.{refresh_stale_inbound_sms_rows}
use hi_wave_tel.Watch.{sync_modem_sms_snapshot}

module _ (env : Env) (ready : ReadySettings) where
  unfoldable pub ensure_modem_ready_for_sms : ℕ → Bool → Act Bool
  ensure_modem_ready_for_sms configured_index require_messaging =
      wait_modem_ready_for_sms env ready configured_index ready.modem_enable_wait require_messaging

  -- _recover_modem_if_needed
  unfoldable pub recover_modem_if_needed : ℕ → Act (Unit {0})
  unfolding is_ready_state
  recover_modem_if_needed modem_index = do
    state ← get_modem_state env modem_index
    if is_ready_state state
        then pure tt
        else (ensure_modem_ready_for_sms modem_index true >> pure tt)

  unfoldable pub recovery_steps : ℕ → Act (Unit {0})
  recovery_steps modem_index = do
    count ← sync_modem_sms_snapshot env modem_index
    stale_stats ← refresh_stale_inbound_sms_rows env (some modem_index)
    refresh_readiness_safe env (some modem_index) []
    recover_modem_if_needed modem_index
    increment periodic_recovery_runs

  -- one round; with an interval of 0 or less there is none
  unfoldable pub recovery_round : ℕ → Act (Unit {0})
  recovery_round modem_index =
      if env.recovery_interval == 0
      then pure tt
      else (modify (sleep env.recovery_interval)
          >> try_else (recovery_steps modem_index) (λ exc. pure tt) pure)

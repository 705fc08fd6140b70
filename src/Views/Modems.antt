-- ===== src/Views/Modems.antt =====
-- apps/sms/views_modems.py, and the availability of apps/sms/views_system.py.
use hi_wave_tel.Prelude.{ℕ, Bool, Option, none, some, List, [], ◌∷◌, if◌then◌else◌, is_some}
use hi_wave_tel.Runtime.Exec.{ok, err, pure, ◌>>=◌, ◌>>◌}
use hi_wave_tel.Models.{ModemDevice, device_keyed, row, update_row}
use hi_wave_tel.World.{Env, Act, statement, query, no_rows_affected}
use hi_wave_tel.ModemRegistry.{by_index, modem_device_or_none, sync_detected_modems}
use hi_wave_tel.ModemDetail.{ModemSummary, ModemReport, build_modem_summary, get_modem_detail}
use hi_wave_tel.Readiness.{health_client}
use hi_wave_tel.Readiness.Availability.{ModemAvailability, check_modem_availability}
use hi_wave_tel.Views.{Response, refused, answered}

module _ (env : Env) where
  unfoldable pub summaries : List ModemDevice → Act (List ModemSummary)
  summaries [] = pure []
  summaries (d ∷ ds) = do s ← build_modem_summary env d; ss ← summaries ds; pure (s ∷ ss)

  unfoldable pub list_modems : Act (Response (List ModemSummary))
  unfolding by_index
  list_modems = do
    devices ← query env (λ w. by_index w.devices)
    payload ← summaries devices
    pure (answered 200 payload)

  unfoldable pub sync_modems : Act (Response (List ModemSummary))
  sync_modems = do
    devices ← sync_detected_modems env
    payload ← summaries devices
    pure (answered 200 payload)

  abbrev pub detail_or_404 : Option ModemReport → Response ModemReport
  detail_or_404 none = refused 404
  detail_or_404 (some r) = answered 200 r

  unfoldable pub get_detail : ℕ → Act (Response ModemReport)
  get_detail modem_index = get_modem_detail env modem_index >>= λ o. pure (detail_or_404 o)

  -- save(update_fields=['enabled'])
  unfoldable pub save_enabled : ℕ → Bool → Act (Unit {0})
  unfolding row update_row
  save_enabled modem_index enabled = statement env λ w.
      if is_some (row modem_index w.devices)
      then (
        ok tt,
        record w {
          devices =
              update_row modem_index (λ (d : ModemDevice). record d { enabled = enabled })
                w.devices;
        },
      )
      else (err no_rows_affected, w)

  -- a serializer of `None`, whose fields are left out, is no error
  abbrev pub detail_or_empty : Option ModemReport → Response ModemReport
  detail_or_empty o = record { status = 200; body = o }

  -- the body is the value of `enabled`, or not valid
  abbrev pub enabled_or_400 : ℕ → Option Bool → Option ModemDevice → Act (Response ModemReport)
  enabled_or_400 modem_index request none = pure (refused 404)
  enabled_or_400 modem_index none (some d) = pure (refused 400)
  enabled_or_400 modem_index (some enabled) (some d) =
      save_enabled modem_index enabled
      >> (get_modem_detail env modem_index >>= λ o. pure (detail_or_empty o))

  unfoldable pub put_detail : ℕ → Option Bool → Act (Response ModemReport)
  put_detail modem_index request =
      modem_device_or_none env modem_index >>= enabled_or_400 modem_index request

  unfoldable pub get_availability : ℕ → Act (Response ModemAvailability)
  get_availability modem_index =
      check_modem_availability env (health_client env) modem_index >>= λ result.
      pure (record { status = if result.available then 200 else 503; body = some result })

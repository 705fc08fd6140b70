-- ===== src/Outbound.antt =====
-- apps/sms/services.py, the outbound half: dispatch_outbound_mmcli creates an SMS object on the modem,
-- sends it and keeps the row of the message in step. The lock of mmcli is left out.
pub mod Outcome
use hi_wave_tel.Prelude.{
  ℕ, Text, codes, Bool, true, false, not, Option, none, some, List, [], ◌∷◌, ◌++◌, if◌then◌else◌,
  ◌==◌, is_empty, is_some, strip, first_line, take,
}
use hi_wave_tel.Runtime.Exn.{Exn, MmcliError, mmcli}
use hi_wave_tel.Runtime.Exec.{Result, ok, err, pure, raise, try_else, ◌>>=◌, ◌>>◌}
use hi_wave_tel.Models.{OutboundSms, SmsState, outbound_keyed, row, update_row}
use hi_wave_tel.World.{Env, World, Act, statement, no_rows_affected}
use hi_wave_tel.Mmcli.{create_sms, send_sms, ensure_modem_index}
use hi_wave_tel.ModemReady.{ReadySettings}
use hi_wave_tel.ModemReady.Recover.{resolve_modem_mmcli_index, prepare_modem_for_outbound_sms}
use hi_wave_tel.Readiness.{issue, refresh_readiness_safe}
use hi_wave_tel.Outbox.{schedule_outbound_webhook}

-- (s.strip().split('\n')[0] or '').strip()
abbrev headline : Text → Text
headline s = strip (first_line (strip s))

-- ': '.join(p for p in (base, first_line) if p)
abbrev joined : Text → Text → Text
joined base detail =
    if is_empty base then detail else if is_empty detail then base else base ++ codes ": " ++ detail

unfoldable pub format_public_mmcli_error : MmcliError → Text
unfolding strip first_line
format_public_mmcli_error exc =
    if is_empty exc.stderr
    then take 200 (headline exc.message)
    else take 200 (joined (headline exc.message) (headline exc.stderr))

-- What a save with update_fields writes into the row.
abbrev pub set_modem : ℕ → OutboundSms → OutboundSms
set_modem ix r = record r { modem_index = ix }

abbrev pub set_sending : Text → OutboundSms → OutboundSms
set_sending path r = record r { mm_path = path; state = SmsState.sending }

abbrev pub set_sent : OutboundSms → OutboundSms
set_sent r = record r { state = SmsState.sent }

abbrev pub set_failed : Text → OutboundSms → OutboundSms
set_failed reason r = record r { state = SmsState.failed; error_message = reason }

abbrev pub or_failed : Text → Text
or_failed s = if is_empty s then codes "Outbound SMS dispatch failed." else s

module _ (env : Env) where
  -- the change of the object, and its save
  unfoldable pub save_outbound : (OutboundSms → OutboundSms) → OutboundSms → Act OutboundSms
  save_outbound change obj = statement env λ w.
      if is_some (row obj.pk w.outbound)
      then (ok (change obj), record w { outbound = update_row obj.pk change w.outbound })
      else (err no_rows_affected, w)

  -- `except MmcliError`, with the object as it is then
  unfoldable pub dispatch_failed : OutboundSms → Exn → Act OutboundSms
  unfolding format_public_mmcli_error
  dispatch_failed obj (mmcli e) = do
    failed ← save_outbound (set_failed (format_public_mmcli_error e)) obj
    refresh_readiness_safe env (some failed.modem_index)
        (issue (codes "outbound_failed_recently") (or_failed failed.error_message) ∷ [])
    pure failed
  dispatch_failed obj x = raise x

  unfoldable pub use_modem : OutboundSms → ℕ → Act OutboundSms
  use_modem obj ix = if ix == obj.modem_index then pure obj else save_outbound (set_modem ix) obj

  -- on_commit outside of a transaction runs at once, and swallows what scheduling raises.
  unfoldable pub queue_webhook : OutboundSms → Act OutboundSms
  queue_webhook obj =
      try_else (schedule_outbound_webhook env obj.pk) (λ x. pure obj) (λ job. pure obj)

  unfoldable pub mark_sent : OutboundSms → Act OutboundSms
  mark_sent obj = save_outbound set_sent obj >>= queue_webhook

  unfoldable pub send_created : OutboundSms → Text → Act OutboundSms
  send_created obj sms_path = do
    sending ← save_outbound (set_sending sms_path) obj
    try_else (send_sms env sms_path) (dispatch_failed sending) (λ u. mark_sent sending)

  unfoldable pub create_and_send : OutboundSms → Act OutboundSms
  create_and_send obj =
      try_else (create_sms env obj.modem_index obj.to_number obj.text) (dispatch_failed obj)
        (send_created obj)

  module _ (ready : ReadySettings) where
    -- the modem is made ready before the message goes to it
    unfoldable pub prepare_and_send : ℕ → OutboundSms → Act OutboundSms
    prepare_and_send ix obj =
        try_else (prepare_modem_for_outbound_sms env ready ix) (dispatch_failed obj)
          (λ u. create_and_send obj)

    -- with a client of the caller, the given modem must be there; without, a working one is found
    unfoldable pub dispatch_outbound_mmcli : (client_given : Bool) → OutboundSms → Act OutboundSms
    dispatch_outbound_mmcli true obj =
        try_else (ensure_modem_index env obj.modem_index) (dispatch_failed obj)
          (λ u. create_and_send obj)
    dispatch_outbound_mmcli false obj =
        try_else (resolve_modem_mmcli_index env obj.modem_index) (dispatch_failed obj)
          (λ ix. use_modem obj ix >>= prepare_and_send ix)

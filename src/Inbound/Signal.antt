-- ===== src/Inbound/Signal.antt =====
-- apps/sms/apps.py: schedule_inbound_webhook_on_save, the handler that runs after each save of a
-- received message, and the job that it leaves for the commit.
use hi_wave_tel.Prelude.{
  Bool, true, false, ◌&&◌, ◌||◌, not, Option, none, some, List, if◌then◌else◌, any,
}
use hi_wave_tel.Runtime.Exec.{pure, try_else, ◌>>=◌}
use hi_wave_tel.Models.{InboundSms}
use hi_wave_tel.World.{Env, Act}
use hi_wave_tel.Inbound.{Field}
use hi_wave_tel.InboundFilters.{inbound_ready_for_webhook, inbound_should_skip_webhook}
use hi_wave_tel.Outbox.{schedule_inbound_webhook}

-- {'text', 'from_number', 'mm_state'}
abbrev is_watched : Field → Bool
is_watched Field.text = true
is_watched Field.from_number = true
is_watched Field.mm_state = true
is_watched _ = false

-- `none` is a save without update_fields
abbrev pub watches : Option (List Field) → Bool
watches none = true
watches (some fields) = any is_watched fields

module _ (env : Env) where
  -- Is enqueue_to_outbox left for the commit?
  unfoldable pub webhook_on_save : Bool → Option (List Field) → InboundSms → Act Bool
  unfolding inbound_ready_for_webhook
  webhook_on_save created update_fields inst =
      if not (inbound_ready_for_webhook inst)
      then pure false
      else inbound_should_skip_webhook env inst >>= λ skip.
          pure (not skip && (created || watches update_fields))

  -- enqueue_to_outbox: every exception is logged and dropped
  unfoldable pub enqueue_to_outbox : InboundSms → Act (Unit {0})
  enqueue_to_outbox inst =
      try_else (schedule_inbound_webhook env inst.pk) (λ exc. pure tt) (λ job. pure tt)

  unfoldable pub on_commit : Bool → InboundSms → Act (Unit {0})
  on_commit wants inst = if wants then enqueue_to_outbox inst else pure tt

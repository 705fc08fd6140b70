-- ===== src/Views/Send.antt =====
-- apps/sms/views.py: SendSmsView, with OutboundSmsCreateSerializer of apps/sms/serializers.py and
-- apps/sms/validators.py.
pub mod Answers
use hi_wave_tel.Prelude.{
  ℕ, suc, Text, codes, Bool, true, false, ◌&&◌, ◌||◌, not, Option, none, some, List, [], ◌∷◌, ◌++◌,
  ◌==◌, if◌then◌else◌, filter, any, is_empty, leb, length, ltb, or_else, strip,
}
use hi_wave_tel.Runtime.Exec.{ok, pure, ◌>>=◌}
use hi_wave_tel.Models.{OutboundSms, SmsState}
use hi_wave_tel.World.{Env, World, Act, statement, end}
use hi_wave_tel.Scan.{decimal}
use hi_wave_tel.ModemReady.{ReadySettings}
use hi_wave_tel.Outbound.{dispatch_outbound_mmcli}
use hi_wave_tel.OutboundQueue.{Shared}
use hi_wave_tel.OutboundQueue.Worker.{enqueue_outbound_job}
use hi_wave_tel.Views.{Response, refused, answered}

-- A body with text fields; an index that is left out has a default. The index is one that an INTEGER of
-- SQLite holds, below 2 ^ 63.
pub record SendRequest : Type 0 where
  pub modem_index : Option ℕ
  pub to : Text
  pub text : Text

-- ProhibitNullCharactersValidator and ProhibitSurrogateCharactersValidator, which every CharField has
abbrev pub is_prohibited : ℕ → Bool
is_prohibited c = (c == 0) || (leb 55_296 c && leb c 57_343)

abbrev pub new_outbound : ℕ → ℕ → ℕ → SendRequest → OutboundSms
new_outbound pk now default_index r = record {
  pk = pk;
  mm_path = [];
  modem_index = or_else r.modem_index default_index;
  to_number = strip r.to;
  text = r.text;
  state = SmsState.created;
  error_message = [];
  created_at = now;
  updated_at = now;
}

module _ (env : Env) where
  -- Is there no ValidationError?
  unfoldable pub sms_destination_validator : Text → Bool
  unfolding strip
  sms_destination_validator value =
      let stripped = strip value in
      let digits = length (filter env.isdigit stripped) in
      not (is_empty stripped) && not (ltb digits 8) && not (ltb 15 digits)

  -- is_valid: a CharField strips its text, unless trim_whitespace is off, and is not blank
  unfoldable pub is_valid_send : SendRequest → Bool
  unfolding sms_destination_validator strip
  is_valid_send r =
      let to = strip r.to in
      not (is_empty to)
      && leb (length to) 64
      && sms_destination_validator to
      && not (is_empty r.text)
      && not (any is_prohibited to)
      && not (any is_prohibited r.text)

  -- OutboundSms.objects.create
  unfoldable pub create_outbound : SendRequest → Act OutboundSms
  create_outbound r = statement env λ w.
      let obj = new_outbound w.next_pk w.clock env.mmcli_index r in
      (ok obj, record w { outbound = w.outbound ++ obj ∷ []; next_pk = suc w.next_pk })

  module _ (ready : ReadySettings) where
    -- with a queue the answer is the message as it was created
    abbrev pub submit_by : Bool → Option Shared → OutboundSms → Act (OutboundSms × Option Shared)
    submit_by true processor obj =
        enqueue_outbound_job env ready processor (codes "outbound") (decimal obj.pk)
          (codes "normal") end
        >>= λ r. pure (obj, r.1)
    submit_by false processor obj =
        dispatch_outbound_mmcli env ready false obj >>= λ o. pure (o, processor)

    unfoldable pub submit : Option Shared → OutboundSms → Act (OutboundSms × Option Shared)
    submit = submit_by env.outbound_async_enabled

    unfoldable pub post : Option Shared → SendRequest → Act (Response OutboundSms × Option Shared)
    unfolding is_valid_send
    post processor r =
        if not (is_valid_send r)
        then pure (refused 400, processor)
        else (create_outbound r >>= λ obj.
            submit processor obj >>= λ s. pure (answered 202 s.0, s.1))

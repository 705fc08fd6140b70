-- ===== src/InboundFilters.antt =====
-- apps/sms/inbound_filters.py: which received messages are announced. A message that the program
-- itself sent and the modem lists is an echo: its webhook goes out from the sending path.
pub mod Echo
use hi_wave_tel.Prelude.{
  ℕ, ◌-◌, Text, codes, Bool, true, false, ◌&&◌, ◌||◌, not, Option, none, some, List, [], ◌∷◌, ◌==◌,
  if◌then◌else◌, leb, ltb, is_empty, is_some, map, strip, lower, text_eq, text_in,
}
use hi_wave_tel.Runtime.Exec.{pure, ◌>>=◌}
use hi_wave_tel.Models.{InboundSms, OutboundSms, SmsState}
use hi_wave_tel.World.{Env, World, Act, query}

-- _ECHO_WINDOW_MINUTES, in microseconds
abbrev pub echo_window : ℕ
echo_window = 900_000_000

-- _OUTBOUND_MM_STATES
abbrev pub outbound_mm_states : List Text
outbound_mm_states = map codes ("sent" ∷ "delivered" ∷ "sending" ∷ [])

unfoldable pub inbound_ready_for_webhook : InboundSms → Bool
unfolding strip
inbound_ready_for_webhook r = not (is_empty (strip r.text)) || not (is_empty (strip r.from_number))

abbrev pub is_failed_sms : SmsState → Bool
is_failed_sms SmsState.failed = true
is_failed_sms _ = false

abbrev pub is_sent_sms : SmsState → Bool
is_sent_sms SmsState.sent = true
is_sent_sms _ = false

abbrev pub newer_of : Bool → OutboundSms → Option OutboundSms → Option OutboundSms
newer_of false r o = o
newer_of true r none = some r
newer_of true r (some q) = if ltb q.pk r.pk then some r else some q

-- filter(p).order_by('-pk').first()
unfoldable pub newest : (OutboundSms → Bool) → List OutboundSms → Option OutboundSms
newest p [] = none
newest p (r ∷ rs) = newer_of (p r) r (newest p rs)

-- filter(mm_path=…).exclude(state=FAILED)
abbrev pub same_path : Text → OutboundSms → Bool
same_path mm_path r = text_eq r.mm_path mm_path && not (is_failed_sms r.state)

-- base_qs
abbrev pub same_body : ℕ → Text → ℕ → OutboundSms → Bool
same_body modem_index body cutoff r =
    (r.modem_index == modem_index)
    && text_eq r.text body
    && leb cutoff r.created_at
    && not (is_failed_sms r.state)

-- base_qs.filter(to_number=sender, state=SENT)
abbrev pub sent_to : ℕ → Text → ℕ → Text → OutboundSms → Bool
sent_to modem_index body cutoff sender r =
    same_body modem_index body cutoff r && text_eq r.to_number sender && is_sent_sms r.state

module _ (env : Env) where
  abbrev newest_in : (World → OutboundSms → Bool) → Act (Option OutboundSms)
  newest_in p = query env (λ w. newest (p w) w.outbound)

  -- the look-up by the text, where no row has the path
  unfoldable pub find_by_body : InboundSms → Act (Option OutboundSms)
  unfolding strip lower text_in text_eq newest
  find_by_body inbound =
      let body = strip inbound.text in
      let sender = strip inbound.from_number in
      if is_empty body
      then pure none
      else if text_in (lower (strip inbound.mm_state)) outbound_mm_states
      then newest_in (λ w. same_body inbound.modem_index body (w.clock - echo_window))
      else if is_empty sender
      then pure none
      else newest_in (λ w. sent_to inbound.modem_index body (w.clock - echo_window) sender)

  abbrev pub or_by_body : InboundSms → Option OutboundSms → Act (Option OutboundSms)
  or_by_body inbound (some r) = pure (some r)
  or_by_body inbound none = find_by_body inbound

  unfoldable pub find_matching_outbound : InboundSms → Act (Option OutboundSms)
  unfolding strip text_eq newest
  find_matching_outbound inbound = do
    let mm_path = strip inbound.mm_path
    by_path ← if is_empty mm_path then pure none else newest_in (λ w. same_path mm_path)
    or_by_body inbound by_path

  unfoldable pub inbound_should_skip_webhook : InboundSms → Act Bool
  inbound_should_skip_webhook inbound = do
    found ← find_matching_outbound inbound
    pure (is_some found)

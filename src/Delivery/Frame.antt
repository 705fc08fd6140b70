-- ===== src/Delivery/Frame.antt =====
-- Delivering a payload changes no table.
use hi_wave_tel.Prelude.{
  ℕ, zero, suc, refl, Text, List, [], ◌∷◌, ltb, ◌-◌, Bool-cases, Option-cases, inl, inr,
}
use hi_wave_tel.Runtime.Respects.{
  Respects, respects_rules, Respects-bind, Respects-if, Respects-then, Respects-pure,
}
use hi_wave_tel.Runtime.Exec.{modify, pure}
use hi_wave_tel.Models.{InboundSms, OutboundSms}
use hi_wave_tel.World.{Env, Payload}
use hi_wave_tel.World.Frames.{
  SameTables, SameTables-refl, SameTables-IsPreorder, sleep-SameTables, query-SameTables,
}
use hi_wave_tel.Delivery.{
  post_json, pause_before_retry, post_attempts, post_to_urls, deliver_payload_to_urls,
  get_active_webhook_urls, deliver_inbound_webhooks, deliver_outbound_webhooks,
}

module _ (env : Env) where
  ruleset frame_rules = (respects_rules, SameTables-IsPreorder, query-SameTables)

  post_json-SameTables :
      (url : Text) (payload : Payload) → Respects SameTables (post_json env url payload)
  unfolding post_json
  post_json-SameTables url payload = record {
    at = λ w. elim (Option-cases (env.request_error url payload)) [
      | inl e ↦
          rw (post_json, e)
            (record {
              inbound = refl;
              outbound = refl;
              jobs = refl;
              webhooks = refl;
              devices = refl;
              dlq = refl;
              next_pk = refl;
            })
      | inr (m, e) ↦ rw (post_json, e) (SameTables-refl w)
    ];
  }

  pause-SameTables : (k : ℕ) → Respects SameTables (pause_before_retry env k)
  unfolding pause_before_retry modify pure
  pause-SameTables k = elim (Bool-cases (ltb k (env.webhook_retry_max - 1))) [
    | inl e ↦ rw e (record { at = λ w. sleep-SameTables _ w })
    | inr e ↦ rw e (record { at = λ w. SameTables-refl w })
  ]

  post_attempts-SameTables :
      (url : Text) (payload : Payload) (left k : ℕ)
      → Respects SameTables (post_attempts env url payload left k)
  unfolding post_attempts
  post_attempts-SameTables url payload zero k = search frame_rules
  post_attempts-SameTables url payload (suc left) k =
      let rest = post_attempts-SameTables url payload left (suc k) in
      Respects-bind SameTables-IsPreorder _ _ (post_json-SameTables url payload) (λ b.
        Respects-if SameTables-IsPreorder b _ _ (Respects-pure SameTables-IsPreorder _)
          (Respects-then SameTables-IsPreorder _ _ (pause-SameTables k) rest))

  post_to_urls-SameTables :
      (urls : List Text) (payload : Payload) → Respects SameTables (post_to_urls env urls payload)
  unfolding post_to_urls
  post_to_urls-SameTables [] payload = search frame_rules
  post_to_urls-SameTables (url ∷ urls) payload =
      let rest = post_to_urls-SameTables urls payload in
      Respects-bind SameTables-IsPreorder _ _ (post_attempts-SameTables _ _ _ _)
        (λ b. search (frame_rules, rest))

  deliver_payload-SameTables :
      (payload : Payload) (modem_index : ℕ)
      → Respects SameTables (deliver_payload_to_urls env payload modem_index)
  unfolding deliver_payload_to_urls get_active_webhook_urls
  deliver_payload-SameTables payload modem_index = search (frame_rules, post_to_urls-SameTables)

  pub deliver_inbound-SameTables :
      (sms : InboundSms) → Respects SameTables (deliver_inbound_webhooks env sms)
  unfolding deliver_inbound_webhooks
  deliver_inbound-SameTables sms = deliver_payload-SameTables _ _

  pub deliver_outbound-SameTables :
      (sms : OutboundSms) → Respects SameTables (deliver_outbound_webhooks env sms)
  unfolding deliver_outbound_webhooks
  deliver_outbound-SameTables sms = deliver_payload-SameTables _ _

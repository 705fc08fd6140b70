-- ===== src/Delivery.antt =====
-- apps/sms/webhook_delivery.py: the POST of a payload to the webhook URLs of a modem. The HTTP
-- client (urllib, ssl, json) is the parameters `post` and `request_error` of the environment; `settings` are read once.
pub mod Url
pub mod Retries
pub mod Registered
pub mod Frame
use hi_wave_tel.Prelude.{
  ℕ, zero, suc, ◌+◌, ◌-◌, ◌*◌, ◌/◌, ◌%◌, ◌^◌, min, Text, codes, Bool, true, false, ◌&&◌, none, some,
  List, [], ◌∷◌, ◌++◌, if◌then◌else◌, leb, ltb, ◌==◌, strip, text_in, is_empty, filter, not,
  text_eq,
}
use hi_wave_tel.Runtime.Exn.{value_error}
use hi_wave_tel.Runtime.Exec.{Exec, Result, ok, err, pure, modify, ◌>>=◌, ◌>>◌}
use hi_wave_tel.Models.{InboundSms, OutboundSms, InboundWebhook}
use hi_wave_tel.World.{
  Env, World, Act, Payload, Reply, response, http_error, failure, sleep, query, statement,
}
use Url.{normalize_webhook_url}

-- the loop over the rows, with the set `seen`
unfoldable pub collect_urls : List InboundWebhook → List Text → List Text
collect_urls [] seen = []
collect_urls (row ∷ rows) seen =
    let u = normalize_webhook_url (strip row.url) in
    let again = collect_urls rows seen in
    let fresh = u ∷ collect_urls rows (u ∷ seen) in
    if not (is_empty u) && not (text_in u seen) then fresh else again

unfoldable pub get_active_webhook_urls : Env → ℕ → Act (List Text)
get_active_webhook_urls env modem_index =
    query env
      (λ w. collect_urls (filter (λ r. r.enabled && (r.modem_index == modem_index)) w.webhooks) [])

unfoldable pub build_inbound_webhook_payload : InboundSms → Payload
build_inbound_webhook_payload inbound = record {
  id = inbound.pk;
  sender = inbound.from_number;
  body = inbound.text;
  modem_index = inbound.modem_index;
  received_at = inbound.created_at;
  mm_state = inbound.mm_state;
}

unfoldable pub build_outbound_webhook_payload : OutboundSms → Payload
build_outbound_webhook_payload outbound = record {
  id = outbound.pk;
  sender = codes "me";
  body = outbound.text;
  modem_index = outbound.modem_index;
  received_at = outbound.updated_at;
  mm_state = codes "sended";
}

-- `(True, '')` is `true`; the error text of a failed POST only goes to the log.
unfoldable pub is_delivered : Reply → Bool
is_delivered (response code) = leb 200 code && ltb code 300
is_delivered (http_error code) = false
is_delivered (failure text) = false

module _ (env : Env) where
  -- building the body and the request stands outside of the `try`
  unfoldable pub post_json : Text → Payload → Act Bool
  unfolding is_delivered
  post_json url payload w = elim (env.request_error url payload) [
    | some m ↦ (err (value_error m), w)
    | none ↦ (
      ok (is_delivered (env.post w.post_calls url payload)),
      record w { post_calls = suc w.post_calls; posts = (url, payload) ∷ w.posts },
    )
  ]

  -- if attempt < retry_max - 1: time.sleep(min(retry_base * 2**attempt, 60.0))
  unfoldable pub pause_before_retry : ℕ → Act (Unit {0})
  unfolding sleep
  pause_before_retry attempt =
      if ltb attempt (env.webhook_retry_max - 1)
      then modify (sleep (min (env.webhook_retry_base * 2 ^ attempt) 60_000_000))
      else pure tt

  -- for attempt in range(retry_max), with `left` rounds to go
  unfoldable pub post_attempts : Text → Payload → (left attempt : ℕ) → Act Bool
  post_attempts url payload zero attempt = pure false
  post_attempts url payload (suc left) attempt = do
    delivered ← post_json url payload
    let rest = pause_before_retry attempt >> post_attempts url payload left (suc attempt)
    if delivered then pure true else rest

  -- for url in urls, with `all_ok`
  unfoldable pub post_to_urls : List Text → Payload → Act Bool
  post_to_urls [] payload = pure true
  post_to_urls (url ∷ urls) payload = do
    delivered ← post_attempts url payload env.webhook_retry_max 0
    all_ok ← post_to_urls urls payload
    pure (delivered && all_ok)

  unfoldable pub deliver_payload_to_urls : Payload → ℕ → Act Bool
  deliver_payload_to_urls payload modem_index = do
    urls ← get_active_webhook_urls env modem_index
    if is_empty urls then pure true else post_to_urls urls payload

  unfoldable pub deliver_outbound_webhooks : OutboundSms → Act Bool
  deliver_outbound_webhooks outbound =
      deliver_payload_to_urls (build_outbound_webhook_payload outbound) outbound.modem_index

  unfoldable pub deliver_inbound_webhooks : InboundSms → Act Bool
  deliver_inbound_webhooks inbound =
      deliver_payload_to_urls (build_inbound_webhook_payload inbound) inbound.modem_index

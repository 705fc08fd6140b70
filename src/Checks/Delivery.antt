-- ===== src/Checks/Delivery.antt =====
-- Examples of the laws of webhook delivery and of the retry loop.
use hi_wave_tel.Prelude.{
  ℕ, suc, ◌<◌, ◌≡◌, refl, ◌⊎◌, true, List, [], ◌∷◌, arith, codes, Text, strip, text_in,
}
use hi_wave_tel.Runtime.Exec.{ok}
use hi_wave_tel.Runtime.Retry.{BusyRun, is_settled, with_sqlite_retry, with_sqlite_retry-decides}
use hi_wave_tel.World.{World, Payload, sqlite_nap, statement, query}
use hi_wave_tel.Outbox.{pending_job_count}
use hi_wave_tel.Delivery.{post_to_urls, get_active_webhook_urls, collect_urls}
use hi_wave_tel.Delivery.Url.{normalize_webhook_url, match_site}
use hi_wave_tel.Delivery.Url.Laws.{normalize-normalize}
use hi_wave_tel.Delivery.Retries.{DeliveryOutcome, post_to_urls-outcome}
use hi_wave_tel.Delivery.Registered.{Active, get_active_webhook_urls-Active}
use hi_wave_tel.Checks.{env, world}

abbrev hooks : List Text
hooks = codes "https://example.org/hook" ∷ codes "https://example.org/two" ∷ []

abbrev payload : Payload
payload = record {
  id = 7;
  sender = codes "+351913000387";
  body = codes "hello";
  modem_index = 0;
  received_at = 4;
  mm_state = codes "received";
}

post_to_urls-outcome_example :
    DeliveryOutcome env payload hooks world (post_to_urls env hooks payload world)
post_to_urls-outcome_example = post_to_urls-outcome env payload hooks world

abbrev after_reading : World
after_reading = record world { db_calls = 1 }

read_urls :
    get_active_webhook_urls env 0 world
    ≡ (ok (codes "https://example.org/hook" ∷ []), after_reading)
unfolding get_active_webhook_urls query statement normalize_webhook_url match_site collect_urls
    strip text_in
read_urls = refl

get_active_webhook_urls-Active_example :
    Active 0 world after_reading (codes "https://example.org/hook" ∷ [])
get_active_webhook_urls-Active_example =
    get_active_webhook_urls-Active env 0 world after_reading (codes "https://example.org/hook" ∷ [])
      read_urls

normalize-normalize_example :
    normalize_webhook_url (normalize_webhook_url (codes "https://webhook.site/#!/edit/x"))
    ≡ normalize_webhook_url (codes "https://webhook.site/#!/edit/x")
normalize-normalize_example = normalize-normalize (codes "https://webhook.site/#!/edit/x")

with_sqlite_retry-decides_example :
    (n : ℕ) × (u : World) × BusyRun 3 (sqlite_nap env) (pending_job_count env) 0 n world u
    × (n < 3)
    × ((is_settled (pending_job_count env u).0 ≡ true) ⊎ (suc n ≡ 3))
    × (with_sqlite_retry 3 (sqlite_nap env) (pending_job_count env) world ≡ pending_job_count env u)
with_sqlite_retry-decides_example =
    with_sqlite_retry-decides 3 (sqlite_nap env) (pending_job_count env) (omega arith) world

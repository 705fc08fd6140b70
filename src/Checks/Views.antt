-- ===== src/Checks/Views.antt =====
-- Examples of the answers of the HTTP interface.
use hi_wave_tel.Prelude.{
  ◌≡◌, inr, refl, arith, true, false, Bool, codes, none, some, [], ◌∷◌, text_in, is_digit, strip,
}
use hi_wave_tel.Runtime.Exec.{ok, pure, try_else, ◌>>=◌, ◌>>◌}
use hi_wave_tel.Models.{row, webhook_keyed, outbound_keyed}
use hi_wave_tel.Models.Tables.{IsTable}
use hi_wave_tel.World.{Env, World, end}
use hi_wave_tel.World.Calm.{IsCalm, counted_call}
use hi_wave_tel.Scan.{decimal, find_all, sorted_numbers}
use hi_wave_tel.Mmcli.{list_modem_indices, run, ensure_ok, modem_index_at}
use hi_wave_tel.OutboundQueue.{Shared, job_key, new_job, new_queue}
use hi_wave_tel.ModemRegistry.{assert_modem_enumerated}
use hi_wave_tel.Views.{refused, answered}
use hi_wave_tel.Views.Send.{
  SendRequest, is_valid_send, sms_destination_validator, new_outbound, post,
}
use hi_wave_tel.Views.Send.Answers.{PostOutcome, post-Outcome, with_request, post_when_full}
use hi_wave_tel.Views.Webhooks.{
  WebhookData, WebhookChange, get_webhook, create_webhook, put_webhook, delete_webhook,
}
use hi_wave_tel.Views.Webhooks.Stored.{
  Created, Changed, webhook_guarded, create-get, put-get, delete-get,
}
use hi_wave_tel.Checks.{settings, world, webhook}
use hi_wave_tel.Checks.Gateway.{working, working-IsCalm, ready}

abbrev at_once : Env
at_once = record working { settings = record settings { outbound_async_enabled = false } }

at_once-IsCalm : IsCalm at_once
at_once-IsCalm = record { no_error = λ n. refl; some_tries = omega arith }

abbrev request : SendRequest
request = record { modem_index = none; to = codes " +351 913 000 387"; text = codes "hello" }

post-Outcome_example :
    PostOutcome at_once at_once-IsCalm ready request none world
      (post at_once ready none request world)
post-Outcome_example = post-Outcome at_once at_once-IsCalm ready none request world refl tt

abbrev crowded : Shared
crowded = record (new_queue 1) {
  in_flight = codes "outbound:1" ∷ [];
  seq = 1;
  queued = new_job 1 (codes "outbound") (codes "1") (codes "normal") end ∷ [];
}

request_valid : is_valid_send working request ≡ true
unfolding is_valid_send sms_destination_validator is_digit strip
request_valid = refl

new_key : text_in (codes "outbound:2") crowded.in_flight ≡ false
unfolding text_in
new_key = refl

post_when_full_example : post working ready (some crowded) request world ≡ (
  ok (answered 202 (new_outbound 2 10 0 request), some (record crowded { seq = 2 })),
  with_request working working-IsCalm ready request world,
)
unfolding decimal job_key new_queue
post_when_full_example =
    post_when_full working working-IsCalm ready crowded request world refl request_valid new_key
      refl

abbrev any_data : WebhookData → Bool
any_data d = true

abbrev any_change : WebhookChange → Bool
any_change c = true

abbrev disabled : WebhookChange
disabled = record { name = none; url = none; enabled = some false }

webhook_guarded_example :
    (get_webhook working any_data any_change 1 0 world ≡ (ok (refused 404), counted_call world))
    × (put_webhook working any_data any_change 1 0 disabled world
        ≡ (ok (refused 404), counted_call world))
    × (delete_webhook working any_data any_change 1 0 world
        ≡ (ok (refused 404), counted_call world))
unfolding row
webhook_guarded_example =
    webhook_guarded working working-IsCalm any_data any_change 1 0 disabled world
      (inr (webhook, refl, λ e. absurd (omega (arith, e))))

put-get_example :
    Changed working working-IsCalm any_data any_change 0 0 disabled webhook world
      (put_webhook working any_data any_change 0 0 disabled world)
unfolding row
put-get_example =
    put-get working working-IsCalm any_data any_change 0 0 disabled webhook world refl refl refl

delete-get_example :
    (u : World) × (delete_webhook working any_data any_change 0 0 world ≡ (ok (answered 204 tt), u))
    × ((get_webhook working any_data any_change 0 0 u).0 ≡ ok (refused 404))
unfolding row
delete-get_example = delete-get working working-IsCalm any_data any_change 0 0 webhook world refl

abbrev fields : WebhookData
fields = record { name = codes "n"; url = codes "https://example.org/sms"; enabled = true }

abbrev listed : World
listed = (assert_modem_enumerated working 0 world).1

modem_listed : assert_modem_enumerated working 0 world ≡ (ok tt, listed)
unfolding assert_modem_enumerated ◌>>=◌ try_else list_modem_indices run ◌>>◌ ensure_ok pure
    sorted_numbers find_all modem_index_at
modem_listed = refl

listed-IsTable : IsTable listed.next_pk listed.webhooks
unfolding assert_modem_enumerated ◌>>=◌ try_else list_modem_indices run ◌>>◌ ensure_ok pure
    sorted_numbers find_all modem_index_at row
listed-IsTable = (omega arith, refl, tt)

create-get_example :
    Created working working-IsCalm any_data any_change 0 fields listed
      (create_webhook working any_data any_change 0 fields world)
create-get_example =
    create-get working working-IsCalm any_data any_change 0 fields world listed modem_listed refl
      listed-IsTable

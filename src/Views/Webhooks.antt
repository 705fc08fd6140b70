-- ===== src/Views/Webhooks.antt =====
-- apps/sms/views_webhooks.py, with the webhook serializers of apps/sms/serializers.py.
pub mod Stored
use hi_wave_tel.Prelude.{
  ℕ, suc, Text, codes, Bool, true, false, ◌&&◌, ◌||◌, not, Option, none, some, List, [], ◌∷◌, ◌++◌,
  ◌==◌, if◌then◌else◌, any, is_some, or_else, strip, text_eq, ltb,
}
use hi_wave_tel.Runtime.Exn.{Exn, modem_not_enumerated, raised}
use hi_wave_tel.Runtime.Exec.{ok, err, pure, raise, try_else, ◌>>=◌}
use hi_wave_tel.Models.{InboundWebhook, webhook_keyed, row, update_row, delete_row}
use hi_wave_tel.World.{Env, World, Act, statement, query}
use hi_wave_tel.Delivery.Url.{normalize_webhook_url}
use hi_wave_tel.ModemRegistry.{assert_modem_enumerated}
use hi_wave_tel.Views.{Response, refused, answered}

pub record WebhookData : Type 0 where
  pub name : Text
  pub url : Text
  pub enabled : Bool

-- the fields of an update that are given
pub record WebhookChange : Type 0 where
  pub name : Option Text
  pub url : Option Text
  pub enabled : Option Bool

-- validate_url
unfoldable pub validate_url : Text → Text
unfolding normalize_webhook_url text_eq strip
validate_url value =
    let normalized = normalize_webhook_url value in
    if not (text_eq normalized (strip value)) then normalized else value

abbrev pub on_url : Option Text → Option Text
on_url none = none
on_url (some u) = some (validate_url u)

-- not validated_data
abbrev pub is_empty_change : WebhookChange → Bool
is_empty_change c = not (is_some c.name) && not (is_some c.url) && not (is_some c.enabled)

-- setattr of each field that is given
unfoldable pub with_change : WebhookChange → InboundWebhook → InboundWebhook
unfolding validate_url
with_change c r = record r {
  name = or_else c.name r.name;
  url = or_else (on_url c.url) r.url;
  enabled = or_else c.enabled r.enabled;
}

-- UPDATE of all columns but the key
abbrev pub stored_as : InboundWebhook → InboundWebhook → InboundWebhook
stored_as r q = record r { pk = q.pk }

-- the constraint sms_inboundwebhook_modem_url_uniq: another row has the modem and the URL of `r`
unfoldable pub is_taken : InboundWebhook → List InboundWebhook → Bool
unfolding text_eq
is_taken r rows =
    any
      (λ (q : InboundWebhook).
        not (q.pk == r.pk) && (q.modem_index == r.modem_index) && text_eq q.url r.url)
      rows

-- django.db.IntegrityError, which no view handles
abbrev pub unique_failed : Exn
unique_failed =
    raised
      (codes "UNIQUE constraint failed: sms_inboundwebhook.modem_index, sms_inboundwebhook.url")

-- order_by('modem_index', 'id')
abbrev pub comes_after : InboundWebhook → InboundWebhook → Bool
comes_after a b =
    ltb b.modem_index a.modem_index || ((b.modem_index == a.modem_index) && ltb b.pk a.pk)

unfoldable pub insert_webhook : InboundWebhook → List InboundWebhook → List InboundWebhook
insert_webhook r [] = r ∷ []
insert_webhook r (q ∷ qs) = if comes_after r q then q ∷ insert_webhook r qs else r ∷ q ∷ qs

unfoldable pub by_modem : List InboundWebhook → List InboundWebhook
unfolding insert_webhook
by_modem [] = []
by_modem (r ∷ rs) = insert_webhook r (by_modem rs)

abbrev pub new_webhook : ℕ → ℕ → ℕ → WebhookData → InboundWebhook
new_webhook pk now modem_index d = record {
  pk = pk;
  modem_index = modem_index;
  name = d.name;
  url = validate_url d.url;
  enabled = d.enabled;
  created_at = now;
}

-- a row of that modem, or nothing
abbrev pub owned : ℕ → Option InboundWebhook → Option InboundWebhook
owned modem_index none = none
owned modem_index (some r) = if r.modem_index == modem_index then some r else none

abbrev pub found_or_404 : Option InboundWebhook → Response InboundWebhook
found_or_404 none = refused 404
found_or_404 (some r) = answered 200 r

-- The checks of the fields by Django REST framework are `accepts` and `accepts_change`.
module _ (env : Env) (accepts : WebhookData → Bool) (accepts_change : WebhookChange → Bool) where
  unfoldable pub list_webhooks : Act (Response (List InboundWebhook))
  unfolding by_modem
  list_webhooks = query env (λ w. answered 200 (by_modem w.webhooks))

  unfoldable pub insert_webhook_row : ℕ → WebhookData → Act InboundWebhook
  unfolding is_taken
  insert_webhook_row modem_index d = statement env λ w.
      let obj = new_webhook w.next_pk w.clock modem_index d in
      if is_taken obj w.webhooks
      then (err unique_failed, w)
      else (ok obj, record w { webhooks = w.webhooks ++ obj ∷ []; next_pk = suc w.next_pk })

  abbrev pub not_enumerated : Exn → Act (Response InboundWebhook)
  not_enumerated (modem_not_enumerated m) = pure (refused 404)
  not_enumerated x = raise x

  unfoldable pub create_webhook : ℕ → WebhookData → Act (Response InboundWebhook)
  create_webhook modem_index d =
      try_else (assert_modem_enumerated env modem_index) not_enumerated (λ u.
        if not (accepts d)
        then pure (refused 400)
        else (insert_webhook_row modem_index d >>= λ obj. pure (answered 201 obj)))

  unfoldable pub get_modem_webhook : ℕ → ℕ → Act (Option InboundWebhook)
  unfolding row
  get_modem_webhook modem_index webhook_id =
      query env (λ w. row webhook_id w.webhooks) >>= λ o. pure (owned modem_index o)

  unfoldable pub get_webhook : ℕ → ℕ → Act (Response InboundWebhook)
  get_webhook modem_index webhook_id =
      get_modem_webhook modem_index webhook_id >>= λ o. pure (found_or_404 o)

  -- webhook.save()
  unfoldable pub save_webhook : WebhookChange → InboundWebhook → Act InboundWebhook
  unfolding with_change update_row is_taken
  save_webhook c r = statement env λ w.
      let obj = with_change c r in
      if is_taken obj w.webhooks
      then (err unique_failed, w)
      else (ok obj, record w { webhooks = update_row r.pk (stored_as obj) w.webhooks })

  abbrev pub changed : WebhookChange → Option InboundWebhook → Act (Response InboundWebhook)
  changed c none = pure (refused 404)
  changed c (some r) =
      if not (accepts_change c)
      then pure (refused 400)
      else if is_empty_change c
      then pure (refused 400)
      else (save_webhook c r >>= λ obj. pure (answered 200 obj))

  -- put, and patch
  unfoldable pub put_webhook : ℕ → ℕ → WebhookChange → Act (Response InboundWebhook)
  put_webhook modem_index webhook_id c = get_modem_webhook modem_index webhook_id >>= changed c

  unfoldable pub remove_row : InboundWebhook → Act (Unit {0})
  unfolding delete_row
  remove_row r = statement env λ w. (ok tt, record w { webhooks = delete_row r.pk w.webhooks })

  abbrev pub removed : Option InboundWebhook → Act (Response (Unit {0}))
  removed none = pure (refused 404)
  removed (some r) = remove_row r >>= λ u. pure (answered 204 u)

  unfoldable pub delete_webhook : ℕ → ℕ → Act (Response (Unit {0}))
  delete_webhook modem_index webhook_id = get_modem_webhook modem_index webhook_id >>= removed

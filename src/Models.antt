-- ===== src/Models.antt =====
-- The rows of apps/sms/models.py and of the dead-letter table, and the functions that read and
-- write a table by primary key. A table is the list of its rows in the order of insertion.
pub mod Tables
use hi_wave_tel.Prelude.{
  ℕ, Text, Bool, Option, none, some, List, [], ◌∷◌, ◌==◌, if◌then◌else◌, filter, not,
}

pub record InboundSms : Type 0 where
  pub pk : ℕ
  pub mm_path : Text
  pub modem_index : ℕ
  pub from_number : Text
  pub text : Text
  pub mm_state : Text
  pub smsc : Text
  pub modem_timestamp_raw : Text
  pub created_at : ℕ

-- OutboundSms.State
pub data SmsState : Type 0 where
  created sending sent failed : SmsState

pub record OutboundSms : Type 0 where
  pub pk : ℕ
  pub mm_path : Text
  pub modem_index : ℕ
  pub to_number : Text
  pub text : Text
  pub state : SmsState
  pub error_message : Text
  pub created_at : ℕ
  pub updated_at : ℕ

pub record ModemDevice : Type 0 where
  pub modem_index : ℕ
  pub dbus_path : Text
  pub enabled : Bool
  pub is_present : Bool
  pub first_detected_at : ℕ
  pub last_detected_at : ℕ

pub record InboundWebhook : Type 0 where
  pub pk : ℕ
  pub modem_index : ℕ
  pub name : Text
  pub url : Text
  pub enabled : Bool
  pub created_at : ℕ

-- WebhookDeliveryJob.Kind. The column is text: `unknown_kind` is any value but the two choices.
pub data Kind : Type 0 where
  inbound outbound unknown_kind : Kind

-- WebhookDeliveryJob.Status
pub data Status : Type 0 where
  pending processing delivered failed : Status

pub record WebhookDeliveryJob : Type 0 where
  pub pk : ℕ
  pub kind : Kind
  pub inbound_sms : Option ℕ
  pub outbound_sms : Option ℕ
  pub status : Status
  pub attempts : ℕ
  pub last_error : Text
  pub created_at : ℕ
  pub updated_at : ℕ
  pub delivered_at : Option ℕ

-- A row of the dead-letter table `sms_dlq`.
pub record DlqRow : Type 0 where
  pub id : ℕ
  pub sms_path : Text
  pub modem_index : ℕ
  pub failed_at : ℕ
  pub retry_count : ℕ
  pub last_error : Text
  pub next_retry_at : Option ℕ

-- The key of a table's rows.
pub record Keyed (A : Type 0) : Type 0 where
  pub key : A → ℕ

instance abbrev pub inbound_keyed : Keyed InboundSms
inbound_keyed = record { key = λ r. r.pk }

instance abbrev pub outbound_keyed : Keyed OutboundSms
outbound_keyed = record { key = λ r. r.pk }

instance abbrev pub job_keyed : Keyed WebhookDeliveryJob
job_keyed = record { key = λ r. r.pk }

instance abbrev pub webhook_keyed : Keyed InboundWebhook
webhook_keyed = record { key = λ r. r.pk }

instance abbrev pub device_keyed : Keyed ModemDevice
device_keyed = record { key = λ r. r.modem_index }

instance abbrev pub dlq_keyed : Keyed DlqRow
dlq_keyed = record { key = λ r. r.id }

module _ {A : Type 0} ⦃k : Keyed A⦄ where
  -- objects.get(pk=n)
  unfoldable pub row : ℕ → List A → Option A
  row n [] = none
  row n (r ∷ rs) = if k.key r == n then some r else row n rs

  -- filter(pk=n).update(…)
  unfoldable pub update_row : ℕ → (A → A) → List A → List A
  update_row n f [] = []
  update_row n f (r ∷ rs) = (if k.key r == n then f r else r) ∷ update_row n f rs

  -- filter(pk__in=ns).delete(), for one pk
  unfoldable pub delete_row : ℕ → List A → List A
  delete_row n rs = filter (λ r. not (k.key r == n)) rs

  -- filter(p).update(…)
  unfoldable pub update_where : (A → Bool) → (A → A) → List A → List A
  update_where p f [] = []
  update_where p f (r ∷ rs) = (if p r then f r else r) ∷ update_where p f rs

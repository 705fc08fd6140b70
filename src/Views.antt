-- ===== src/Views.antt =====
-- apps/sms/views.py, views_webhooks.py, views_modems.py and views_system.py: the answers of the HTTP
-- interface. A request is the data of its body, in the types of the serializer's fields.
pub mod Send
pub mod Webhooks
pub mod Modems
use hi_wave_tel.Prelude.{ℕ, Option, none, some}

-- The status of an answer, and the object in its body where it is no error.
pub record Response (A : Type 0) : Type 0 where
  pub status : ℕ
  pub body : Option A

abbrev pub refused : {A : Type 0} → ℕ → Response A
refused status = record { status = status; body = none }

abbrev pub answered : {A : Type 0} → ℕ → A → Response A
answered status a = record { status = status; body = some a }

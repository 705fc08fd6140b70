-- ===== src/ModemDetail.antt =====
-- apps/sms/modem_registry.py: what the HTTP interface shows of a modem, the row with its live state. An
-- instant stands for its isoformat.
use hi_wave_tel.Prelude.{ℕ, Text, Bool, Option, none, some, List}
use hi_wave_tel.Runtime.Exec.{pure, ◌>>=◌}
use hi_wave_tel.Models.{ModemDevice}
use hi_wave_tel.World.{Env, Act}
use hi_wave_tel.ModemIdentity.{Identity, probe_modem_identity}
use hi_wave_tel.ModemRegistry.{modem_device_or_none}
use hi_wave_tel.Readiness.Availability.{ModemAvailability, LastActivity, check_modem_availability}

pub record ModemSummary : Type 0 where
  pub modem_index : ℕ
  pub enabled : Bool
  pub is_present : Bool
  pub dbus_path : Text
  pub phone_number : Text
  pub manufacturer : Text
  pub model : Text
  pub state : Text
  pub available : Bool
  pub first_detected_at : ℕ
  pub last_detected_at : ℕ

-- The keys that the detail has besides those of the summary.
pub record ModemReport : Type 0 where
  pub summary : ModemSummary
  pub imei : Text
  pub firmware : Text
  pub sim_path : Text
  pub checked_at : ℕ
  pub enumerated_indices : List ℕ
  pub ping_ok : Option Bool
  pub detail : Text
  pub last_activity : LastActivity

abbrev summary_of : ModemDevice → ModemAvailability → Identity → ModemSummary
summary_of device availability identity = record {
  modem_index = device.modem_index;
  enabled = device.enabled;
  is_present = device.is_present;
  dbus_path = device.dbus_path;
  phone_number = identity.phone_number;
  manufacturer = identity.manufacturer;
  model = identity.model;
  state = availability.state;
  available = availability.available;
  first_detected_at = device.first_detected_at;
  last_detected_at = device.last_detected_at;
}

abbrev report_of : ModemDevice → ModemAvailability → Identity → ModemReport
report_of device availability identity = record {
  summary = summary_of device availability identity;
  imei = identity.imei;
  firmware = identity.firmware;
  sim_path = identity.sim_path;
  checked_at = availability.checked_at;
  enumerated_indices = availability.enumerated_indices;
  ping_ok = availability.ping_ok;
  detail = availability.detail;
  last_activity = availability.last_activity;
}

-- The client that the callers make has the settings of `env`.
module _ (env : Env) where
  unfoldable pub build_modem_summary : ModemDevice → Act ModemSummary
  build_modem_summary device = do
    availability ← check_modem_availability env env device.modem_index
    identity ← probe_modem_identity env device.modem_index none
    pure (summary_of device availability identity)

  abbrev detail_of : ℕ → Option ModemDevice → Act (Option ModemReport)
  detail_of modem_index none = pure none
  detail_of modem_index (some device) = do
    availability ← check_modem_availability env env modem_index
    identity ← probe_modem_identity env modem_index none
    pure (some (report_of device availability identity))

  unfoldable pub get_modem_detail : ℕ → Act (Option ModemReport)
  get_modem_detail modem_index = modem_device_or_none env modem_index >>= detail_of modem_index

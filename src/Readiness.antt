-- ===== src/Readiness.antt =====
-- apps/sms/modem_readiness.py: the report of whether the gateway can take and send messages, and of
-- whether one modem answers. An instant stands for its isoformat.
pub mod Availability
pub mod Judgement
pub mod Frame
use hi_wave_tel.Prelude.{
  ℕ, Text, codes, Bool, true, false, ◌&&◌, ◌||◌, not, Option, none, some, List, [], ◌∷◌, ◌++◌,
  if◌then◌else◌, ◌==◌, any, is_empty, is_some, map, strip, lower, take, text_in, or_else,
}
use hi_wave_tel.Runtime.Exn.{Exn, MmcliError, mmcli}
use hi_wave_tel.Runtime.Exec.{ok, err, pure, raise, gets, try_else, ◌>>=◌, ◌>>◌}
use hi_wave_tel.World.{Env, World, Act}
use hi_wave_tel.Phone.{normalize_phone_e164}
use hi_wave_tel.ModemEnv.{Environ, value_of, get_modem_phone_number}
use hi_wave_tel.Mmcli.{list_modem_indices, modem_ping}
use hi_wave_tel.ModemReady.{is_ready_state, get_modem_state, sim_pin_lock_active}
use hi_wave_tel.ModemReady.Recover.{resolve_modem_mmcli_index}
use hi_wave_tel.ModemIdentity.{Identity, probe_modem_identity}
use hi_wave_tel.ModemRegistry.{sync_detected_modems}

pub record ReadinessIssue : Type 0 where
  pub code : Text
  pub message : Text

pub record Capabilities : Type 0 where
  pub inbound_sms : Bool
  pub outbound_sms : Bool

-- The keys of the dictionary `components`; `none` is a key that is not there.
pub record Components : Type 0 where
  pub sms_watcher : Bool
  pub modem_enumerated : Option (Bool × List ℕ)
  pub modem_state : Option (Bool × Text)
  -- locked
  pub sim_lock : Option Bool
  pub mmcli_ping : Option (Bool × Text)
  pub phone_number : Option (Bool × Text)

pub record ReadinessSnapshot : Type 0 where
  pub ready : Bool
  pub phone_number : Text
  pub modem_index : Option ℕ
  pub modem_state : Text
  pub checked_at : ℕ
  pub capabilities : Capabilities
  pub issues : List ReadinessIssue
  pub components : Components

-- The variables of evaluate_sms_readiness.
pub record Report : Type 0 where
  pub issues : List ReadinessIssue
  pub components : Components
  pub effective_index : Option ℕ
  pub modem_state : Text
  pub phone_number : Text
  pub ping_ok : Bool
  pub sim_locked : Bool

-- _truthy_env
unfoldable pub truthy_env : Environ → Text → Bool → Bool
unfolding value_of strip lower text_in
truthy_env environ name default =
    let raw = or_else (value_of name environ) [] in
    if is_empty raw
    then default
    else text_in (lower (strip raw)) (map codes ("1" ∷ "true" ∷ "yes" ∷ "on" ∷ []))

abbrev pub issue : Text → Text → ReadinessIssue
issue code message = record { code = code; message = message }

-- `if test: issues.append(…)`
abbrev pub noted : Bool → ReadinessIssue → List ReadinessIssue → List ReadinessIssue
noted true i issues = issues ++ i ∷ []
noted false i issues = issues

abbrev pub unreachable : Text
unreachable = codes "mmcli_unreachable"

abbrev pub start_report : Bool → List ReadinessIssue → Report
start_report watcher extra = record {
  issues =
      noted (not watcher)
        (issue (codes "sms_watcher_disabled")
          (codes "RUN_SMS_WATCHER is disabled; inbound SMS via D-Bus watcher will not run."))
        extra;
  components = record {
    sms_watcher = watcher;
    modem_enumerated = none;
    modem_state = none;
    sim_lock = none;
    mmcli_ping = none;
    phone_number = none;
  };
  effective_index = none;
  modem_state = codes "unknown";
  phone_number = [];
  ping_ok = false;
  sim_locked = false;
}

-- the outer `except MmcliError`, and the branches without a modem
abbrev pub mmcli_failed : MmcliError → Report → Report
mmcli_failed e r = record r {
  components = record r.components { modem_enumerated = some (false, []) };
  issues = r.issues ++ issue unreachable (take 512 e.message) ∷ [];
}

abbrev pub enumerated : List ℕ → Report → Report
enumerated indices r = record r {
  components = record r.components { modem_enumerated = some (not (is_empty indices), indices) };
}

abbrev pub no_modem : Report → Report
no_modem r = record r {
  issues =
      r.issues
      ++ issue (codes "no_modem") (codes "ModemManager returned zero modems via mmcli -L.") ∷ [];
}

abbrev pub index_missing : List ℕ → MmcliError → Report → Report
index_missing indices e r = record r {
  components = record r.components { modem_enumerated = some (false, indices) };
  issues = r.issues ++ issue (codes "modem_index_missing") (take 512 e.message) ∷ [];
}

abbrev pub with_state : ℕ → Text → Report → Report
with_state ix state r = record r {
  effective_index = some ix;
  modem_state = state;
  components = record r.components { modem_state = some (is_ready_state state, state) };
  issues =
      noted (not (is_ready_state state))
        (issue (codes "modem_not_ready")
          (codes "Modem state is " ++ state ++ codes " (expected enabled or registered)."))
        r.issues;
}

abbrev pub with_lock : Bool → Report → Report
with_lock locked r = record r {
  sim_locked = locked;
  components = record r.components { sim_lock = some locked };
  issues =
      noted locked
        (issue (codes "sim_pin_locked") (codes "SIM reports PIN lock; unlock required before SMS."))
        r.issues;
}

abbrev or_text : Text → Text → Text
or_text [] d = d
or_text (c ∷ cs) d = c ∷ cs

abbrev pub with_ping : Bool × Text → Report → Report
with_ping (ping_ok, ping_text) r = record r {
  ping_ok = ping_ok;
  components = record r.components { mmcli_ping = some (ping_ok, take 500 ping_text) };
  issues =
      noted (not ping_ok)
        (issue unreachable (take 512 (or_text ping_text (codes "mmcli modem ping failed."))))
        r.issues;
}

abbrev pub with_phone : Text → Report → Report
with_phone phone r = record r {
  phone_number = phone;
  components = record r.components { phone_number = some (not (is_empty phone), phone) };
  issues =
      noted (is_empty phone)
        (issue (codes "phone_number_missing")
          (codes "Could not resolve modem phone number from mmcli or configuration."))
        r.issues;
}

abbrev pub is_blocking : ReadinessIssue → Bool
is_blocking i = text_in i.code (
    map codes ("no_modem" ∷ "modem_index_missing" ∷ "sim_pin_locked" ∷ "phone_number_missing" ∷ []))

-- what follows the `try`
unfoldable pub judge : ℕ → Report → ReadinessSnapshot
unfolding is_ready_state text_in
judge checked_at r =
    let outbound_sms =
      is_some r.effective_index && is_ready_state r.modem_state && not r.sim_locked && r.ping_ok in
    let inbound_sms = outbound_sms && r.components.sms_watcher in
    record {
      ready = outbound_sms && inbound_sms && not (any is_blocking r.issues);
      phone_number = r.phone_number;
      modem_index = r.effective_index;
      modem_state = r.modem_state;
      checked_at = checked_at;
      capabilities = record { inbound_sms = inbound_sms; outbound_sms = outbound_sms };
      issues = r.issues;
      components = r.components;
    }

-- MMCLIClient(timeout_sec=timeout), the client where none is given
abbrev pub health_client : Env → Env
health_client env = record env {
  settings = record env.settings { mmcli_timeout = env.health_timeout };
}

-- In the next section, `env` is the client.
module _ (env : Env) where
  abbrev pub outer_handler : Report → Exn → Act Report
  outer_handler r (mmcli e) = pure (mmcli_failed e r)
  outer_handler r x = raise x

  -- a call under the outer `try`, made when the report is `r`
  abbrev pub guarded : {A : Type 0} → Report → Act A → (A → Act Report) → Act Report
  guarded r m next = try_else m (outer_handler r) next

  abbrev pub phone_or_fallback : ℕ → Identity → Text
  phone_or_fallback ix identity =
      let phone = normalize_phone_e164 identity.phone_number in
      if is_empty phone then get_modem_phone_number env.environ ix else phone

  unfoldable pub report_identity : ℕ → Report → Act Report
  unfolding normalize_phone_e164 get_modem_phone_number
  report_identity ix r =
      guarded r (probe_modem_identity env ix none)
        (λ identity. pure (with_phone (phone_or_fallback ix identity) r))

  unfoldable pub report_ping : ℕ → Report → Act Report
  report_ping ix r = guarded r (modem_ping env ix) (λ ping. report_identity ix (with_ping ping r))

  unfoldable pub report_modem : ℕ → Report → Act Report
  unfolding is_ready_state
  report_modem ix r = do
    state ← get_modem_state env ix
    locked ← sim_pin_lock_active env ix
    report_ping ix (with_lock locked (with_state ix state r))

  abbrev pub missing_handler : List ℕ → Report → Exn → Act Report
  missing_handler indices r (mmcli e) = pure (index_missing indices e r)
  missing_handler indices r x = raise x

  unfoldable pub report_indices : ℕ → Report → List ℕ → Act Report
  report_indices configured r indices =
      if is_empty indices
      then pure (no_modem (enumerated indices r))
      else try_else (resolve_modem_mmcli_index env configured)
          (missing_handler indices (enumerated indices r))
          (λ ix. report_modem ix (enumerated indices r))

  unfoldable pub evaluate_with : ℕ → List ReadinessIssue → Act ReadinessSnapshot
  unfolding judge truthy_env
  evaluate_with configured extra = do
    checked_at ← gets (λ w. w.clock)
    let r = start_report (truthy_env env.environ (codes "RUN_SMS_WATCHER") true) extra
    r' ← guarded r (list_modem_indices env) (report_indices configured r)
    pure (judge checked_at r')

-- evaluate_sms_readiness without a client of the caller; `none` is the configured index
unfoldable pub evaluate_sms_readiness : Env → Option ℕ → List ReadinessIssue → Act ReadinessSnapshot
evaluate_sms_readiness env modem_index extra =
    evaluate_with (health_client env) (or_else modem_index env.mmcli_index) extra

-- refresh_and_persist_readiness, whose persistence is empty
unfoldable pub refresh_and_persist_readiness :
    Env → Option ℕ → List ReadinessIssue → Act ReadinessSnapshot
refresh_and_persist_readiness env modem_index extra = evaluate_sms_readiness env modem_index extra

unfoldable pub refresh_readiness_safe : Env → Option ℕ → List ReadinessIssue → Act (Unit {0})
refresh_readiness_safe env modem_index extra = do
  try_else (sync_detected_modems env) (λ exc. pure tt) (λ devices. pure tt)
  try_else (refresh_and_persist_readiness env modem_index extra) (λ exc. pure tt) (λ s. pure tt)

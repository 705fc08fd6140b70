-- ===== src/Readiness/Frame.antt =====
-- The readiness report changes no table, and its refresh only that of the modems.
use hi_wave_tel.Prelude.{ℕ, ◌≡◌, refl, ◌∙◌, inl, inr, Text, Option, List, is_some, Bool-cases}
use hi_wave_tel.Runtime.Exn.{Exn, mmcli}
use hi_wave_tel.Runtime.Exec.{Result, ok, err, handle_with, pure, try_else, ◌>>=◌, ◌>>◌}
use hi_wave_tel.Runtime.Respects.{IsPreorder, Respects, respects_rules}
use hi_wave_tel.Models.{device_keyed, row}
use hi_wave_tel.World.{Env, World, Act, query}
use hi_wave_tel.World.Frames.{statement-Respects}
use hi_wave_tel.Mmcli.{modem_ping, show_modem, show_modem_json, show_plain_modem}
use hi_wave_tel.Mmcli.Snapshot.{Details}
use hi_wave_tel.Mmcli.Frame.{Probes, probe_rules, client_rules, list_modem_indices-Probes}
use hi_wave_tel.ModemReady.Recover.Frame.{
  get_modem_state-Probes, sim_pin_lock-Probes, resolve-Probes,
}
use hi_wave_tel.ModemIdentity.{probe_modem_identity, show_sim, no_details}
use hi_wave_tel.ModemRegistry.{
  sync_detected_modems, register_items, upsert_device, insert_row, touch_row, mark_absent,
  all_devices, mmcli_list, list_failed, Paths,
}
use hi_wave_tel.Readiness.{
  ReadinessIssue, Report, report_identity, report_ping, report_modem, report_indices, evaluate_with,
  evaluate_sms_readiness, refresh_and_persist_readiness, refresh_readiness_safe, outer_handler,
  missing_handler, health_client,
}

module _ (env : Env) where
  ping-Probes : (n : ℕ) → Respects Probes (modem_ping env n)
  unfolding modem_ping
  ping-Probes n = search client_rules

  plain-Probes : (n : ℕ) (a b : Details) → Respects Probes (show_plain_modem env n a b)
  unfolding show_plain_modem
  plain-Probes n a b = search client_rules

  json-Probes : (n : ℕ) (a : Details) → Respects Probes (show_modem_json env n a)
  unfolding show_modem_json
  json-Probes n a = search (client_rules, plain-Probes)

  show_modem-Probes : (n : ℕ) → Respects Probes (show_modem env n)
  unfolding show_modem
  show_modem-Probes n = search (client_rules, json-Probes)

  show_sim-Probes : (s : Text) → Respects Probes (show_sim env s)
  unfolding show_sim
  show_sim-Probes s = search client_rules

  no_details-Probes : (x : Exn) → Respects Probes (no_details env x)
  no_details-Probes (mmcli e) = search probe_rules
  no_details-Probes x = search probe_rules

  pub identity-Probes : (n : ℕ) (o : Option Text) → Respects Probes (probe_modem_identity env n o)
  unfolding probe_modem_identity
  identity-Probes n o =
      search (probe_rules, show_modem-Probes, show_sim-Probes, no_details-Probes) depth 9

  outer-Probes : (r : Report) (x : Exn) → Respects Probes (outer_handler env r x)
  outer-Probes r (mmcli e) = search probe_rules
  outer-Probes r x = search probe_rules

  missing-Probes :
      (indices : List ℕ) (r : Report) (x : Exn) → Respects Probes (missing_handler env indices r x)
  missing-Probes indices r (mmcli e) = search probe_rules
  missing-Probes indices r x = search probe_rules

  report_identity-Probes : (n : ℕ) (r : Report) → Respects Probes (report_identity env n r)
  unfolding report_identity
  report_identity-Probes n r = search (probe_rules, identity-Probes, outer-Probes)

  report_ping-Probes : (n : ℕ) (r : Report) → Respects Probes (report_ping env n r)
  unfolding report_ping
  report_ping-Probes n r = search (probe_rules, ping-Probes, outer-Probes, report_identity-Probes)

  report_modem-Probes : (n : ℕ) (r : Report) → Respects Probes (report_modem env n r)
  unfolding report_modem
  report_modem-Probes n r =
      search (probe_rules, get_modem_state-Probes, sim_pin_lock-Probes, report_ping-Probes)

  report_indices-Probes :
      (n : ℕ) (r : Report) (indices : List ℕ) → Respects Probes (report_indices env n r indices)
  unfolding report_indices
  report_indices-Probes n r indices =
      search (probe_rules, resolve-Probes, missing-Probes, report_modem-Probes)

  evaluate_with-Probes :
      (n : ℕ) (extra : List ReadinessIssue) → Respects Probes (evaluate_with env n extra)
  unfolding evaluate_with
  evaluate_with-Probes n extra =
      search (probe_rules, list_modem_indices-Probes, outer-Probes, report_indices-Probes) depth 9

-- The messages that were sent are as they were.
abbrev pub SameOutbound : World → World → Type 0
SameOutbound w w' = w'.outbound ≡ w.outbound

pub SameOutbound-IsPreorder : IsPreorder SameOutbound
SameOutbound-IsPreorder = record { refl = λ w. refl; trans = λ u v w a b. b ∙ a }

pub Probes-SameOutbound : {A : Type 0} (m : Act A) → Respects Probes m → Respects SameOutbound m
Probes-SameOutbound m k = record { at = λ w. (k.at w).tables.outbound }

ruleset outbound_rules = (respects_rules, SameOutbound-IsPreorder)

module _ (env : Env) where
  pub query-SameOutbound : {A : Type 0} (f : World → A) → Respects SameOutbound (query env f)
  unfolding query
  query-SameOutbound f = statement-Respects SameOutbound env _ (λ w. refl) (λ w. refl)

  insert-SameOutbound : (n : ℕ) (path : Text) → Respects SameOutbound (insert_row env n path)
  unfolding insert_row
  insert-SameOutbound n path = statement-Respects SameOutbound env _ (λ w. refl) (λ w. refl)

  touch-SameOutbound : (n : ℕ) (path : Text) → Respects SameOutbound (touch_row env n path)
  unfolding touch_row
  touch-SameOutbound n path =
      statement-Respects SameOutbound env _ (λ w. refl)
        (λ w. elim (Bool-cases (is_some (row n w.devices))) [
          | inl e ↦ rw e refl
          | inr e ↦ rw e refl
        ])

  absent-SameOutbound : (seen : List ℕ) → Respects SameOutbound (mark_absent env seen)
  unfolding mark_absent
  absent-SameOutbound seen = statement-Respects SameOutbound env _ (λ w. refl) (λ w. refl)

  devices-SameOutbound : Respects SameOutbound (all_devices env)
  unfolding all_devices
  devices-SameOutbound = query-SameOutbound _

  upsert-SameOutbound : (item : ℕ × Text) → Respects SameOutbound (upsert_device env item)
  unfolding upsert_device
  upsert-SameOutbound (n, path) =
      search (outbound_rules, query-SameOutbound, insert-SameOutbound, touch-SameOutbound)

  register-SameOutbound : (items : Paths) → Respects SameOutbound (register_items env items)
  unfolding register_items
  register-SameOutbound items =
      search (outbound_rules, upsert-SameOutbound, absent-SameOutbound, devices-SameOutbound)

  list-Probes : Respects Probes (mmcli_list env)
  unfolding mmcli_list
  list-Probes = search client_rules

  failed-SameOutbound : (x : Exn) → Respects SameOutbound (list_failed env x)
  failed-SameOutbound (mmcli e) = devices-SameOutbound
  failed-SameOutbound x = search outbound_rules

  sync-SameOutbound : Respects SameOutbound (sync_detected_modems env)
  unfolding sync_detected_modems
  sync-SameOutbound =
      let listed = Probes-SameOutbound (mmcli_list env) list-Probes in
      search (outbound_rules, listed, failed-SameOutbound, register-SameOutbound)

  evaluate-SameOutbound :
      (n : Option ℕ) (extra : List ReadinessIssue)
      → Respects SameOutbound (refresh_and_persist_readiness env n extra)
  unfolding refresh_and_persist_readiness evaluate_sms_readiness
  evaluate-SameOutbound n extra =
      Probes-SameOutbound _ (evaluate_with-Probes (health_client env) _ extra)

  pub refresh-SameOutbound :
      (n : Option ℕ) (extra : List ReadinessIssue)
      → Respects SameOutbound (refresh_readiness_safe env n extra)
  unfolding refresh_readiness_safe
  refresh-SameOutbound n extra =
      search (outbound_rules, sync-SameOutbound, evaluate-SameOutbound) depth 9

  quiet :
      {A : Type 0} (m : Act A) (w : World)
      → try_else m (λ x. pure tt) (λ a. pure tt) w ≡ (ok tt, (m w).1)
  unfolding try_else pure
  quiet {A} m w = after (m w)
    where
      after : (o : Result A × World) → handle_with (λ x. pure tt) (λ a. pure tt) o ≡ (ok tt, o.1)
      after (ok a, v) = refl
      after (err x, v) = refl

  pub refresh-returns :
      (n : Option ℕ) (extra : List ReadinessIssue) (w : World)
      → refresh_readiness_safe env n extra w ≡ (ok tt, (refresh_readiness_safe env n extra w).1)
  unfolding refresh_readiness_safe ◌>>◌ ◌>>=◌
  refresh-returns n extra w =
      rw (quiet (sync_detected_modems env) w)
        (rw (quiet (refresh_and_persist_readiness env n extra) (sync_detected_modems env w).1) refl)

-- ===== src/ModemReady/Recover/Frame.antt =====
-- Finding a modem and making it ready changes no table.
use hi_wave_tel.Prelude.{
  ℕ, zero, suc, Text, Bool, true, false, List, [], ◌∷◌, Option, none, some, ◌==◌, ltb,
  if◌then◌else◌,
}
use hi_wave_tel.Runtime.Exn.{Exn}
use hi_wave_tel.Runtime.Respects.{
  Respects, Respects-bind, Respects-if, Respects-then, Respects-pure, Respects-gets,
  Respects-modify,
}
use hi_wave_tel.Runtime.Exec.{pure, ◌>>◌}
use hi_wave_tel.World.{Env, World, Act, sleep}
use hi_wave_tel.Mmcli.{Completed}
use hi_wave_tel.Mmcli.Frame.{
  Probes, Probes-IsPreorder, Probes-refl, probe_rules, sleep-Probes, list_modem_indices-Probes,
  primary_modem_index-Probes,
}
use hi_wave_tel.ModemReady.{
  ReadySettings, attempt_run, get_modem_state, sim_path_needs_pin_unlock, overview_pin_lock,
  by_overview, sim_pin_lock_active, try_enable_modem, try_reset_modem, try_rescan_modems,
  messaging_interface_ready,
}
use hi_wave_tel.ModemReady.Recover.{
  is_ready, first_ready, else_configured, resolve_modem_mmcli_index, resolve_working_modem_index,
  judge_unlock, unlock_targets, unlock_attempts, with_pin, try_unlock_sim_pin, recover_modem_state,
  check_or_recover, rescan_or_wait, round, wait_rounds, report, wait_modem_ready_for_sms,
  prepare_modem_for_outbound_sms, only_mmcli, after_reset,
}

chosen-Probes :
    {A : Type 0} (b : Bool) (m n : Act A)
    → Respects Probes m
    → Respects Probes n
    → Respects Probes (elim b as (λ _. Act A) [ true ↦ m | false ↦ n ])
chosen-Probes true m n km kn = km
chosen-Probes false m n km kn = kn

later-Probes :
    {A : Type 0} (b : Bool) (m n : Act A)
    → Respects Probes m
    → Respects Probes n
    → Respects Probes (elim b as (λ _. Act A) [ false ↦ m | true ↦ n ])
later-Probes true m n km kn = kn
later-Probes false m n km kn = km

module _ (env : Env) where
  attempt_run-Probes : (argv : List Text) → Respects Probes (attempt_run env argv)
  unfolding attempt_run
  attempt_run-Probes argv = search probe_rules

  ruleset attempt_rules = (probe_rules, attempt_run-Probes)

  pub get_modem_state-Probes : (n : ℕ) → Respects Probes (get_modem_state env n)
  unfolding get_modem_state
  get_modem_state-Probes n = search attempt_rules

  sim_path-Probes : (s : Text) → Respects Probes (sim_path_needs_pin_unlock env s)
  unfolding sim_path_needs_pin_unlock
  sim_path-Probes s = search attempt_rules

  overview-Probes : (state haystack : Text) → Respects Probes (overview_pin_lock env state haystack)
  unfolding overview_pin_lock
  overview-Probes state haystack = search (attempt_rules, sim_path-Probes)

  by_overview-Probes :
      (state : Text) (o : Option Completed) → Respects Probes (by_overview env state o)
  by_overview-Probes state none = search attempt_rules
  by_overview-Probes state (some cp) = overview-Probes state _

  pub sim_pin_lock-Probes : (n : ℕ) → Respects Probes (sim_pin_lock_active env n)
  unfolding sim_pin_lock_active
  sim_pin_lock-Probes n = search (attempt_rules, get_modem_state-Probes, by_overview-Probes)

  ruleset state_rules = (attempt_rules, get_modem_state-Probes, sim_pin_lock-Probes)

  try_enable-Probes : (n : ℕ) → Respects Probes (try_enable_modem env n)
  unfolding try_enable_modem
  try_enable-Probes n = search state_rules depth 9

  try_reset-Probes : (n : ℕ) → Respects Probes (try_reset_modem env n)
  unfolding try_reset_modem
  try_reset-Probes n = search state_rules

  pub try_rescan-Probes : Respects Probes (try_rescan_modems env)
  unfolding try_rescan_modems
  try_rescan-Probes = search state_rules

  pub messaging-Probes : (n : ℕ) → Respects Probes (messaging_interface_ready env n)
  unfolding messaging_interface_ready
  messaging-Probes n = search state_rules

  is_ready-Probes : (n : ℕ) → Respects Probes (is_ready env n)
  unfolding is_ready
  is_ready-Probes n = search state_rules

  first_ready-Probes : (want : ℕ) (ns : List ℕ) → Respects Probes (first_ready env want ns)
  unfolding first_ready
  first_ready-Probes want [] = search state_rules
  first_ready-Probes want (n ∷ ns) =
      Respects-bind Probes-IsPreorder _ _
        (Respects-if Probes-IsPreorder _ _ _ (Respects-pure Probes-IsPreorder _)
          (is_ready-Probes n))
        (λ ready.
          chosen-Probes ready _ _ (Respects-pure Probes-IsPreorder _) (first_ready-Probes want ns))

  else_configured-Probes :
      (want : ℕ) (ns : List ℕ) (o : Option ℕ) → Respects Probes (else_configured env want ns o)
  else_configured-Probes want ns none = search (state_rules, primary_modem_index-Probes)
  else_configured-Probes want ns (some n) = search state_rules

  pub resolve-Probes : (want : ℕ) → Respects Probes (resolve_modem_mmcli_index env want)
  unfolding resolve_modem_mmcli_index
  resolve-Probes want =
      search
        (
          state_rules, list_modem_indices-Probes, is_ready-Probes, first_ready-Probes,
          else_configured-Probes,
        )
        depth 9

  only_mmcli-Probes : (x : Exn) → Respects Probes (only_mmcli env x)
  only_mmcli-Probes (Exn.mmcli e) = search state_rules
  only_mmcli-Probes x = search state_rules

  pub working-Probes : (n : ℕ) → Respects Probes (resolve_working_modem_index env n)
  unfolding resolve_working_modem_index
  working-Probes n = search (state_rules, resolve-Probes, only_mmcli-Probes)

  module _ (settings : ReadySettings) where
    nap-Probes :
        (b : Bool) (w : World)
        → Probes w ((if b then (λ v. v) else sleep settings.sim_unlock_retry) w)
    nap-Probes true w = Probes-refl w
    nap-Probes false w = sleep-Probes _ w

    judge-Probes : (n : ℕ) (o : Option Completed) → Respects Probes (judge_unlock env settings n o)
    unfolding judge_unlock
    judge-Probes n none = search state_rules
    judge-Probes n (some cp) = search (state_rules, sleep-Probes) depth 9

    targets-Probes :
        (n : ℕ) (argvs : List (List Text)) → Respects Probes (unlock_targets env settings n argvs)
    unfolding unlock_targets
    targets-Probes n [] = search state_rules
    targets-Probes n (argv ∷ rest) =
        Respects-bind Probes-IsPreorder _ _ (search (state_rules, judge-Probes)) (λ done.
          chosen-Probes done _ _ (Respects-pure Probes-IsPreorder _) (targets-Probes n rest))

    attempts-Probes :
        (left n : ℕ) (pin : Text) → Respects Probes (unlock_attempts env settings left n pin)
    unfolding unlock_attempts
    attempts-Probes zero n pin = search state_rules
    attempts-Probes (suc left) n pin =
        Respects-bind Probes-IsPreorder _ _ (sim_pin_lock-Probes n) (λ lock.
          Respects-bind Probes-IsPreorder _ _ (get_modem_state-Probes n) (λ state.
            Respects-bind Probes-IsPreorder _ _ (search (state_rules, targets-Probes)) (λ done.
              chosen-Probes done _ _ (Respects-pure Probes-IsPreorder _) (
                Respects-then Probes-IsPreorder _ _
                  (Respects-modify Probes-IsPreorder _ (nap-Probes (left == 0)))
                  (attempts-Probes left n pin)))))

    with_pin-Probes : (n : ℕ) (pin : Text) → Respects Probes (with_pin env settings n pin)
    with_pin-Probes n pin = search (state_rules, attempts-Probes)

    unlock-Probes : (n : ℕ) → Respects Probes (try_unlock_sim_pin env settings n)
    unfolding try_unlock_sim_pin
    unlock-Probes n = with_pin-Probes n _

    after_reset-Probes : (b : Bool) → Respects Probes (after_reset env settings b)
    after_reset-Probes true = search (state_rules, sleep-Probes, try_rescan-Probes)
    after_reset-Probes false = search state_rules

    pub recover-Probes : (n : ℕ) → Respects Probes (recover_modem_state env settings n)
    unfolding recover_modem_state
    recover-Probes n =
        search (state_rules, try_reset-Probes, after_reset-Probes, unlock-Probes, try_enable-Probes)
          depth 9

    check-Probes : (b : Bool) (n : ℕ) → Respects Probes (check_or_recover env settings b n)
    unfolding check_or_recover
    check-Probes b n = search (state_rules, recover-Probes, messaging-Probes, sleep-Probes) depth 9

    rescan-Probes : (n : ℕ) → Respects Probes (rescan_or_wait env settings n)
    unfolding rescan_or_wait
    rescan-Probes n = search (state_rules, try_rescan-Probes, sleep-Probes) depth 9

    round-Probes : (b : Bool) (n : ℕ) (o : Option ℕ) → Respects Probes (round env settings b n o)
    round-Probes b n none = search (state_rules, rescan-Probes)
    round-Probes b n (some idx) = search (state_rules, check-Probes)

    wait_rounds-Probes :
        (fuel configured deadline last : ℕ) (b : Bool)
        → Respects Probes (wait_rounds env settings fuel configured deadline last b)
    unfolding wait_rounds
    wait_rounds-Probes zero configured deadline last b = search state_rules
    wait_rounds-Probes (suc fuel) configured deadline last b =
        Respects-bind Probes-IsPreorder _ _ (Respects-gets Probes-IsPreorder _) (λ now.
          later-Probes (ltb now deadline) _ _ (Respects-pure Probes-IsPreorder _) (
            Respects-bind Probes-IsPreorder _ _ (working-Probes configured) (λ active.
              Respects-bind Probes-IsPreorder _ _ (round-Probes b last active) (λ (ready, l).
                chosen-Probes ready _ _ (Respects-pure Probes-IsPreorder _)
                  (wait_rounds-Probes fuel configured deadline l b)))))

    found-Probes :
        (o : Option ℕ)
        → Respects Probes (elim o as (λ _. Act Bool) [
          | none ↦ pure false
          | some idx ↦ get_modem_state env idx >> pure false
        ])
    found-Probes none = search state_rules
    found-Probes (some idx) = search state_rules

    report-Probes : (n : ℕ) (b : Bool) → Respects Probes (report env settings n b)
    report-Probes n true = search state_rules
    report-Probes n false = Respects-bind Probes-IsPreorder _ _ (working-Probes n) found-Probes

    pub prepare-Probes : (n : ℕ) → Respects Probes (prepare_modem_for_outbound_sms env settings n)
    unfolding prepare_modem_for_outbound_sms wait_modem_ready_for_sms
    prepare-Probes n = search (state_rules, wait_rounds-Probes, report-Probes) depth 9

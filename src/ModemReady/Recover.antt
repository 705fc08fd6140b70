-- ===== src/ModemReady/Recover.antt =====
-- apps/sms/modem_ready.py and mmcli_client.resolve_modem_mmcli_index: the choice of a working modem, its
-- recovery, and the wait until it takes SMS.
pub mod Frame
pub mod Wait
use hi_wave_tel.Prelude.{
  ℕ, zero, suc, ◌+◌, ◌-◌, ◌*◌, ◌/◌, max, min, Text, codes, Bool, true, false, ◌&&◌, ◌||◌, not,
  Option, none, some, List, [], ◌∷◌, ◌++◌, if◌then◌else◌, leb, ltb, ◌==◌, is_empty, any, strip,
}
use hi_wave_tel.Runtime.Exn.{Exn, MmcliError, mmcli, negsuc}
use hi_wave_tel.Runtime.Exec.{Result, ok, err, pure, raise, gets, modify, try_else, ◌>>=◌, ◌>>◌}
use hi_wave_tel.World.{Env, World, Act, sleep}
use hi_wave_tel.Scan.{decimal}
use hi_wave_tel.ModemEnv.{get_modem_pin_code}
use hi_wave_tel.Mmcli.{Completed, output_of, list_modem_indices, primary_modem_index}
use hi_wave_tel.ModemReady.{
  ReadySettings, get_modem_state, sim_pin_lock_active, try_enable_modem, try_reset_modem,
  try_rescan_modems, messaging_interface_ready, attempt_run, is_ready_state, is_enable_state,
  is_state, pin_unlock_not_needed, mmcli_command_ok, extract_sim_path_from_modem_overview,
}

abbrev pub no_modems : ℕ → MmcliError
no_modems want = record {
  message = codes "Modem index " ++ decimal want ++ codes " not found and mmcli -L lists no modems";
  stdout = [];
  stderr = codes "no modems";
  exit_code = some (negsuc 1);
}

abbrev pub one_second : ℕ
one_second = 1000000

module _ (env : Env) where
  unfoldable pub is_ready : ℕ → Act Bool
  unfolding is_ready_state
  is_ready idx = do state ← get_modem_state env idx; pure (is_ready_state state)

  -- for idx in sorted(present): if idx != want and _ready(idx): return idx
  unfoldable pub first_ready : ℕ → List ℕ → Act (Option ℕ)
  first_ready want [] = pure none
  first_ready want (idx ∷ rest) = do
    ready ← if idx == want then pure false else is_ready idx
    elim ready [ true ↦ pure (some idx) | false ↦ first_ready want rest ]

  abbrev pub else_configured : ℕ → List ℕ → Option ℕ → Act ℕ
  else_configured want present (some idx) = pure idx
  else_configured want present none =
      if any (λ n. n == want) present then pure want else primary_modem_index env

  unfoldable pub resolve_modem_mmcli_index : ℕ → Act ℕ
  resolve_modem_mmcli_index want = do
    present ← list_modem_indices env
    want_ready ← if any (λ n. n == want) present then is_ready want else pure false
    if is_empty present
        then raise (mmcli (no_modems want))
        else if want_ready
        then pure want
        else (first_ready want present >>= else_configured want present)

  abbrev only_mmcli : Exn → Act (Option ℕ)
  only_mmcli (mmcli e) = pure none
  only_mmcli x = raise x

  unfoldable pub resolve_working_modem_index : ℕ → Act (Option ℕ)
  resolve_working_modem_index configured =
      try_else (resolve_modem_mmcli_index configured) only_mmcli (λ idx. pure (some idx))

  module _ (settings : ReadySettings) where
    abbrev unlock_text : Completed → Text
    unlock_text cp = strip (if is_empty cp.stderr then cp.stdout else cp.stderr)

    -- what `mmcli --pin` on the SIM or the modem gives; true ends the attempts
    unfoldable pub judge_unlock : ℕ → Option Completed → Act Bool
    unfolding pin_unlock_not_needed mmcli_command_ok
    judge_unlock modem_index none = pure false
    judge_unlock modem_index (some cp) =
        if pin_unlock_not_needed (unlock_text cp) then pure true else do
          locked ← if mmcli_command_ok cp then sim_pin_lock_active env modem_index else pure true
          if locked
              then pure false
              else (modify (sleep (min settings.modem_reprobe_wait (10 * one_second))) >> pure true)

    unfoldable pub unlock_targets : ℕ → List (List Text) → Act Bool
    unlock_targets modem_index [] = pure false
    unlock_targets modem_index (argv ∷ rest) = do
      done ← attempt_run env argv >>= judge_unlock modem_index
      elim done [ true ↦ pure true | false ↦ unlock_targets modem_index rest ]

    abbrev sim_path_of : Option Completed → Text
    sim_path_of none = []
    sim_path_of (some cp) = extract_sim_path_from_modem_overview (output_of cp)

    abbrev pin_targets : ℕ → Text → Text → List (List Text)
    pin_targets modem_index pin sim_path =
        let modem = env.mmcli_path ∷ codes "-m" ∷ decimal modem_index ∷ codes "--pin" ∷ pin ∷ [] in
        if is_empty sim_path
        then modem ∷ []
        else (env.mmcli_path ∷ codes "-i" ∷ sim_path ∷ codes "--pin" ∷ pin ∷ []) ∷ modem ∷ []

    -- The attempts with a PIN; `left` of them are to come.
    unfoldable pub unlock_attempts : (left : ℕ) → ℕ → Text → Act Bool
    unfolding extract_sim_path_from_modem_overview is_state
    unlock_attempts zero modem_index pin = pure false
    unlock_attempts (suc left) modem_index pin = do
      pin_lock ← sim_pin_lock_active env modem_index
      state ← get_modem_state env modem_index
      let unlocked = not pin_lock && not (is_state "locked" state)
      done ←
          if unlocked
          then pure true
          else (attempt_run env (env.mmcli_path ∷ codes "-m" ∷ decimal modem_index ∷ []) >>= λ cp.
              unlock_targets modem_index (pin_targets modem_index pin (sim_path_of cp)))
      elim done [
        | true ↦ pure true
        | false ↦
            modify (if left == 0 then (λ w. w) else sleep settings.sim_unlock_retry)
            >> unlock_attempts left modem_index pin
      ]

    abbrev with_pin : ℕ → Text → Act Bool
    with_pin modem_index pin =
        if is_empty pin
        then pure false
        else unlock_attempts (max 1 settings.sim_unlock_retries) modem_index pin

    unfoldable pub try_unlock_sim_pin : ℕ → Act Bool
    try_unlock_sim_pin modem_index =
        with_pin modem_index (get_modem_pin_code env.environ modem_index)

    abbrev after_reset : Bool → Act (Unit {0})
    after_reset false = pure tt
    after_reset true = modify (sleep settings.modem_reprobe_wait) >> try_rescan_modems env

    unfoldable pub recover_modem_state : ℕ → Act (Unit {0})
    unfolding is_state is_enable_state
    recover_modem_state modem_index = do
      state ← get_modem_state env modem_index
      if is_state "failed" state then (try_reset_modem env modem_index >>= after_reset) else do
        locked ← if is_state "locked" state then pure true else sim_pin_lock_active env modem_index
        if locked
            then (try_unlock_sim_pin modem_index >> pure tt)
            else if is_enable_state state
            then try_enable_modem env modem_index
            else pure tt

    -- One round with a working modem: is it ready?
    unfoldable pub check_or_recover : Bool → ℕ → Act Bool
    unfolding is_ready_state
    check_or_recover require_messaging modem_index = do
      state ← get_modem_state env modem_index
      ready ←
          if not (is_ready_state state)
          then pure false
          else if require_messaging
          then messaging_interface_ready env modem_index
          else pure true
      if ready
          then pure true
          else (recover_modem_state modem_index >> modify (sleep one_second) >> pure false)

    -- One round without: a rescan when one is due. The time of the last rescan is given back.
    unfoldable pub rescan_or_wait : ℕ → Act ℕ
    rescan_or_wait last_rescan = do
      now ← gets (λ w. w.clock)
      last ←
          if leb settings.modem_rescan_interval (now - last_rescan)
          then (try_rescan_modems env >> gets (λ w. w.clock))
          else pure last_rescan
      modify (sleep one_second)
      pure last

    abbrev round : Bool → ℕ → Option ℕ → Act (Bool × ℕ)
    round require_messaging last_rescan none =
        rescan_or_wait last_rescan >>= λ last. pure (false, last)
    round require_messaging last_rescan (some idx) =
        check_or_recover require_messaging idx >>= λ ready. pure (ready, last_rescan)

    -- the loop up to the deadline; each round sleeps for a second or returns
    unfoldable pub wait_rounds :
        (fuel : ℕ) → (configured deadline last_rescan : ℕ) → Bool → Act Bool
    wait_rounds zero configured deadline last_rescan require_messaging = pure false
    wait_rounds (suc fuel) configured deadline last_rescan require_messaging = do
      now ← gets (λ w. w.clock)
      elim (ltb now deadline) [
        | false ↦ pure false
        | true ↦ do
          active ← resolve_working_modem_index configured
          (ready, last) ← round require_messaging last_rescan active
          elim ready [
            | true ↦ pure true
            | false ↦ wait_rounds fuel configured deadline last require_messaging
          ]
      ]

    -- the state that the last log line tells
    abbrev report : ℕ → Bool → Act Bool
    report configured true = pure true
    report configured false = do
      active ← resolve_working_modem_index configured
      elim active [ none ↦ pure false | some idx ↦ get_modem_state env idx >> pure false ]

    unfoldable pub wait_modem_ready_for_sms : ℕ → (wait_sec : ℕ) → Bool → Act Bool
    wait_modem_ready_for_sms configured wait_sec require_messaging = do
      start ← gets (λ w. w.clock)
      ready ←
          wait_rounds (wait_sec / one_second + 1) configured (start + wait_sec) 0 require_messaging
      report configured ready

    unfoldable pub prepare_modem_for_outbound_sms : ℕ → Act (Unit {0})
    prepare_modem_for_outbound_sms modem_index =
        wait_modem_ready_for_sms modem_index settings.modem_enable_wait true >> pure tt

-- ===== src/ModemReady.antt =====
-- apps/sms/modem_ready.py: the state of a modem as mmcli prints it, and the steps that bring it to where
-- it takes SMS. Every process here is run under `except Exception`, so no step raises.
pub mod Recover
use hi_wave_tel.Prelude.{
  ℕ, zero, suc, ◌+◌, ◌*◌, ◌-◌, max, min, Text, codes, Bool, true, false, ◌&&◌, ◌||◌, not, Option,
  none, some, List, [], ◌∷◌, ◌++◌, if◌then◌else◌, leb, ◌==◌, is_empty, is_some, any, map, strip,
  lower, lower_char, contains, text_eq, text_in, or_else,
}
use Prim.Native.String.{String}
use hi_wave_tel.Runtime.Exec.{Result, ok, err, pure, raise, gets, modify, try_else, ◌>>=◌, ◌>>◌}
use hi_wave_tel.World.{Env, World, Act, sleep}
use hi_wave_tel.Scan.{
  exactly_behind, behind_prefix, skip_spaces, digit_run, search_from, find_all, decimal, splitlines,
  sorted_numbers,
}
use hi_wave_tel.Mmcli.{Completed, run, is_zero, output_of, modem_index_at}

-- [a-z_-] under re.IGNORECASE
abbrev state_char : ℕ → Bool
state_char c = (leb 65 c && leb c 90) || (leb 97 c && leb c 122) || c == 95 || c == 45

abbrev state_run : Text → Text
state_run [] = []
state_run (c ∷ cs) = if state_char c then c ∷ state_run cs else []

abbrev nonempty : Text → Option Text
nonempty [] = none
nonempty (c ∷ cs) = some (c ∷ cs)

-- the group of _STATE_LINE_RE
unfoldable pub state_at : Text → Option Text
unfolding behind_prefix skip_spaces
state_at s = elim (behind_prefix (codes "state:") s) [
  | none ↦ none
  | some r ↦ nonempty (state_run (skip_spaces r))
]

abbrev state_in : List Text → Text
state_in [] = codes "unknown"
state_in (line ∷ lines) =
    let rest = state_in lines in elim (search_from state_at line) [ some s ↦ lower s | none ↦ rest ]

-- f'{stdout or ""}\n{stderr or ""}'
unfoldable pub parse_modem_state : Completed → Text
unfolding state_at lower
parse_modem_state cp = state_in (splitlines (output_of cp))

abbrev ready_states : List Text
ready_states = map codes ("enabled" ∷ "registered" ∷ [])

abbrev enable_states : List Text
enable_states = map codes ("disabled" ∷ "unknown" ∷ [])

abbrev sim_prefix : Text
sim_prefix = codes "/org/freedesktop/ModemManager1/SIM/"

-- _SIM_PATH_RE
unfoldable pub sim_path_at : Text → Option Text
unfolding exactly_behind digit_run
sim_path_at s = elim (exactly_behind sim_prefix s) [
  | none ↦ none
  | some r ↦ elim (nonempty (digit_run r)) [ none ↦ none | some d ↦ some (sim_prefix ++ d) ]
]

unfoldable pub extract_sim_path_from_modem_overview : Text → Text
unfolding sim_path_at search_from
extract_sim_path_from_modem_overview haystack = or_else (search_from sim_path_at haystack) []

-- \w of ASCII, and \b between a text and what follows it
abbrev pub word_char : ℕ → Bool
word_char c = (leb 48 c && leb c 57) || (leb 65 c && leb c 90) || (leb 97 c && leb c 122) || c == 95

abbrev pub at_word_end : Text → Bool
at_word_end [] = true
at_word_end (c ∷ cs) = not (word_char c)

-- label:\s*sim-pin\b under re.IGNORECASE, at one position
unfoldable pub labelled_sim_pin : Text → Text → Bool
unfolding behind_prefix skip_spaces
labelled_sim_pin label s = elim (behind_prefix label s) [
  | none ↦ false
  | some r ↦ elim (behind_prefix (codes "sim-pin") (skip_spaces r)) [
    | none ↦ false
    | some rest ↦ at_word_end rest
  ]
]

-- _SIM_PIN_ACTIVE_RE.search
unfoldable pub sim_pin_active : Text → Bool
unfolding labelled_sim_pin
sim_pin_active [] = false
sim_pin_active (c ∷ cs) =
    labelled_sim_pin (codes "sim lock status:") (c ∷ cs)
    || labelled_sim_pin (codes "unlock required:") (c ∷ cs)
    || sim_pin_active cs

-- _MODEM_STATUS_SIM_PIN_LOCK_RE.search: `lock` is not preceded by a word character
unfoldable pub lock_behind : Bool → Text → Bool
unfolding labelled_sim_pin
lock_behind inside [] = false
lock_behind inside (c ∷ cs) =
    (not inside && labelled_sim_pin (codes "lock:") (c ∷ cs)) || lock_behind (word_char c) cs

unfoldable pub modem_overview_reports_sim_pin_lock : Text → Bool
unfolding lock_behind
modem_overview_reports_sim_pin_lock haystack = lock_behind false haystack

unfoldable pub pin_unlock_not_needed : Text → Bool
unfolding lower contains
pin_unlock_not_needed text =
    contains (codes "not sim-pin locked") (lower text)
    || contains (codes "device is not sim-pin locked") (lower text)

unfoldable pub mmcli_command_ok : Completed → Bool
unfolding lower contains
mmcli_command_ok cp =
    if is_zero cp.returncode then not (contains (codes "error:") (lower (output_of cp))) else false

unfoldable pub is_ready_state : Text → Bool
unfolding text_in
is_ready_state state = text_in state ready_states

unfoldable pub is_enable_state : Text → Bool
unfolding text_in
is_enable_state state = text_in state enable_states

unfoldable pub could_not_find_modem : Text → Bool
unfolding lower contains
could_not_find_modem haystack = contains (codes "couldn't find modem") (lower haystack)

unfoldable pub is_state : String → Text → Bool
unfolding text_eq
is_state name state = text_eq state (codes name)

-- What the program takes from os.environ here. Times are in microseconds.
pub record ReadySettings : Type 0 where
  pub sim_unlock_retries : ℕ
  pub sim_unlock_retry : ℕ
  pub modem_reprobe_wait : ℕ
  pub modem_enable_wait : ℕ
  pub modem_rescan_interval : ℕ

module _ (env : Env) where
  -- subprocess.run under `try … except Exception`
  unfoldable pub attempt_run : List Text → Act (Option Completed)
  attempt_run argv = try_else (run env argv) (λ x. pure none) (λ cp. pure (some cp))

  abbrev modem_argv : ℕ → List Text → List Text
  modem_argv modem_index rest = env.mmcli_path ∷ codes "-m" ∷ decimal modem_index ∷ rest

  abbrev state_of : Option Completed → Text
  state_of none = codes "missing"
  state_of (some cp) =
      if could_not_find_modem (output_of cp) then codes "missing" else parse_modem_state cp

  unfoldable pub get_modem_state : ℕ → Act Text
  unfolding parse_modem_state could_not_find_modem
  get_modem_state modem_index = do cp ← attempt_run (modem_argv modem_index []); pure (state_of cp)

  abbrev reports_pin : Option Completed → Bool
  reports_pin none = false
  reports_pin (some cp) = sim_pin_active (output_of cp)

  unfoldable pub sim_path_needs_pin_unlock : Text → Act Bool
  unfolding sim_pin_active
  sim_path_needs_pin_unlock sim_path = do
    cp ← attempt_run (env.mmcli_path ∷ codes "-i" ∷ sim_path ∷ [])
    pure (reports_pin cp)

  -- the overview of a modem that is not ready
  unfoldable pub overview_pin_lock : Text → Text → Act Bool
  unfolding could_not_find_modem extract_sim_path_from_modem_overview
      modem_overview_reports_sim_pin_lock
  overview_pin_lock state haystack =
      let sim_path = extract_sim_path_from_modem_overview haystack in
      if could_not_find_modem haystack then pure false else do
        sim_pin_lock ← if is_empty sim_path then pure false else sim_path_needs_pin_unlock sim_path
        pure (
            modem_overview_reports_sim_pin_lock haystack
            || sim_pin_lock
            || (is_state "locked" state && is_empty sim_path))

  abbrev by_overview : Text → Option Completed → Act Bool
  by_overview state none = pure (is_state "locked" state)
  by_overview state (some cp) = overview_pin_lock state (output_of cp)

  unfoldable pub sim_pin_lock_active : ℕ → Act Bool
  sim_pin_lock_active modem_index = do
    state ← get_modem_state modem_index
    if is_ready_state state
        then pure false
        else (attempt_run (modem_argv modem_index []) >>= by_overview state)

  abbrev succeeded : Option Completed → Bool
  succeeded none = false
  succeeded (some cp) = is_zero cp.returncode

  unfoldable pub try_enable_modem : ℕ → Act (Unit {0})
  try_enable_modem modem_index = do
    state ← get_modem_state modem_index
    locked ←
        if is_ready_state state || is_state "missing" state
        then pure true
        else if is_state "locked" state
        then pure true
        else sim_pin_lock_active modem_index
    if locked || not (is_enable_state state)
        then pure tt
        else (attempt_run (modem_argv modem_index (codes "--enable" ∷ [])) >> pure tt)

  unfoldable pub try_reset_modem : ℕ → Act Bool
  try_reset_modem modem_index = do
    state ← get_modem_state modem_index
    if is_state "failed" state
        then (attempt_run (modem_argv modem_index (codes "--reset" ∷ [])) >>= λ cp.
            pure (succeeded cp))
        else pure false

  unfoldable pub try_rescan_modems : Act (Unit {0})
  try_rescan_modems = attempt_run (env.mmcli_path ∷ codes "-S" ∷ []) >> pure tt

  abbrev listed : Option Completed → List ℕ
  listed none = []
  listed (some cp) =
      if is_zero cp.returncode then sorted_numbers (find_all modem_index_at cp.stdout) else []

  unfoldable pub ready_modem_indices : Act (List ℕ)
  unfolding sorted_numbers find_all modem_index_at
  ready_modem_indices = do cp ← attempt_run (env.mmcli_path ∷ codes "-L" ∷ []); pure (listed cp)

  unfoldable pub messaging_interface_ready : ℕ → Act Bool
  messaging_interface_ready modem_index = do
    cp ← attempt_run (modem_argv modem_index (codes "--messaging-list-sms" ∷ []))
    pure (succeeded cp)

-- ===== src/ModemEnv.antt =====
-- apps/sms/modem_env.py: the settings of each modem in the environment, MODEM_<n>_<suffix>. The
-- environment is the list of its variables, with distinct names that hold no line ends.
use hi_wave_tel.Prelude.{
  ℕ, Text, codes, Bool, ◌&&◌, ◌||◌, Option, none, some, List, [], ◌∷◌, ◌++◌, if◌then◌else◌, ◌==◌,
  is_empty, drop, strip, text_eq, or_else, length,
}
use Prim.Native.String.{String}
use hi_wave_tel.Scan.{digit_run, decimal, read_decimal, sorted_numbers, exactly_behind}
use hi_wave_tel.Phone.{normalize_phone_e164}

abbrev pub Environ : Type 0
Environ = List (Text × Text)

unfoldable pub modem_env_key : ℕ → String → Text
unfolding decimal
modem_env_key modem_index suffix =
    codes "MODEM_" ++ decimal modem_index ++ codes "_" ++ codes suffix

abbrev without_last : Text → Text
without_last [] = []
without_last (c ∷ []) = []
without_last (c ∷ d ∷ cs) = c ∷ without_last (d ∷ cs)

abbrev last_or : ℕ → Text → ℕ
last_or c [] = c
last_or c (d ∷ cs) = last_or d cs

abbrev is_quote : ℕ → Bool
is_quote c = c == 34 || c == 39

abbrev unquoted : Text → Text
unquoted [] = []
unquoted (c ∷ []) = c ∷ []
unquoted (c ∷ d ∷ cs) =
    if (c == last_or d cs) && is_quote c then without_last (d ∷ cs) else c ∷ d ∷ cs

unfoldable pub strip_env_value : Text → Text
unfolding strip
strip_env_value raw = strip (unquoted (strip raw))

-- os.environ.get(name)
unfoldable pub value_of : Text → Environ → Option Text
unfolding text_eq
value_of name [] = none
value_of name ((k, v) ∷ rest) = if text_eq k name then some v else value_of name rest

module _ (environ : Environ) where
  unfoldable pub get_modem_env : ℕ → String → Text
  unfolding modem_env_key strip_env_value value_of
  get_modem_env modem_index suffix =
      strip_env_value (or_else (value_of (modem_env_key modem_index suffix) environ) [])

  abbrev device_pin : ℕ → Text
  device_pin modem_index = get_modem_env modem_index "DEVICE_PIN_CODE"

  unfoldable pub get_modem_phone_number : ℕ → Text
  unfolding normalize_phone_e164
  get_modem_phone_number modem_index =
      normalize_phone_e164 (get_modem_env modem_index "DEVICE_PHONE_NUMBER")

-- the number in a name that ^MODEM_(\d+)_(.+)$ matches
abbrev numbered : Text → Text → Option ℕ
numbered digits [] = none
numbered digits (c ∷ []) = none
numbered digits (c ∷ d ∷ rest) = if c == 95 then some (read_decimal 0 digits) else none

abbrev index_behind : Text → Option ℕ
index_behind r =
    let digits = digit_run r in
    if is_empty digits then none else numbered digits (drop (length digits) r)

unfoldable pub index_of_name : Text → Option ℕ
unfolding exactly_behind digit_run read_decimal
index_of_name name = elim (exactly_behind (codes "MODEM_") name) [
  | none ↦ none
  | some r ↦ index_behind r
]

abbrev indices_of : Environ → List ℕ
indices_of [] = []
indices_of ((name, value) ∷ rest) = elim (index_of_name name) [
  | none ↦ indices_of rest
  | some n ↦ n ∷ indices_of rest
]

unfoldable pub list_modem_indices_from_env : Environ → List ℕ
unfolding index_of_name sorted_numbers
list_modem_indices_from_env environ = sorted_numbers (indices_of environ)

-- pins_by_index, in the order of the indices
abbrev pins_of : Environ → List ℕ → List Text
pins_of environ [] = []
pins_of environ (n ∷ ns) =
    let pin = device_pin environ n in
    if is_empty pin then pins_of environ ns else pin ∷ pins_of environ ns

abbrev only_one : List Text → Text
only_one (pin ∷ []) = pin
only_one _ = []

unfoldable pub get_modem_pin_code : Environ → ℕ → Text
unfolding get_modem_env list_modem_indices_from_env
get_modem_pin_code environ modem_index =
    let code = device_pin environ modem_index in
    if is_empty code then only_one (pins_of environ (list_modem_indices_from_env environ)) else code

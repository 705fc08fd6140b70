-- ===== src/ModemIdentity.antt =====
-- apps/sms/modem_identity.py: probe_modem_identity, what mmcli tells of a modem and its SIM.
use hi_wave_tel.Prelude.{
  ℕ, Text, codes, ◌||◌, Option, List, [], ◌∷◌, if◌then◌else◌, ◌==◌, is_empty, map, strip,
  starts_with, text_in, or_else,
}
use hi_wave_tel.Runtime.Exn.{Exn, mmcli}
use hi_wave_tel.Runtime.Exec.{pure, raise, try_else, ◌>>=◌}
use hi_wave_tel.World.{Env, Act}
use hi_wave_tel.Phone.{normalize_phone_e164}
use hi_wave_tel.ModemEnv.{get_modem_phone_number}
use hi_wave_tel.Mmcli.{run, is_zero, show_modem}
use hi_wave_tel.Mmcli.Snapshot.{Details, get, parse_keyvalue, merge_mmcli_sources}

pub record Identity : Type 0 where
  pub modem_index : ℕ
  pub phone_number : Text
  pub manufacturer : Text
  pub model : Text
  pub imei : Text
  pub firmware : Text
  pub sim_path : Text

abbrev phone_keys : List Text
phone_keys =
    map codes
      ("ownnumbers" ∷ "ownnumber" ∷ "msisdn" ∷ "phonenumber" ∷ "3gppmsisdn" ∷ "simmsisdn" ∷ [])

abbrev imei_keys : List Text
imei_keys = map codes (
    "genericequipmentidentifier" ∷ "equipmentidentifier" ∷ "equipmentid" ∷ "imei" ∷ "3gppimei" ∷ [])

-- the stripped value of the first key that has one besides '--' and 'unknown'
unfoldable pub first_value : Details → List Text → Text
unfolding get strip text_in
first_value details [] = []
first_value details (key ∷ keys) =
    let val = strip (or_else (get key details) []) in
    if is_empty val || text_in val (map codes ("--" ∷ "unknown" ∷ []))
    then first_value details keys
    else val

-- re.split(r'[,;]', s)
abbrev onto_first : ℕ → List Text → List Text
onto_first c [] = (c ∷ []) ∷ []
onto_first c (part ∷ parts) = (c ∷ part) ∷ parts

unfoldable pub split_parts : Text → List Text
split_parts [] = [] ∷ []
split_parts (c ∷ cs) =
    let parts = split_parts cs in if c == 44 || c == 59 then [] ∷ parts else onto_first c parts

abbrev first_number : List Text → Text
first_number [] = []
first_number (part ∷ parts) =
    let n = normalize_phone_e164 part in if is_empty n then first_number parts else n

unfoldable pub extract_own_number : Details → Text
unfolding first_value split_parts normalize_phone_e164
extract_own_number details =
    let raw = first_value details phone_keys in
    if is_empty raw then [] else first_number (split_parts raw)

abbrev sim_path_in : Details → List Text → Text
sim_path_in details [] = []
sim_path_in details (key ∷ keys) =
    let val = strip (or_else (get key details) []) in
    if starts_with (codes "/org/freedesktop/ModemManager1/SIM/") val
    then val
    else sim_path_in details keys

unfoldable pub extract_sim_path : Details → Text
unfolding get strip starts_with
extract_sim_path details =
    sim_path_in details (map codes ("modemsim" ∷ "sim" ∷ "simpath" ∷ "primarysimpath" ∷ []))

module _ (env : Env) where
  abbrev pub no_details : Exn → Act Details
  no_details (mmcli e) = pure []
  no_details x = raise x

  -- `mmcli -i`, if the modem has a SIM
  unfoldable pub show_sim : Text → Act Details
  unfolding parse_keyvalue
  show_sim sim_path =
      if is_empty sim_path
      then pure []
      else run env (env.mmcli_path ∷ codes "-i" ∷ sim_path ∷ codes "--output-keyvalue" ∷ [])
        >>= λ cp. pure (if is_zero cp.returncode then parse_keyvalue cp.stdout else [])

  -- the number, by mmcli or by the override, which is the environment's where none is given
  unfoldable pub phone_of : ℕ → Option Text → Details → Text
  unfolding extract_own_number get_modem_phone_number normalize_phone_e164
  phone_of modem_index phone_override merged =
      let phone = extract_own_number merged in
      let override = or_else phone_override (get_modem_phone_number env.environ modem_index) in
      if is_empty phone
      then if is_empty override then [] else normalize_phone_e164 override
      else phone

  abbrev identity_of : ℕ → Option Text → Text → Details → Identity
  identity_of modem_index phone_override sim_path merged = record {
    modem_index = modem_index;
    phone_number = phone_of modem_index phone_override merged;
    manufacturer = first_value merged (map codes ("genericmanufacturer" ∷ "manufacturer" ∷ []));
    model = first_value merged (map codes ("genericmodel" ∷ "model" ∷ "hardwaremodel" ∷ []));
    imei = first_value merged imei_keys;
    firmware =
        first_value merged
          (map codes ("genericrevision" ∷ "revision" ∷ "firmwareversion" ∷ "softwareversion" ∷ []));
    sim_path = sim_path;
  }

  unfoldable pub probe_modem_identity : ℕ → Option Text → Act Identity
  unfolding extract_sim_path merge_mmcli_sources phone_of first_value
  probe_modem_identity modem_index phone_override = do
    modem ← try_else (show_modem env modem_index) no_details pure
    let sim_path = extract_sim_path modem
    sim ← show_sim sim_path
    pure (identity_of modem_index phone_override sim_path (merge_mmcli_sources (modem ∷ sim ∷ [])))

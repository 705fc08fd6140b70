-- ===== src/Mmcli.antt =====
-- apps/sms/mmcli_client.py: MMCLIClient. A subprocess is the parameter `mmcli` of the environment.
pub mod Snapshot
pub mod Retries
pub mod Frame
use hi_wave_tel.Prelude.{
  ℕ, zero, suc, ◌+◌, ◌-◌, ◌*◌, ◌^◌, Text, codes, Bool, true, false, ◌&&◌, ◌||◌, not, Option, none,
  some, List, [], ◌∷◌, ◌++◌, if◌then◌else◌, leb, ltb, ◌==◌, any, lower, contains, is_empty, strip,
  max, map, text_eq, or_else, take,
}
use hi_wave_tel.Runtime.Exn.{ℤ, pos, negsuc, Exn, MmcliError, mmcli, raised}
use hi_wave_tel.Runtime.Exec.{Result, ok, err, pure, raise, modify, gets, ◌>>=◌, ◌>>◌}
use hi_wave_tel.World.{Env, World, Act, Run, completed, timeout_expired, not_run, sleep}
use Snapshot.{Details, parse_keyvalue, normalize_mmcli_json, merge_mmcli_sources}
use hi_wave_tel.Scan.{
  exactly_behind, behind_prefix, skip_spaces, digit_run, search_from, find_all, read_decimal,
  decimal, sorted_numbers, sorted_texts,
}

-- subprocess.CompletedProcess
pub record Completed : Type 0 where
  pub returncode : ℤ
  pub stdout : Text
  pub stderr : Text

abbrev pub is_zero : ℤ → Bool
is_zero (pos n) = n == 0
is_zero (negsuc n) = false

abbrev pub show_exit : ℤ → Text
show_exit (pos n) = decimal n
show_exit (negsuc n) = codes "-" ++ decimal (suc n)

-- (cp.stdout or "") + "\n" + (cp.stderr or "")
abbrev pub output_of : Completed → Text
output_of cp = cp.stdout ++ codes "\n" ++ cp.stderr

-- _ensure_ok raises this error
abbrev pub exit_error : Text → Completed → MmcliError
exit_error what cp = record {
  message = what ++ codes " failed (exit " ++ show_exit cp.returncode ++ codes ")";
  stdout = cp.stdout;
  stderr = cp.stderr;
  exit_code = some cp.returncode;
}

unfoldable pub ensure_ok : Completed → Text → Act (Unit {0})
ensure_ok cp what = if is_zero cp.returncode then pure tt else raise (mmcli (exit_error what cp))

abbrev pub transient_words : List Text
transient_words = map codes (
    "couldn't acquire" ∷ "timed out" ∷ "dbus" ∷ "not provided" ∷ "in progress" ∷ "not enabled yet"
    ∷ "not enabled" ∷ "enabling" ∷ "initializing" ∷ "unknown state" ∷ [])

-- exc.exit_code == -1
abbrev pub is_timeout_code : Option ℤ → Bool
is_timeout_code (some (negsuc n)) = n == 0
is_timeout_code _ = false

unfoldable pub default_should_retry : MmcliError → Bool
default_should_retry exc =
    is_timeout_code exc.exit_code
    || any (λ s. contains s (lower (exc.stderr ++ codes "\n" ++ exc.stdout))) transient_words

abbrev pub timeout_error : Env → MmcliError
timeout_error env = record {
  message = codes "mmcli timed out (" ++ env.mmcli_timeout ++ codes "s)";
  stdout = [];
  stderr = [];
  exit_code = some (negsuc 0);
}

-- value.replace("'", "\\'")
unfoldable pub quote_field : Text → Text
quote_field [] = []
quote_field (c ∷ cs) = if c == 39 then 92 ∷ 39 ∷ quote_field cs else c ∷ quote_field cs

abbrev sms_prefix : Text
sms_prefix = codes "/org/freedesktop/ModemManager1/SMS/"

abbrev nonempty : Text → Option Text
nonempty [] = none
nonempty (c ∷ cs) = some (c ∷ cs)

-- The prefix of a D-Bus path, as written, and its digits.
abbrev pub number_behind : Text → Text → Option Text
number_behind prefix s = elim (exactly_behind prefix s) [
  | none ↦ none
  | some r ↦ nonempty (digit_run r)
]

-- _SMS_PATH_RE
unfoldable pub sms_path_at : Text → Option Text
unfolding exactly_behind digit_run
sms_path_at s = elim (number_behind sms_prefix s) [ none ↦ none | some d ↦ some (sms_prefix ++ d) ]

-- _modem_path_re, its group as a number
unfoldable pub modem_index_at : Text → Option ℕ
unfolding exactly_behind digit_run read_decimal
modem_index_at s = elim (number_behind (codes "/org/freedesktop/ModemManager1/Modem/") s) [
  | none ↦ none
  | some d ↦ some (read_decimal 0 d)
]

-- The part of a text that a match took, given what is left of it.
abbrev taken : Text → Text → Text
taken [] rest = []
taken (c ∷ cs) rest = if text_eq (c ∷ cs) rest then [] else c ∷ taken cs rest

-- the group of _CREATED_PATH_RE, which ignores case: the path as it stands in the output
abbrev created_path : Text → Option Text
created_path s = elim (behind_prefix (codes "/org/freedesktop/modemmanager1/sms/") s) [
  | none ↦ none
  | some r ↦ elim (nonempty (digit_run r)) [ none ↦ none | some d ↦ some (taken s r ++ d) ]
]

unfoldable pub created_path_at : Text → Option Text
unfolding behind_prefix skip_spaces digit_run
created_path_at s = elim (behind_prefix (codes "successfully created new sms:") s) [
  | none ↦ none
  | some r ↦ created_path (skip_spaces r)
]

-- the MmcliError of an output in which the path is not found
abbrev pub or_fail : {A : Type 0} → Text → Completed → Option A → Act A
or_fail what cp (some a) = pure a
or_fail what cp none = raise (mmcli (record (exit_error [] cp) { message = what }))

abbrev pub comma_separated : List ℕ → Text
comma_separated [] = []
comma_separated (n ∷ []) = decimal n
comma_separated (n ∷ m ∷ ns) = decimal n ++ codes ", " ++ comma_separated (m ∷ ns)

abbrev pub index_missing : ℕ → List ℕ → MmcliError
index_missing modem_index present = record {
  message =
      codes "Modem index "
      ++ decimal modem_index
      ++ codes " not enumerated by ModemManager (present indices=["
      ++ comma_separated present
      ++ codes "]); adjust MODEM_MMCLI_INDEX";
  stdout = [];
  stderr = codes "modem index missing";
  exit_code = some (negsuc 1);
}

module _ (env : Env) where
  abbrev started : List Text → World → World
  started argv w = record w {
    mmcli_calls = suc w.mmcli_calls;
    argvs = argv ∷ w.argvs;
    clock = w.clock + env.mmcli_time w.mmcli_calls;
  }

  abbrev ended : Run → World → Result Completed × World
  ended (completed rc out e) w = (ok (record { returncode = rc; stdout = out; stderr = e }), w)
  ended timeout_expired w = (err (mmcli (timeout_error env)), w)
  ended (not_run m) w = (err (raised m), w)

  unfoldable pub run : List Text → Act Completed
  run argv w = ended (env.mmcli w.mmcli_calls argv) (started argv w)

  -- _retrying_run: the loop, with `left` rounds to go and the number of the attempt
  unfoldable pub retry_rounds :
      List Text → Text → (left attempt : ℕ) → Option MmcliError → Act Completed
  retry_rounds argv what zero attempt last = raise (mmcli (or_else last (timeout_error env)))
  retry_rounds argv what (suc left) attempt last = do
    cp ← run argv
    let e = exit_error what cp
    let again =
        modify (sleep (env.mmcli_backoff * 2 ^ attempt))
        >> retry_rounds argv what left (suc attempt) (some e)
    if is_zero cp.returncode
        then pure cp
        else if leb env.mmcli_retries (suc attempt) || not (default_should_retry e)
        then raise (mmcli e)
        else again

  unfoldable pub retrying_run : List Text → Text → Act Completed
  retrying_run argv what = retry_rounds argv what (max 1 env.mmcli_retries) 0 none

  unfoldable pub list_modem_indices : Act (List ℕ)
  list_modem_indices = do
    cp ← run (env.mmcli_path ∷ codes "-L" ∷ [])
    ensure_ok cp (codes "mmcli -L")
    pure (sorted_numbers (find_all modem_index_at (output_of cp)))

  unfoldable pub primary_modem_index : Act ℕ
  primary_modem_index = do
    cp ← run (env.mmcli_path ∷ codes "-L" ∷ [])
    ensure_ok cp (codes "mmcli -L")
    or_fail (codes "No modem in mmcli -L output") cp (search_from modem_index_at (output_of cp))

  unfoldable pub ensure_modem_index : ℕ → Act (Unit {0})
  ensure_modem_index modem_index = do
    present ← list_modem_indices
    if any (λ n. n == modem_index) present
        then pure tt
        else raise (mmcli (index_missing modem_index present))

  -- (cp.stderr or "") + "\n" + (cp.stdout or "")
  unfoldable pub modem_ping : ℕ → Act (Bool × Text)
  modem_ping modem_index = do
    cp ← run (env.mmcli_path ∷ codes "-m" ∷ decimal modem_index ∷ [])
    pure (is_zero cp.returncode, take 2000 (strip (cp.stderr ++ codes "\n" ++ cp.stdout)))

  unfoldable pub create_sms : ℕ → Text → Text → Act Text
  create_sms modem_index number text = do
    let arg =
        codes "text='" ++ quote_field text ++ codes "',number='" ++ quote_field number ++ codes "'"
    cp ←
        retrying_run
          (env.mmcli_path
            ∷ codes "-m"
            ∷ decimal modem_index
            ∷ codes "--messaging-create-sms"
            ∷ arg
            ∷ [])
          (codes "--messaging-create-sms")
    or_fail (codes "Could not parse SMS object path from mmcli output") cp
        (search_from created_path_at (output_of cp))

  unfoldable pub send_sms : Text → Act (Unit {0})
  send_sms sms_path = do
    cp ←
        retrying_run (env.mmcli_path ∷ codes "-s" ∷ sms_path ∷ codes "--send" ∷ []) (codes "--send")
    ensure_ok cp (codes "--send")

  unfoldable pub list_sms_paths : ℕ → Act (List Text)
  list_sms_paths modem_index = do
    cp ←
        retrying_run
          (env.mmcli_path ∷ codes "-m" ∷ decimal modem_index ∷ codes "--messaging-list-sms" ∷ [])
          (codes "--messaging-list-sms")
    pure (sorted_texts (find_all sms_path_at (output_of cp)))

  -- `if cp_js.stdout and cp_js.stdout.strip()`, with the ValueError of json.loads
  unfoldable pub json_details : Completed → Details
  json_details cp =
      if is_empty (strip cp.stdout) then [] else normalize_mmcli_json (env.json_loads cp.stdout)

  unfoldable pub show_plain_sms : Text → Details → Details → Act Details
  show_plain_sms sms_path kv_data js_data = do
    cp ← retrying_run (env.mmcli_path ∷ codes "-s" ∷ sms_path ∷ []) (codes "show-plain")
    ensure_ok cp (codes "mmcli -s show")
    pure (merge_mmcli_sources (kv_data ∷ js_data ∷ parse_keyvalue cp.stdout ∷ []))

  unfoldable pub show_sms : Text → Act Details
  show_sms sms_path = do
    cp_kv ←
        retrying_run (env.mmcli_path ∷ codes "-s" ∷ sms_path ∷ codes "--output-keyvalue" ∷ [])
          (codes "show-kv")
    cp_js ←
        retrying_run (env.mmcli_path ∷ codes "-s" ∷ sms_path ∷ codes "--output-json" ∷ [])
          (codes "show-json")
    let kv_data = parse_keyvalue cp_kv.stdout
    let js_data = json_details cp_js
    let merged_main = merge_mmcli_sources (kv_data ∷ js_data ∷ [])
    if is_empty merged_main then show_plain_sms sms_path kv_data js_data else pure merged_main

  unfoldable pub show_plain_modem : ℕ → Details → Details → Act Details
  show_plain_modem modem_index kv_data js_data = do
    cp ← run (env.mmcli_path ∷ codes "-m" ∷ decimal modem_index ∷ [])
    ensure_ok cp (codes "mmcli -m")
    pure (merge_mmcli_sources (kv_data ∷ js_data ∷ parse_keyvalue cp.stdout ∷ []))

  unfoldable pub show_modem_json : ℕ → Details → Act Details
  show_modem_json modem_index kv_data = do
    cp_js ← run (env.mmcli_path ∷ codes "-m" ∷ decimal modem_index ∷ codes "--output-json" ∷ [])
    let js_data = if is_zero cp_js.returncode then json_details cp_js else []
    let merged_main = merge_mmcli_sources (kv_data ∷ js_data ∷ [])
    if is_empty merged_main then show_plain_modem modem_index kv_data js_data else pure merged_main

  unfoldable pub show_modem : ℕ → Act Details
  show_modem modem_index = do
    cp_kv ← run (env.mmcli_path ∷ codes "-m" ∷ decimal modem_index ∷ codes "--output-keyvalue" ∷ [])
    if is_zero cp_kv.returncode
        then show_modem_json modem_index (parse_keyvalue cp_kv.stdout)
        else raise (
            mmcli (record (exit_error [] cp_kv) {
              message = codes "Failed to inspect modem (--output-keyvalue)";
            }))

-- ===== src/Inbound/Persist.antt =====
-- apps/sms/services.py: persist_inbound_sms. One snapshot of the modem becomes a row, or patches the
-- row of its path; with no attempts allowed, the loop's RuntimeError has the text of _with_sqlite_retry.
pub mod Patch
use hi_wave_tel.Prelude.{
  ℕ, zero, suc, Text, codes, Bool, true, false, ◌&&◌, ◌||◌, not, Option, none, some, List, [], ◌∷◌,
  ◌++◌, if◌then◌else◌, length, is_empty, is_some, find, filter, strip, lower, contains, text_eq,
  text_in, or_else,
}
use hi_wave_tel.Runtime.Exn.{Exn, path_unavailable}
use hi_wave_tel.Runtime.Exec.{Result, ok, err, pure, raise, try_else, ◌>>=◌, ◌>>◌}
use hi_wave_tel.Runtime.Retry.{with_sqlite_retry}
use hi_wave_tel.Models.{InboundSms, inbound_keyed, row, update_row}
use hi_wave_tel.World.{
  Env, World, Act, statement, query, sqlite_nap, increment, no_rows_affected, multipart_detected,
  inbound_whitelist_rejected, persist_success, empty_text_persisted, atomic,
}
use hi_wave_tel.Mmcli.Snapshot.{
  Details, get, extract_from_number, extract_text, extract_state, extract_smsc, extract_timestamp,
}
use hi_wave_tel.Dlq.{remove_by_path}
use hi_wave_tel.Inbound.{
  Field, inbound_field_should_update, normalize_mm_state, is_unavailable_mm_state,
  fetch_mmcli_snapshot_with_retries,
}
use hi_wave_tel.Inbound.Signal.{webhook_on_save, on_commit}

-- `defaults`, without the modem index
pub record Snapshot : Type 0 where
  pub from_number : Text
  pub text : Text
  pub mm_state : Text
  pub smsc : Text
  pub modem_timestamp_raw : Text

unfoldable pub defaults_of : Details → Snapshot
unfolding extract_from_number extract_text extract_state extract_smsc extract_timestamp
defaults_of raw = record {
  from_number = extract_from_number raw;
  text = extract_text raw;
  mm_state = extract_state raw;
  smsc = extract_smsc raw;
  modem_timestamp_raw = extract_timestamp raw;
}

-- What the caller gets: a row of the table, or an object that is not saved.
pub data Persisted : Type 0 where
  stored : InboundSms → Persisted
  rejected : InboundSms → Persisted

abbrev pub new_inbound : ℕ → ℕ → Text → ℕ → Snapshot → InboundSms
new_inbound pk created_at mm_path modem_index d = record {
  pk = pk;
  mm_path = mm_path;
  modem_index = modem_index;
  from_number = d.from_number;
  text = d.text;
  mm_state = d.mm_state;
  smsc = d.smsc;
  modem_timestamp_raw = d.modem_timestamp_raw;
  created_at = created_at;
}

-- InboundSms(…), which has no primary key before it is saved
abbrev dummy : Text → ℕ → Text → InboundSms
dummy mm_path modem_index from_num = record {
  pk = 0;
  mm_path = mm_path;
  modem_index = modem_index;
  from_number = from_num;
  text = codes "[REJECTED BY WHITELIST]";
  mm_state = codes "rejected";
  smsc = [];
  modem_timestamp_raw = [];
  created_at = 0;
}

-- One column of setattr and save: `value` is what the object or the row holds.
unfoldable pub patched : Field → (current desired value : Text) → Text
unfolding inbound_field_should_update
patched field current desired value =
    if inbound_field_should_update field current desired then desired else value

unfoldable pub patch_columns : InboundSms → Snapshot → InboundSms → InboundSms
unfolding patched
patch_columns obj d r = record r {
  from_number = patched Field.from_number obj.from_number d.from_number r.from_number;
  text = patched Field.text obj.text d.text r.text;
  mm_state = patched Field.mm_state obj.mm_state d.mm_state r.mm_state;
  smsc = patched Field.smsc obj.smsc d.smsc r.smsc;
  modem_timestamp_raw =
      patched Field.modem_timestamp_raw obj.modem_timestamp_raw d.modem_timestamp_raw
        r.modem_timestamp_raw;
}

-- the keys of `patched`
abbrev all_fields : List Field
all_fields =
    Field.from_number ∷ Field.text ∷ Field.mm_state ∷ Field.smsc ∷ Field.modem_timestamp_raw ∷ []

abbrev field_of : Field → InboundSms → Text
field_of Field.from_number r = r.from_number
field_of Field.text r = r.text
field_of Field.mm_state r = r.mm_state
field_of Field.smsc r = r.smsc
field_of Field.modem_timestamp_raw r = r.modem_timestamp_raw

abbrev desired_of : Field → Snapshot → Text
desired_of Field.from_number d = d.from_number
desired_of Field.text d = d.text
desired_of Field.mm_state d = d.mm_state
desired_of Field.smsc d = d.smsc
desired_of Field.modem_timestamp_raw d = d.modem_timestamp_raw

unfoldable pub patched_fields : InboundSms → Snapshot → List Field
unfolding inbound_field_should_update
patched_fields obj d =
    filter (λ f. inbound_field_should_update f (field_of f obj) (desired_of f d)) all_fields

-- `if patched:`
unfoldable pub needs_patch : InboundSms → Snapshot → Bool
unfolding inbound_field_should_update
needs_patch obj d =
    inbound_field_should_update Field.from_number obj.from_number d.from_number
    || inbound_field_should_update Field.text obj.text d.text
    || inbound_field_should_update Field.mm_state obj.mm_state d.mm_state
    || inbound_field_should_update Field.smsc obj.smsc d.smsc
    || inbound_field_should_update Field.modem_timestamp_raw obj.modem_timestamp_raw
        d.modem_timestamp_raw

unfoldable pub is_multipart : Details → Bool
unfolding get lower contains
is_multipart raw =
    let long_name = or_else (get (codes "smspropertiesclass") raw) [] in
    let short_name = or_else (get (codes "class") raw) [] in
    contains (codes "multipart") (lower (if is_empty long_name then short_name else long_name))

abbrev pub with_path : Text → InboundSms → Bool
with_path mm_path r = text_eq r.mm_path mm_path

module _ (env : Env) where
  abbrev count_if : Bool → Act (Unit {0}) → Act (Unit {0})
  count_if true a = a
  count_if false a = pure tt

  -- obj.save(update_fields=…), for the columns that the function writes, and the signal after it
  unfoldable pub save_inbound : List Field → (InboundSms → InboundSms) → InboundSms → Act InboundSms
  save_inbound fields columns obj = do
    saved ← statement env λ w.
        if is_some (row obj.pk w.inbound)
        then (ok (columns obj), record w { inbound = update_row obj.pk columns w.inbound })
        else (err no_rows_affected, w)
    wants ← webhook_on_save env false (some fields) saved
    on_commit env wants saved
    pure saved

  abbrev pub unavailable : InboundSms → InboundSms
  unavailable r = record r { mm_state = codes "unavailable" }

  -- the handler of SmsPathUnavailableError, for the row of the path
  unfoldable pub mark_unavailable : Exn → Option InboundSms → Act Persisted
  unfolding is_unavailable_mm_state normalize_mm_state
  mark_unavailable exc none = raise exc
  mark_unavailable exc (some existing) =
      if is_unavailable_mm_state (normalize_mm_state existing.mm_state)
      then pure (stored existing)
      else (save_inbound (Field.mm_state ∷ []) unavailable existing >>= λ obj. pure (stored obj))

  unfoldable pub path_gone : Text → Exn → Act Persisted
  path_gone mm_path (path_unavailable p) =
      query env (λ w. find (with_path mm_path) w.inbound) >>= mark_unavailable (path_unavailable p)
  path_gone mm_path exc = raise exc

  unfoldable pub insert_inbound : Text → ℕ → Snapshot → Act InboundSms
  insert_inbound mm_path modem_index d = statement env λ w.
      let obj = new_inbound w.next_pk w.clock mm_path modem_index d in
      (ok obj, record w { inbound = w.inbound ++ obj ∷ []; next_pk = suc w.next_pk })

  abbrev pub found_or_created :
      Text → ℕ → Snapshot → Option InboundSms → Act (InboundSms × Bool × Bool)
  found_or_created mm_path modem_index d (some obj) = pure (obj, false, false)
  found_or_created mm_path modem_index d none = do
    obj ← insert_inbound mm_path modem_index d
    wants ← webhook_on_save env true none obj
    pure (obj, true, wants)

  -- objects.get_or_create, with the signal of a new row: the row, whether it is new, and whether its
  -- webhook waits for the commit
  unfoldable pub get_or_create : Text → ℕ → Snapshot → Act (InboundSms × Bool × Bool)
  unfolding text_eq
  get_or_create mm_path modem_index d = do
    found ← query env (λ w. find (with_path mm_path) w.inbound)
    found_or_created mm_path modem_index d found

  abbrev pub committed : InboundSms × Bool × Bool → Act (InboundSms × Bool)
  committed (obj, created, wants) = on_commit env wants obj >> pure (obj, created)

  -- the transaction, and what waits for its commit
  unfoldable pub get_or_create_inbound : Text → ℕ → Snapshot → Act (InboundSms × Bool)
  get_or_create_inbound mm_path modem_index d =
      atomic env (get_or_create mm_path modem_index d) >>= committed

  unfoldable pub refresh : Snapshot → InboundSms × Bool → Act InboundSms
  unfolding patch_columns needs_patch
  refresh d (obj, true) = pure obj
  refresh d (obj, false) =
      if needs_patch obj d
      then save_inbound (patched_fields obj d) (patch_columns obj d) obj
      else pure obj

  unfoldable pub store_snapshot : Text → ℕ → Snapshot → Act Persisted
  store_snapshot mm_path modem_index d = do
    found ←
        with_sqlite_retry env.sqlite_retries (sqlite_nap env)
          (get_or_create_inbound mm_path modem_index d)
    obj ← refresh d found
    increment persist_success
    count_if (is_empty (strip obj.text)) (increment empty_text_persisted)
    if env.dlq_enabled then remove_by_path env mm_path else pure tt
    pure (stored obj)

  -- the snapshot's way through the whitelist
  unfoldable pub admit_snapshot : Text → ℕ → Details → Act Persisted
  unfolding defaults_of is_multipart text_in
  admit_snapshot mm_path modem_index raw = do
    let d = defaults_of raw
    count_if (is_multipart raw) (increment multipart_detected)
    if not (is_empty env.inbound_whitelist) && not (text_in d.from_number env.inbound_whitelist)
        then (increment inbound_whitelist_rejected
            >> pure (rejected (dummy mm_path modem_index d.from_number)))
        else store_snapshot mm_path modem_index d

  unfoldable pub persist_inbound_sms : Text → ℕ → Act Persisted
  persist_inbound_sms mm_path modem_index =
      try_else (fetch_mmcli_snapshot_with_retries env mm_path) (path_gone mm_path)
        (admit_snapshot mm_path modem_index)
